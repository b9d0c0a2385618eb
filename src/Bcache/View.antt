-- ===== src/Bcache/View.antt =====
-- The buffer cache implements the store that log.c uses (Log/Buffers.antt): for every block one
-- current content, on disk or in the one buffer of the block.
use cs.Prelude.{
  ℕ, ◌<◌, ◌≡◌, ◌≢◌, inl, inr, refl, sym, ◌∙◌, subst, ◌==◌, true, false, Bool-cases, arith, update,
  ==_iff,
}
use cs.Bcache.{Buf, Block, nbuf}
use cs.Bcache.Counted.{Keyed}
use cs.Log.Buffers.{Store}

-- The buffers and the disk hold what the store holds.
pub record Shows (buf : ℕ → Buf) (memdisk : ℕ → Block) (s : Store) : Type 0 where
  pub on_disk : memdisk ≡ s.disk
  pub cached : (i : ℕ) → i < nbuf → (buf i).valid ≡ true → (buf i).content ≡ s.mem (buf i).blockno
  pub marked : (i : ℕ) → i < nbuf → (buf i).valid ≡ true → (buf i).dirty ≡ s.dirty (buf i).blockno
  pub uncached :
      (b : ℕ)
      → ((i : ℕ) → i < nbuf → (buf i).valid ≡ true → (buf i).blockno ≢ b)
      → (s.mem b ≡ s.disk b) × (s.dirty b ≡ false)
  pub clean :
      (i : ℕ)
      → i < nbuf
      → (buf i).valid ≡ true
      → (buf i).dirty ≡ false
      → (buf i).locked ≡ false
      → (buf i).content ≡ s.disk (buf i).blockno

pub at_update :
    (buf : ℕ → Buf) (i : ℕ) (b : Buf) (P : Buf → Type 0) (j : ℕ)
    → (i ≡ j → P b)
    → (i ≢ j → P (buf j))
    → P (update buf i b j)
at_update buf i b P j here there = elim (Bool-cases (i == j)) [
  | inl e ↦ rw e (here ((==_iff i j).0 e))
  | inr e ↦ rw e (there (λ q. ground (arith, ==_iff i j)))
]

-- What one buffer shows of the store.
pub record BufShows (b : Buf) (s : Store) : Type 0 where
  pub cached : b.valid ≡ true → b.content ≡ s.mem b.blockno
  pub marked : b.valid ≡ true → b.dirty ≡ s.dirty b.blockno
  pub clean : b.valid ≡ true → b.dirty ≡ false → b.locked ≡ false → b.content ≡ s.disk b.blockno

-- The store is the same at the block `k`.
abbrev pub SameAt : Store → Store → ℕ → Type 0
SameAt s s' k = (s'.mem k ≡ s.mem k) × (s'.dirty k ≡ s.dirty k) × (s'.disk k ≡ s.disk k)

-- One buffer changes, and the store with it.
pub update-Shows :
    (buf : ℕ → Buf) (memdisk m : ℕ → Block) (s s' : Store) (i : ℕ) (b : Buf)
    → m ≡ s'.disk
    → BufShows b s'
    → ((j : ℕ) → j < nbuf → i ≢ j → (buf j).valid ≡ true → SameAt s s' (buf j).blockno)
    → ((k : ℕ)
        → ((j : ℕ) → j < nbuf → (update buf i b j).valid ≡ true → (update buf i b j).blockno ≢ k)
        → (s'.mem k ≡ s'.disk k) × (s'.dirty k ≡ false))
    → Shows buf memdisk s
    → Shows (update buf i b) m s'
update-Shows buf memdisk m s s' i b disk here others absent v = record {
  on_disk = disk;
  cached = λ j h.
      at_update buf i b (λ c. c.valid ≡ true → c.content ≡ s'.mem c.blockno) j (λ e. here.cached)
        (λ ne valid. v.cached j h valid ∙ sym (others j h ne valid).0);
  marked = λ j h.
      at_update buf i b (λ c. c.valid ≡ true → c.dirty ≡ s'.dirty c.blockno) j (λ e. here.marked)
        (λ ne valid. v.marked j h valid ∙ sym (others j h ne valid).1);
  uncached = absent;
  clean = λ j h.
      at_update buf i b
        (λ c. c.valid ≡ true → c.dirty ≡ false → c.locked ≡ false → c.content ≡ s'.disk c.blockno) j
        (λ e. here.clean)
        (λ ne valid kept free. v.clean j h valid kept free ∙ sym (others j h ne valid).2);
}

-- A buffer that was valid for a block, or is one of the others, still is.
still :
    (buf : ℕ → Buf) (i : ℕ) (b : Buf) (k : ℕ)
    → b.blockno ≡ (buf i).blockno
    → ((buf i).valid ≡ true → b.valid ≡ true)
    → ((j : ℕ) → j < nbuf → (update buf i b j).valid ≡ true → (update buf i b j).blockno ≢ k)
    → (j : ℕ) → j < nbuf
    → (buf j).valid ≡ true
    → (buf j).blockno ≢ k
still buf i b k eb ev absent j h =
    at_update buf i b
      (λ c. (c.valid ≡ true → c.blockno ≢ k) → (buf j).valid ≡ true → (buf j).blockno ≢ k) j
      (λ e none_b valid q.
        none_b (ev (subst (λ x. (buf x).valid ≡ true) (sym e) valid))
          (eb ∙ subst (λ x. (buf x).blockno ≡ k) (sym e) q))
      (λ ne none_j valid. none_j valid) (absent j h)

-- A change that the store does not see.
pub unseen :
    (buf : ℕ → Buf) (memdisk : ℕ → Block) (s : Store) (i : ℕ) (b : Buf)
    → BufShows b s
    → b.blockno ≡ (buf i).blockno
    → ((buf i).valid ≡ true → b.valid ≡ true)
    → Shows buf memdisk s
    → Shows (update buf i b) memdisk s
unseen buf memdisk s i b here eb ev v =
    update-Shows buf memdisk memdisk s s i b v.on_disk here (λ j h ne valid. (refl, refl, refl))
      (λ k absent. v.uncached k (still buf i b k eb ev absent)) v

-- A change of the block of a valid buffer, in the buffer and in the store.
pub seen :
    (buf : ℕ → Buf) (memdisk m : ℕ → Block) (s s' : Store) (i : ℕ) (b : Buf)
    → i < nbuf
    → Keyed buf
    → (buf i).valid ≡ true
    → m ≡ s'.disk
    → BufShows b s'
    → b.blockno ≡ (buf i).blockno
    → b.valid ≡ true
    → ((k : ℕ) → (buf i).blockno ≢ k → SameAt s s' k)
    → Shows buf memdisk s
    → Shows (update buf i b) m s'
seen buf memdisk m s s' i b h keyed valid disk here eb ev same v =
    update-Shows buf memdisk m s s' i b disk here
      (λ j hj ne valid_j. same (buf j).blockno (λ e. ne (one_buffer j hj valid_j e)))
      (λ k absent.
        let same_k = same k (still buf i b k eb (λ q. ev) absent i h valid) in
        let old = v.uncached k (still buf i b k eb (λ q. ev) absent) in
        (same_k.0 ∙ old.0 ∙ sym same_k.2, same_k.1 ∙ old.1))
      v
  where
    one_buffer :
        (j : ℕ) → j < nbuf → (buf j).valid ≡ true → (buf i).blockno ≡ (buf j).blockno → i ≡ j
    one_buffer j hj valid_j e =
        let d : (buf i).dev ≡ 1 = keyed.valid_disk i valid in
        let d' : (buf j).dev ≡ 1 = keyed.valid_disk j valid_j in
        keyed.unique i j h hj (λ z. omega arith) (d ∙ sym d') e
