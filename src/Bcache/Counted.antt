-- ===== src/Bcache/Counted.antt =====
-- Who uses which buffer, and which block it belongs to: what a change of one buffer keeps of both.
use cs.Prelude.{
  ℕ, ◌+◌, ◌≤◌, ◌<◌, ◌≡◌, ◌≢◌, inl, inr, sym, ◌∙◌, subst, fun_ext, ◌==◌, if◌then◌else◌, true, false,
  Bool-cases, arith, u32_mod, update, ==_iff,
}
use native.Mathlib.Decide.{dec_lt}
use cs.Bcache.{Bcache, Buf, nbuf, recycled}
use cs.Bcache.Order.{Uncached}

-- Each buffer's reference count is the number of the processes that wait for it, hold it or are
-- about to drop their reference; a buffer of the disk belongs to one block, and no two buffers
-- belong to the same block.
pub record Counted (buf : ℕ → Buf) (waiting leaving : ℕ → ℕ) : Type 0 where
  pub counts : (i : ℕ) → (buf i).refcnt ≡ waiting i + leaving i + (if (buf i).locked then 1 else 0)
  pub bounded : (i : ℕ) → (buf i).refcnt < u32_mod
  pub outside : (i : ℕ) → nbuf ≤ i → (waiting i ≡ 0) × (leaving i ≡ 0) × ((buf i).locked ≡ false)

pub record Keyed (buf : ℕ → Buf) : Type 0 where
  pub unique :
      (i j : ℕ)
      → i < nbuf
      → j < nbuf
      → (buf i).dev ≢ 0
      → (buf i).dev ≡ (buf j).dev
      → (buf i).blockno ≡ (buf j).blockno
      → i ≡ j
  pub valid_disk : (i : ℕ) → (buf i).valid ≡ true → (buf i).dev ≡ 1
  pub dirty_valid : (i : ℕ) → (buf i).dirty ≡ true → (buf i).valid ≡ true

-- A change of one buffer that leaves its key, and makes it valid only on disk 1.
pub same_key-Keyed :
    (buf : ℕ → Buf) (i : ℕ) (b : Buf)
    → b.dev ≡ (buf i).dev
    → b.blockno ≡ (buf i).blockno
    → (b.valid ≡ true → b.dev ≡ 1)
    → (b.dirty ≡ true → b.valid ≡ true)
    → Keyed buf
    → Keyed (update buf i b)
same_key-Keyed buf i b ed eb v d k = record {
  unique = λ j l hj hl ne e e'.
      k.unique j l hj hl (λ z. ne (dev_of j ∙ z)) (sym (dev_of j) ∙ e ∙ dev_of l)
        (sym (blockno_of j) ∙ e' ∙ blockno_of l);
  valid_disk = λ j. change (λ c. c.valid ≡ true → c.dev ≡ 1) j v (k.valid_disk j);
  dirty_valid = λ j. change (λ c. c.dirty ≡ true → c.valid ≡ true) j d (k.dirty_valid j);
}
  where
    change : (P : Buf → Type 0) (j : ℕ) → P b → P (buf j) → P (update buf i b j)
    change P j p q = elim (Bool-cases (i == j)) [ inl here ↦ rw here p | inr there ↦ rw there q ]

    dev_of : (j : ℕ) → (update buf i b j).dev ≡ (buf j).dev
    dev_of j = ground (arith, ==_iff i j)

    blockno_of : (j : ℕ) → (update buf i b j).blockno ≡ (buf j).blockno
    blockno_of j = ground (arith, ==_iff i j)

-- A buffer given to a block that no buffer belongs to.
pub recycled-Keyed :
    (dev blockno i : ℕ) (c : Bcache)
    → Uncached dev blockno c
    → Keyed c.buf
    → Keyed (update c.buf i (recycled dev blockno (c.buf i)))
recycled-Keyed dev blockno i c u k = record {
  unique = λ j l hj hl ne e e'. elim (Bool-cases (i == j)) [
    | inl here ↦ elim (Bool-cases (i == l)) [
      | inl here' ↦ ground arith
      | inr there' ↦ absurd (clash l hl (ground arith) (ground arith))
    ]
    | inr there ↦ elim (Bool-cases (i == l)) [
      | inl here' ↦ absurd (clash j hj (ground arith) (ground arith))
      | inr there' ↦ k.unique j l hj hl (λ z. ne (ground arith)) (ground arith) (ground arith)
    ]
  ];
  valid_disk = λ j v. elim (Bool-cases (i == j)) [
    | inl here ↦ absurd (ground arith)
    | inr there ↦ rw there (k.valid_disk j (ground arith))
  ];
  dirty_valid = λ j v. elim (Bool-cases (i == j)) [
    | inl here ↦ absurd (ground arith)
    | inr there ↦ rw there (k.dirty_valid j (ground arith))
  ];
}
  where
    clash : (l : ℕ) → l < nbuf → (c.buf l).dev ≡ dev → (c.buf l).blockno ≡ blockno → ⊥
    clash l h e e' = let none_for = u l h in ground arith

-- A change of one buffer and of the numbers of processes that wait for it and leave it.
pub change-Counted :
    (buf : ℕ → Buf) (waiting leaving : ℕ → ℕ) (i : ℕ) (b : Buf) (w l : ℕ)
    → i < nbuf
    → b.refcnt ≡ w + l + (if b.locked then 1 else 0)
    → b.refcnt < u32_mod
    → Counted buf waiting leaving
    → Counted (update buf i b) (update waiting i w) (update leaving i l)
change-Counted buf waiting leaving i b w l h e few k = record {
  counts =
      λ j. elim (Bool-cases (i == j)) [ inl here ↦ rw here e | inr there ↦ rw there (k.counts j) ];
  bounded = λ j. elim (Bool-cases (i == j)) [
    | inl here ↦ rw here few
    | inr there ↦ rw there (k.bounded j)
  ];
  outside = λ j out. let other : (i == j) ≡ false = ground arith in rw other (k.outside j out);
}

update_same : (f : ℕ → ℕ) (i : ℕ) → update f i (f i) ≡ f
update_same f i = fun_ext (λ j. ground arith)

-- The same where nobody leaves, nobody starts or ends to wait, or neither.
pub waiting-Counted :
    (buf : ℕ → Buf) (waiting leaving : ℕ → ℕ) (i : ℕ) (b : Buf) (w : ℕ)
    → i < nbuf
    → b.refcnt ≡ w + leaving i + (if b.locked then 1 else 0)
    → b.refcnt < u32_mod
    → Counted buf waiting leaving
    → Counted (update buf i b) (update waiting i w) leaving
waiting-Counted buf waiting leaving i b w h e few k =
    subst (Counted (update buf i b) (update waiting i w)) (update_same leaving i)
      (change-Counted buf waiting leaving i b w (leaving i) h e few k)

pub leaving-Counted :
    (buf : ℕ → Buf) (waiting leaving : ℕ → ℕ) (i : ℕ) (b : Buf) (l : ℕ)
    → i < nbuf
    → b.refcnt ≡ waiting i + l + (if b.locked then 1 else 0)
    → b.refcnt < u32_mod
    → Counted buf waiting leaving
    → Counted (update buf i b) waiting (update leaving i l)
leaving-Counted buf waiting leaving i b l h e few k =
    subst (λ w. Counted (update buf i b) w (update leaving i l)) (update_same waiting i)
      (change-Counted buf waiting leaving i b (waiting i) l h e few k)

pub same-Counted :
    (buf : ℕ → Buf) (waiting leaving : ℕ → ℕ) (i : ℕ) (b : Buf)
    → i < nbuf
    → b.refcnt ≡ (buf i).refcnt
    → b.locked ≡ (buf i).locked
    → Counted buf waiting leaving
    → Counted (update buf i b) waiting leaving
same-Counted buf waiting leaving i b h e el k =
    subst (λ w. Counted (update buf i b) w leaving) (update_same waiting i)
      (waiting-Counted buf waiting leaving i b (waiting i) h (ground (arith, k.counts i))
        (ground (arith, k.bounded i)) k)

-- A buffer that somebody waits for, holds or leaves is one of the cache's.
pub held_inside :
    (buf : ℕ → Buf) (waiting leaving : ℕ → ℕ) (i : ℕ)
    → Counted buf waiting leaving
    → (buf i).locked ≡ true
    → i < nbuf
held_inside buf waiting leaving i k held = elim (dec_lt i nbuf) [
  | yes h ↦ h
  | no out ↦ let (_, _, z) = k.outside i (omega arith) in cc
]

pub used_inside :
    (buf : ℕ → Buf) (waiting leaving : ℕ → ℕ) (i : ℕ)
    → Counted buf waiting leaving
    → 0 < waiting i + leaving i
    → i < nbuf
used_inside buf waiting leaving i k held = elim (dec_lt i nbuf) [
  | yes h ↦ h
  | no out ↦ let (z, z', _) = k.outside i (omega arith) in absurd (omega arith)
]
