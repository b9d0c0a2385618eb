-- ===== src/Fs/Files/Truncate/Dropping.antt =====
-- The blocks that have been given up so far.
use cs.Prelude.{
  ℕ, suc, ◌≡◌, ◌≢◌, ◌||◌, inl, inr, refl, sym, ◌∙◌, ap, subst, ◌==◌, if◌then◌else◌, Bool, true,
  false, Bool-cases, some, arith, ==_iff, ==_ne, ==_self,
}
use cs.Fs.{Disk, Superblock}
use cs.Fs.Blocks.{bfree}
use cs.Fs.Blocks.Bitmap.{IsBytes, in_use}
use cs.Fs.Blocks.Free.{bfree-Freed}
use cs.Fs.Files.{Inode}
use cs.Fs.Files.Slots.{slot, IsOutside, IsOwned, IsFile}

-- The blocks of the file `ip` whose places are `gone` are free, and nothing else has changed but the
-- bitmap.
pub record Dropped (sb : Superblock) (ip : Inode) (d : Disk) (gone : ℕ → Bool) (d' : Disk)
    : Type 0 where
  pub bytes : (b : ℕ) → IsBytes (d' b)
  pub kept : (b : ℕ) → IsOutside sb b → d' b ≡ d b
  pub freed : (n : ℕ) → gone n ≡ true → slot ip d n ≢ 0 → in_use sb d' (slot ip d n) ≡ false
  pub others :
      (b : ℕ)
      → ((n : ℕ) → gone n ≡ true → slot ip d n ≢ 0 → slot ip d n ≢ b)
      → in_use sb d' b ≡ in_use sb d b

pub Dropped-start :
    (sb : Superblock) (ip : Inode) (d : Disk)
    → ((b : ℕ) → IsBytes (d b))
    → Dropped sb ip d (λ n. false) d
Dropped-start sb ip d bytes = record {
  bytes = bytes;
  kept = λ b out. refl;
  freed = λ n g ne. absurd (ground arith);
  others = λ b h. refl;
}

-- Only the places that have a block count.
pub Dropped-same :
    (sb : Superblock) (ip : Inode) (d : Disk) (gone gone' : ℕ → Bool) (d' : Disk)
    → ((n : ℕ) → slot ip d n ≢ 0 → gone n ≡ gone' n)
    → Dropped sb ip d gone d'
    → Dropped sb ip d gone' d'
Dropped-same sb ip d gone gone' d' same r = record {
  bytes = r.bytes;
  kept = r.kept;
  freed = λ n g ne. r.freed n (same n ne ∙ g) ne;
  others = λ b h. r.others b (λ n g ne. h n (sym (same n ne) ∙ g) ne);
}

-- One more.
pub Dropped-more :
    (sb : Superblock) (ip : Inode) (d : Disk) (gone : ℕ → Bool) (d' : Disk) (i a : ℕ)
    → IsFile sb ip d
    → Dropped sb ip d gone d'
    → gone i ≡ false
    → slot ip d i ≡ suc a
    → (d'' : Disk) × (bfree (suc a) sb d' ≡ some d'') × Dropped sb ip d (λ n. i == n || gone n) d''
Dropped-more sb ip d gone d' i a f r still here = elim (bfree-Freed (suc a) sb d' r.bytes) [
  | inr (e, free) ↦ absurd (clash (sym used_before ∙ free))
  | inl (d'', e, x) ↦ (
    d'',
    e,
    record {
      bytes = x.bytes;
      kept = λ b out. x.kept b (out (suc a) owned.inside) ∙ r.kept b out;
      freed = λ n g ne. x.unmarked (slot ip d n) ∙ now_free d' n g ne;
      others = λ b h.
          x.unmarked b
          ∙ if_other (suc a) b d' (λ q. h i (rw (==_self i) refl) some_slot (here ∙ q))
          ∙ r.others b (λ n g ne. h n (rw g (either (i == n))) ne);
    },
  )
]
  where
    some_slot : slot ip d i ≢ 0
    some_slot z = let q : suc a ≡ 0 = sym here ∙ z in omega arith

    owned : IsOwned sb d (suc a)
    owned = subst (IsOwned sb d) here (f.owned i some_slot)

    clash : true ≡ false → ⊥
    clash e = cc e

    used_before : in_use sb d' (suc a) ≡ true
    used_before =
        r.others (suc a)
          (λ n g ne q. clash (sym (ap gone (sym (f.distinct n i ne (q ∙ sym here))) ∙ g) ∙ still))
        ∙ owned.taken

    either : (q : Bool) → (q || true) ≡ true
    either true = refl
    either false = refl

    if_other :
        (s b : ℕ) (e : Disk) → s ≢ b → (if s == b then false else in_use sb e b) ≡ in_use sb e b
    if_other s b e ne = rw (==_ne s b ne) refl

    now_free :
        (e : Disk) (n : ℕ)
        → (i == n || gone n) ≡ true
        → slot ip d n ≢ 0
        → (if suc a == slot ip d n then false else in_use sb d' (slot ip d n)) ≡ false
    now_free e n g ne = elim (Bool-cases (i == n)) [
      | inl this ↦
          let q : slot ip d n ≡ suc a = ap (slot ip d) (sym ((==_iff i n).0 this)) ∙ here in
          ap (λ s. if suc a == s then false else in_use sb d' s) q ∙ rw (==_self (suc a)) refl
      | inr other ↦
          let before : gone n ≡ true = rw other at g in
          at_most (suc a == slot ip d n) (r.freed n before ne)
    ]
      where
        at_most : (q : Bool) {v : Bool} → v ≡ false → (if q then false else v) ≡ false
        at_most true h = refl
        at_most false h = h
