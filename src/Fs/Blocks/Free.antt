-- ===== src/Fs/Blocks/Free.antt =====
-- What `balloc` and `bfree` do to the disk.
use cs.Prelude.{
  ℕ, zero, suc, ◌+◌, ◌*◌, ◌/◌, ◌%◌, ◌≤◌, ◌<◌, ◌≡◌, ◌≢◌, ◌⊎◌, inl, inr, refl, sym, ◌∙◌, ap, subst,
  ◌==◌, ltb, if◌then◌else◌, true, false, Bool-cases, Option-cases, some, none, arith, update,
  update_self, update_ne, ==_iff, ==_self, ltb→lt, lt→ltb,
}
use mathlib.Core.Option.{some-injective, none-ne-some}
use cs.Fs.{Block, Disk, Superblock}
use cs.Fs.Blocks.{bpb, bblock, is_marked, mark, unmark, bzero, find_bit, balloc_from, balloc, bfree}
use cs.Fs.Blocks.Bitmap.{
  IsBytes, in_use, is_marked-mark, is_marked-unmark, mark-IsBytes, unmark-IsBytes, in_use-update,
}

-- The bitmap's own blocks are marked as in use, as mkfs leaves them.
abbrev pub BitmapUsed : Superblock → Disk → Type 0
BitmapUsed sb d = (b : ℕ) → b < sb.size → in_use sb d (bblock b sb) ≡ true

find_bit-some :
    (n bi b size : ℕ) (x : Block) (k : ℕ)
    → find_bit n bi b size x ≡ some k
    → (k < bi + n) × (b + k < size) × (is_marked x k ≡ false)
unfolding find_bit
find_bit-some zero bi b size x k h = cc
find_bit-some (suc n) bi b size x k h = elim (Bool-cases (ltb (b + bi) size)) [
  | inr out ↦ absurd (ground arith)
  | inl inside ↦ elim (Bool-cases (is_marked x bi)) [
    | inl used ↦
        let r = find_bit-some n (bi + 1) b size x k (ground arith) in (omega arith, r.1, r.2)
    | inr free ↦
        let e : bi ≡ k = ground arith in
        (omega arith, ground arith, subst (λ q. is_marked x q ≡ false) e free)
  ]
]

find_bit-none :
    (n bi b size : ℕ) (x : Block) (k : ℕ)
    → find_bit n bi b size x ≡ none
    → bi ≤ k
    → k < bi + n
    → b + k < size
    → is_marked x k ≡ true
unfolding find_bit
find_bit-none zero bi b size x k h lo hi out = absurd (omega arith)
find_bit-none (suc n) bi b size x k h lo hi inside =
    let here : ltb (b + bi) size ≡ true = lt→ltb _ _ (omega arith) in
    elim (Bool-cases (is_marked x bi)) [
      | inr free ↦ absurd (ground arith)
      | inl used ↦ elim (Bool-cases (bi == k)) [
        | inl this ↦ subst (λ q. is_marked x q ≡ true) ((==_iff bi k).0 this) used
        | inr later ↦
            find_bit-none n (bi + 1) b size x k (ground arith) (ground arith) (omega arith) inside
      ]
    ]

-- The disk after the allocation of the block `a`.
abbrev pub taken : ℕ → Superblock → Disk → Disk
taken a sb d = bzero a (update d (bblock a sb) (mark (d (bblock a sb)) (a % bpb)))

-- The disk before the allocated block is named.
abbrev taken_at : ℕ → ℕ → Superblock → Disk → Disk
taken_at b bi sb d = bzero (b + bi) (update d (bblock b sb) (mark (d (bblock b sb)) bi))

same_block :
    (b bi : ℕ) → b % bpb ≡ 0 → bi < bpb → ((b + bi) / bpb ≡ b / bpb) × ((b + bi) % bpb ≡ bi)
same_block b bi h k = (omega arith, omega arith)

not_lt : (a b : ℕ) → ltb a b ≡ false → b ≤ a
not_lt a b h = ground arith

balloc_from-some :
    (n b : ℕ) (sb : Superblock) (d d' : Disk) (a : ℕ)
    → b % bpb ≡ 0
    → balloc_from n b sb d ≡ some (d', a)
    → (a < sb.size) × (in_use sb d a ≡ false) × (d' ≡ taken a sb d)
unfolding balloc_from
balloc_from-some zero b sb d d' a start h = cc
balloc_from-some (suc n) b sb d d' a start h = elim (Bool-cases (ltb b sb.size)) [
  | inr out ↦ absurd (ground arith)
  | inl inside ↦ elim (Option-cases (find_bit bpb 0 b sb.size (d (bblock b sb)))) [
    | inl full ↦
        balloc_from-some n (b + bpb) sb d d' a (omega arith) (rw (inside, full, balloc_from) at h)
    | inr (bi, found) ↦
        let r = find_bit-some bpb 0 b sb.size (d (bblock b sb)) bi found in
        let place = same_block b bi start (omega (arith, r.0)) in
        let result : some (taken_at b bi sb d, b + bi) ≡ some (d', a) =
          rw (inside, found, balloc_from) at h in
        subst
          (λ (q : Disk × ℕ). (q.1 < sb.size) × (in_use sb d q.1 ≡ false) × (q.0 ≡ taken q.1 sb d))
          (some-injective _ _ result) (r.1, rw (place.0, place.1) r.2, rw (place.0, place.1) refl)
  ]
]

balloc_from-none :
    (n b : ℕ) (sb : Superblock) (d : Disk) (a : ℕ)
    → b % bpb ≡ 0
    → sb.size < b + n * bpb
    → balloc_from n b sb d ≡ none
    → b ≤ a
    → a < sb.size
    → in_use sb d a ≡ true
unfolding balloc_from
balloc_from-none zero b sb d a start fuel h lo hi = absurd (omega arith)
balloc_from-none (suc n) b sb d a start fuel h lo hi =
    let inside : ltb b sb.size ≡ true = lt→ltb _ _ (omega arith) in
    elim (Option-cases (find_bit bpb 0 b sb.size (d (bblock b sb)))) [
      | inr (bi, found) ↦ absurd (none-ne-some _ (sym (rw (inside, found, balloc_from) at h)))
      | inl full ↦ elim (Bool-cases (ltb a (b + bpb))) [
        | inl here ↦
            let place : a / bpb ≡ b / bpb = omega (arith, ltb→lt a (b + bpb) here) in
            rw place (
              find_bit-none bpb 0 b sb.size (d (bblock b sb)) (a % bpb) full (omega arith)
                (omega arith) (omega (arith, ltb→lt a (b + bpb) here)))
        | inr later ↦
            balloc_from-none n (b + bpb) sb d a (omega arith) (omega arith)
              (rw (inside, full, balloc_from) at h) (omega (arith, not_lt a (b + bpb) later)) hi
      ]
    ]

-- The allocation of the block `a`: it was free, and is now in use and zeroed; no other block is
-- freed or taken, and outside the bitmap no other block changes.
pub record Allocated (sb : Superblock) (d d' : Disk) (a : ℕ) : Type 0 where
  pub inside : a < sb.size
  pub was_free : in_use sb d a ≡ false
  pub marked : (b : ℕ) → b < sb.size → in_use sb d' b ≡ (if a == b then true else in_use sb d b)
  pub zeroed : (i : ℕ) → d' a i ≡ 0
  pub kept : (b : ℕ) → a ≢ b → bblock a sb ≢ b → d' b ≡ d b
  pub bytes : (b : ℕ) → IsBytes (d' b)

taken-Allocated :
    (sb : Superblock) (d : Disk) (a : ℕ)
    → ((b : ℕ) → IsBytes (d b))
    → BitmapUsed sb d
    → a < sb.size
    → in_use sb d a ≡ false
    → Allocated sb d (taken a sb d) a
taken-Allocated sb d a bytes used h free = record {
  inside = h;
  was_free = free;
  marked = λ b hb.
      ap (λ x. is_marked x (b % bpb))
        (update_ne marked_disk a (λ i. 0) (bblock b sb) (not_bitmap b hb))
      ∙ in_use-update sb d a b (mark (d (bblock a sb)) (a % bpb)) true
          (λ bj. is_marked-mark (d (bblock a sb)) (a % bpb) bj (bytes (bblock a sb)));
  zeroed = λ i. ap (λ x. x i) (update_self marked_disk a (λ i. 0));
  kept = λ b ne ne'.
      update_ne marked_disk a (λ i. 0) b ne
      ∙ update_ne d (bblock a sb) (mark (d (bblock a sb)) (a % bpb)) b ne';
  bytes = λ b. elim (Bool-cases (a == b)) [
    | inl this ↦ rw this (λ i. omega arith)
    | inr other ↦ elim (Bool-cases (bblock a sb == b)) [
      | inl map ↦ rw (other, map) (mark-IsBytes (d (bblock a sb)) (a % bpb) (bytes (bblock a sb)))
      | inr rest ↦ rw (other, rest) (bytes b)
    ]
  ];
}
  where
    marked_disk : Disk
    marked_disk = update d (bblock a sb) (mark (d (bblock a sb)) (a % bpb))

    not_bitmap : (b : ℕ) → b < sb.size → a ≢ bblock b sb
    not_bitmap b hb e =
        let t : in_use sb d a ≡ true = subst (λ q. in_use sb d q ≡ true) (sym e) (used b hb) in cc

-- `balloc` on a disk whose bitmap blocks are in use: it takes a free block, which it zeroes, and
-- changes no other block outside the bitmap; or it panics, and then every block is in use.
pub balloc-Allocated :
    (sb : Superblock) (d : Disk)
    → ((b : ℕ) → IsBytes (d b))
    → BitmapUsed sb d
    → ((a : ℕ) × (d' : Disk) × (balloc sb d ≡ some (d', a)) × Allocated sb d d' a)
      ⊎ ((balloc sb d ≡ none) × ((b : ℕ) → b < sb.size → in_use sb d b ≡ true))
unfolding balloc
balloc-Allocated sb d bytes used = elim (Option-cases (balloc_from (sb.size / bpb + 1) 0 sb d)) [
  | inl e ↦
      inr (
        e,
        λ b h. balloc_from-none (sb.size / bpb + 1) 0 sb d b refl (omega arith) e (omega arith) h,
      )
  | inr ((d', a), e) ↦
      let r = balloc_from-some (sb.size / bpb + 1) 0 sb d d' a refl e in
      inl (
        a,
        d',
        e,
        subst (λ q. Allocated sb d q a) (sym r.2) (taken-Allocated sb d a bytes used r.0 r.1),
      )
]

-- The release of the block `b`.
pub record Freed (sb : Superblock) (d d' : Disk) (b : ℕ) : Type 0 where
  pub was_used : in_use sb d b ≡ true
  pub unmarked : (c : ℕ) → in_use sb d' c ≡ (if b == c then false else in_use sb d c)
  pub kept : (c : ℕ) → bblock b sb ≢ c → d' c ≡ d c
  pub bytes : (c : ℕ) → IsBytes (d' c)

-- `bfree` of a block in use frees it and no other block, and changes only the bitmap; it panics
-- exactly if the block is free.
pub bfree-Freed :
    (b : ℕ) (sb : Superblock) (d : Disk)
    → ((c : ℕ) → IsBytes (d c))
    → ((d' : Disk) × (bfree b sb d ≡ some d') × Freed sb d d' b)
      ⊎ ((bfree b sb d ≡ none) × (in_use sb d b ≡ false))
unfolding bfree
bfree-Freed b sb d bytes = elim (Bool-cases (in_use sb d b)) [
  | inr free ↦ inr (rw free refl, free)
  | inl used ↦ inl (
    update d (bblock b sb) (unmark (d (bblock b sb)) (b % bpb)),
    rw used refl,
    record {
      was_used = used;
      unmarked = λ c.
          in_use-update sb d b c (unmark (d (bblock b sb)) (b % bpb)) false
            (λ bj. is_marked-unmark (d (bblock b sb)) (b % bpb) bj (bytes (bblock b sb)));
      kept = λ c ne. update_ne d (bblock b sb) (unmark (d (bblock b sb)) (b % bpb)) c ne;
      bytes = λ c. elim (Bool-cases (bblock b sb == c)) [
        | inl map ↦ rw map (unmark-IsBytes (d (bblock b sb)) (b % bpb) (bytes (bblock b sb)))
        | inr rest ↦ rw rest (bytes c)
      ];
    },
  )
]

-- `bfree` of a block that `balloc` has just returned succeeds, and every block is as free or in use
-- as it was before.
pub bfree-balloc :
    (sb : Superblock) (d d' : Disk) (a : ℕ)
    → ((b : ℕ) → IsBytes (d b))
    → BitmapUsed sb d
    → balloc sb d ≡ some (d', a)
    → (d'' : Disk) × (bfree a sb d' ≡ some d'')
      × ((b : ℕ) → b < sb.size → in_use sb d'' b ≡ in_use sb d b)
bfree-balloc sb d d' a bytes used e = elim (balloc-Allocated sb d bytes used) [
  | inr (no_block, _) ↦ absurd (none-ne-some _ (sym no_block ∙ e))
  | inl (a', d1, e', r) ↦
      let same = some-injective _ _ (sym e' ∙ e) in
      undone (subst (λ (q : Disk × ℕ). Allocated sb d q.0 q.1) same r)
]
  where
    undone :
        Allocated sb d d' a
        → (d'' : Disk) × (bfree a sb d' ≡ some d'')
          × ((b : ℕ) → b < sb.size → in_use sb d'' b ≡ in_use sb d b)
    undone r = elim (bfree-Freed a sb d' r.bytes) [
      | inr (_, free) ↦
          let marked : in_use sb d' a ≡ true = r.marked a r.inside ∙ rw (==_self a) refl in cc
      | inl (d'', e, f) ↦ (
        d'',
        e,
        λ b h. elim (Bool-cases (a == b)) [
          | inl this ↦
              f.unmarked b
              ∙ rw this (sym (subst (λ q. in_use sb d q ≡ false) ((==_iff a b).0 this) r.was_free))
          | inr other ↦ f.unmarked b ∙ rw other (r.marked b h ∙ rw other refl)
        ],
      )
    ]
