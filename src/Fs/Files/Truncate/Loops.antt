-- ===== src/Fs/Files/Truncate/Loops.antt =====
-- The loops of itrunc.
use cs.Prelude.{
  ℕ, zero, suc, ◌+◌, ◌*◌, ◌≤◌, ◌<◌, ◌≡◌, ◌≢◌, ◌||◌, inl, inr, refl, sym, ◌∙◌, ap, subst, ◌==◌, ltb,
  if◌then◌else◌, Bool, true, false, Bool-cases, some, arith, ==_iff, lt→ltb, update, update_ne,
}
use cs.Fs.{Disk, Superblock}
use cs.Fs.Files.{Inode, word}
use cs.Fs.Files.Slots.{slot, IsOutside, IsFile}
use cs.Fs.Files.Taken.{ℕ-cases}
use cs.Fs.Files.Indirect.{entry-slot}
use cs.Fs.Files.Truncate.{drop_direct, drop_entries}
use cs.Fs.Files.Truncate.Dropping.{Dropped, Dropped-same, Dropped-more}

-- The inode with its first `i` block numbers cleared.
pub record Cleared (i : ℕ) (ip ip1 : Inode) : Type 0 where
  pub same_inum : ip1.inum ≡ ip.inum
  pub low : (k : ℕ) → k < i → ip1.addrs k ≡ 0
  pub high : (k : ℕ) → i ≤ k → ip1.addrs k ≡ ip.addrs k

pub Cleared-next :
    (i : ℕ) (ip ip1 : Inode)
    → Cleared i ip ip1
    → Cleared (i + 1) ip (record ip1 { addrs = update ip1.addrs i 0 })
Cleared-next i ip ip1 c = record {
  same_inum = c.same_inum;
  low = λ k h. elim (Bool-cases (i == k)) [
    | inl this ↦ rw this refl
    | inr other ↦ rw other (c.low k (ground (arith, ==_iff i k)))
  ];
  high = λ k h. update_ne ip1.addrs i 0 k (λ e. omega arith) ∙ c.high k (omega arith);
}

Cleared-already :
    (i : ℕ) (ip ip1 : Inode) → Cleared i ip ip1 → ip1.addrs i ≡ 0 → Cleared (i + 1) ip ip1
Cleared-already i ip ip1 c z = record {
  same_inum = c.same_inum;
  low = λ k h. elim (Bool-cases (i == k)) [
    | inl this ↦ ap ip1.addrs (sym ((==_iff i k).0 this)) ∙ z
    | inr other ↦ c.low k (ground (arith, ==_iff i k))
  ];
  high = λ k h. c.high k (omega arith);
}

one_more : (i n : ℕ) → (i == n || ltb n i) ≡ ltb n (i + 1)
one_more i n = ground (arith, ==_iff i n)

-- The places that a loop over the slots from `base` on has come past.
abbrev pub before : ℕ → ℕ → ℕ → Bool
before base j n = if ltb n 12 then true else if ltb n base then false else ltb n (base + j)

direct_slot : (ip : Inode) (d : Disk) (i : ℕ) → i < 12 → slot ip d i ≡ ip.addrs i
direct_slot ip d i h = let e : ltb i 13 ≡ true = lt→ltb i 13 (omega arith) in rw e refl

pub drop_direct-Dropped :
    (n i : ℕ) (sb : Superblock) (ip ip1 : Inode) (d d1 : Disk)
    → i + n ≡ 12
    → IsFile sb ip d
    → Cleared i ip ip1
    → Dropped sb ip d (λ k. ltb k i) d1
    → (ip2 : Inode) × (d2 : Disk) × (drop_direct n i sb ip1 d1 ≡ some (ip2, d2))
      × Cleared 12 ip ip2
      × Dropped sb ip d (λ k. ltb k 12) d2
unfolding drop_direct
drop_direct-Dropped zero i sb ip ip1 d d1 sum f c r =
    let e : i ≡ 12 = omega arith in
    (
      ip1,
      d1,
      refl,
      subst (λ j. Cleared j ip ip1) e c,
      subst (λ j. Dropped sb ip d (λ k. ltb k j) d1) e r,
    )
drop_direct-Dropped (suc n) i sb ip ip1 d d1 sum f c r = elim (ℕ-cases (ip1.addrs i)) [
  | inl z ↦
      let gone : slot ip d i ≡ 0 =
        direct_slot ip d i (omega arith) ∙ sym (c.high i (omega arith)) ∙ z in
      let (ip2, d2, e, c2, r2) =
        drop_direct-Dropped n (i + 1) sb ip ip1 d d1 (omega arith) f (Cleared-already i ip ip1 c z)
          (Dropped-same sb ip d (λ k. ltb k i) (λ k. ltb k (i + 1)) d1 (λ k ne. passed k ne gone)
            r) in
      (ip2, d2, rw (z, drop_direct) e, c2, r2)
  | inr (a, full) ↦
      let here : slot ip d i ≡ suc a =
        direct_slot ip d i (omega arith) ∙ sym (c.high i (omega arith)) ∙ full in
      let (d', freed, r1) = Dropped-more sb ip d (λ k. ltb k i) d1 i a f r (not_yet i) here in
      let (ip2, d2, e, c2, r2) =
        drop_direct-Dropped n (i + 1) sb ip (record ip1 { addrs = update ip1.addrs i 0 }) d d'
          (omega arith) f (Cleared-next i ip ip1 c)
          (Dropped-same sb ip d (λ k. i == k || ltb k i) (λ k. ltb k (i + 1)) d'
            (λ k ne. one_more i k) r1) in
      (ip2, d2, rw (full, freed, drop_direct) e, c2, r2)
]
  where
    not_yet : (i : ℕ) → ltb i i ≡ false
    not_yet i = ground arith

    passed : (k : ℕ) → slot ip d k ≢ 0 → slot ip d i ≡ 0 → ltb k i ≡ ltb k (i + 1)
    passed k ne z = elim (Bool-cases (i == k)) [
      | inl this ↦ absurd (ne (ap (slot ip d) (sym ((==_iff i k).0 this)) ∙ z))
      | inr other ↦ ap (λ q. q || ltb k i) (sym other) ∙ one_more i k
    ]

next_entry : (j n : ℕ) → (13 + j == n || before 13 j n) ≡ before 13 (j + 1) n
next_entry j n = ground (arith, ==_iff (13 + j) n)

pub drop_entries-Dropped :
    (n j addr : ℕ) (sb : Superblock) (ip : Inode) (d d1 : Disk)
    → j + n ≡ 128
    → IsFile sb ip d
    → ip.addrs 12 ≡ suc addr
    → Dropped sb ip d (before 13 j) d1
    → (d2 : Disk) × (drop_entries n j (suc addr) sb d1 ≡ some d2)
      × Dropped sb ip d (before 13 128) d2
unfolding drop_entries
drop_entries-Dropped zero j addr sb ip d d1 sum f indirect r =
    let e : j ≡ 128 = omega arith in (d1, refl, subst (λ q. Dropped sb ip d (before 13 q) d1) e r)
drop_entries-Dropped (suc n) j addr sb ip d d1 sum f indirect r =
    elim (ℕ-cases (word (d1 (suc addr)) (4 * j))) [
      | inl z ↦
          let gone : slot ip d (13 + j) ≡ 0 = entry ∙ z in
          let (d2, e, r2) =
            drop_entries-Dropped n (j + 1) addr sb ip d d1 (omega arith) f indirect (
              Dropped-same sb ip d (before 13 j) (before 13 (j + 1)) d1 (λ k ne. passed k ne gone)
                r) in
          (d2, rw (z, drop_entries) e, r2)
      | inr (a, full) ↦
          let (d', freed, r1) =
            Dropped-more sb ip d (before 13 j) d1 (13 + j) a f r (not_yet j) (entry ∙ full) in
          let (d2, e, r2) =
            drop_entries-Dropped n (j + 1) addr sb ip d d' (omega arith) f indirect (
              Dropped-same sb ip d (λ k. 13 + j == k || before 13 j k) (before 13 (j + 1)) d'
                (λ k ne. next_entry j k) r1) in
          (d2, rw (full, freed, drop_entries) e, r2)
    ]
  where
    some_indirect : ip.addrs 12 ≢ 0
    some_indirect z = omega arith

    entry : slot ip d (13 + j) ≡ word (d1 (suc addr)) (4 * j)
    entry =
        entry-slot ip d j (omega arith) some_indirect
        ∙ ap (λ b. word (d b) (4 * j)) indirect
        ∙ ap (λ (x : ℕ → ℕ). word x (4 * j)) (sym (r.kept (suc addr) outside))
      where
        outside : IsOutside sb (suc addr)
        outside = subst (IsOutside sb) indirect (f.owned 12 some_indirect).outside

    not_yet : (j : ℕ) → before 13 j (13 + j) ≡ false
    not_yet j = ground arith

    passed :
        (k : ℕ) → slot ip d k ≢ 0 → slot ip d (13 + j) ≡ 0 → before 13 j k ≡ before 13 (j + 1) k
    passed k ne z = elim (Bool-cases (13 + j == k)) [
      | inl this ↦ absurd (ne (ap (slot ip d) (sym ((==_iff (13 + j) k).0 this)) ∙ z))
      | inr other ↦ ap (λ q. q || before 13 j k) (sym other) ∙ next_entry j k
    ]
