-- ===== src/Fs/Files/Mapping.antt =====
-- bmap: the block that it returns is the file's own, and what the file holds does not change.
use cs.Prelude.{
  ◌+◌, ◌-◌, ◌≤◌, ◌<◌, ◌≡◌, ◌≢◌, inl, inr, refl, ◌*◌, suc, ℕ, false, sym, ◌∙◌, ap, ltb, true,
  Bool-cases, some, arith, lt→ltb, ltb→lt,
}
use cs.Fs.{Disk, Superblock}
use cs.Fs.Files.{Inode, word, max_blocks, bmap_addr, bmap_entry, bmap}
use cs.Fs.Files.Slots.{slot, data_slot, IsFile, free_blocks}
use cs.Fs.Files.Taken.{Mapped, Mapped-already, ℕ-cases}
use cs.Fs.Files.Direct.{bmap_addr-Mapped}
use cs.Fs.Files.Indirect.{entry-slot, bmap_entry-Mapped}

Mapped-then :
    (sb : Superblock) (i j : ℕ) (ip ip1 ip2 : Inode) (d d1 d2 : Disk) (a b : ℕ)
    → Mapped sb i 1 ip d ip1 d1 a
    → Mapped sb j 1 ip1 d1 ip2 d2 b
    → Mapped sb j 2 ip d ip2 d2 b
Mapped-then sb i j ip ip1 ip2 d d1 d2 a b m n = record {
  valid = n.valid;
  here = n.here;
  nonzero = n.nonzero;
  same = λ k. n.same k ∙ m.same k;
  same_size = n.same_size ∙ m.same_size;
  same_inum = n.same_inum ∙ m.same_inum;
  same_kind = n.same_kind ∙ m.same_kind;
  stays = λ k ne. n.stays k (λ z. ne (sym (m.stays k ne) ∙ z)) ∙ m.stays k ne;
  spent = omega (arith, m.spent, n.spent);
}

Mapped-cheap :
    (sb : Superblock) (i : ℕ) (ip ip1 : Inode) (d d1 : Disk) (a : ℕ)
    → Mapped sb i 1 ip d ip1 d1 a
    → Mapped sb i 2 ip d ip1 d1 a
Mapped-cheap sb i ip ip1 d d1 a m = record {
  valid = m.valid;
  here = m.here;
  nonzero = m.nonzero;
  same = m.same;
  same_size = m.same_size;
  same_inum = m.same_inum;
  same_kind = m.same_kind;
  stays = m.stays;
  spent = omega (arith, m.spent);
}

-- `bmap` of a block number that a file can have, with two free blocks: it does not panic. The block
-- that it returns is the file's block of that number, which it did not have before if need be; the
-- file keeps what it holds, and its blocks are still in use, different from each other and from
-- those of the bitmap and of the inode. At most two blocks are taken.
pub bmap-Mapped :
    (sb : Superblock) (bn : ℕ) (ip : Inode) (d : Disk)
    → bn < max_blocks
    → IsFile sb ip d
    → 2 ≤ free_blocks sb d
    → (ip' : Inode) × (d' : Disk) × (a : ℕ) × (bmap sb bn ip d ≡ some (ip', d', a))
      × Mapped sb (data_slot bn) 2 ip d ip' d' a
unfolding bmap
bmap-Mapped sb bn ip d low f room = elim (Bool-cases (ltb bn 12)) [
  | inl direct ↦
      let lt : bn < 12 = ltb→lt bn 12 direct in
      let (ip1, d1, a, e, m) = bmap_addr-Mapped sb bn ip d (omega arith) f (omega arith) in
      (ip1, d1, a, rw (direct, bmap) e, rw direct (Mapped-cheap sb bn ip ip1 d d1 a m))
  | inr above ↦
      let (ip1, d1, addr, e1, m1) = bmap_addr-Mapped sb 12 ip d (omega arith) f (omega arith) in
      let k : ℕ = bn - 12 in
      let ge : 12 ≤ bn = ground arith in
      let in_block : ltb (bn - 12) 128 ≡ true = lt→ltb (bn - 12) 128 (omega arith) in
      let some_indirect : ip1.addrs 12 ≢ 0 = λ z. m1.nonzero (sym m1.here ∙ z) in
      let (ip2, d2, a, e2, m2) =
        bmap_entry-Mapped sb k ip1 d1 (omega arith) m1.valid some_indirect
          (omega (arith, m1.spent)) in
      let place : 13 + k ≡ bn + 1 = omega arith in
      (
        ip2,
        d2,
        a,
        rw (above, in_block, e1, bmap) (ap (λ v. bmap_entry sb k v ip1 d1) (sym m1.here) ∙ e2),
        rw (above, sym place) (Mapped-then sb 12 (13 + k) ip ip1 ip2 d d1 d2 addr a m1 m2),
      )
]

-- `bmap` of a block that the file has: it takes nothing and changes nothing.
pub bmap-held :
    (sb : Superblock) (bn : ℕ) (ip : Inode) (d : Disk)
    → bn < max_blocks
    → slot ip d (data_slot bn) ≢ 0
    → bmap sb bn ip d ≡ some (ip, d, slot ip d (data_slot bn))
unfolding bmap bmap_addr bmap_entry
bmap-held sb bn ip d low full = elim (Bool-cases (ltb bn 12)) [
  | inl direct ↦
      let place : slot ip d (data_slot bn) ≡ ip.addrs bn =
        let h : ltb bn 13 ≡ true = lt→ltb bn 13 (omega (arith, ltb→lt bn 12 direct)) in
        rw (direct, h) refl in
      elim (ℕ-cases (ip.addrs bn)) [
        | inl z ↦ absurd (full (place ∙ z))
        | inr (a, e) ↦ rw (place, direct, e, bmap, bmap_addr) refl
      ]
  | inr above ↦
      let ge : 12 ≤ bn = ground arith in
      let k : ℕ = bn - 12 in
      let next : 13 + (bn - 12) ≡ bn + 1 = omega arith in
      let in_block : ltb (bn - 12) 128 ≡ true = lt→ltb (bn - 12) 128 (omega arith) in
      let at : slot ip d (data_slot bn) ≡ slot ip d (13 + (bn - 12)) = rw (above, next) refl in
      elim (ℕ-cases (ip.addrs 12)) [
        | inl z ↦ absurd (full (at ∙ no_indirect (bn - 12) z))
        | inr (v, e) ↦
            let place : slot ip d (data_slot bn) ≡ word (d (suc v)) (4 * (bn - 12)) =
              at
              ∙ entry-slot ip d (bn - 12) (omega arith) (λ z. omega arith)
              ∙ ap (λ q. word (d q) (4 * (bn - 12))) e in
            elim (ℕ-cases (word (d (suc v)) (4 * (bn - 12)))) [
              | inl z ↦ absurd (full (place ∙ z))
              | inr (a, w) ↦ rw (place, above, in_block, e, w, bmap, bmap_addr, bmap_entry) refl
            ]
      ]
]
  where
    no_indirect : (j : ℕ) → ip.addrs 12 ≡ 0 → slot ip d (13 + j) ≡ 0
    no_indirect j z = elim (Bool-cases (ltb (13 + j) 141)) [
      | inl inside ↦ let x : ltb (13 + j) 13 ≡ false = ground arith in rw (x, inside, z) refl
      | inr out ↦ let x : ltb (13 + j) 13 ≡ false = ground arith in rw (x, out) refl
    ]

-- The same, as what bmap leaves.
pub bmap-kept :
    (sb : Superblock) (bn : ℕ) (ip : Inode) (d : Disk)
    → bn < max_blocks
    → IsFile sb ip d
    → slot ip d (data_slot bn) ≢ 0
    → (a : ℕ) × (bmap sb bn ip d ≡ some (ip, d, a)) × Mapped sb (data_slot bn) 2 ip d ip d a
bmap-kept sb bn ip d low f full = elim (ℕ-cases (slot ip d (data_slot bn))) [
  | inl z ↦ absurd (full z)
  | inr (a, e) ↦ (
    suc a,
    bmap-held sb bn ip d low full ∙ ap (λ q. some (ip, d, q)) e,
    Mapped-cheap sb (data_slot bn) ip ip d d (suc a) (Mapped-already sb (data_slot bn) ip d a f e),
  )
]
