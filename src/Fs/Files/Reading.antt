-- ===== src/Fs/Files/Reading.antt =====
-- readi: the bytes that it copies are the file's.
use cs.Prelude.{
  ℕ, zero, suc, ◌+◌, ◌-◌, ◌*◌, ◌/◌, ◌%◌, ◌≤◌, ◌<◌, ◌≡◌, ◌≢◌, inl, inr, refl, sym, ◌∙◌, ap, ltb,
  Bool-cases, some, arith, ==_ne, ltb→lt,
}
use cs.Fs.{Block, Disk, Superblock}
use cs.Fs.Files.{Inode, bsize, max_blocks, splice, piece, read_from}
use cs.Fs.Files.Slots.{byte_of, slot, data_slot, content, IsFile, free_blocks}
use cs.Fs.Files.Taken.{Mapped}
use cs.Fs.Files.Mapping.{bmap-Mapped}
use cs.Fs.Files.Contents.{
  overlay, overlay-overlay, overlay-none, overlay-same, blocks_of, piece_bounds, blocks_of-piece,
}

-- What the loop leaves: the bytes of the file from `off` on in `dst` from `at` on, and the file as it was.
pub record Read (sb : Superblock) (at off n : ℕ) (dst : Block) (ip : Inode) (d : Disk) (ip' : Inode)
    (d' : Disk) (dst' : Block) : Type 0 where
  pub valid : IsFile sb ip' d'
  pub same : (k : ℕ) → content ip' d' k ≡ content ip d k
  pub copied : (k : ℕ) → dst' k ≡ overlay dst at n (λ i. content ip d (off + i)) k
  pub same_size : ip'.size ≡ ip.size
  pub same_inum : ip'.inum ≡ ip.inum
  pub spent : free_blocks sb d ≤ free_blocks sb d' + 2 * blocks_of off n

pub Read-nothing :
    (sb : Superblock) (at off n : ℕ) (dst : Block) (ip : Inode) (d : Disk)
    → n ≡ 0
    → IsFile sb ip d
    → Read sb at off n dst ip d ip d dst
Read-nothing sb at off n dst ip d z f = record {
  valid = f;
  same = λ k. refl;
  copied = λ k.
      sym (overlay-none dst at (λ i. content ip d (off + i)) k)
      ∙ ap (λ q. overlay dst at q (λ i. content ip d (off + i)) k) (sym z);
  same_size = refl;
  same_inum = refl;
  spent = omega arith;
}

-- Only the bytes of `src` in the range matter.
overlay-source :
    (c : ℕ → ℕ) (off n : ℕ) (src src' : ℕ → ℕ) (k : ℕ)
    → ((i : ℕ) → i < n → src i ≡ src' i)
    → overlay c off n src k ≡ overlay c off n src' k
overlay-source c off n src src' k e = elim (Bool-cases (ltb k off)) [
  | inl before ↦ rw before refl
  | inr in_off ↦ elim (Bool-cases (ltb k (off + n))) [
    | inl inside ↦ rw (in_off, inside) (e (k - off) (ground arith))
    | inr behind ↦ rw (in_off, behind) refl
  ]
]

-- The byte `i` of the piece.
piece-content :
    (ip : Inode) (d : Disk) (a off m i : ℕ)
    → slot ip d (data_slot (off / bsize)) ≡ a
    → a ≢ 0
    → off % bsize + m ≤ bsize
    → i < m
    → d a (off % bsize + i) ≡ content ip d (off + i)
piece-content ip d a off m i here ne inside lt =
    let q : (off + i) / bsize ≡ off / bsize = omega arith in
    let r : (off + i) % bsize ≡ off % bsize + i = omega arith in
    sym (
      ap (λ b. byte_of b d (off + i)) (ap (λ q. slot ip d (data_slot q)) q ∙ here)
      ∙ rw (==_ne a 0 ne, r) refl)

-- A round, and the rounds after it.
pub Read-then :
    (sb : Superblock) (at left off m : ℕ) (ip ip1 ip3 : Inode) (d d1 d3 : Disk) (a : ℕ)
    (dst dst' : Block)
    → Mapped sb (data_slot (off / bsize)) 2 ip d ip1 d1 a
    → off % bsize + m ≤ bsize
    → m ≤ left
    → blocks_of (off + m) (left - m) + 1 ≤ blocks_of off left
    → Read sb
        (at + m)
        (off + m)
        (left - m)
        (splice dst at (λ i. d1 a (off % bsize + i)) m)
        ip1
        d1
        ip3
        d3
        dst'
    → Read sb at off left dst ip d ip3 d3 dst'
Read-then sb at left off m ip ip1 ip3 d d1 d3 a dst dst' m1 inside le cost r = record {
  valid = r.valid;
  same = λ k. r.same k ∙ m1.same k;
  copied = λ k.
      r.copied k
      ∙ overlay-same (splice dst at (λ i. d1 a (off % bsize + i)) m)
          (overlay dst at m (λ i. content ip d (off + i))) (at + m) (left - m)
          (λ i. content ip1 d1 (off + m + i)) k
          (overlay-source dst at m (λ i. d1 a (off % bsize + i)) (λ i. content ip d (off + i)) k
            (λ i lt.
              piece-content ip1 d1 a off m i m1.here m1.nonzero inside lt ∙ m1.same (off + i)))
      ∙ overlay-source (overlay dst at m (λ i. content ip d (off + i))) (at + m) (left - m)
          (λ i. content ip1 d1 (off + m + i)) (λ i. content ip d (off + (m + i))) k
          (λ i lt. m1.same (off + m + i) ∙ ap (content ip d) (sum i))
      ∙ overlay-overlay dst at m left (λ i. content ip d (off + i)) k le;
  same_size = r.same_size ∙ m1.same_size;
  same_inum = r.same_inum ∙ m1.same_inum;
  spent = omega (arith, r.spent, m1.spent, cost);
}
  where
    sum : (i : ℕ) → off + m + i ≡ off + (m + i)
    sum i = omega arith

-- The loop of readi, with a round's fuel for each byte and two free blocks for each block that the
-- bytes lie in.
pub read_from-Read :
    (fuel : ℕ) (sb : Superblock) (left at off : ℕ) (ip : Inode) (d : Disk) (dst : Block)
    → left ≤ fuel
    → IsFile sb ip d
    → off + left ≤ max_blocks * bsize
    → 2 * blocks_of off left ≤ free_blocks sb d
    → (ip' : Inode) × (d' : Disk) × (dst' : Block) × (read_from fuel sb left at off ip d dst
        ≡ some (ip', d', dst'))
      × Read sb at off left dst ip d ip' d' dst'
unfolding read_from
read_from-Read zero sb left at off ip d dst fu f fits room =
    (ip, d, dst, refl, Read-nothing sb at off left dst ip d (omega arith) f)
read_from-Read (suc fuel) sb left at off ip d dst fu f fits room = elim (Bool-cases (ltb 0 left)) [
  | inr done ↦
      (ip, d, dst, rw (done, read_from) refl, Read-nothing sb at off left dst ip d (ground arith) f)
  | inl more ↦
      let lt : 0 < left = ltb→lt 0 left more in
      let m : ℕ = piece left off in
      let (pos, le, inside, full) = piece_bounds left off lt in
      let (one, cheaper) = blocks_of-piece left off lt in
      let (ip1, d1, a, e1, m1) =
        bmap-Mapped sb (off / bsize) ip d (omega arith) f (omega (arith, room)) in
      let (ip3, d3, dst3, e3, r) =
        read_from-Read fuel sb (left - m) (at + m) (off + m) ip1 d1
          (splice dst at (λ i. d1 a (off % bsize + i)) m) (omega arith) m1.valid (omega arith)
          (omega (arith, cheaper, m1.spent, room)) in
      (
        ip3,
        d3,
        dst3,
        rw (more, e1, read_from) e3,
        Read-then sb at left off m ip ip1 ip3 d d1 d3 a dst dst3 m1 inside le cheaper r,
      )
]
