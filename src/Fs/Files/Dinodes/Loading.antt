-- ===== src/Fs/Files/Dinodes/Loading.antt =====
-- What is read of an inode's place after it has been written.
use cs.Prelude.{
  ℕ, ◌+◌, ◌-◌, ◌*◌, ◌/◌, ◌%◌, ◌≤◌, ◌<◌, ◌≡◌, ◌≢◌, ◌⊎◌, inl, inr, refl, sym, ◌∙◌, ap, subst, ◌==◌,
  ltb, true, false, Bool-cases, arith, ==_iff, lt→ltb, ltb→lt, update, update_self,
}
use cs.Fs.{Block, Disk, Superblock}
use cs.Fs.Files.{Inode, word, splice, half_byte, word_byte, dinode_byte, iblock, iupdate}
use cs.Fs.Files.Dinodes.{half, from_dinode, load}

-- The bytes of a place that has been written, and those of the other places of the block.
pub splice-here :
    (x : Block) (o : ℕ) (src : ℕ → ℕ) (i : ℕ) → i < 64 → splice x o src 64 (o + i) ≡ src i
splice-here x o src i h =
    let a : ltb (o + i) o ≡ false = ground arith in
    let b : ltb (o + i) (o + 64) ≡ true = lt→ltb (o + i) (o + 64) (omega arith) in
    let e : o + i - o ≡ i = omega arith in rw (a, b, e) refl

splice-there :
    (x : Block) (o : ℕ) (src : ℕ → ℕ) (i : ℕ) → (i < o) ⊎ (o + 64 ≤ i) → splice x o src 64 i ≡ x i
splice-there x o src i h = ground arith

-- The fields of an inode fit.
pub record IsStorable (ip : Inode) : Type 0 where
  pub kind : ip.kind < 65536
  pub major : ip.major < 65536
  pub minor : ip.minor < 65536
  pub nlink : ip.nlink < 65536
  pub size : ip.size < 0x100000000
  pub addrs : (k : ℕ) → ip.addrs k < 0x100000000

-- The fields of two inodes are the same.
pub record IsSame (ip ip' : Inode) : Type 0 where
  pub inum : ip.inum ≡ ip'.inum
  pub kind : ip.kind ≡ ip'.kind
  pub major : ip.major ≡ ip'.major
  pub minor : ip.minor ≡ ip'.minor
  pub nlink : ip.nlink ≡ ip'.nlink
  pub size : ip.size ≡ ip'.size
  pub addrs : (k : ℕ) → k < 13 → ip.addrs k ≡ ip'.addrs k

pub half-splice :
    (x : Block) (o : ℕ) (src : ℕ → ℕ) (i : ℕ)
    → i < 63
    → half (splice x o src 64) (o + i) ≡ src i + 256 * src (i + 1)
unfolding half
half-splice x o src i h =
    let e : o + i + 1 ≡ o + (i + 1) = omega arith in
    let a = splice-here x o src i (omega arith) in
    let b : splice x o src 64 (o + i + 1) ≡ src (i + 1) =
      ap (splice x o src 64) e ∙ splice-here x o src (i + 1) (omega arith) in
    omega (arith, a, b)

pub word-splice :
    (x : Block) (o : ℕ) (src : ℕ → ℕ) (i : ℕ)
    → i < 61
    → word (splice x o src 64) (o + i)
      ≡ src i + 256 * src (i + 1) + 65536 * src (i + 2) + 16777216 * src (i + 3)
unfolding word
word-splice x o src i h =
    let a = splice-here x o src i (omega arith) in
    let b = at (i + 1) (o + i + 1) (omega arith) (omega arith) in
    let c = at (i + 2) (o + i + 2) (omega arith) (omega arith) in
    let d = at (i + 3) (o + i + 3) (omega arith) (omega arith) in omega (arith, a, b, c, d)
  where
    at : (j k : ℕ) → k ≡ o + j → j < 64 → splice x o src 64 k ≡ src j
    at j k e l = ap (splice x o src 64) e ∙ splice-here x o src j l

halves : (v : ℕ) → v < 65536 → half_byte v 0 + 256 * half_byte v 1 ≡ v
halves v h = omega arith

words :
    (v : ℕ)
    → v < 0x100000000
    → word_byte v 0 + 256 * word_byte v 1 + 65536 * word_byte v 2 + 16777216 * word_byte v 3 ≡ v
words v h = omega arith

-- The byte `t` of the block number `k`.
addr_byte :
    (ip : Inode) (k t i : ℕ)
    → i ≡ 12 + 4 * k + t
    → t < 4
    → dinode_byte ip i ≡ word_byte (ip.addrs k) t
unfolding dinode_byte
addr_byte ip k t i e h =
    let a : ltb i 2 ≡ false = ground arith in
    let b : ltb i 4 ≡ false = ground arith in
    let c : ltb i 6 ≡ false = ground arith in
    let d : ltb i 8 ≡ false = ground arith in
    let f : ltb i 12 ≡ false = ground arith in
    let q : (i - 12) / 4 ≡ k = omega arith in
    let r : (i - 12) % 4 ≡ t = omega arith in rw (a, b, c, d, f, q, r) refl

pub loaded :
    (ip : Inode) (x : Block) (o : ℕ)
    → IsStorable ip
    → IsSame (from_dinode ip.inum (splice x o (dinode_byte ip) 64) o) ip
unfolding from_dinode dinode_byte
loaded ip x o s = record {
  inum = refl;
  kind =
      ap (half (splice x o (dinode_byte ip) 64)) zero_more
      ∙ half-splice x o (dinode_byte ip) 0 (omega arith)
      ∙ kind_bytes;
  major = half-splice x o (dinode_byte ip) 2 (omega arith) ∙ major_bytes;
  minor = half-splice x o (dinode_byte ip) 4 (omega arith) ∙ minor_bytes;
  nlink = half-splice x o (dinode_byte ip) 6 (omega arith) ∙ nlink_bytes;
  size = word-splice x o (dinode_byte ip) 8 (omega arith) ∙ size_bytes;
  addrs = λ k h.
      let e : o + 12 + 4 * k ≡ o + (12 + 4 * k) = omega arith in
      ap (word (splice x o (dinode_byte ip) 64)) e
      ∙ word-splice x o (dinode_byte ip) (12 + 4 * k) (omega arith)
      ∙ addr_bytes k;
}
  where
    zero_more : o ≡ o + 0
    zero_more = omega arith

    kind_bytes : dinode_byte ip 0 + 256 * dinode_byte ip 1 ≡ ip.kind
    kind_bytes = halves ip.kind s.kind

    major_bytes : dinode_byte ip 2 + 256 * dinode_byte ip 3 ≡ ip.major
    major_bytes = halves ip.major s.major

    minor_bytes : dinode_byte ip 4 + 256 * dinode_byte ip 5 ≡ ip.minor
    minor_bytes = halves ip.minor s.minor

    nlink_bytes : dinode_byte ip 6 + 256 * dinode_byte ip 7 ≡ ip.nlink
    nlink_bytes = halves ip.nlink s.nlink

    size_bytes :
        dinode_byte ip 8
          + 256 * dinode_byte ip 9
          + 65536 * dinode_byte ip 10
          + 16777216 * dinode_byte ip 11
        ≡ ip.size
    size_bytes = words ip.size s.size

    addr_bytes :
        (k : ℕ)
        → dinode_byte ip (12 + 4 * k)
            + 256 * dinode_byte ip (12 + 4 * k + 1)
            + 65536 * dinode_byte ip (12 + 4 * k + 2)
            + 16777216 * dinode_byte ip (12 + 4 * k + 3)
          ≡ ip.addrs k
    addr_bytes k = omega (
      arith,
      addr_byte ip k 0 (12 + 4 * k) (omega arith) (omega arith),
      addr_byte ip k 1 (12 + 4 * k + 1) (omega arith) (omega arith),
      addr_byte ip k 2 (12 + 4 * k + 2) (omega arith) (omega arith),
      addr_byte ip k 3 (12 + 4 * k + 3) (omega arith) (omega arith),
      words (ip.addrs k) (s.addrs k),
    )

-- The same bytes make the same inode.
pub place-IsSame :
    (inum o : ℕ) (x y : Block)
    → ((i : ℕ) → i < 64 → y (o + i) ≡ x (o + i))
    → IsSame (from_dinode inum y o) (from_dinode inum x o)
unfolding from_dinode half word
place-IsSame inum o x y same = record {
  inum = refl;
  kind = two o (at 0 o (omega arith) (omega arith)) (at 1 (o + 1) (omega arith) (omega arith));
  major =
      two (o + 2) (at 2 (o + 2) (omega arith) (omega arith))
        (at 3 (o + 2 + 1) (omega arith) (omega arith));
  minor =
      two (o + 4) (at 4 (o + 4) (omega arith) (omega arith))
        (at 5 (o + 4 + 1) (omega arith) (omega arith));
  nlink =
      two (o + 6) (at 6 (o + 6) (omega arith) (omega arith))
        (at 7 (o + 6 + 1) (omega arith) (omega arith));
  size = four (o + 8) 8 (omega arith) (omega arith);
  addrs = λ k h. four (o + 12 + 4 * k) (12 + 4 * k) (omega arith) (omega arith);
}
  where
    at : (i j : ℕ) → j ≡ o + i → i < 64 → y j ≡ x j
    at i j e h = ap y e ∙ same i h ∙ ap x (sym e)

    two :
        (j : ℕ) → y j ≡ x j → y (j + 1) ≡ x (j + 1) → y j + 256 * y (j + 1) ≡ x j + 256 * x (j + 1)
    two j a b = omega (arith, a, b)

    four :
        (j i : ℕ)
        → j ≡ o + i
        → i < 61
        → y j + 256 * y (j + 1) + 65536 * y (j + 2) + 16777216 * y (j + 3)
          ≡ x j + 256 * x (j + 1) + 65536 * x (j + 2) + 16777216 * x (j + 3)
    four j i e h = omega (
      arith,
      at i j e (omega arith),
      at (i + 1) (j + 1) (omega arith) (omega arith),
      at (i + 2) (j + 2) (omega arith) (omega arith),
      at (i + 3) (j + 3) (omega arith) (omega arith),
    )

-- Another inode's place.
pub load-other :
    (sb : Superblock) (i j : ℕ) (d : Disk) (src : ℕ → ℕ)
    → i ≢ j
    → IsSame
        (load sb j (update d (iblock i sb) (splice (d (iblock i sb)) (i % 8 * 64) src 64)))
        (load sb j d)
unfolding load
load-other sb i j d src ne =
    place-IsSame j (j % 8 * 64) (d (iblock j sb))
      (update d (iblock i sb) (splice (d (iblock i sb)) (i % 8 * 64) src 64) (iblock j sb)) same
  where
    same :
        (k : ℕ)
        → k < 64
        → update d
            (iblock i sb)
            (splice (d (iblock i sb)) (i % 8 * 64) src 64)
            (iblock j sb)
            (j % 8 * 64 + k)
          ≡ d (iblock j sb) (j % 8 * 64 + k)
    same k h = elim (Bool-cases (iblock i sb == iblock j sb)) [
      | inr apart ↦ rw apart refl
      | inl together ↦
          let e : iblock i sb ≡ iblock j sb = (==_iff (iblock i sb) (iblock j sb)).0 together in
          rw together (
            splice-there (d (iblock i sb)) (i % 8 * 64) src (j % 8 * 64 + k)
              (outside (i % 8) (j % 8) (omega arith))
            ∙ ap (λ b. d b (j % 8 * 64 + k)) e)
    ]
      where
        outside : (p q : ℕ) → p ≢ q → (q * 64 + k < p * 64) ⊎ (p * 64 + 64 ≤ q * 64 + k)
        outside p q apart = elim (Bool-cases (ltb q p)) [
          | inl below ↦ let l : q < p = ltb→lt q p below in inl (omega arith)
          | inr above ↦ let l : p ≤ q = ground arith in inr (omega arith)
        ]

-- `ilock` after `iupdate`: the fields are read back as they were written, if they fit, and the other
-- inodes' fields are as they were, also those in the same block.
pub load-iupdate :
    (sb : Superblock) (ip : Inode) (d : Disk)
    → IsStorable ip
    → IsSame (load sb ip.inum (iupdate sb ip d)) ip
      × ((j : ℕ) → ip.inum ≢ j → IsSame (load sb j (iupdate sb ip d)) (load sb j d))
unfolding load iupdate
load-iupdate sb ip d s = (
  subst (λ (x : Block). IsSame (from_dinode ip.inum x (ip.inum % 8 * 64)) ip)
      (sym (
        update_self d (iblock ip.inum sb)
          (splice (d (iblock ip.inum sb)) (ip.inum % 8 * 64) (dinode_byte ip) 64)))
      (loaded ip (d (iblock ip.inum sb)) (ip.inum % 8 * 64) s),
  λ j ne. load-other sb ip.inum j d (dinode_byte ip) ne,
)
