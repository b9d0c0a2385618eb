-- ===== src/Fs/Files.antt =====
-- fs.c: the contents of files and directories. An inode in memory, which is locked, names the blocks
-- of its file; `d` is the disk as the operation in progress sees it.
pub mod Words
pub mod Slots
pub mod Taken
pub mod Direct
pub mod Indirect
pub mod Mapping
pub mod Stores
pub mod Contents
pub mod Inodes
pub mod Writing
pub mod Ranges
pub mod Saving
pub mod Reading
pub mod Transfers
pub mod Held
pub mod Truncate
pub mod Dinodes
pub mod Sample
mod Tests
use cs.Prelude.{
  ℕ, zero, suc, ◌+◌, ◌-◌, ◌*◌, ◌/◌, ◌%◌, ◌^◌, ◌==◌, ltb, leb, if◌then◌else◌, Bool, true, false,
  ◌||◌, Option, some, none, update, add32,
}
use cs.Fs.{Block, Disk, Superblock}
use cs.Fs.Blocks.{balloc}

abbrev pub bsize : ℕ
bsize = 512

abbrev pub ndirect : ℕ
ndirect = 12

abbrev pub nindirect : ℕ
nindirect = 128

-- MAXFILE
abbrev pub max_blocks : ℕ
max_blocks = 140

-- `struct inode`, the fields that it has on disk.
pub record Inode : Type 0 where
  pub inum : ℕ
  pub kind : ℕ
  pub major : ℕ
  pub minor : ℕ
  pub nlink : ℕ
  pub size : ℕ
  pub addrs : ℕ → ℕ

-- The `uint` at the byte `j` of a block, and a store of one.
pub word : Block → ℕ → ℕ
word x j = x j + 256 * x (j + 1) + 65536 * x (j + 2) + 16777216 * x (j + 3)

pub put_word : Block → ℕ → ℕ → Block
put_word x j v =
    update
      (update (update (update x j (v % 256)) (j + 1) (v / 256 % 256)) (j + 2) (v / 65536 % 256))
      (j + 3) (v / 16777216 % 256)

-- `m` bytes of `src` in a block, from the byte `o` on: memmove to `bp->data + o`.
abbrev pub splice : Block → ℕ → (ℕ → ℕ) → ℕ → Block
splice x o src m i = if ltb i o then x i else if ltb i (o + m) then src (i - o) else x i

-- The part of `bmap` for the indirect block: the entry `k` of the block `addr`.
pub bmap_entry : Superblock → ℕ → ℕ → Inode → Disk → Option (Inode × Disk × ℕ)
unfolding word put_word
bmap_entry sb k addr ip d = elim (word (d addr) (4 * k)) [
  | zero ↦ elim (balloc sb d) [
    | none ↦ none
    | some (d', a) ↦ some (ip, update d' addr (put_word (d' addr) (4 * k) a), a)
  ]
  | suc a ↦ some (ip, d, suc a)
]

-- The block of `ip->addrs[i]`, which is allocated if there is none.
pub bmap_addr : Superblock → ℕ → Inode → Disk → Option (Inode × Disk × ℕ)
bmap_addr sb i ip d = elim (ip.addrs i) [
  | zero ↦ elim (balloc sb d) [
    | none ↦ none
    | some (d', a) ↦ some (record ip { addrs = update ip.addrs i a }, d', a)
  ]
  | suc a ↦ some (ip, d, suc a)
]

-- `none` is a panic, here or in balloc.
pub bmap : Superblock → ℕ → Inode → Disk → Option (Inode × Disk × ℕ)
unfolding bmap_addr bmap_entry
bmap sb bn ip d = elim (ltb bn ndirect) [
  | true ↦ bmap_addr sb bn ip d
  | false ↦ elim (ltb (bn - ndirect) nindirect) [
    | true ↦ elim (bmap_addr sb ndirect ip d) [
      | none ↦ none
      | some (ip', d', addr) ↦ bmap_entry sb (bn - ndirect) addr ip' d'
    ]
    | false ↦ none
  ]
]

-- `m` of a round of the loops: the bytes up to the end of the block, or all that are left.
abbrev pub piece : ℕ → ℕ → ℕ
piece left off = if ltb left (bsize - off % bsize) then left else bsize - off % bsize

-- The loop of `readi`: the bytes read, as a function of their place in `dst`. Fuel is spent on a
-- round each, here and in `write_from`.
pub read_from : ℕ → Superblock → ℕ → ℕ → ℕ → Inode → Disk → Block → Option (Inode × Disk × Block)
unfolding bmap
read_from zero sb left at off ip d dst = some (ip, d, dst)
read_from (suc fuel) sb left at off ip d dst = elim (ltb 0 left) [
  | false ↦ some (ip, d, dst)
  | true ↦ elim (bmap sb (off / bsize) ip d) [
    | none ↦ none
    | some (ip', d', a) ↦
        let m = piece left off in
        read_from fuel sb (left - m) (at + m) (off + m) ip' d'
          (splice dst at (λ i. d' a (off % bsize + i)) m)
  ]
]

-- The return value of `readi` or `writei`: -1 or a number of bytes.
pub data Moved : Type 0 where
  refused : Moved
  moved : ℕ → Moved

-- `readi` of an inode that is no device, into `dst`.
pub readi : Superblock → ℕ → ℕ → Inode → Disk → Block → Option (Inode × Disk × Block × Moved)
unfolding read_from
readi sb off n ip d dst =
    if ltb ip.size off || ltb (add32 off n) off
    then some (ip, d, dst, refused)
    else let n' = if ltb ip.size (add32 off n) then ip.size - off else n in
      elim (read_from n' sb n' 0 off ip d dst) [
        | none ↦ none
        | some (ip', d', dst') ↦ some (ip', d', dst', moved n')
      ]

-- The loop of `writei`.
pub write_from : ℕ → Superblock → ℕ → ℕ → Inode → Disk → Block → Option (Inode × Disk)
unfolding bmap
write_from zero sb left off ip d src = some (ip, d)
write_from (suc fuel) sb left off ip d src = elim (ltb 0 left) [
  | false ↦ some (ip, d)
  | true ↦ elim (bmap sb (off / bsize) ip d) [
    | none ↦ none
    | some (ip', d', a) ↦
        let m = piece left off in
        write_from fuel sb (left - m) (off + m) ip'
          (update d' a (splice (d' a) (off % bsize) src m)) (λ i. src (m + i))
  ]
]

-- The bytes of `struct dinode`.
abbrev pub half_byte : ℕ → ℕ → ℕ
half_byte v j = if j == 0 then v % 256 else v / 256 % 256

abbrev pub word_byte : ℕ → ℕ → ℕ
word_byte v j =
    if j == 0
    then v % 256
    else if j == 1
    then v / 256 % 256
    else if j == 2
    then v / 65536 % 256
    else v / 16777216 % 256

pub dinode_byte : Inode → ℕ → ℕ
dinode_byte ip i =
    if ltb i 2
    then half_byte ip.kind i
    else if ltb i 4
    then half_byte ip.major (i - 2)
    else if ltb i 6
    then half_byte ip.minor (i - 4)
    else if ltb i 8
    then half_byte ip.nlink (i - 6)
    else if ltb i 12
    then word_byte ip.size (i - 8)
    else word_byte (ip.addrs ((i - 12) / 4)) ((i - 12) % 4)

-- IBLOCK
abbrev pub iblock : ℕ → Superblock → ℕ
iblock i sb = i / 8 + sb.inodestart

pub iupdate : Superblock → Inode → Disk → Disk
unfolding dinode_byte
iupdate sb ip d =
    let b = iblock ip.inum sb in update d b (splice (d b) (ip.inum % 8 * 64) (dinode_byte ip) 64)

-- The end of `writei`, when `n` bytes have been written from `off` on.
abbrev pub grow : Superblock → ℕ → ℕ → Inode → Disk → Inode × Disk
grow sb off n ip d =
    if ltb 0 n
    then if ltb ip.size (off + n)
      then (record ip { size = off + n }, iupdate sb (record ip { size = off + n }) d)
      else (ip, d)
    else (ip, d)

-- `writei` to an inode that is no device.
pub writei : Superblock → ℕ → ℕ → Inode → Disk → Block → Option (Inode × Disk × Moved)
unfolding write_from iupdate
writei sb off n ip d src =
    if ltb ip.size off || ltb (add32 off n) off
    then some (ip, d, refused)
    else if ltb (max_blocks * bsize) (add32 off n)
    then some (ip, d, refused)
    else elim (write_from n sb n off ip d src) [
      | none ↦ none
      | some (ip', d') ↦ let (ip'', d'') = grow sb off n ip' d' in some (ip'', d'', moved n)
    ]
