-- ===== src/Fs/Blocks.antt =====
-- The allocator of disk blocks: a bit for each block, in the blocks from `bmapstart` on.
pub mod Bits
pub mod Bitmap
pub mod Free
mod Tests
use Prim.Native.Nat.{bit_and, bit_or}
use cs.Prelude.{
  ℕ, zero, suc, ◌+◌, ◌-◌, ◌*◌, ◌/◌, ◌%◌, ◌^◌, ◌==◌, ltb, if◌then◌else◌, Bool, true, false, Option,
  some, none, update,
}
use cs.Fs.{Block, Disk, Superblock}

-- BPB
abbrev pub bpb : ℕ
bpb = 4096

-- BBLOCK
abbrev pub bblock : ℕ → Superblock → ℕ
bblock b sb = b / bpb + sb.bmapstart

-- `bp->data[bi/8] & (1 << (bi % 8))`, as a test
unfoldable pub is_marked : Block → ℕ → Bool
is_marked x bi = if bit_and (x (bi / 8)) (2 ^ (bi % 8)) == 0 then false else true

-- `bp->data[bi/8] |= m` and `bp->data[bi/8] &= ~m`
pub mark : Block → ℕ → Block
mark x bi = update x (bi / 8) (bit_or (x (bi / 8)) (2 ^ (bi % 8)))

pub unmark : Block → ℕ → Block
unmark x bi = update x (bi / 8) (bit_and (x (bi / 8)) (255 - 2 ^ (bi % 8)))

-- `bzero`
abbrev pub bzero : ℕ → Disk → Disk
bzero bno d = update d bno (λ i. 0)

-- The inner loop of `balloc`: `n` bits of the block `x` are left, from `bi` on.
pub find_bit : ℕ → ℕ → ℕ → ℕ → Block → Option ℕ
unfolding is_marked
find_bit zero bi b size x = none
find_bit (suc n) bi b size x =
    let rest = find_bit n (bi + 1) b size x in
    if ltb (b + bi) size then if is_marked x bi then rest else some bi else none

-- The outer loop; fuel `n` is spent on a block of the bitmap each.
pub balloc_from : ℕ → ℕ → Superblock → Disk → Option (Disk × ℕ)
unfolding find_bit mark
balloc_from zero b sb d = none
balloc_from (suc n) b sb d = elim (ltb b sb.size) [
  | true ↦ elim (find_bit bpb 0 b sb.size (d (bblock b sb))) [
    | some bi ↦ some (bzero (b + bi) (update d (bblock b sb) (mark (d (bblock b sb)) bi)), b + bi)
    | none ↦ balloc_from n (b + bpb) sb d
  ]
  | false ↦ none
]

-- The disk and the block, or the panic.
pub balloc : Superblock → Disk → Option (Disk × ℕ)
unfolding balloc_from
balloc sb d = balloc_from (sb.size / bpb + 1) 0 sb d

pub bfree : ℕ → Superblock → Disk → Option Disk
unfolding is_marked unmark
bfree b sb d =
    let x = d (bblock b sb) in
    if is_marked x (b % bpb) then some (update d (bblock b sb) (unmark x (b % bpb))) else none
