-- ===== src/Fs/Files/Dinodes.antt =====
-- fs.c: inodes on the disk, as ilock reads them and ialloc finds them. What is done with the inode
-- cache is in Fs/Icache.antt.
pub mod Loading
pub mod Taking
mod Tests
use cs.Prelude.{
  ℕ, zero, suc, ◌+◌, ◌-◌, ◌*◌, ◌%◌, ◌==◌, ltb, if◌then◌else◌, true, false, Option, some, none,
  update,
}
use cs.Fs.{Block, Disk, Superblock}
use cs.Fs.Files.{Inode, word, splice, half_byte, iblock}

-- The `short` at the byte `j` of a block, as its word.
pub half : Block → ℕ → ℕ
half x j = x j + 256 * x (j + 1)

-- The inode as ilock copies it from its place in the block `x`, `o` being `inum%IPB` inodes.
pub from_dinode : ℕ → Block → ℕ → Inode
unfolding half word
from_dinode inum x o = record {
  inum = inum;
  kind = half x o;
  major = half x (o + 2);
  minor = half x (o + 4);
  nlink = half x (o + 6);
  size = word x (o + 8);
  addrs = λ k. word x (o + 12 + 4 * k);
}

pub load : Superblock → ℕ → Disk → Inode
unfolding from_dinode
load sb inum d = from_dinode inum (d (iblock inum sb)) (inum % 8 * 64)

-- `memset(dip, 0, sizeof(*dip))` and `dip->type = type`.
abbrev pub fresh_byte : ℕ → ℕ → ℕ
fresh_byte kind i = if ltb i 2 then half_byte kind i else 0

pub claim : Superblock → ℕ → ℕ → Disk → Disk
claim sb inum kind d =
    let b = iblock inum sb in update d b (splice (d b) (inum % 8 * 64) (fresh_byte kind) 64)

-- The loop of `ialloc`, up to iget: `n` inodes are left, from `inum` on. `none` is the panic.
pub ialloc_from : ℕ → ℕ → Superblock → ℕ → Disk → Option (Disk × ℕ)
unfolding load claim
ialloc_from zero inum sb kind d = none
ialloc_from (suc n) inum sb kind d = elim ((load sb inum d).kind == 0) [
  | true ↦ some (claim sb inum kind d, inum)
  | false ↦ ialloc_from n (inum + 1) sb kind d
]

pub ialloc : Superblock → ℕ → Disk → Option (Disk × ℕ)
unfolding ialloc_from
ialloc sb kind d = ialloc_from (sb.ninodes - 1) 1 sb kind d
