-- ===== src/Fs/Files/Truncate.antt =====
-- fs.c: itrunc, which gives up all blocks of a file.
pub mod Dropping
pub mod Loops
pub mod Whole
use cs.Prelude.{ℕ, zero, suc, ◌+◌, ◌*◌, Option, some, none, update}
use cs.Fs.{Disk, Superblock}
use cs.Fs.Blocks.{bfree}
use cs.Fs.Files.{Inode, ndirect, nindirect, word, iupdate}

-- The first loop of `itrunc`: `n` of the direct blocks are left, from `i` on. `none` is a panic of
-- bfree, here and below.
pub drop_direct : ℕ → ℕ → Superblock → Inode → Disk → Option (Inode × Disk)
drop_direct zero i sb ip d = some (ip, d)
drop_direct (suc n) i sb ip d = elim (ip.addrs i) [
  | zero ↦ drop_direct n (i + 1) sb ip d
  | suc a ↦ elim (bfree (suc a) sb d) [
    | none ↦ none
    | some d' ↦ drop_direct n (i + 1) sb (record ip { addrs = update ip.addrs i 0 }) d'
  ]
]

-- The second loop: `n` entries of the block `addr` are left, from `j` on.
pub drop_entries : ℕ → ℕ → ℕ → Superblock → Disk → Option Disk
drop_entries zero j addr sb d = some d
drop_entries (suc n) j addr sb d = elim (word (d addr) (4 * j)) [
  | zero ↦ drop_entries n (j + 1) addr sb d
  | suc a ↦ elim (bfree (suc a) sb d) [ none ↦ none | some d' ↦ drop_entries n (j + 1) addr sb d' ]
]

-- The indirect block, its entries first.
pub drop_indirect : Superblock → Inode → Disk → Option (Inode × Disk)
unfolding drop_entries
drop_indirect sb ip d = elim (ip.addrs ndirect) [
  | zero ↦ some (ip, d)
  | suc addr ↦ elim (drop_entries nindirect 0 (suc addr) sb d) [
    | none ↦ none
    | some d' ↦ elim (bfree (suc addr) sb d') [
      | none ↦ none
      | some d'' ↦ some (record ip { addrs = update ip.addrs ndirect 0 }, d'')
    ]
  ]
]

pub itrunc : Superblock → Inode → Disk → Option (Inode × Disk)
unfolding drop_direct drop_indirect
itrunc sb ip d = elim (drop_direct ndirect 0 sb ip d) [
  | none ↦ none
  | some (ip1, d1) ↦ elim (drop_indirect sb ip1 d1) [
    | none ↦ none
    | some (ip2, d2) ↦ let ip3 = record ip2 { size = 0 } in some (ip3, iupdate sb ip3 d2)
  ]
]
