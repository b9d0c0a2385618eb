-- ===== src/Fs/Files/Dinodes/Tests.antt =====
-- Inodes of a small disk, on which the inode 1 is in use.
use cs.Prelude.{ℕ, ◌≤◌, ◌<◌, ◌≡◌, ◌≢◌, ◌⊎◌, ◌==◌, if◌then◌else◌, Option, refl, some, none, arith}
use cs.Fs.{Disk, Superblock}
use cs.Fs.Files.{Inode, iupdate}
use cs.Fs.Files.Dinodes.{half, from_dinode, load, ialloc_from, ialloc}
use cs.Fs.Files.Dinodes.Loading.{IsStorable, IsSame, load-iupdate}
use cs.Fs.Files.Dinodes.Taking.{Claimed, ialloc-Claimed}

abbrev small : Superblock
small = record { size = 10; ninodes = 8; inodestart = 1; bmapstart = 2 }

abbrev disk : Disk
disk b i = if b == 1 then if i == 64 then 1 else 0 else 0

abbrev number : Option (Disk × ℕ) → ℕ
number (some (d, i)) = i
number none = 0

takes_2 : number (ialloc small 2 disk) ≡ 2
unfolding ialloc ialloc_from load from_dinode half
takes_2 = refl

abbrev notes : Inode
notes = record {
  inum = 2;
  kind = 2;
  major = 0;
  minor = 0;
  nlink = 1;
  size = 70000;
  addrs = λ k. 300;
}

notes-IsStorable : IsStorable notes
notes-IsStorable = record {
  kind = omega arith;
  major = omega arith;
  minor = omega arith;
  nlink = omega arith;
  size = omega arith;
  addrs = λ k. omega arith;
}

load-iupdate_example :
    IsSame (load small 2 (iupdate small notes disk)) notes
    × ((j : ℕ) → 2 ≢ j → IsSame (load small j (iupdate small notes disk)) (load small j disk))
load-iupdate_example = load-iupdate small notes disk notes-IsStorable

ialloc-Claimed_example :
    ((d' : Disk) × (inum : ℕ) × (ialloc small 2 disk ≡ some (d', inum))
      × Claimed small 2 disk d' inum)
    ⊎ ((ialloc small 2 disk ≡ none) × ((j : ℕ) → 1 ≤ j → j < 8 → (load small j disk).kind ≢ 0))
ialloc-Claimed_example = ialloc-Claimed small 2 disk (omega arith)
