-- ===== src/Fs/Blocks/Tests.antt =====
-- Runs of the allocator on a small disk, and its theorems at them.
use cs.Prelude.{
  ℕ, ◌+◌, ◌/◌, ◌≡◌, subst, sym, ◌<◌, ◌⊎◌, ◌==◌, if◌then◌else◌, refl, true, some, none, arith,
}
use cs.Fs.{Disk, Superblock}
use cs.Fs.Blocks.{balloc, is_marked, bfree}
use cs.Fs.Blocks.Bitmap.{IsBytes, in_use}
use cs.Fs.Blocks.Free.{BitmapUsed, taken, Allocated, balloc-Allocated}

-- Ten blocks; the bitmap is block 2, and the blocks 0 to 4 are in use.
abbrev small : Superblock
small = record { size = 10; ninodes = 8; inodestart = 1; bmapstart = 2 }

abbrev disk : Disk
disk b i = if b == 2 then if i == 0 then 31 else 0 else 7

disk-IsBytes : (b : ℕ) → IsBytes (disk b)
disk-IsBytes b i = ground arith

map_used : BitmapUsed small disk
unfolding is_marked
map_used b h =
    let e : b / 4096 ≡ 0 = omega arith in subst (λ q. in_use small disk (q + 2) ≡ true) (sym e) refl

takes_5 : balloc small disk ≡ some (taken 5 small disk, 5)
unfolding balloc
takes_5 = refl

frees_free : bfree 7 small disk ≡ none
unfolding bfree
frees_free = refl

balloc-Allocated_example :
    ((a : ℕ) × (d' : Disk) × (balloc small disk ≡ some (d', a)) × Allocated small disk d' a)
    ⊎ ((balloc small disk ≡ none) × ((b : ℕ) → b < 10 → in_use small disk b ≡ true))
balloc-Allocated_example = balloc-Allocated small disk disk-IsBytes map_used
