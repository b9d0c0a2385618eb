-- ===== src/Fs/Files/Sample.antt =====
-- A small file on a small disk, for tests.
use cs.Prelude.{ℕ, ◌+◌, ◌/◌, ◌≡◌, ◌≢◌, refl, sym, ◌∙◌, subst, ◌==◌, if◌then◌else◌, true, arith}
use cs.Fs.{Disk, Superblock}
use cs.Fs.Blocks.{is_marked}
use cs.Fs.Blocks.Bitmap.{in_use}
use cs.Fs.Files.{Inode}
use cs.Fs.Files.Slots.{slot, IsFs, IsOutside, IsOwned, IsFile, free_blocks}

-- Ten blocks; the inodes are in block 1, the bitmap is block 2, and the blocks 0 to 4 are in use.
abbrev pub small : Superblock
small = record { size = 10; ninodes = 8; inodestart = 1; bmapstart = 2 }

abbrev pub disk : Disk
disk b i = if b == 2 then if i == 0 then 31 else 0 else 7

-- A file in block 4, whose bytes are all 7.
abbrev pub sample : ℕ → ℕ → Inode
sample kind size = record {
  inum = 2;
  kind = kind;
  major = 0;
  minor = 0;
  nlink = 1;
  size = size;
  addrs = λ i. if i == 0 then 4 else 0;
}

outside : (a : ℕ) → a ≢ 2 → IsOutside small a
outside a ne b h e = ne (omega arith)

pub sample_slot : (kind size n : ℕ) → slot (sample kind size) disk n ≡ (if n == 0 then 4 else 0)
sample_slot kind size n = ground arith

sample-IsFs : IsFs small disk
unfolding is_marked
sample-IsFs = record {
  bytes = λ b i. ground arith;
  used = λ b h.
      let e : b / 4096 ≡ 0 = omega arith in
      subst (λ q. in_use small disk (q + 2) ≡ true) (sym e) refl;
  map_inside = λ b h. omega arith;
  small = omega arith;
  boot_inside = omega arith;
  boot_used = refl;
}

pub sample-IsFile : (kind size : ℕ) → IsFile small (sample kind size) disk
unfolding is_marked
sample-IsFile kind size = record {
  fs = sample-IsFs;
  inode = record { inside = omega arith; taken = refl; outside = outside 1 (λ e. omega arith) };
  owned = λ n ne.
      subst (IsOwned small disk) (sym (first n ne))
        (record { inside = omega arith; taken = refl; outside = outside 4 (λ e. omega arith) });
  no_inode = λ n e. absurd (ground (arith, sample_slot kind size n));
  distinct = λ n m ne e. ground (arith, sample_slot kind size n, sample_slot kind size m);
}
  where
    first : (n : ℕ) → slot (sample kind size) disk n ≢ 0 → slot (sample kind size) disk n ≡ 4
    first n ne = sample_slot kind size n ∙ ground (arith, sample_slot kind size n, ne)

pub five_free : free_blocks small disk ≡ 5
unfolding is_marked
five_free = refl
