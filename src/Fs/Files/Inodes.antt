-- ===== src/Fs/Files/Inodes.antt =====
-- iupdate: the inode's own block, which is none of the file's.
use cs.Prelude.{
  ℕ, ◌-◌, ◌*◌, ◌/◌, ◌%◌, ◌<◌, ◌≡◌, refl, sym, ◌∙◌, ap, ◌==◌, ltb, if◌then◌else◌, Bool, true, false,
  arith, update, update_ne,
}
use cs.Fs.{Block, Disk, Superblock}
use cs.Fs.Blocks.Bitmap.{IsBytes, in_use}
use cs.Fs.Files.{Inode, bsize, splice, half_byte, word_byte, dinode_byte, iblock, iupdate}
use cs.Fs.Files.Slots.{byte_of, slot, data_slot, content, IsFile, IsOutside, free_blocks}
use cs.Fs.Files.Stores.{stored-IsFile, same_slot, same_free, same_bits}
use cs.Fs.Files.Contents.{splice-IsBytes}

half_byte-bound : (v j : ℕ) → half_byte v j < 256
half_byte-bound v j = ground arith

word_byte-bound : (v j : ℕ) → word_byte v j < 256
word_byte-bound v j = ground arith

dinode_byte-IsBytes : (ip : Inode) → IsBytes (dinode_byte ip)
unfolding dinode_byte
dinode_byte-IsBytes ip i = below (ltb i 2) (half_byte-bound ip.kind i) (
    below (ltb i 4) (half_byte-bound ip.major (i - 2)) (
      below (ltb i 6) (half_byte-bound ip.minor (i - 4)) (
        below (ltb i 8) (half_byte-bound ip.nlink (i - 6)) (
          below (ltb i 12) (word_byte-bound ip.size (i - 8))
            (word_byte-bound (ip.addrs ((i - 12) / 4)) ((i - 12) % 4))))))
  where
    below : (b : Bool) {v w : ℕ} → v < 256 → w < 256 → (if b then v else w) < 256
    below true h k = h
    below false h k = k

-- The inode's block stored: the file stays sound and holds what it held, in the same blocks.
pub iupdate-IsFile :
    (sb : Superblock) (ip : Inode) (d : Disk)
    → IsFile sb ip d
    → IsFile sb ip (iupdate sb ip d)
      × ((k : ℕ) → content ip (iupdate sb ip d) k ≡ content ip d k)
      × ((n : ℕ) → slot ip (iupdate sb ip d) n ≡ slot ip d n)
unfolding iupdate
iupdate-IsFile sb ip d f =
    (stored-IsFile sb d (iblock ip.inum sb) x f.inode.outside ip ip bytes refl slots f, kept, slots)
  where
    x : Block
    x = splice (d (iblock ip.inum sb)) (ip.inum % 8 * 64) (dinode_byte ip) 64

    bytes : IsBytes x
    bytes =
        splice-IsBytes (d (iblock ip.inum sb)) (ip.inum % 8 * 64) 64 (dinode_byte ip)
          (f.fs.bytes (iblock ip.inum sb)) (dinode_byte-IsBytes ip)

    slots : (n : ℕ) → slot ip (update d (iblock ip.inum sb) x) n ≡ slot ip d n
    slots = same_slot sb d (iblock ip.inum sb) x f.inode.outside ip (λ e. f.no_inode 12 (sym e))

    kept : (k : ℕ) → content ip (update d (iblock ip.inum sb) x) k ≡ content ip d k
    kept k =
        ap (λ b. byte_of b (update d (iblock ip.inum sb) x) k) (slots (data_slot (k / bsize)))
        ∙ ap (λ (y : Block). if slot ip d (data_slot (k / bsize)) == 0 then 0 else y (k % bsize))
            (update_ne d (iblock ip.inum sb) x (slot ip d (data_slot (k / bsize)))
              (λ e. f.no_inode (data_slot (k / bsize)) (sym e)))

pub iupdate-free :
    (sb : Superblock) (ip : Inode) (d : Disk)
    → IsOutside sb (iblock ip.inum sb)
    → free_blocks sb (iupdate sb ip d) ≡ free_blocks sb d
unfolding iupdate
iupdate-free sb ip d out =
    same_free sb d (iblock ip.inum sb)
      (splice (d (iblock ip.inum sb)) (ip.inum % 8 * 64) (dinode_byte ip) 64) out

pub iupdate-in_use :
    (sb : Superblock) (ip : Inode) (d : Disk) (b : ℕ)
    → IsOutside sb (iblock ip.inum sb)
    → b < sb.size
    → in_use sb (iupdate sb ip d) b ≡ in_use sb d b
unfolding iupdate
iupdate-in_use sb ip d b out h =
    same_bits sb d (iblock ip.inum sb)
      (splice (d (iblock ip.inum sb)) (ip.inum % 8 * 64) (dinode_byte ip) 64) out b h

-- The size is no part of what makes a file sound.
pub sized-IsFile :
    (sb : Superblock) (ip : Inode) (d : Disk) (n : ℕ)
    → IsFile sb ip d
    → IsFile sb (record ip { size = n }) d
sized-IsFile sb ip d n f = record {
  fs = f.fs;
  inode = f.inode;
  owned = f.owned;
  no_inode = f.no_inode;
  distinct = f.distinct;
}
