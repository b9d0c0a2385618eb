-- ===== src/Fs/Files/Transfers.antt =====
-- readi as a whole.
use cs.Prelude.{
  u32_mod, min, ℕ, ◌+◌, ◌-◌, ◌*◌, ◌≤◌, ◌<◌, ◌≡◌, ◌⊎◌, ◌||◌, inl, inr, refl, ap, ltb, if◌then◌else◌,
  false, Bool-cases, some, arith, add32,
}
use cs.Fs.{Block, Disk, Superblock}
use cs.Fs.Files.{Inode, bsize, max_blocks, read_from, readi, refused, moved}
use cs.Fs.Files.Slots.{IsFile, free_blocks}
use cs.Fs.Files.Contents.{blocks_of}
use cs.Fs.Files.Reading.{Read, read_from-Read}
use cs.Fs.Files.Ranges.{too_far-false, too_far-true}

-- The bytes that there are to read.
abbrev pub available : ℕ → ℕ → ℕ → ℕ
available size off n = min n (size - off)

pub readi-moved :
    (sb : Superblock) (off n count : ℕ) (ip ip1 : Inode) (d d1 : Disk) (dst dst1 : Block)
    → (ltb ip.size off || ltb (add32 off n) off) ≡ false
    → (if ltb ip.size (add32 off n) then ip.size - off else n) ≡ count
    → read_from count sb count 0 off ip d dst ≡ some (ip1, d1, dst1)
    → readi sb off n ip d dst ≡ some (ip1, d1, dst1, moved count)
unfolding readi
readi-moved sb off n count ip ip1 d d1 dst dst1 near e e1 =
    rw (near, e, e1, readi) (ap (λ q. some (ip1, d1, dst1, moved q)) e)

-- `readi` of `n` bytes from `off` on of a sound file that is not larger than a file can be, with two
-- free blocks for each block that the bytes lie in: it is refused, and changes nothing, exactly if
-- `off` is behind the end of the file or `off + n` wraps. Otherwise it returns how many bytes there
-- are, `n` or those up to the end of the file, has copied just these to the start of `dst`, and the
-- file is as it was.
pub readi-Read :
    (sb : Superblock) (off n : ℕ) (ip : Inode) (d : Disk) (dst : Block)
    → off < u32_mod
    → n < u32_mod
    → IsFile sb ip d
    → ip.size ≤ max_blocks * bsize
    → 2 * blocks_of off (available ip.size off n) ≤ free_blocks sb d
    → (((ip.size < off) ⊎ (u32_mod ≤ off + n))
        × (readi sb off n ip d dst ≡ some (ip, d, dst, refused)))
      ⊎ ((off ≤ ip.size)
          × (off + n < u32_mod)
          × ((ip' : Inode) × (d' : Disk) × (dst' : Block) × (readi sb off n ip d dst
                ≡ some (ip', d', dst', moved (available ip.size off n)))
              × Read sb 0 off (available ip.size off n) dst ip d ip' d' dst'))
unfolding readi
readi-Read sb off n ip d dst o h f size room =
    elim (Bool-cases (ltb ip.size off || ltb (add32 off n) off)) [
      | inl far ↦ inl (too_far-true ip.size off n o h far, rw (far, readi) refl)
      | inr near ↦
          let (le, small) = too_far-false ip.size off n o h near in
          let sum : add32 off n ≡ off + n = omega arith in
          let count : (if ltb ip.size (add32 off n) then ip.size - off else n)
              ≡ available ip.size off n =
            rw sum (ground arith) in
          let (ip1, d1, dst1, e1, r) =
            read_from-Read (available ip.size off n) sb (available ip.size off n) 0 off ip d dst
              (omega arith) f (omega arith) room in
          inr (
            le,
            small,
            (
              ip1,
              d1,
              dst1,
              readi-moved sb off n (available ip.size off n) ip ip1 d d1 dst dst1 near count e1,
              r,
            ),
          )
    ]
