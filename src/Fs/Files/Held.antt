-- ===== src/Fs/Files/Held.antt =====
-- readi where the file has all blocks, and readi after writei.
use cs.Prelude.{
  u32_mod, ℕ, zero, suc, ◌+◌, ◌-◌, ◌*◌, ◌/◌, ◌%◌, ◌≤◌, ◌<◌, ◌≡◌, ◌⊎◌, ◌||◌, inl, inr, refl, ◌∙◌, ap,
  ltb, if◌then◌else◌, Bool-cases, some, arith, ltb→lt, add32,
}
use cs.Fs.{Block, Disk, Superblock}
use cs.Fs.Blocks.Bitmap.{IsBytes}
use cs.Fs.Files.{Inode, bsize, max_blocks, splice, piece, read_from, readi, writei, refused, moved}
use cs.Fs.Files.Slots.{content, IsHeld, IsFile, free_blocks}
use cs.Fs.Files.Mapping.{bmap-kept}
use cs.Fs.Files.Contents.{
  overlay, overlay-inside, overlay-start, blocks_of, piece_bounds, blocks_of-piece,
}
use cs.Fs.Files.Reading.{Read, Read-nothing, Read-then}
use cs.Fs.Files.Ranges.{too_far-true, too_far-false}
use cs.Fs.Files.Saving.{Saved, writei-Saved}
use cs.Fs.Files.Transfers.{available, readi-moved}

-- The loop of readi where the bytes have blocks: inode and disk stay.
pub read_from-Held :
    (fuel : ℕ) (sb : Superblock) (left at off : ℕ) (ip : Inode) (d : Disk) (dst : Block)
    → left ≤ fuel
    → IsFile sb ip d
    → off + left ≤ max_blocks * bsize
    → IsHeld ip d off (off + left)
    → (dst' : Block) × (read_from fuel sb left at off ip d dst ≡ some (ip, d, dst'))
      × Read sb at off left dst ip d ip d dst'
unfolding read_from
read_from-Held zero sb left at off ip d dst fu f fits held =
    (dst, refl, Read-nothing sb at off left dst ip d (omega arith) f)
read_from-Held (suc fuel) sb left at off ip d dst fu f fits held = elim (Bool-cases (ltb 0 left)) [
  | inr done ↦
      (dst, rw (done, read_from) refl, Read-nothing sb at off left dst ip d (ground arith) f)
  | inl more ↦
      let lt : 0 < left = ltb→lt 0 left more in
      let m : ℕ = piece left off in
      let (pos, le, inside, full) = piece_bounds left off lt in
      let (one, cheaper) = blocks_of-piece left off lt in
      let (a, e1, m1) =
        bmap-kept sb (off / bsize) ip d (omega arith) f (held off (omega arith) (omega arith)) in
      let (dst3, e3, r) =
        read_from-Held fuel sb (left - m) (at + m) (off + m) ip d
          (splice dst at (λ i. d a (off % bsize + i)) m) (omega arith) f (omega arith)
          (λ k lo hi. held k (omega arith) (omega arith)) in
      (
        dst3,
        rw (more, e1, read_from) e3,
        Read-then sb at left off m ip ip ip d d d a dst dst3 m1 inside le cheaper r,
      )
]

-- `readi` of `n` bytes from `off` on of a sound file, which is not larger than a file can be and has
-- a block for each byte asked for up to its end: it is refused exactly if `off` is behind the end of
-- the file or `off + n` wraps. Otherwise it returns how many bytes there are, `n` or those up to the
-- end of the file, and has copied just these to the start of `dst`. Inode and disk stay as they are.
pub readi-Held :
    (sb : Superblock) (off n : ℕ) (ip : Inode) (d : Disk) (dst : Block)
    → off < u32_mod
    → n < u32_mod
    → IsFile sb ip d
    → ip.size ≤ max_blocks * bsize
    → IsHeld ip d off (off + available ip.size off n)
    → (((ip.size < off) ⊎ (u32_mod ≤ off + n))
        × (readi sb off n ip d dst ≡ some (ip, d, dst, refused)))
      ⊎ ((off ≤ ip.size)
          × (off + n < u32_mod)
          × ((dst' : Block) × (readi sb off n ip d dst
                ≡ some (ip, d, dst', moved (available ip.size off n)))
              × ((k : ℕ)
                  → dst' k
                    ≡ overlay dst 0 (available ip.size off n) (λ i. content ip d (off + i)) k)))
unfolding readi
readi-Held sb off n ip d dst o h f size held =
    elim (Bool-cases (ltb ip.size off || ltb (add32 off n) off)) [
      | inl far ↦ inl (too_far-true ip.size off n o h far, rw (far, readi) refl)
      | inr near ↦
          let (le, small) = too_far-false ip.size off n o h near in
          let sum : add32 off n ≡ off + n = omega arith in
          let count : (if ltb ip.size (add32 off n) then ip.size - off else n)
              ≡ available ip.size off n =
            rw sum (ground arith) in
          let (dst1, e1, r) =
            read_from-Held (available ip.size off n) sb (available ip.size off n) 0 off ip d dst
              (omega arith) f (omega arith) held in
          inr (
            le,
            small,
            (
              dst1,
              readi-moved sb off n (available ip.size off n) ip ip d d dst dst1 near count e1,
              r.copied,
            ),
          )
    ]

-- `writei` of `n` bytes to a place in a sound file that is not behind its end and leaves it no larger
-- than a file can be, with two free blocks for each block that the bytes lie in, and then `readi` of
-- `n` bytes from there: neither panics, both move all `n` bytes, and those read are those written.
-- The rest of `dst` is as it was, and `readi` changes neither the inode nor the disk.
pub readi-writei :
    (sb : Superblock) (off n : ℕ) (ip : Inode) (d : Disk) (src dst : Block)
    → IsFile sb ip d
    → IsBytes src
    → off ≤ ip.size
    → ip.size ≤ max_blocks * bsize
    → off + n ≤ max_blocks * bsize
    → 2 * blocks_of off n ≤ free_blocks sb d
    → (ip' : Inode) × (d' : Disk) × (dst' : Block) × (writei sb off n ip d src
        ≡ some (ip', d', moved n))
      × (readi sb off n ip' d' dst ≡ some (ip', d', dst', moved n))
      × ((i : ℕ) → i < n → dst' i ≡ src i)
      × ((k : ℕ) → n ≤ k → dst' k ≡ dst k)
readi-writei sb off n ip d src dst f by in_file size fits room =
    elim (writei-Saved sb off n ip d src (omega arith) (omega arith) f by (λ h. room)) [
      | inl (inl l, e) ↦ absurd (omega arith)
      | inl (inr l, e) ↦ absurd (omega arith)
      | inr (le, small, (ip1, d1, e1, s)) ↦
          let (dst1, e2, same, others) = again ip1 d1 s in (ip1, d1, dst1, e1, e2, same, others)
    ]
  where
    again :
        (ip1 : Inode) (d1 : Disk)
        → Saved sb off n src ip d ip1 d1
        → (dst' : Block) × (readi sb off n ip1 d1 dst ≡ some (ip1, d1, dst', moved n))
          × ((i : ℕ) → i < n → dst' i ≡ src i)
          × ((k : ℕ) → n ≤ k → dst' k ≡ dst k)
    again ip1 d1 s =
        let all : available ip1.size off n ≡ n = omega (arith, s.new_size) in
        elim (readi-Held sb off n ip1 d1 dst (omega arith) (omega arith) s.valid
          (omega (arith, s.new_size)) (λ k lo hi. s.held k lo (omega (arith, all)))) [
            | inl (inl l, e) ↦ absurd (omega (arith, s.new_size))
            | inl (inr l, e) ↦ absurd (omega arith)
            | inr (le, small, (dst2, e2, copied)) ↦ (
              dst2,
              e2 ∙ ap (λ q. some (ip1, d1, dst2, moved q)) all,
              λ i lt.
                  copied i
                  ∙ overlay-start dst (available ip1.size off n) (λ i. content ip1 d1 (off + i)) i
                      (omega (arith, all))
                  ∙ s.holds (off + i)
                  ∙ overlay-inside (content ip d) off n src i lt,
              λ k ge.
                  copied k
                  ∙ rest (available ip1.size off n) (λ i. content ip1 d1 (off + i)) k
                      (omega (arith, all)),
            )
          ]
      where
        rest : (m : ℕ) (c : ℕ → ℕ) (k : ℕ) → m ≤ k → overlay dst 0 m c k ≡ dst k
        rest m c k ge = ground arith
