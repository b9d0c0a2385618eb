-- ===== src/Fs/Files/Saving.antt =====
-- writei as a whole.
use cs.Prelude.{
  u32_mod, max, ℕ, ◌+◌, ◌*◌, ◌≤◌, ◌<◌, ◌≡◌, ◌≢◌, ◌⊎◌, ◌||◌, inl, inr, refl, sym, ◌∙◌, ◌/◌, ◌∙◌, ap,
  ltb, false, Bool-cases, some, arith, ltb→lt, add32,
}
use cs.Fs.{Block, Disk, Superblock}
use cs.Fs.Blocks.Bitmap.{IsBytes}
use cs.Fs.Files.{Inode, bsize, max_blocks, write_from, iupdate, grow, writei, refused, moved}
use cs.Fs.Files.Slots.{slot, data_slot, content, IsHeld, IsFile, free_blocks}
use cs.Fs.Files.Inodes.{iupdate-IsFile, iupdate-free, sized-IsFile}
use cs.Fs.Files.Contents.{overlay, blocks_of}
use cs.Fs.Files.Writing.{Written, write_from-Written}
use cs.Fs.Files.Ranges.{too_far-true, too_far-false}

-- What writei leaves: the new bytes in place of the old, and a size that covers them.
pub record Saved (sb : Superblock) (off n : ℕ) (src : Block) (ip : Inode) (d : Disk) (ip' : Inode)
    (d' : Disk) : Type 0 where
  pub valid : IsFile sb ip' d'
  pub holds : (k : ℕ) → content ip' d' k ≡ overlay (content ip d) off n src k
  pub new_size : ip'.size ≡ max ip.size (off + n)
  pub same_inum : ip'.inum ≡ ip.inum
  pub same_kind : ip'.kind ≡ ip.kind
  pub held : IsHeld ip' d' off (off + n)
  pub stays : (k : ℕ) → slot ip d k ≢ 0 → slot ip' d' k ≡ slot ip d k
  pub spent : free_blocks sb d ≤ free_blocks sb d' + 2 * blocks_of off n

-- The end of writei: the size, and the inode's block.
grown-Saved :
    (sb : Superblock) (off n : ℕ) (src : Block) (ip : Inode) (d : Disk) (ip1 : Inode) (d1 : Disk)
    → off ≤ ip.size
    → Written sb off n src ip d ip1 d1
    → (ip' : Inode) × (d' : Disk) × (grow sb off n ip1 d1 ≡ (ip', d'))
      × Saved sb off n src ip d ip' d'
grown-Saved sb off n src ip d ip1 d1 le w = elim (Bool-cases (ltb 0 n)) [
  | inr no_bytes ↦
      (ip1, d1, rw no_bytes refl, as_it_is (ground (arith, w.same_size, none_left no_bytes)))
  | inl some_bytes ↦ elim (Bool-cases (ltb ip1.size (off + n))) [
    | inr inside ↦ (ip1, d1, rw (some_bytes, inside) refl, as_it_is (ground (arith, w.same_size)))
    | inl grows ↦
        let (f, c, moves) =
          iupdate-IsFile sb (record ip1 { size = off + n }) d1
            (sized-IsFile sb ip1 d1 (off + n) w.valid) in
        (
          record ip1 { size = off + n },
          iupdate sb (record ip1 { size = off + n }) d1,
          rw (some_bytes, grows) refl,
          record {
            valid = f;
            holds = λ k. c k ∙ w.holds k;
            new_size = ground (arith, w.same_size);
            same_inum = w.same_inum;
            same_kind = w.same_kind;
            stays = λ k ne. moves k ∙ w.stays k ne;
            held = λ k lo hi z. w.held k lo hi (sym (moves (data_slot (k / bsize))) ∙ z);
            spent = omega (
              arith,
              w.spent,
              iupdate-free sb (record ip1 { size = off + n }) d1 w.valid.inode.outside,
            );
          },
        )
  ]
]
  where
    none_left : ltb 0 n ≡ false → n ≡ 0
    none_left h = ground arith

    as_it_is : ip1.size ≡ max ip.size (off + n) → Saved sb off n src ip d ip1 d1
    as_it_is e = record {
      valid = w.valid;
      holds = w.holds;
      new_size = e;
      same_inum = w.same_inum;
      same_kind = w.same_kind;
      held = w.held;
      stays = w.stays;
      spent = w.spent;
    }

writei-moved :
    (sb : Superblock) (off n : ℕ) (ip ip1 ip2 : Inode) (d d1 d2 : Disk) (src : Block)
    → (ltb ip.size off || ltb (add32 off n) off) ≡ false
    → add32 off n ≡ off + n
    → ltb (max_blocks * bsize) (off + n) ≡ false
    → write_from n sb n off ip d src ≡ some (ip1, d1)
    → grow sb off n ip1 d1 ≡ (ip2, d2)
    → writei sb off n ip d src ≡ some (ip2, d2, moved n)
unfolding writei
writei-moved sb off n ip ip1 ip2 d d1 d2 src near sum fits e1 e2 =
    rw (near, sum, fits, e1, writei) (ap (λ (r : Inode × Disk). some (r.0, r.1, moved n)) e2)

-- `writei` of `n` bytes from `off` on to a sound file, with two free blocks for each block that they
-- lie in: it is refused, and changes nothing, exactly if `off` is behind the end of the file or the
-- bytes are beyond the largest file. Otherwise it says that all `n` bytes are written; the file is
-- sound, holds the bytes from `off` on and what it held elsewhere, and is as long as it was or up to
-- the last byte written.
pub writei-Saved :
    (sb : Superblock) (off n : ℕ) (ip : Inode) (d : Disk) (src : Block)
    → off < u32_mod
    → n < u32_mod
    → IsFile sb ip d
    → IsBytes src
    → (off + n ≤ max_blocks * bsize → 2 * blocks_of off n ≤ free_blocks sb d)
    → (((ip.size < off) ⊎ (max_blocks * bsize < off + n))
        × (writei sb off n ip d src ≡ some (ip, d, refused)))
      ⊎ ((off ≤ ip.size)
          × (off + n ≤ max_blocks * bsize)
          × ((ip' : Inode) × (d' : Disk) × (writei sb off n ip d src ≡ some (ip', d', moved n))
              × Saved sb off n src ip d ip' d'))
unfolding writei
writei-Saved sb off n ip d src o h f by room =
    elim (Bool-cases (ltb ip.size off || ltb (add32 off n) off)) [
      | inl far ↦ inl (behind (too_far-true ip.size off n o h far), rw (far, writei) refl)
      | inr near ↦
          let (le, small) = too_far-false ip.size off n o h near in
          let sum : add32 off n ≡ off + n = omega arith in
          elim (Bool-cases (ltb (max_blocks * bsize) (off + n))) [
            | inl large ↦ inl (
              inr (ltb→lt (max_blocks * bsize) (off + n) large),
              rw (near, sum, large, writei) refl,
            )
            | inr fits ↦
                let bound : off + n ≤ max_blocks * bsize = ground arith in
                let (ip1, d1, e1, w) =
                  write_from-Written n sb n off ip d src (omega arith) f by bound (room bound) in
                let (ip2, d2, e2, s) = grown-Saved sb off n src ip d ip1 d1 le w in
                inr (
                  le,
                  bound,
                  (ip2, d2, writei-moved sb off n ip ip1 ip2 d d1 d2 src near sum fits e1 e2, s),
                )
          ]
    ]
  where
    behind :
        (ip.size < off) ⊎ (u32_mod ≤ off + n) → (ip.size < off) ⊎ (max_blocks * bsize < off + n)
    behind (inl l) = inl l
    behind (inr l) = inr (omega arith)
