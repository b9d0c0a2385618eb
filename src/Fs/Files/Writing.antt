-- ===== src/Fs/Files/Writing.antt =====
-- The loop of writei: what the file then holds.
use cs.Prelude.{
  ℕ, zero, suc, ◌+◌, ◌-◌, ◌*◌, ◌/◌, ◌%◌, ◌≤◌, ◌<◌, ◌≡◌, ◌≢◌, inl, inr, refl, sym, ◌∙◌, ap, ltb,
  Bool-cases, some, arith, ltb→lt, update,
}
use cs.Fs.{Block, Disk, Superblock}
use cs.Fs.Blocks.Bitmap.{IsBytes}
use cs.Fs.Files.{Inode, bsize, max_blocks, splice, piece, write_from}
use cs.Fs.Files.Slots.{slot, data_slot, content, IsHeld, IsFile, free_blocks}
use cs.Fs.Files.Taken.{Mapped}
use cs.Fs.Files.Mapping.{bmap-Mapped}
use cs.Fs.Files.Stores.{own-IsOutside, same_free, data-slot, data-IsFile, data-content}
use cs.Fs.Files.Contents.{
  overlay, overlay-none, overlay-same, overlay-overlay, blocks_of, piece_bounds, blocks_of-piece,
  splice-IsBytes, round-content,
}

-- What the loop leaves: the file is sound, and holds the new bytes in place of the old.
pub record Written (sb : Superblock) (off n : ℕ) (src : Block) (ip : Inode) (d : Disk) (ip' : Inode)
    (d' : Disk) : Type 0 where
  pub valid : IsFile sb ip' d'
  pub holds : (k : ℕ) → content ip' d' k ≡ overlay (content ip d) off n src k
  pub same_size : ip'.size ≡ ip.size
  pub same_inum : ip'.inum ≡ ip.inum
  pub same_kind : ip'.kind ≡ ip.kind
  pub stays : (n : ℕ) → slot ip d n ≢ 0 → slot ip' d' n ≡ slot ip d n
  pub held : IsHeld ip' d' off (off + n)
  pub spent : free_blocks sb d ≤ free_blocks sb d' + 2 * blocks_of off n

Written-nothing :
    (sb : Superblock) (off n : ℕ) (src : Block) (ip : Inode) (d : Disk)
    → n ≡ 0
    → IsFile sb ip d
    → Written sb off n src ip d ip d
Written-nothing sb off n src ip d z f = record {
  valid = f;
  holds = λ k.
      sym (overlay-none (content ip d) off src k)
      ∙ ap (λ q. overlay (content ip d) off q src k) (sym z);
  same_size = refl;
  same_inum = refl;
  same_kind = refl;
  stays = λ k ne. refl;
  held = λ k lo hi. absurd (omega arith);
  spent = omega arith;
}

-- A round, and the rounds after it.
Written-then :
    (sb : Superblock) (left off m : ℕ) (ip ip1 ip3 : Inode) (d d1 d3 : Disk) (a : ℕ) (src : Block)
    → Mapped sb (data_slot (off / bsize)) 2 ip d ip1 d1 a
    → IsBytes src
    → off % bsize + m ≤ bsize
    → m ≤ left
    → blocks_of (off + m) (left - m) + 1 ≤ blocks_of off left
    → Written sb
        (off + m)
        (left - m)
        (λ i. src (m + i))
        ip1
        (update d1 a (splice (d1 a) (off % bsize) src m))
        ip3
        d3
    → Written sb off left src ip d ip3 d3
Written-then sb left off m ip ip1 ip3 d d1 d3 a src m1 by inside le cost w = record {
  valid = w.valid;
  holds = λ k.
      w.holds k
      ∙ overlay-same (content ip1 (update d1 a (splice (d1 a) (off % bsize) src m)))
          (overlay (content ip d) off m src) (off + m) (left - m) (λ i. src (m + i)) k (this k)
      ∙ overlay-overlay (content ip d) off m left src k le;
  same_size = w.same_size ∙ m1.same_size;
  same_inum = w.same_inum ∙ m1.same_inum;
  same_kind = w.same_kind ∙ m1.same_kind;
  stays = λ k ne.
      w.stays k (λ z. ne (sym (m1.stays k ne) ∙ sym (moved_slot k) ∙ z))
      ∙ moved_slot k
      ∙ m1.stays k ne;
  held = λ k lo hi. elim (Bool-cases (ltb k (off + m))) [
    | inr later ↦ w.held k (ground arith) (omega arith)
    | inl now ↦
        let q : k / bsize ≡ off / bsize = this_block k lo (ltb→lt k (off + m) now) in
        let some_slot : slot ip1 (update d1 a (splice (d1 a) (off % bsize) src m))
              (data_slot (k / bsize))
            ≢ 0 =
          λ z. m1.nonzero (
            sym m1.here
            ∙ ap (λ b. slot ip1 d1 (data_slot b)) (sym q)
            ∙ sym (moved_slot (data_slot (k / bsize)))
            ∙ z) in
        λ z. some_slot (sym (w.stays (data_slot (k / bsize)) some_slot) ∙ z)
  ];
  spent = omega (arith, w.spent, m1.spent, cost, free2);
}
  where
    free2 : free_blocks sb (update d1 a (splice (d1 a) (off % bsize) src m)) ≡ free_blocks sb d1
    free2 =
        let h = splice-IsBytes (d1 a) (off % bsize) m src (m1.valid.fs.bytes a) by in
        same_free sb d1 a (splice (d1 a) (off % bsize) src m) (
          own-IsOutside sb ip1 d1 (off / bsize) a (splice (d1 a) (off % bsize) src m) m1.valid
            m1.here m1.nonzero h)

    this_block : (k : ℕ) → off ≤ k → k < off + m → k / bsize ≡ off / bsize
    this_block k lo hi = omega arith

    moved_slot :
        (k : ℕ) → slot ip1 (update d1 a (splice (d1 a) (off % bsize) src m)) k ≡ slot ip1 d1 k
    moved_slot =
        data-slot sb ip1 d1 (off / bsize) a (splice (d1 a) (off % bsize) src m) m1.valid m1.here
          m1.nonzero (splice-IsBytes (d1 a) (off % bsize) m src (m1.valid.fs.bytes a) by)

    this :
        (k : ℕ)
        → content ip1 (update d1 a (splice (d1 a) (off % bsize) src m)) k
          ≡ overlay (content ip d) off m src k
    this k =
        data-content sb ip1 d1 (off / bsize) a (splice (d1 a) (off % bsize) src m) m1.valid m1.here
          m1.nonzero (splice-IsBytes (d1 a) (off % bsize) m src (m1.valid.fs.bytes a) by) k
        ∙ round-content ip1 d1 a off m k src m1.here m1.nonzero inside
        ∙ overlay-same (content ip1 d1) (content ip d) off m src k (m1.same k)

-- The loop of writei, with a round's fuel for each byte and two free blocks for each block that the
-- bytes lie in.
pub write_from-Written :
    (fuel : ℕ) (sb : Superblock) (left off : ℕ) (ip : Inode) (d : Disk) (src : Block)
    → left ≤ fuel
    → IsFile sb ip d
    → IsBytes src
    → off + left ≤ max_blocks * bsize
    → 2 * blocks_of off left ≤ free_blocks sb d
    → (ip' : Inode) × (d' : Disk) × (write_from fuel sb left off ip d src ≡ some (ip', d'))
      × Written sb off left src ip d ip' d'
unfolding write_from
write_from-Written zero sb left off ip d src fu f by fits room =
    let z : left ≡ 0 = omega arith in (ip, d, refl, Written-nothing sb off left src ip d z f)
write_from-Written (suc fuel) sb left off ip d src fu f by fits room =
    elim (Bool-cases (ltb 0 left)) [
      | inr done ↦
          (ip, d, rw (done, write_from) refl, Written-nothing sb off left src ip d (ground arith) f)
      | inl more ↦
          let lt : 0 < left = ltb→lt 0 left more in
          let m : ℕ = piece left off in
          let (pos, le, inside, full) = piece_bounds left off lt in
          let (one, cheaper) = blocks_of-piece left off lt in
          let (ip1, d1, a, e1, m1) =
            bmap-Mapped sb (off / bsize) ip d (omega arith) f (omega (arith, room)) in
          let x : Block = splice (d1 a) (off % bsize) src m in
          let x-IsBytes : IsBytes x =
            splice-IsBytes (d1 a) (off % bsize) m src (m1.valid.fs.bytes a) by in
          let d2 : Disk = update d1 a x in
          let f2 : IsFile sb ip1 d2 =
            data-IsFile sb ip1 d1 (off / bsize) a x m1.valid m1.here m1.nonzero x-IsBytes in
          let free2 : free_blocks sb d2 ≡ free_blocks sb d1 =
            same_free sb d1 a x
              (own-IsOutside sb ip1 d1 (off / bsize) a x m1.valid m1.here m1.nonzero x-IsBytes) in
          let (ip3, d3, e3, w) =
            write_from-Written fuel sb (left - m) (off + m) ip1 d2 (λ i. src (m + i)) (omega arith)
              f2 (λ i. by (m + i)) (omega arith) (omega (arith, cheaper, m1.spent, room, free2)) in
          (
            ip3,
            d3,
            rw (more, e1, write_from) e3,
            Written-then sb left off m ip ip1 ip3 d d1 d3 a src m1 by inside le cheaper w,
          )
    ]
