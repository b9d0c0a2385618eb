-- ===== src/Fs/Files/Direct.antt =====
-- bmap: a block that the inode itself names.
use cs.Prelude.{
  ℕ, suc, ◌-◌, ◌*◌, ◌≤◌, ◌≡◌, ◌≢◌, ◌⊎◌, inl, inr, refl, sym, ◌∙◌, ap, ◌==◌, ltb, if◌then◌else◌,
  Bool, true, false, Bool-cases, some, arith, ==_iff, lt→ltb, update, update_self, update_ne,
}
use cs.Fs.{Block, Disk, Superblock}
use cs.Fs.Blocks.{balloc}
use cs.Fs.Blocks.Free.{Allocated}
use cs.Fs.Files.{Inode, word, bmap_addr}
use cs.Fs.Files.Words.{word-zero}
use cs.Fs.Files.Slots.{
  entry, slot, IsFile, free_blocks, free_blocks-Allocated, filled-IsFile, filled-content,
}
use cs.Fs.Files.Taken.{Mapped, Mapped-already, balloc-free, ℕ-cases, boot-ne, kept-slot}

-- `ip->addrs[i] = a` of a new block.
module _ (sb : Superblock) (i : ℕ) (ip : Inode) (d d' : Disk) (a : ℕ) (low : i ≤ 12)
    (f : IsFile sb ip d) (al : Allocated sb d d' a) (empty : ip.addrs i ≡ 0) where
  pub with_addr : Inode
  with_addr = record ip { addrs = update ip.addrs i a }

  slot_here : slot with_addr d' i ≡ a
  unfolding with_addr
  slot_here = let e : ltb i 13 ≡ true = lt→ltb i 13 (omega arith) in rw e (update_self ip.addrs i a)

  slot_empty : slot ip d i ≡ 0
  slot_empty = let e : ltb i 13 ≡ true = lt→ltb i 13 (omega arith) in rw e empty

  slot_there : (n : ℕ) → i ≢ n → slot with_addr d' n ≡ slot ip d n
  unfolding with_addr
  slot_there n ne = elim (Bool-cases (ltb n 13)) [
    | inl direct ↦ rw direct (update_ne ip.addrs i a n ne)
    | inr entry_no ↦ elim (Bool-cases (ltb n 141)) [
      | inr out ↦ rw (entry_no, out) refl
      | inl inside ↦ elim (Bool-cases (i == 12)) [
        | inl this ↦
            let e : i ≡ 12 = (==_iff i 12).0 this in
            rw (entry_no, inside)
              (ap (λ v. entry v d' n) (ap (update ip.addrs i a) (sym e) ∙ update_self ip.addrs i a)
                ∙ entry-zero (a == 0) (word-zero (d' a) (4 * (n - 13)) al.zeroed)
                ∙ sym (ap (λ v. entry v d n) (ap ip.addrs (sym e) ∙ empty)))
        | inr other ↦
            rw (entry_no, inside)
              (ap (λ v. entry v d' n) (update_ne ip.addrs i a 12 (λ e. ground (arith, ==_iff i 12)))
                ∙ entry_kept (ℕ-cases (ip.addrs 12)))
      ]
    ]
  ]
    where
      entry-zero :
          (b : Bool)
          → word (d' a) (4 * (n - 13)) ≡ 0
          → (if b then 0 else word (d' a) (4 * (n - 13))) ≡ 0
      entry-zero true h = refl
      entry-zero false h = h

      entry_kept :
          ((ip.addrs 12 ≡ 0) ⊎ ((v : ℕ) × (ip.addrs 12 ≡ suc v)))
          → entry (ip.addrs 12) d' n ≡ entry (ip.addrs 12) d n
      entry_kept (inl z) = rw z refl
      entry_kept (inr (v, e)) =
          let some : ip.addrs 12 ≢ 0 = λ z. omega arith in
          ap (λ (x : Block). if ip.addrs 12 == 0 then 0 else word x (4 * (n - 13)))
            (kept-slot sb ip d d' a 12 f al some).1

  pub Mapped-addr : Mapped sb i 1 ip d with_addr d' a
  unfolding with_addr
  Mapped-addr = record {
    valid =
        filled-IsFile sb d d' d' a al (λ b h. refl) ip with_addr i al.bytes refl slot_here
          slot_there f;
    here = slot_here;
    nonzero = boot-ne sb d d' a f.fs al;
    same = λ k.
        filled-content sb d d' d' a al (λ b h. refl) ip with_addr i k slot_empty slot_here
          slot_there (λ m ne some. (kept-slot sb ip d d' a m f al some).1) (λ ne. al.zeroed);
    same_size = refl;
    same_inum = refl;
    same_kind = refl;
    stays = λ n ne. slot_there n (λ e. ne (ap (slot ip d) (sym e) ∙ slot_empty));
    spent = omega (arith, free_blocks-Allocated sb d d' a al);
  }

bmap_addr-new :
    (sb : Superblock) (i : ℕ) (ip : Inode) (d d' : Disk) (a : ℕ)
    → ip.addrs i ≡ 0
    → balloc sb d ≡ some (d', a)
    → bmap_addr sb i ip d ≡ some (record ip { addrs = update ip.addrs i a }, d', a)
unfolding bmap_addr
bmap_addr-new sb i ip d d' a e got = rw (e, got, bmap_addr) refl

pub bmap_addr-Mapped :
    (sb : Superblock) (i : ℕ) (ip : Inode) (d : Disk)
    → i ≤ 12
    → IsFile sb ip d
    → 1 ≤ free_blocks sb d
    → (ip' : Inode) × (d' : Disk) × (a : ℕ) × (bmap_addr sb i ip d ≡ some (ip', d', a))
      × Mapped sb i 1 ip d ip' d' a
unfolding bmap_addr with_addr
bmap_addr-Mapped sb i ip d low f room = elim (ℕ-cases (ip.addrs i)) [
  | inr (a, e) ↦
      let low' : ltb i 13 ≡ true = lt→ltb i 13 (omega arith) in
      let there : slot ip d i ≡ suc a = rw low' e in
      (ip, d, suc a, rw (e, bmap_addr) refl, Mapped-already sb i ip d a f there)
  | inl e ↦
      let (a, d', got, al) = balloc-free sb d f.fs room in
      (
        with_addr sb i ip d d' a low f al e,
        d',
        a,
        bmap_addr-new sb i ip d d' a e got,
        Mapped-addr sb i ip d d' a low f al e,
      )
]
