-- ===== src/Fs/Files/Indirect.antt =====
-- bmap: a block that the indirect block names.
use cs.Prelude.{
  ℕ, suc, ◌+◌, ◌-◌, ◌*◌, ◌%◌, ◌≤◌, ◌<◌, ◌≡◌, ◌≢◌, inl, inr, refl, sym, ◌∙◌, ap, subst, ◌==◌, ltb,
  if◌then◌else◌, Bool, true, false, Bool-cases, some, arith, ==_ne, total-same, lt→ltb, ltb→lt,
  update, update_self, update_ne,
}
use cs.Fs.{Block, Disk, Superblock}
use cs.Fs.Blocks.{bblock, bpb, is_marked, balloc}
use cs.Fs.Blocks.Bitmap.{IsBytes, in_use}
use cs.Fs.Blocks.Free.{Allocated}
use cs.Fs.Files.{Inode, word, put_word, bmap_entry}
use cs.Fs.Files.Words.{word-put_word, word-put_word_ne, put_word-IsBytes}
use cs.Fs.Files.Slots.{
  slot, IsFile, free_blocks, free_blocks-Allocated, filled-IsFile, filled-content,
}
use cs.Fs.Files.Taken.{Mapped, Mapped-already, balloc-free, ℕ-cases, boot-ne, kept-slot}

pub entry-slot :
    (ip : Inode) (D : Disk) (j : ℕ)
    → j < 128
    → ip.addrs 12 ≢ 0
    → slot ip D (13 + j) ≡ word (D (ip.addrs 12)) (4 * j)
entry-slot ip D j h indirect =
    let x : ltb (13 + j) 13 ≡ false = ground arith in
    let y : ltb (13 + j) 141 ≡ true = lt→ltb (13 + j) 141 (omega arith) in
    let z : (ip.addrs 12 == 0) ≡ false = ==_ne (ip.addrs 12) 0 indirect in
    let w : 13 + j - 13 ≡ j = omega arith in rw (x, y, z, w) refl

-- A new block for the entry `k` of the indirect block.
module _ (sb : Superblock) (k : ℕ) (ip : Inode) (d d' : Disk) (a : ℕ) (low : k < 128)
    (f : IsFile sb ip d) (al : Allocated sb d d' a) (indirect : ip.addrs 12 ≢ 0)
    (empty : word (d (ip.addrs 12)) (4 * k) ≡ 0) where
  pub with_entry : Disk
  with_entry = update d' (ip.addrs 12) (put_word (d' (ip.addrs 12)) (4 * k) a)

  not_new : (a ≢ ip.addrs 12) × (d' (ip.addrs 12) ≡ d (ip.addrs 12))
  not_new = kept-slot sb ip d d' a 12 f al indirect

  entry_bits : (b : ℕ) → b < sb.size → in_use sb with_entry b ≡ in_use sb d' b
  unfolding with_entry
  entry_bits b h =
      ap (λ x. is_marked x (b % bpb))
        (update_ne d' (ip.addrs 12) (put_word (d' (ip.addrs 12)) (4 * k) a) (bblock b sb)
          (λ e. (f.owned 12 indirect).outside b h (sym e)))

  entry_bytes : (b : ℕ) → IsBytes (with_entry b)
  unfolding with_entry
  entry_bytes b = elim (Bool-cases (ip.addrs 12 == b)) [
    | inl this ↦ rw this (put_word-IsBytes (d' (ip.addrs 12)) (4 * k) a (al.bytes (ip.addrs 12)))
    | inr other ↦ rw other (al.bytes b)
  ]

  stored : with_entry (ip.addrs 12) ≡ put_word (d' (ip.addrs 12)) (4 * k) a
  unfolding with_entry
  stored = update_self d' (ip.addrs 12) (put_word (d' (ip.addrs 12)) (4 * k) a)

  entry_here : slot ip with_entry (13 + k) ≡ a
  entry_here =
      entry-slot ip with_entry k low indirect
      ∙ ap (λ x. word x (4 * k)) stored
      ∙ word-put_word (d' (ip.addrs 12)) (4 * k) a (omega (arith, al.inside, f.fs.small))

  entry_there : (n : ℕ) → 13 + k ≢ n → slot ip with_entry n ≡ slot ip d n
  entry_there n ne = elim (Bool-cases (ltb n 13)) [
    | inl direct ↦ rw direct refl
    | inr above ↦ elim (Bool-cases (ltb n 141)) [
      | inr out ↦ rw (above, out) refl
      | inl inside ↦
          let j : ℕ = n - 13 in
          let h : j < 128 = omega (arith, ltb→lt n 141 inside) in
          let e : 13 + j ≡ n = ground arith in
          subst (λ q. slot ip with_entry q ≡ slot ip d q) e
            (entry-slot ip with_entry j h indirect
              ∙ ap (λ x. word x (4 * j)) stored
              ∙ word-put_word_ne (d' (ip.addrs 12)) k j a (λ q. ne (omega arith))
              ∙ ap (λ x. word x (4 * j)) not_new.1
              ∙ sym (entry-slot ip d j h indirect))
    ]
  ]

  entry_keeps : (n : ℕ) → n ≢ 12 → slot ip d n ≢ 0 → with_entry (slot ip d n) ≡ d (slot ip d n)
  unfolding with_entry
  entry_keeps n ne full =
      update_ne d' (ip.addrs 12) (put_word (d' (ip.addrs 12)) (4 * k) a) (slot ip d n)
        (λ e. ne (sym (f.distinct 12 n indirect e)))
      ∙ (kept-slot sb ip d d' a n f al full).1

  entry_zeroed : (j : ℕ) → with_entry a j ≡ 0
  unfolding with_entry
  entry_zeroed j =
      ap (λ (x : Block). x j)
        (update_ne d' (ip.addrs 12) (put_word (d' (ip.addrs 12)) (4 * k) a) a
          (λ e. not_new.0 (sym e)))
      ∙ al.zeroed j

  pub Mapped-entry : Mapped sb (13 + k) 1 ip d ip with_entry a
  Mapped-entry = record {
    valid =
        filled-IsFile sb d d' with_entry a al entry_bits ip ip (13 + k) entry_bytes refl entry_here
          entry_there f;
    here = entry_here;
    nonzero = boot-ne sb d d' a f.fs al;
    same = λ j.
        filled-content sb d d' with_entry a al entry_bits ip ip (13 + k) j
          (entry-slot ip d k low indirect ∙ empty) entry_here entry_there entry_keeps
          (λ ne. entry_zeroed);
    same_size = refl;
    same_inum = refl;
    same_kind = refl;
    stays = λ n ne.
        entry_there n (λ e. ne (ap (slot ip d) (sym e) ∙ entry-slot ip d k low indirect ∙ empty));
    spent = omega (arith, free_blocks-Allocated sb d d' a al, fewer);
  }
    where
      fewer : free_blocks sb with_entry ≡ free_blocks sb d'
      fewer = total-same sb.size _ _ (λ b h. ap (λ (q : Bool). if q then 0 else 1) (entry_bits b h))

bmap_entry-new :
    (sb : Superblock) (k addr : ℕ) (ip : Inode) (d d' : Disk) (a : ℕ)
    → word (d addr) (4 * k) ≡ 0
    → balloc sb d ≡ some (d', a)
    → bmap_entry sb k addr ip d ≡ some (ip, update d' addr (put_word (d' addr) (4 * k) a), a)
unfolding bmap_entry
bmap_entry-new sb k addr ip d d' a e got = rw (e, got, bmap_entry) refl

pub bmap_entry-Mapped :
    (sb : Superblock) (k : ℕ) (ip : Inode) (d : Disk)
    → k < 128
    → IsFile sb ip d
    → ip.addrs 12 ≢ 0
    → 1 ≤ free_blocks sb d
    → (ip' : Inode) × (d' : Disk) × (a : ℕ) × (bmap_entry sb k (ip.addrs 12) ip d
        ≡ some (ip', d', a))
      × Mapped sb (13 + k) 1 ip d ip' d' a
unfolding bmap_entry with_entry
bmap_entry-Mapped sb k ip d low f indirect room = elim (ℕ-cases (word (d (ip.addrs 12)) (4 * k))) [
  | inr (a, e) ↦ (
    ip,
    d,
    suc a,
    rw (e, bmap_entry) refl,
    Mapped-already sb (13 + k) ip d a f (entry-slot ip d k low indirect ∙ e),
  )
  | inl e ↦
      let (a, d', got, al) = balloc-free sb d f.fs room in
      (
        ip,
        with_entry sb k ip d d' a low f al indirect e,
        a,
        bmap_entry-new sb k (ip.addrs 12) ip d d' a e got,
        Mapped-entry sb k ip d d' a low f al indirect e,
      )
]
