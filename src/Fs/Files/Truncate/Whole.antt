-- ===== src/Fs/Files/Truncate/Whole.antt =====
-- itrunc as a whole.
use cs.Prelude.{
  ℕ, suc, ◌<◌, ◌≡◌, ◌≢◌, ◌||◌, inl, inr, refl, sym, ◌∙◌, ap, subst, ◌==◌, ltb, true, false,
  Bool-cases, some, arith, ==_iff, ltb→lt, update,
}
use cs.Fs.{Disk, Superblock}
use cs.Fs.Blocks.{bblock, bfree}
use cs.Fs.Blocks.Bitmap.{in_use}
use cs.Fs.Files.{Inode, iblock, iupdate}
use cs.Fs.Files.Slots.{slot, IsOwned, IsFile}
use cs.Fs.Files.Taken.{ℕ-cases}
use cs.Fs.Files.Inodes.{iupdate-IsFile, iupdate-in_use}
use cs.Fs.Files.Truncate.{drop_direct, drop_entries, drop_indirect, itrunc}
use cs.Fs.Files.Truncate.Dropping.{Dropped, Dropped-start, Dropped-same, Dropped-more}
use cs.Fs.Files.Truncate.Loops.{
  Cleared, Cleared-next, before, drop_direct-Dropped, drop_entries-Dropped,
}

no_slot : (ip : Inode) (d : Disk) (n : ℕ) → ltb n 12 ≡ false → ip.addrs 12 ≡ 0 → slot ip d n ≡ 0
no_slot ip d n above z = elim (Bool-cases (ltb n 13)) [
  | inl indirect ↦ let e : n ≡ 12 = ground arith in rw indirect (ap ip.addrs e ∙ z)
  | inr entries ↦ elim (Bool-cases (ltb n 141)) [
    | inl inside ↦ rw (entries, inside, z) refl
    | inr out ↦ rw (entries, out) refl
  ]
]

all_slots : (ip : Inode) (d : Disk) (n : ℕ) → slot ip d n ≢ 0 → (12 == n || before 13 128 n) ≡ true
all_slots ip d n ne = elim (Bool-cases (ltb n 141)) [
  | inl inside ↦ covered n (ltb→lt n 141 inside)
  | inr out ↦ let low : ltb n 13 ≡ false = ground arith in absurd (ne (rw (low, out) refl))
]
  where
    covered : (n : ℕ) → n < 141 → (12 == n || before 13 128 n) ≡ true
    covered n h = ground (arith, ==_iff 12 n)

drop_indirect-some :
    (sb : Superblock) (ip : Inode) (d d' d'' : Disk) (addr : ℕ)
    → ip.addrs 12 ≡ suc addr
    → drop_entries 128 0 (suc addr) sb d ≡ some d'
    → bfree (suc addr) sb d' ≡ some d''
    → drop_indirect sb ip d ≡ some (record ip { addrs = update ip.addrs 12 0 }, d'')
unfolding drop_indirect
drop_indirect-some sb ip d d' d'' addr full e1 e2 = rw (full, e1, e2, drop_indirect) refl

drop_indirect-Dropped :
    (sb : Superblock) (ip ip1 : Inode) (d d1 : Disk)
    → IsFile sb ip d
    → Cleared 12 ip ip1
    → Dropped sb ip d (λ k. ltb k 12) d1
    → (ip2 : Inode) × (d2 : Disk) × (drop_indirect sb ip1 d1 ≡ some (ip2, d2))
      × (ip2.inum ≡ ip.inum)
      × ((k : ℕ) → k < 13 → ip2.addrs k ≡ 0)
      × Dropped sb ip d (λ k. true) d2
unfolding drop_indirect
drop_indirect-Dropped sb ip ip1 d d1 f c r = elim (ℕ-cases (ip1.addrs 12)) [
  | inl z ↦
      let gone : ip.addrs 12 ≡ 0 = sym (c.high 12 (omega arith)) ∙ z in
      (
        ip1,
        d1,
        rw (z, drop_indirect) refl,
        c.same_inum,
        λ k h. cleared k h z,
        Dropped-same sb ip d (λ k. ltb k 12) (λ k. true) d1 (λ k ne. direct k ne gone) r,
      )
  | inr (addr, full) ↦
      let here : ip.addrs 12 ≡ suc addr = sym (c.high 12 (omega arith)) ∙ full in
      let start = Dropped-same sb ip d (λ k. ltb k 12) (before 13 0) d1 (λ k ne. none_yet k) r in
      let (d', e1, r1) = drop_entries-Dropped 128 0 addr sb ip d d1 refl f here start in
      let (d'', e2, r2) = Dropped-more sb ip d (before 13 128) d' 12 addr f r1 refl here in
      (
        record ip1 { addrs = update ip1.addrs 12 0 },
        d'',
        drop_indirect-some sb ip1 d1 d' d'' addr full e1 e2,
        c.same_inum,
        λ k h. (Cleared-next 12 ip ip1 c).low k h,
        Dropped-same sb ip d (λ k. 12 == k || before 13 128 k) (λ k. true) d''
            (λ k ne. all_slots ip d k ne) r2,
      )
]
  where
    cleared : (k : ℕ) → k < 13 → ip1.addrs 12 ≡ 0 → ip1.addrs k ≡ 0
    cleared k h z = elim (Bool-cases (12 == k)) [
      | inl this ↦ ap ip1.addrs (sym ((==_iff 12 k).0 this)) ∙ z
      | inr other ↦ c.low k (ground (arith, ==_iff 12 k))
    ]

    direct : (k : ℕ) → slot ip d k ≢ 0 → ip.addrs 12 ≡ 0 → ltb k 12 ≡ true
    direct k ne z = elim (Bool-cases (ltb k 12)) [
      | inl low ↦ low
      | inr above ↦ absurd (ne (no_slot ip d k above z))
    ]

    none_yet : (k : ℕ) → ltb k 12 ≡ before 13 0 k
    none_yet k = ground arith

-- What itrunc leaves.
pub record Truncated (sb : Superblock) (ip : Inode) (d : Disk) (ip' : Inode) (d' : Disk)
    : Type 0 where
  pub valid : IsFile sb ip' d'
  pub no_bytes : ip'.size ≡ 0
  pub no_blocks : (n : ℕ) → slot ip' d' n ≡ 0
  pub freed : (n : ℕ) → slot ip d n ≢ 0 → in_use sb d' (slot ip d n) ≡ false
  pub others : (b : ℕ) → b < sb.size → ((n : ℕ) → slot ip d n ≢ b) → in_use sb d' b ≡ in_use sb d b
  pub same_inum : ip'.inum ≡ ip.inum

empty-slot :
    (ip : Inode) (d : Disk) → ((k : ℕ) → k < 13 → ip.addrs k ≡ 0) → (n : ℕ) → slot ip d n ≡ 0
empty-slot ip d zero_addrs n = elim (Bool-cases (ltb n 12)) [
  | inl low ↦ let e : ltb n 13 ≡ true = ground arith in rw e (zero_addrs n (ground arith))
  | inr above ↦ no_slot ip d n above (zero_addrs 12 (omega arith))
]

-- A file with no blocks is sound where the disk is.
empty-IsFile :
    (sb : Superblock) (ip ip2 : Inode) (d d2 : Disk)
    → IsFile sb ip d
    → ip2.inum ≡ ip.inum
    → ((k : ℕ) → k < 13 → ip2.addrs k ≡ 0)
    → Dropped sb ip d (λ k. true) d2
    → IsFile sb ip2 d2
empty-IsFile sb ip ip2 d d2 f num z r = record {
  fs = record {
    bytes = r.bytes;
    used = λ b h.
        still_used (bblock b sb) (λ n ne e. (f.owned n ne).outside b h (sym e)) (f.fs.used b h);
    map_inside = f.fs.map_inside;
    small = f.fs.small;
    boot_inside = f.fs.boot_inside;
    boot_used = still_used 0 (λ n ne e. ne e) f.fs.boot_used;
  };
  inode =
      subst (λ q. IsOwned sb d2 (iblock q sb)) (sym num)
        (record {
          inside = f.inode.inside;
          taken = still_used (iblock ip.inum sb) (λ n ne. f.no_inode n) f.inode.taken;
          outside = f.inode.outside;
        });
  owned = λ n ne. absurd (ne (empty-slot ip2 d2 z n));
  no_inode = λ n e. f.no_inode 141 (sym (empty-slot ip2 d2 z n) ∙ e ∙ ap (λ q. iblock q sb) num);
  distinct = λ n m ne e. absurd (ne (empty-slot ip2 d2 z n));
}
  where
    still_used :
        (b : ℕ)
        → ((n : ℕ) → slot ip d n ≢ 0 → slot ip d n ≢ b)
        → in_use sb d b ≡ true
        → in_use sb d2 b ≡ true
    still_used b apart u = r.others b (λ n g ne. apart n ne) ∙ u

itrunc-after :
    (sb : Superblock) (ip ip1 ip2 : Inode) (d d1 d2 : Disk)
    → drop_direct 12 0 sb ip d ≡ some (ip1, d1)
    → drop_indirect sb ip1 d1 ≡ some (ip2, d2)
    → itrunc sb ip d ≡ some (record ip2 { size = 0 }, iupdate sb (record ip2 { size = 0 }) d2)
unfolding itrunc
itrunc-after sb ip ip1 ip2 d d1 d2 e1 e2 = rw (e1, e2, itrunc) refl

-- `itrunc` of a sound file does not panic: its size is 0, it has no block any more, all blocks that it
-- had are free, every other block is as free or in use as it was, and the empty file is sound.
pub itrunc-Truncated :
    (sb : Superblock) (ip : Inode) (d : Disk)
    → IsFile sb ip d
    → (ip' : Inode) × (d' : Disk) × (itrunc sb ip d ≡ some (ip', d')) × Truncated sb ip d ip' d'
itrunc-Truncated sb ip d f =
    let (ip1, d1, e1, c1, r1) =
      drop_direct-Dropped 12 0 sb ip ip d d refl f
        (record { same_inum = refl; low = λ k h. absurd (omega arith); high = λ k h. refl })
        (Dropped-same sb ip d (λ k. false) (λ k. ltb k 0) d (λ k ne. none_yet k)
          (Dropped-start sb ip d f.fs.bytes)) in
    let (ip2, d2, e2, num, z, r2) = drop_indirect-Dropped sb ip ip1 d d1 f c1 r1 in
    let ip3 : Inode = record ip2 { size = 0 } in
    let f3 : IsFile sb ip3 d2 = empty-IsFile sb ip ip3 d d2 f num z r2 in
    let (f4, same, slots) = iupdate-IsFile sb ip3 d2 f3 in
    (
      ip3,
      iupdate sb ip3 d2,
      itrunc-after sb ip ip1 ip2 d d1 d2 e1 e2,
      record {
        valid = f4;
        no_bytes = refl;
        no_blocks = λ n. slots n ∙ empty-slot ip3 d2 z n;
        freed = λ n ne.
            iupdate-in_use sb ip3 d2 (slot ip d n) f3.inode.outside (f.owned n ne).inside
            ∙ r2.freed n refl ne;
        others = λ b h apart.
            iupdate-in_use sb ip3 d2 b f3.inode.outside h ∙ r2.others b (λ n g ne. apart n);
        same_inum = num;
      },
    )
  where
    none_yet : (k : ℕ) → false ≡ ltb k 0
    none_yet k = ground arith
