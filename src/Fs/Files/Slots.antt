-- ===== src/Fs/Files/Slots.antt =====
-- The blocks of a file: that they are its own, and what the file holds.
use cs.Prelude.{
  ℕ, ◌+◌, ◌-◌, ◌*◌, ◌/◌, ◌%◌, ◌≤◌, ◌<◌, ◌≡◌, ◌≢◌, ◌⊎◌, inl, inr, refl, sym, ◌∙◌, ap, subst, ◌==◌,
  ltb, if◌then◌else◌, Bool, true, false, Bool-cases, arith, ==_iff, total, total-update, ==_ne,
  ==_self,
}
use cs.Fs.{Block, Disk, Superblock}
use cs.Fs.Blocks.{bblock}
use cs.Fs.Blocks.Bitmap.{IsBytes, in_use}
use cs.Fs.Blocks.Free.{BitmapUsed, Allocated}
use cs.Fs.Files.{Inode, word, iblock, bsize}

-- The entry for the slot `n` of the indirect block `v`.
abbrev pub entry : ℕ → Disk → ℕ → ℕ
entry v d n = if v == 0 then 0 else word (d v) (4 * (n - 13))

-- The block numbers that a file keeps: the direct ones, the indirect block as 12, and its entries.
abbrev pub slot : Inode → Disk → ℕ → ℕ
slot ip d n = if ltb n 13 then ip.addrs n else if ltb n 141 then entry (ip.addrs 12) d n else 0

-- The slot of the `n`th block.
abbrev pub data_slot : ℕ → ℕ
data_slot n = if ltb n 12 then n else n + 1

abbrev pub byte_of : ℕ → Disk → ℕ → ℕ
byte_of a d k = if a == 0 then 0 else d a (k % bsize)

-- The byte `k` of the file; what was never written is 0.
abbrev pub content : Inode → Disk → ℕ → ℕ
content ip d k = byte_of (slot ip d (data_slot (k / bsize))) d k

-- The bytes from `off` to `end` all have a block.
abbrev pub IsHeld : Inode → Disk → ℕ → ℕ → Type 0
IsHeld ip d off end = (k : ℕ) → off ≤ k → k < end → slot ip d (data_slot (k / bsize)) ≢ 0

-- A block that is none of the bitmap's.
abbrev pub IsOutside : Superblock → ℕ → Type 0
IsOutside sb a = (b : ℕ) → b < sb.size → bblock b sb ≢ a

-- The blocks of the disk outside the file and its inode, as far as the file system needs it.
pub record IsFs (sb : Superblock) (d : Disk) : Type 0 where
  pub bytes : (b : ℕ) → IsBytes (d b)
  pub used : BitmapUsed sb d
  pub map_inside : (b : ℕ) → b < sb.size → bblock b sb < sb.size
  pub small : sb.size < 0x100000000
  pub boot_inside : 0 < sb.size
  pub boot_used : in_use sb d 0 ≡ true

-- A block in use that the file may own.
pub record IsOwned (sb : Superblock) (d : Disk) (a : ℕ) : Type 0 where
  pub inside : a < sb.size
  pub taken : in_use sb d a ≡ true
  pub outside : IsOutside sb a

-- The file's blocks are in use, all different, and none of them belongs to the bitmap or holds the
-- inode.
pub record IsFile (sb : Superblock) (ip : Inode) (d : Disk) : Type 0 where
  pub fs : IsFs sb d
  pub inode : IsOwned sb d (iblock ip.inum sb)
  pub owned : (n : ℕ) → slot ip d n ≢ 0 → IsOwned sb d (slot ip d n)
  pub no_inode : (n : ℕ) → slot ip d n ≢ iblock ip.inum sb
  pub distinct : (n m : ℕ) → slot ip d n ≢ 0 → slot ip d n ≡ slot ip d m → n ≡ m

abbrev vacant : Bool → ℕ
vacant q = if q then 0 else 1

-- The number of free blocks.
abbrev pub free_blocks : Superblock → Disk → ℕ
free_blocks sb d = total sb.size (λ b. vacant (in_use sb d b))

pub free_blocks-Allocated :
    (sb : Superblock) (d d' : Disk) (a : ℕ)
    → Allocated sb d d' a
    → free_blocks sb d' + 1 ≡ free_blocks sb d
free_blocks-Allocated sb d d' a r =
    let u =
      total-update sb.size (λ b. vacant (in_use sb d' b)) (λ b. vacant (in_use sb d b)) a r.inside
        (λ b h ne.
          let e : in_use sb d' b ≡ in_use sb d b = r.marked b h ∙ rw (==_ne a b ne) refl in
          ap vacant e) in
    omega (arith, u, counts_taken)
  where
    counts_taken : (vacant (in_use sb d' a) ≡ 0) × (vacant (in_use sb d a) ≡ 1)
    counts_taken =
        let e : in_use sb d' a ≡ true = r.marked a r.inside ∙ rw (==_self a) refl in
        (ap vacant e, rw r.was_free refl)

module _ (sb : Superblock) (d d' d'' : Disk) (a : ℕ) (al : Allocated sb d d' a)
    (bits : (b : ℕ) → b < sb.size → in_use sb d'' b ≡ in_use sb d' b) where
  -- A block in use is another one than the block that is taken, and stays in use.
  taken_ne : (b : ℕ) → in_use sb d b ≡ true → a ≢ b
  taken_ne b t e =
      let f = al.was_free in
      let u : in_use sb d a ≡ true = subst (λ q. in_use sb d q ≡ true) (sym e) t in cc

  stays_used : (b : ℕ) → b < sb.size → in_use sb d b ≡ true → in_use sb d'' b ≡ true
  stays_used b h t = bits b h ∙ al.marked b h ∙ ground arith

  now_used : in_use sb d'' a ≡ true
  now_used = bits a al.inside ∙ al.marked a al.inside ∙ ground arith

  stays-IsOwned : (b : ℕ) → IsOwned sb d b → IsOwned sb d'' b
  stays-IsOwned b o = record {
    inside = o.inside;
    taken = stays_used b o.inside o.taken;
    outside = o.outside;
  }

  stays-IsFs : ((b : ℕ) → IsBytes (d'' b)) → IsFs sb d → IsFs sb d''
  stays-IsFs bytes f = record {
    bytes = bytes;
    used = λ b h. stays_used (bblock b sb) (f.map_inside b h) (f.used b h);
    map_inside = f.map_inside;
    small = f.small;
    boot_inside = f.boot_inside;
    boot_used = stays_used 0 f.boot_inside f.boot_used;
  }

  -- The slot `i`, which was empty, gets the block.
  pub filled-IsFile :
      (ip ip' : Inode) (i : ℕ)
      → ((b : ℕ) → IsBytes (d'' b))
      → ip'.inum ≡ ip.inum
      → slot ip' d'' i ≡ a
      → ((n : ℕ) → i ≢ n → slot ip' d'' n ≡ slot ip d n)
      → IsFile sb ip d
      → IsFile sb ip' d''
  filled-IsFile ip ip' i bytes num here there f = record {
    fs = stays-IsFs bytes f.fs;
    inode =
        subst (λ q. IsOwned sb d'' (iblock q sb)) (sym num)
          (stays-IsOwned (iblock ip.inum sb) f.inode);
    owned = λ n ne. elim (Bool-cases (i == n)) [
      | inl this ↦ subst (IsOwned sb d'') (sym (at_this n this)) new
      | inr other ↦
          subst (IsOwned sb d'') (sym (at_other n other))
            (stays-IsOwned (slot ip d n) (f.owned n (λ z. ne (at_other n other ∙ z))))
    ];
    no_inode = λ n e. elim (Bool-cases (i == n)) [
      | inl this ↦
          taken_ne (iblock ip.inum sb) f.inode.taken
            (sym (at_this n this) ∙ e ∙ ap (λ q. iblock q sb) num)
      | inr other ↦ f.no_inode n (sym (at_other n other) ∙ e ∙ ap (λ q. iblock q sb) num)
    ];
    distinct = λ n m ne e. elim (Bool-cases (i == n)) [
      | inl this ↦ elim (Bool-cases (i == m)) [
        | inl this' ↦ sym ((==_iff i n).0 this) ∙ (==_iff i m).0 this'
        | inr other' ↦ absurd (clash m other' (sym (at_this n this) ∙ e))
      ]
      | inr other ↦ elim (Bool-cases (i == m)) [
        | inl this' ↦ absurd (clash n other (sym (at_this m this') ∙ sym e))
        | inr other' ↦
            f.distinct n m (λ z. ne (at_other n other ∙ z))
              (sym (at_other n other) ∙ e ∙ at_other m other')
      ]
    ];
  }
    where
      at_this : (n : ℕ) → (i == n) ≡ true → slot ip' d'' n ≡ a
      at_this n t = ap (slot ip' d'') (sym ((==_iff i n).0 t)) ∙ here

      at_other : (n : ℕ) → (i == n) ≡ false → slot ip' d'' n ≡ slot ip d n
      at_other n t = there n (λ e. ground (arith, ==_iff i n))

      new : IsOwned sb d'' a
      new = record {
        inside = al.inside;
        taken = now_used;
        outside = λ b h e. taken_ne (bblock b sb) (f.fs.used b h) (sym e);
      }

      nonzero : a ≢ 0
      nonzero e = taken_ne 0 f.fs.boot_used e

      clash : (m : ℕ) → (i == m) ≡ false → a ≢ slot ip' d'' m
      clash m other e =
          taken_ne (slot ip d m) (f.owned m (λ z. nonzero (e ∙ at_other m other ∙ z))).taken
            (e ∙ at_other m other)

  -- What the file holds does not change: the new block is all zero.
  pub filled-content :
      (ip ip' : Inode) (i k : ℕ)
      → slot ip d i ≡ 0
      → slot ip' d'' i ≡ a
      → ((n : ℕ) → i ≢ n → slot ip' d'' n ≡ slot ip d n)
      → ((n : ℕ) → n ≢ 12 → slot ip d n ≢ 0 → d'' (slot ip d n) ≡ d (slot ip d n))
      → (i ≢ 12 → (j : ℕ) → d'' a j ≡ 0)
      → content ip' d'' k ≡ content ip d k
  filled-content ip ip' i k empty here there keeps zeroed = elim (Bool-cases (i == n)) [
    | inl this ↦
        let e : i ≡ n = (==_iff i n).0 this in
        ap (λ b. byte_of b d'' k) (ap (slot ip' d'') (sym e) ∙ here)
        ∙ all_zero e
        ∙ sym (ap (λ b. byte_of b d k) (ap (slot ip d) (sym e) ∙ empty))
    | inr other ↦
        ap (λ b. byte_of b d'' k) (there n (λ e. ground (arith, ==_iff i n)))
        ∙ old (Bool-cases (slot ip d n == 0))
  ]
    where
      n : ℕ
      n = data_slot (k / bsize)

      not_12 : n ≢ 12
      not_12 e = absurd (ground arith)

      all_zero : i ≡ n → byte_of a d'' k ≡ 0
      all_zero e = let z = zeroed (λ q. not_12 (sym e ∙ q)) (k % bsize) in ground (arith, z)

      old :
          ((slot ip d n == 0) ≡ true) ⊎ ((slot ip d n == 0) ≡ false)
          → byte_of (slot ip d n) d'' k ≡ byte_of (slot ip d n) d k
      old (inl none) = rw none refl
      old (inr some) = rw some (
          ap (λ (x : Block). x (k % bsize))
            (keeps n not_12 (λ z. ground (arith, ==_iff (slot ip d n) 0))))
