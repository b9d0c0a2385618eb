-- ===== src/Fs/Files/Dinodes/Taking.antt =====
-- ialloc: the first free inode.
use cs.Prelude.{
  ℕ, zero, suc, ◌+◌, ◌-◌, ◌*◌, ◌%◌, ◌≤◌, ◌<◌, ◌≡◌, ◌≢◌, ◌⊎◌, inl, inr, refl, sym, ◌∙◌, ap, subst,
  ◌==◌, ltb, if◌then◌else◌, Bool, true, false, Bool-cases, some, none, arith, ==_iff, update_self,
  update_ne,
}
use cs.Fs.{Block, Disk, Superblock}
use cs.Fs.Files.{Inode, splice, half_byte, word_byte, dinode_byte, iblock}
use cs.Fs.Files.Dinodes.{from_dinode, load, fresh_byte, claim, ialloc_from, ialloc}
use cs.Fs.Files.Dinodes.Loading.{IsStorable, IsSame, splice-here, loaded, place-IsSame, load-other}

IsSame-trans : (a b c : Inode) → IsSame a b → IsSame b c → IsSame a c
IsSame-trans a b c p q = record {
  inum = p.inum ∙ q.inum;
  kind = p.kind ∙ q.kind;
  major = p.major ∙ q.major;
  minor = p.minor ∙ q.minor;
  nlink = p.nlink ∙ q.nlink;
  size = p.size ∙ q.size;
  addrs = λ k h. p.addrs k h ∙ q.addrs k h;
}

-- An inode of the type `kind` with nothing in it.
abbrev pub fresh : ℕ → ℕ → Inode
fresh inum kind = record {
  inum = inum;
  kind = kind;
  major = 0;
  minor = 0;
  nlink = 0;
  size = 0;
  addrs = λ k. 0;
}

fresh_bytes : (inum kind i : ℕ) → fresh_byte kind i ≡ dinode_byte (fresh inum kind) i
unfolding dinode_byte
fresh_bytes inum kind i = elim (Bool-cases (ltb i 2)) [
  | inl first ↦ rw first refl
  | inr later ↦ rw later (
      sym (
        zeros (ltb i 4) (no_half (i - 2)) (
          zeros (ltb i 6) (no_half (i - 4)) (
            zeros (ltb i 8) (no_half (i - 6))
              (zeros (ltb i 12) (no_word (i - 8)) (no_word ((i - 12) % 4)))))))
]
  where
    zeros : (b : Bool) {v w : ℕ} → v ≡ 0 → w ≡ 0 → (if b then v else w) ≡ 0
    zeros true e f = e
    zeros false e f = f

    no_half : (j : ℕ) → half_byte 0 j ≡ 0
    no_half j = ground arith

    no_word : (j : ℕ) → word_byte 0 j ≡ 0
    no_word j = ground arith

-- What `ialloc` leaves on the disk, when it takes the inode `inum`.
pub record Claimed (sb : Superblock) (kind : ℕ) (d d' : Disk) (inum : ℕ) : Type 0 where
  pub in_range : (1 ≤ inum) × (inum < sb.ninodes)
  pub was_free : (load sb inum d).kind ≡ 0
  pub lowest : (j : ℕ) → 1 ≤ j → j < inum → (load sb j d).kind ≢ 0
  pub now : IsSame (load sb inum d') (fresh inum kind)
  pub others : (j : ℕ) → inum ≢ j → IsSame (load sb j d') (load sb j d)
  pub kept : (b : ℕ) → iblock inum sb ≢ b → d' b ≡ d b

load-claim :
    (sb : Superblock) (inum kind : ℕ) (d : Disk)
    → kind < 65536
    → IsSame (load sb inum (claim sb inum kind d)) (fresh inum kind)
unfolding load claim
load-claim sb inum kind d small =
    let x : Block = d (iblock inum sb) in
    let o : ℕ = inum % 8 * 64 in
    let y : Block = splice x o (fresh_byte kind) 64 in
    subst (λ (z : Block). IsSame (from_dinode inum z o) (fresh inum kind))
      (sym (update_self d (iblock inum sb) y))
      (IsSame-trans (from_dinode inum y o)
        (from_dinode inum (splice x o (dinode_byte (fresh inum kind)) 64) o) (fresh inum kind)
        (place-IsSame inum o (splice x o (dinode_byte (fresh inum kind)) 64) y (same x o))
        (loaded (fresh inum kind) x o storable))
  where
    same :
        (x : Block) (o i : ℕ)
        → i < 64
        → splice x o (fresh_byte kind) 64 (o + i)
          ≡ splice x o (dinode_byte (fresh inum kind)) 64 (o + i)
    same x o i h =
        splice-here x o (fresh_byte kind) i h
        ∙ fresh_bytes inum kind i
        ∙ sym (splice-here x o (dinode_byte (fresh inum kind)) i h)

    storable : IsStorable (fresh inum kind)
    storable = record {
      kind = small;
      major = omega arith;
      minor = omega arith;
      nlink = omega arith;
      size = omega arith;
      addrs = λ k. omega arith;
    }

claim-others :
    (sb : Superblock) (inum kind : ℕ) (d : Disk)
    → ((j : ℕ) → inum ≢ j → IsSame (load sb j (claim sb inum kind d)) (load sb j d))
      × ((b : ℕ) → iblock inum sb ≢ b → claim sb inum kind d b ≡ d b)
unfolding claim
claim-others sb inum kind d = (
  λ j ne. load-other sb inum j d (fresh_byte kind) ne,
  λ b ne.
      update_ne d (iblock inum sb)
        (splice (d (iblock inum sb)) (inum % 8 * 64) (fresh_byte kind) 64) b ne,
)

ialloc_from-cases :
    (n inum : ℕ) (sb : Superblock) (kind : ℕ) (d : Disk)
    → ((i : ℕ) × (ialloc_from n inum sb kind d ≡ some (claim sb i kind d, i))
        × (inum ≤ i)
        × (i < inum + n)
        × ((load sb i d).kind ≡ 0)
        × ((j : ℕ) → inum ≤ j → j < i → (load sb j d).kind ≢ 0))
      ⊎ ((ialloc_from n inum sb kind d ≡ none)
          × ((j : ℕ) → inum ≤ j → j < inum + n → (load sb j d).kind ≢ 0))
unfolding ialloc_from
ialloc_from-cases zero inum sb kind d = inr (refl, λ j lo hi. absurd (omega arith))
ialloc_from-cases (suc n) inum sb kind d = elim (Bool-cases ((load sb inum d).kind == 0)) [
  | inl free ↦ inl (
    inum,
    rw (free, ialloc_from) refl,
    omega arith,
    omega arith,
    (==_iff (load sb inum d).kind 0).0 free,
    λ j lo hi. absurd (omega arith),
  )
  | inr taken ↦ elim (ialloc_from-cases n (inum + 1) sb kind d) [
    | inl (i, e, lo, hi, z, before) ↦ inl (
      i,
      rw (taken, ialloc_from) e,
      omega arith,
      omega arith,
      z,
      λ j l h. first taken j l (λ later. before j later h),
    )
    | inr (e, all) ↦
        inr
          (rw (taken, ialloc_from) e, λ j l h. first taken j l (λ later. all j later (omega arith)))
  ]
]
  where
    first :
        ((load sb inum d).kind == 0) ≡ false
        → (j : ℕ) → inum ≤ j
        → (inum + 1 ≤ j → (load sb j d).kind ≢ 0)
        → (load sb j d).kind ≢ 0
    first taken j lo later = elim (Bool-cases (inum == j)) [
      | inl this ↦ λ z.
          let e : inum ≡ j = (==_iff inum j).0 this in used (ap (λ i. (load sb i d).kind) e ∙ z)
      | inr other ↦ later (above other)
    ]
      where
        used : (load sb inum d).kind ≢ 0
        used z = let q = (==_iff (load sb inum d).kind 0).1 z in cc (q, taken)

        above : (inum == j) ≡ false → inum + 1 ≤ j
        above other = ground (arith, ==_iff inum j)

-- `ialloc` of a type that is a short, on the disk: it takes the first free inode from 1 on, one whose
-- type is 0. This then has the type and is 0 in all its other fields; every other inode is as it was,
-- also in the same block, and so is every other block. It panics exactly if no inode is free.
pub ialloc-Claimed :
    (sb : Superblock) (kind : ℕ) (d : Disk)
    → kind < 65536
    → ((d' : Disk) × (inum : ℕ) × (ialloc sb kind d ≡ some (d', inum)) × Claimed sb kind d d' inum)
      ⊎ ((ialloc sb kind d ≡ none) × ((j : ℕ) → 1 ≤ j → j < sb.ninodes → (load sb j d).kind ≢ 0))
unfolding ialloc
ialloc-Claimed sb kind d small = elim (ialloc_from-cases (sb.ninodes - 1) 1 sb kind d) [
  | inr (e, all) ↦ inr (e, λ j lo hi. all j lo (omega arith))
  | inl (i, e, lo, hi, z, before) ↦
      let (others, kept) = claim-others sb i kind d in
      inl (
        claim sb i kind d,
        i,
        e,
        record {
          in_range = (lo, omega arith);
          was_free = z;
          lowest = before;
          now = load-claim sb i kind d small;
          others = others;
          kept = kept;
        },
      )
]
