-- ===== src/Fs/Files/Taken.antt =====
-- What bmap leaves, and the block that it takes.
use cs.Prelude.{
  ℕ, zero, suc, ◌+◌, ◌≤◌, ◌≡◌, ◌≢◌, ◌⊎◌, inl, inr, refl, ◌∙◌, ap, if◌then◌else◌, Bool, true, some,
  arith, total, total-same,
}
use cs.Fs.{Disk, Superblock}
use cs.Fs.Blocks.{balloc}
use cs.Fs.Blocks.Bitmap.{in_use}
use cs.Fs.Blocks.Free.{Allocated, balloc-Allocated}
use cs.Fs.Files.{Inode}
use cs.Fs.Files.Slots.{slot, content, IsFs, IsFile, free_blocks}

-- The block `a` has been found or made for the slot `i`, at the cost of at most `cost` free blocks.
pub record Mapped (sb : Superblock) (i cost : ℕ) (ip : Inode) (d : Disk) (ip' : Inode) (d' : Disk)
    (a : ℕ) : Type 0 where
  pub valid : IsFile sb ip' d'
  pub here : slot ip' d' i ≡ a
  pub nonzero : a ≢ 0
  pub same : (k : ℕ) → content ip' d' k ≡ content ip d k
  pub same_size : ip'.size ≡ ip.size
  pub same_inum : ip'.inum ≡ ip.inum
  pub same_kind : ip'.kind ≡ ip.kind
  pub stays : (n : ℕ) → slot ip d n ≢ 0 → slot ip' d' n ≡ slot ip d n
  pub spent : free_blocks sb d ≤ free_blocks sb d' + cost

pub Mapped-already :
    (sb : Superblock) (i : ℕ) (ip : Inode) (d : Disk) (a : ℕ)
    → IsFile sb ip d
    → slot ip d i ≡ suc a
    → Mapped sb i 1 ip d ip d (suc a)
Mapped-already sb i ip d a f e = record {
  valid = f;
  here = e;
  nonzero = λ z. omega arith;
  same = λ k. refl;
  same_size = refl;
  same_inum = refl;
  same_kind = refl;
  stays = λ n ne. refl;
  spent = omega arith;
}

total-zero : (n : ℕ) → total n (λ i. 0) ≡ 0
total-zero zero = refl
total-zero (suc n) = omega (arith, total-zero n)

-- With a free block, `balloc` does not panic.
pub balloc-free :
    (sb : Superblock) (d : Disk)
    → IsFs sb d
    → 1 ≤ free_blocks sb d
    → (a : ℕ) × (d' : Disk) × (balloc sb d ≡ some (d', a)) × Allocated sb d d' a
balloc-free sb d f h = elim (balloc-Allocated sb d f.bytes f.used) [
  | inl r ↦ r
  | inr (e, full) ↦
      let z : free_blocks sb d ≡ 0 =
        total-same sb.size _ (λ b. 0) (λ b l. ap (λ (q : Bool). if q then 0 else 1) (full b l))
        ∙ total-zero sb.size in
      absurd (omega arith)
]

pub ℕ-cases : (v : ℕ) → (v ≡ 0) ⊎ ((a : ℕ) × (v ≡ suc a))
ℕ-cases zero = inl refl
ℕ-cases (suc a) = inr (a, refl)

pub boot-ne : (sb : Superblock) (d d' : Disk) (a : ℕ) → IsFs sb d → Allocated sb d d' a → a ≢ 0
boot-ne sb d d' a f al e =
    let u : in_use sb d a ≡ true = ap (in_use sb d) e ∙ f.boot_used in cc (al.was_free)

-- The block that is taken is none of the file's, so that these keep their content.
pub kept-slot :
    (sb : Superblock) (ip : Inode) (d d' : Disk) (a n : ℕ)
    → IsFile sb ip d
    → Allocated sb d d' a
    → slot ip d n ≢ 0
    → (a ≢ slot ip d n) × (d' (slot ip d n) ≡ d (slot ip d n))
kept-slot sb ip d d' a n f al ne =
    let o = f.owned n ne in
    let apart : a ≢ slot ip d n =
      λ e. let u : in_use sb d a ≡ true = ap (in_use sb d) e ∙ o.taken in cc (al.was_free) in
    (apart, al.kept (slot ip d n) apart (o.outside a al.inside))
