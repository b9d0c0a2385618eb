-- ===== src/Fs/Files/Contents.antt =====
-- The rounds of writei: the bytes of a piece, and what the file holds after it.
use cs.Prelude.{
  ℕ, ◌+◌, ◌-◌, ◌/◌, ◌%◌, ◌≤◌, ◌<◌, ◌≡◌, ◌≢◌, ◌⊎◌, lt→ltb, inl, inr, refl, sym, ◌∙◌, ap, ◌==◌, ltb,
  if◌then◌else◌, true, false, Bool-cases, arith, ==_iff, ==_ne, lt→ltb, ltb→lt,
}
use cs.Fs.{Block, Disk}
use cs.Fs.Blocks.Bitmap.{IsBytes}
use cs.Fs.Files.{Inode, bsize, splice, piece}
use cs.Fs.Files.Slots.{byte_of, slot, data_slot, content}

-- `c` with the `n` bytes of `src` from `off` on.
abbrev pub overlay : (ℕ → ℕ) → ℕ → ℕ → (ℕ → ℕ) → ℕ → ℕ
overlay c off n src k = if ltb k off then c k else if ltb k (off + n) then src (k - off) else c k

pub overlay-overlay :
    (c : ℕ → ℕ) (off m n : ℕ) (src : ℕ → ℕ) (k : ℕ)
    → m ≤ n
    → overlay (overlay c off m src) (off + m) (n - m) (λ i. src (m + i)) k ≡ overlay c off n src k
overlay-overlay c off m n src k le = elim (Bool-cases (ltb k off)) [
  | inl before ↦ let a : ltb k (off + m) ≡ true = ground arith in rw (before, a) refl
  | inr in_off ↦ elim (Bool-cases (ltb k (off + m))) [
    | inl first ↦ let a : ltb k (off + n) ≡ true = ground arith in rw (in_off, first, a) refl
    | inr later ↦
        let a : off + m + (n - m) ≡ off + n = omega arith in
        elim (Bool-cases (ltb k (off + n))) [
          | inl second ↦
              let b : m + (k - (off + m)) ≡ k - off = ground arith in
              rw (in_off, later, a, second, b) refl
          | inr behind ↦ rw (in_off, later, a, behind) refl
        ]
  ]
]

pub overlay-none : (c : ℕ → ℕ) (off : ℕ) (src : ℕ → ℕ) (k : ℕ) → overlay c off 0 src k ≡ c k
overlay-none c off src k = ground arith

pub overlay-same :
    (c c' : ℕ → ℕ) (off n : ℕ) (src : ℕ → ℕ) (k : ℕ)
    → c k ≡ c' k
    → overlay c off n src k ≡ overlay c' off n src k
overlay-same c c' off n src k e = rw e refl

-- What is read back in the place of the bytes that were written.
pub overlay-inside :
    (c : ℕ → ℕ) (off n : ℕ) (src : ℕ → ℕ) (i : ℕ) → i < n → overlay c off n src (off + i) ≡ src i
overlay-inside c off n src i lt =
    let a : ltb (off + i) off ≡ false = ground arith in
    let b : ltb (off + i) (off + n) ≡ true = lt→ltb (off + i) (off + n) (omega arith) in
    let e : off + i - off ≡ i = omega arith in rw (a, b, e) refl

pub overlay-start : (c : ℕ → ℕ) (n : ℕ) (src : ℕ → ℕ) (i : ℕ) → i < n → overlay c 0 n src i ≡ src i
overlay-start c n src i lt = ground arith

pub overlay-outside :
    (c : ℕ → ℕ) (off n : ℕ) (src : ℕ → ℕ) (i : ℕ)
    → (i < off) ⊎ (off + n ≤ i)
    → overlay c off n src i ≡ c i
overlay-outside c off n src i h = ground arith

-- The blocks that the bytes lie in.
abbrev pub blocks_of : ℕ → ℕ → ℕ
blocks_of off n = if n == 0 then 0 else (off + n + 511) / 512 - off / 512

pub piece_bounds :
    (left off : ℕ)
    → 0 < left
    → (0 < piece left off)
      × (piece left off ≤ left)
      × (off % bsize + piece left off ≤ bsize)
      × (piece left off < left → off % bsize + piece left off ≡ bsize)
piece_bounds left off h = elim (Bool-cases (ltb left (bsize - off % bsize))) [
  | inl last ↦
      let l : left < bsize - off % bsize = ltb→lt left _ last in
      rw last (h, omega arith, omega arith, λ q. absurd (omega arith))
  | inr more ↦
      let l : bsize - off % bsize ≤ left = ground arith in
      rw more (omega arith, l, omega arith, λ q. omega arith)
]

blocks_of-some : (off n : ℕ) → 0 < n → blocks_of off n ≡ (off + n + 511) / 512 - off / 512
blocks_of-some off n h = ground arith

-- A round does a block.
pub blocks_of-piece :
    (left off : ℕ)
    → 0 < left
    → (1 ≤ blocks_of off left)
      × (blocks_of (off + piece left off) (left - piece left off) + 1 ≤ blocks_of off left)
blocks_of-piece left off h =
    let (pos, le, inside, full) = piece_bounds left off h in
    let now = blocks_of-some off left h in
    (
      omega (arith, now),
      elim (Bool-cases (ltb (piece left off) left)) [
        | inr last ↦ let z : left - piece left off ≡ 0 = ground arith in rw z (omega (arith, now))
        | inl more ↦
            let lt = ltb→lt (piece left off) left more in
            let rest =
              blocks_of-some (off + piece left off) (left - piece left off) (omega arith) in
            let e = full lt in
            let sum : off + piece left off + (left - piece left off) ≡ off + left = omega arith in
            let next : (off + piece left off) / 512 ≡ off / 512 + 1 = omega arith in
            let u = moved_blocks sum next (omega arith) in omega (arith, now, rest, u)
      ],
    )
  where
    moved_blocks :
        {s t : ℕ}
        → s ≡ off + left
        → t ≡ off / 512 + 1
        → 1 ≤ (off + left + 511) / 512 - off / 512
        → (s + 511) / 512 - t + 1 ≤ (off + left + 511) / 512 - off / 512
    moved_blocks e f g = rw (e, f) (omega arith)

pub splice-IsBytes :
    (x : Block) (o m : ℕ) (src : ℕ → ℕ)
    → IsBytes x
    → ((i : ℕ) → src i < 256)
    → IsBytes (splice x o src m)
splice-IsBytes x o m src h s i = ground (arith, h i, s (i - o))

-- The round: the disk after bmap, with the piece stored.
pub round-content :
    (ip : Inode) (d : Disk) (a off m k : ℕ) (src : ℕ → ℕ)
    → slot ip d (data_slot (off / bsize)) ≡ a
    → a ≢ 0
    → off % bsize + m ≤ bsize
    → (if k / bsize == off / bsize
        then splice (d a) (off % bsize) src m (k % bsize)
        else content ip d k)
      ≡ overlay (content ip d) off m src k
round-content ip d a off m k src here ne le = elim (Bool-cases (k / bsize == off / bsize)) [
  | inr other ↦
      let q : k / bsize ≢ off / bsize = λ e. ground (arith, ==_iff (k / bsize) (off / bsize)) in
      elim (Bool-cases (ltb k off)) [
        | inl before ↦ rw (other, before) refl
        | inr after ↦
            let g : off ≤ k = ground arith in
            let b : ltb k (off + m) ≡ false = behind (omega arith) in rw (other, after, b) refl
      ]
  | inl this ↦
      let e : k / bsize ≡ off / bsize = (==_iff (k / bsize) (off / bsize)).0 this in
      let c : content ip d k ≡ d a (k % bsize) =
        ap (λ b. byte_of b d k) (ap (λ q. slot ip d (data_slot q)) e ∙ here)
        ∙ rw (==_ne a 0 ne) refl in
      elim (Bool-cases (ltb k off)) [
        | inl before ↦
            let l : k < off = ltb→lt k off before in
            let b : ltb (k % bsize) (off % bsize) ≡ true = lt→ltb _ _ (omega arith) in
            rw (this, before, b) (sym c)
        | inr after ↦
            let g : off ≤ k = ground arith in
            let b : ltb (k % bsize) (off % bsize) ≡ false = behind (omega arith) in
            elim (Bool-cases (ltb k (off + m))) [
              | inl inside ↦
                  let l : k < off + m = ltb→lt k (off + m) inside in
                  let u : ltb (k % bsize) (off % bsize + m) ≡ true = lt→ltb _ _ (omega arith) in
                  let v : k % bsize - off % bsize ≡ k - off = omega arith in
                  rw (this, after, b, inside, u, v) refl
              | inr beyond ↦
                  let l : off + m ≤ k = ground arith in
                  let u : ltb (k % bsize) (off % bsize + m) ≡ false = behind (omega arith) in
                  rw (this, after, b, beyond, u) (sym c)
            ]
      ]
]
  where
    behind : {i j : ℕ} → j ≤ i → ltb i j ≡ false
    behind h = ground arith
