-- ===== src/Fs/Dirs/Bytes/Reading.antt =====
-- The loops of dirlookup and dirlink read the entries of the directory.
use cs.Prelude.{
  ℕ, zero, suc, min, ◌+◌, ◌-◌, ◌*◌, ◌≤◌, ◌<◌, ◌≡◌, inl, inr, refl, ◌∙◌, ap, ◌==◌, ltb, lt→ltb, true,
  false, Bool-cases, List, some, arith,
}
use cs.Fs.{Block, Disk, Superblock}
use cs.Fs.Files.{Inode, bsize, max_blocks, readi, moved}
use cs.Fs.Files.Slots.{content, IsHeld, IsFile}
use cs.Fs.Files.Contents.{overlay-start}
use cs.Fs.Files.Held.{readi-Held}
use cs.Fs.Dirs.{Dirent, namecmp, lookup_from, empty_from}
use cs.Fs.Dirs.Bytes.{t_dir, entry_of, fetch, lookup_bytes, empty_bytes}
use cs.Fs.Dirs.Bytes.Entries.{entries, entry_of-same}

-- A sound file that is a directory of `n` entries, all of whose bytes have blocks.
pub record IsDirectory (sb : Superblock) (n : ℕ) (ip : Inode) (d : Disk) : Type 0 where
  pub file : IsFile sb ip d
  pub kind : ip.kind ≡ t_dir
  pub size : ip.size ≡ 16 * n
  pub fits : 16 * n ≤ max_blocks * bsize
  pub held : IsHeld ip d 0 (16 * n)

-- The list that the directory is.
abbrev pub listing : ℕ → Inode → Disk → List Dirent
listing n ip d = entries (content ip d) n 0

fetch-moved :
    (sb : Superblock) (off : ℕ) (ip : Inode) (d : Disk) (x : Block)
    → readi sb off 16 ip d (λ i. 0) ≡ some (ip, d, x, moved 16)
    → fetch sb off ip d ≡ some (ip, d, entry_of x)
unfolding fetch
fetch-moved sb off ip d x e = rw (e, fetch) refl

pub fetch-entry :
    (sb : Superblock) (n k off : ℕ) (ip : Inode) (d : Disk)
    → IsDirectory sb n ip d
    → k < n
    → off ≡ 16 * k
    → fetch sb off ip d ≡ some (ip, d, entry_of (λ i. content ip d (16 * k + i)))
fetch-entry sb n k off ip d v h e =
    let all : min 16 (ip.size - off) ≡ 16 = omega (arith, v.size) in
    elim (readi-Held sb off 16 ip d (λ i. 0) (omega (arith, v.fits)) (omega arith) v.file
      (omega (arith, v.size, v.fits)) (λ j lo hi. v.held j (omega arith) (omega (arith, all)))) [
        | inl (inl l, _) ↦ absurd (omega (arith, v.size))
        | inl (inr l, _) ↦ absurd (omega (arith, v.fits))
        | inr (le, small, (x, got, copied)) ↦
            fetch-moved sb off ip d x (got ∙ ap (λ q. some (ip, d, x, moved q)) all)
            ∙ ap (λ q. some (ip, d, q))
                (entry_of-same x (λ i. content ip d (16 * k + i))
                  (λ j l.
                    copied j
                    ∙ overlay-start (λ i. 0) (min 16 (ip.size - off)) (λ i. content ip d (off + i))
                        j (omega (arith, all))
                    ∙ ap (λ q. content ip d (q + j)) e))
      ]

-- The loops do what the functions on lists do, and leave inode and disk.
pub lookup_bytes-entries :
    (fuel m k off n : ℕ) (sb : Superblock) (name : List ℕ) (ip : Inode) (d : Disk)
    → IsDirectory sb n ip d
    → k + m ≡ n
    → m ≤ fuel
    → off ≡ 16 * k
    → lookup_bytes fuel off sb name ip d
      ≡ some (ip, d, lookup_from off name (entries (content ip d) m k))
unfolding lookup_bytes lookup_from
lookup_bytes-entries zero zero k off n sb name ip d v sum fu e = refl
lookup_bytes-entries zero (suc m) k off n sb name ip d v sum fu e = absurd (omega arith)
lookup_bytes-entries (suc fuel) zero k off n sb name ip d v sum fu e =
    let past : ltb off ip.size ≡ false = ended off ip.size (omega (arith, v.size)) in
    rw (past, lookup_bytes) refl
  where
    ended : (a b : ℕ) → a ≡ b → ltb a b ≡ false
    ended a b e = ground arith
lookup_bytes-entries (suc fuel) (suc m) k off n sb name ip d v sum fu e =
    let inside : ltb off ip.size ≡ true = lt→ltb off ip.size (omega (arith, v.size)) in
    let got = fetch-entry sb n k off ip d v (omega arith) e in
    let rest =
      lookup_bytes-entries fuel m (k + 1) (off + 16) n sb name ip d v (omega arith) (omega arith)
        (omega arith) in
    elim (Bool-cases ((entry_of (λ i. content ip d (16 * k + i))).inum == 0)) [
      | inl empty ↦ rw (inside, got, empty, lookup_bytes) rest
      | inr full ↦
          elim (Bool-cases (namecmp name (entry_of (λ i. content ip d (16 * k + i))).name)) [
            | inl same ↦ rw (inside, got, full, same, lookup_bytes) refl
            | inr other ↦ rw (inside, got, full, other, lookup_bytes) rest
          ]
    ]

pub empty_bytes-entries :
    (fuel m k off n : ℕ) (sb : Superblock) (ip : Inode) (d : Disk)
    → IsDirectory sb n ip d
    → k + m ≡ n
    → m ≤ fuel
    → off ≡ 16 * k
    → empty_bytes fuel off sb ip d ≡ some (ip, d, empty_from off (entries (content ip d) m k))
unfolding empty_bytes empty_from
empty_bytes-entries zero zero k off n sb ip d v sum fu e = refl
empty_bytes-entries zero (suc m) k off n sb ip d v sum fu e = absurd (omega arith)
empty_bytes-entries (suc fuel) zero k off n sb ip d v sum fu e =
    let past : ltb off ip.size ≡ false = ended off ip.size (omega (arith, v.size)) in
    rw (past, empty_bytes) refl
  where
    ended : (a b : ℕ) → a ≡ b → ltb a b ≡ false
    ended a b e = ground arith
empty_bytes-entries (suc fuel) (suc m) k off n sb ip d v sum fu e =
    let inside : ltb off ip.size ≡ true = lt→ltb off ip.size (omega (arith, v.size)) in
    let got = fetch-entry sb n k off ip d v (omega arith) e in
    let rest =
      empty_bytes-entries fuel m (k + 1) (off + 16) n sb ip d v (omega arith) (omega arith)
        (omega arith) in
    elim (Bool-cases ((entry_of (λ i. content ip d (16 * k + i))).inum == 0)) [
      | inl empty ↦ rw (inside, got, empty, empty_bytes) refl
      | inr full ↦ rw (inside, got, full, empty_bytes) rest
    ]

-- Where the first empty entry is, or the end.
pub empty_from-place :
    (m k : ℕ) (c : ℕ → ℕ) → (i : ℕ) × (i ≤ m) × (empty_from (16 * k) (entries c m k) ≡ 16 * (k + i))
unfolding empty_from
empty_from-place zero k c = (0, omega arith, omega arith)
empty_from-place (suc m) k c = elim (Bool-cases ((entry_of (λ i. c (16 * k + i))).inum == 0)) [
  | inl empty ↦ (0, omega arith, rw empty (omega arith))
  | inr full ↦
      let (i, le, e) = empty_from-place m (k + 1) c in
      let step : 16 * k + 16 ≡ 16 * (k + 1) = omega arith in
      let place : 16 * (k + 1 + i) ≡ 16 * (k + suc i) = omega arith in
      (suc i, omega arith, rw full (ap (λ q. empty_from q (entries c m (k + 1))) step ∙ e ∙ place))
]
