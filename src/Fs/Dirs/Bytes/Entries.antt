-- ===== src/Fs/Dirs/Bytes/Entries.antt =====
-- A directory's entries, and the bytes of one.
use cs.Prelude.{
  ℕ, zero, suc, ◌+◌, ◌-◌, ◌*◌, ◌%◌, ◌≤◌, ◌<◌, ◌≡◌, ◌≢◌, inl, inr, refl, sym, ◌∙◌, ap, ◌==◌, ==_ne,
  ==_self, ltb, if◌then◌else◌, true, false, List, [], ◌∷◌, take, All, arith,
}
use cs.Fs.{Block}
use cs.Fs.Files.{half_byte}
use cs.Fs.Files.Contents.{overlay, overlay-inside, overlay-outside}
use cs.Fs.Dirs.{Dirent, dirsiz, put_entry}
use cs.Fs.Dirs.Bytes.{name_of, entry_of, name_byte, entry_byte}

-- The `n` entries from the `k`th on of a directory with the content `c`.
abbrev pub entries : (ℕ → ℕ) → ℕ → ℕ → List Dirent
entries c zero k = []
entries c (suc n) k = entry_of (λ i. c (16 * k + i)) ∷ entries c n (k + 1)

name_of-same :
    (n i : ℕ) (x y : Block)
    → ((j : ℕ) → i ≤ j → j < i + n → x j ≡ y j)
    → name_of n x i ≡ name_of n y i
unfolding name_of
name_of-same zero i x y same = refl
name_of-same (suc n) i x y same =
    let rest = name_of-same n (i + 1) x y (λ j lo hi. same j (omega arith) (omega arith)) in
    let here = same i (omega arith) (omega arith) in
    ap (λ v. if v == 0 then [] else v ∷ name_of n x (i + 1)) here
    ∙ ap (λ l. if y i == 0 then [] else y i ∷ l) rest

-- Only the 16 bytes of an entry matter.
pub entry_of-same : (x y : Block) → ((j : ℕ) → j < 16 → x j ≡ y j) → entry_of x ≡ entry_of y
unfolding entry_of
entry_of-same x y same =
    let a = same 0 (omega arith) in
    let b = same 1 (omega arith) in
    let num : x 0 + 256 * x 1 ≡ y 0 + 256 * y 1 = omega (arith, a, b) in
    ap (λ n. entry n (name_of dirsiz x 2)) num
    ∙ ap (entry (y 0 + 256 * y 1)) (name_of-same dirsiz 2 x y (λ j lo hi. same j (omega arith)))
  where
    entry : ℕ → List ℕ → Dirent
    entry n s = record { inum = n; name = s }

name_of-name_byte :
    (n i : ℕ) (x : Block) (name : List ℕ)
    → All (λ c. c ≢ 0) name
    → ((j : ℕ) → j < n → x (i + j) ≡ name_byte name j)
    → name_of n x i ≡ take n name
unfolding name_of name_byte
name_of-name_byte zero i x name full same = refl
name_of-name_byte (suc n) i x [] full same =
    let e : i + 0 ≡ i = omega arith in
    let z : x i ≡ 0 = ap x (sym e) ∙ same 0 (omega arith) in rw z refl
name_of-name_byte (suc n) i x (c ∷ s) (ne, full) same =
    let e : i + 0 ≡ i = omega arith in
    let here : x i ≡ c = ap x (sym e) ∙ same 0 (omega arith) in
    let rest : name_of n x (i + 1) ≡ take n s =
      name_of-name_byte n (i + 1) x s full (λ j h.
        let q : i + 1 + j ≡ i + suc j = omega arith in ap x q ∙ same (suc j) (omega arith)) in
    ap (λ v. if v == 0 then [] else v ∷ name_of n x (i + 1)) here
    ∙ ap (λ b. if b then [] else c ∷ name_of n x (i + 1)) (==_ne c 0 ne)
    ∙ ap (λ l. c ∷ l) rest

-- The bytes that dirlink writes are those of the entry it means.
pub entry_of-entry_byte :
    (name : List ℕ) (inum : ℕ)
    → All (λ c. c ≢ 0) name
    → entry_of (entry_byte name inum) ≡ record { inum = inum % 65536; name = take dirsiz name }
unfolding entry_of entry_byte
entry_of-entry_byte name inum full =
    let num : half_byte (inum % 65536) 0 + 256 * half_byte (inum % 65536) 1 ≡ inum % 65536 =
      omega arith in
    ap (λ n. entry n (name_of dirsiz (entry_byte name inum) 2)) num
    ∙ ap (entry (inum % 65536))
        (name_of-name_byte dirsiz 2 (entry_byte name inum) name full (λ j h. tail j))
  where
    entry : ℕ → List ℕ → Dirent
    entry n s = record { inum = n; name = s }

    tail : (j : ℕ) → entry_byte name inum (2 + j) ≡ name_byte name j
    tail j =
        let a : ltb (2 + j) 2 ≡ false = ground arith in
        let b : 2 + j - 2 ≡ j = omega arith in rw (a, b) refl

pub entries-same :
    (c c' : ℕ → ℕ) (n k : ℕ)
    → ((i : ℕ) → 16 * k ≤ i → i < 16 * (k + n) → c i ≡ c' i)
    → entries c n k ≡ entries c' n k
entries-same c c' zero k same = refl
entries-same c c' (suc n) k same =
    ap (λ e. e ∷ entries c n (k + 1))
      (entry_of-same (λ i. c (16 * k + i)) (λ i. c' (16 * k + i))
        (λ j h. same (16 * k + j) (omega arith) (omega arith)))
    ∙ ap (λ l. entry_of (λ i. c' (16 * k + i)) ∷ l)
        (entries-same c c' n (k + 1) (λ i lo hi. same i (omega arith) (omega arith)))

-- The number of entries, when the entry `j` of `n` is written or comes behind them.
abbrev pub grown : ℕ → ℕ → ℕ
grown n j = if j == n then n + 1 else n

-- The entry `k + i` written: by the bytes, and in the list.
pub put_entry-entries :
    (c : ℕ → ℕ) (src : Block) (n k i : ℕ)
    → i ≤ n
    → put_entry (16 * k) (16 * (k + i)) (entry_of src) (entries c n k)
      ≡ entries (overlay c (16 * (k + i)) 16 src) (grown n i) k
unfolding put_entry
put_entry-entries c src zero k i h =
    let z : i ≡ 0 = omega arith in
    let e : 16 * (k + 0) ≡ 16 * k = omega arith in
    rw (z, e)
      (ap (λ d. d ∷ [])
        (entry_of-same src (λ j. overlay c (16 * k) 16 src (16 * k + j))
          (λ j l. sym (overlay-inside c (16 * k) 16 src j l))))
put_entry-entries c src (suc n) k zero h =
    let e : 16 * (k + 0) ≡ 16 * k = omega arith in
    let here : (16 * k == 16 * (k + 0)) ≡ true = ap (λ q. 16 * k == q) e ∙ ==_self (16 * k) in
    ap
      (λ b.
        if b
        then entry_of src ∷ entries c n (k + 1)
        else entry_of (λ j. c (16 * k + j))
          ∷ put_entry (16 * k + 16) (16 * (k + 0)) (entry_of src) (entries c n (k + 1)))
      here
    ∙ ap (λ q. q ∷ entries c n (k + 1))
        (entry_of-same src (λ j. overlay c (16 * (k + 0)) 16 src (16 * k + j))
          (λ j l.
            sym
              (ap (λ q. overlay c q 16 src (16 * k + j)) e ∙ overlay-inside c (16 * k) 16 src j l)))
    ∙ ap (λ l. entry_of (λ j. overlay c (16 * (k + 0)) 16 src (16 * k + j)) ∷ l)
        (entries-same c (overlay c (16 * (k + 0)) 16 src) n (k + 1)
          (λ j lo hi. sym (overlay-outside c (16 * (k + 0)) 16 src j (inr (omega arith)))))
    ∙ ap (λ m. entries (overlay c (16 * (k + 0)) 16 src) m k) (grown-zero n)
  where
    grown-zero : (n : ℕ) → suc n ≡ grown (suc n) 0
    grown-zero n = ground arith
put_entry-entries c src (suc n) k (suc i) h =
    let later : (16 * k == 16 * (k + suc i)) ≡ false =
      ==_ne (16 * k) (16 * (k + suc i)) (λ q. absurd (omega arith)) in
    let step : 16 * k + 16 ≡ 16 * (k + 1) = omega arith in
    let place : 16 * (k + suc i) ≡ 16 * (k + 1 + i) = omega arith in
    ap
      (λ b.
        if b
        then entry_of src ∷ entries c n (k + 1)
        else entry_of (λ j. c (16 * k + j))
          ∷ put_entry (16 * k + 16) (16 * (k + suc i)) (entry_of src) (entries c n (k + 1)))
      later
    ∙ ap (λ l. entry_of (λ j. c (16 * k + j)) ∷ l)
        (ap (λ q. put_entry q (16 * (k + suc i)) (entry_of src) (entries c n (k + 1))) step
          ∙ ap (λ q. put_entry (16 * (k + 1)) q (entry_of src) (entries c n (k + 1))) place
          ∙ put_entry-entries c src n (k + 1) i (omega arith)
          ∙ ap (λ q. entries (overlay c q 16 src) (grown n i) (k + 1)) (sym place))
    ∙ ap (λ e. e ∷ entries (overlay c (16 * (k + suc i)) 16 src) (grown n i) (k + 1))
        (entry_of-same (λ j. c (16 * k + j)) (λ j. overlay c (16 * (k + suc i)) 16 src (16 * k + j))
          (λ j l.
            sym (overlay-outside c (16 * (k + suc i)) 16 src (16 * k + j) (inl (omega arith)))))
    ∙ ap (λ m. entries (overlay c (16 * (k + suc i)) 16 src) m k) (grown-suc n i)
  where
    grown-suc : (n i : ℕ) → suc (grown n i) ≡ grown (suc n) (suc i)
    grown-suc n i = ground arith
