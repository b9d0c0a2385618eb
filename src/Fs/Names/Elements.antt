-- ===== src/Fs/Names/Elements.antt =====
-- The elements of a path, and `skipelem` as the function that takes them off one by one.
use cs.Prelude.{
  ℕ, ◌≤◌, ◌<◌, ◌≡◌, inl, inr, refl, sym, ◌∙◌, ap, subst, ◌==◌, if◌then◌else◌, false, Bool-cases,
  List, [], ◌∷◌, Option, some, none, arith, length,
}
use cs.Fs.Names.{slash, skip_slashes, element, copy_name, skipelem}

-- The parts of a path between its slashes.
abbrev onto_first : ℕ → List (List ℕ) → List (List ℕ)
onto_first c [] = (c ∷ []) ∷ []
onto_first c (p ∷ ps) = (c ∷ p) ∷ ps

abbrev pub parts : List ℕ → List (List ℕ)
parts [] = [] ∷ []
parts (c ∷ path) = let rest = parts path in if c == slash then [] ∷ rest else onto_first c rest

abbrev pub nonempty : List (List ℕ) → List (List ℕ)
nonempty [] = []
nonempty ([] ∷ ps) = nonempty ps
nonempty ((c ∷ p) ∷ ps) = (c ∷ p) ∷ nonempty ps

-- The elements of a path are its nonempty parts.
abbrev pub elements : List ℕ → List (List ℕ)
elements path = nonempty (parts path)

elements-skip_slashes : (path : List ℕ) → elements (skip_slashes path) ≡ elements path
unfolding skip_slashes
elements-skip_slashes [] = refl
elements-skip_slashes (c ∷ path) = elim (Bool-cases (c == slash)) [
  | inl yes_slash ↦ rw yes_slash (elements-skip_slashes path)
  | inr other ↦ rw other (rw other refl)
]

pub parts-element :
    (path : List ℕ)
    → (more : List (List ℕ)) × (parts path ≡ (element path).0 ∷ more)
      × (nonempty more ≡ elements (element path).1)
unfolding element
parts-element [] = ([], refl, refl)
parts-element (c ∷ path) = elim (Bool-cases (c == slash)) [
  | inl yes_slash ↦ (parts path, rw yes_slash refl, rw yes_slash (rw yes_slash refl))
  | inr other ↦ let (more, e, f) = parts-element path in (more, rw (other, e) refl, rw other f)
]

element-nonempty :
    (c : ℕ) (s : List ℕ) → (c == slash) ≡ false → (element (c ∷ s)).0 ≡ c ∷ (element s).0
unfolding element
element-nonempty c s h = rw h refl

element-rest : (c : ℕ) (s : List ℕ) → (c == slash) ≡ false → (element (c ∷ s)).1 ≡ (element s).1
unfolding element
element-rest c s h = rw h refl

length-element : (path : List ℕ) → length (element path).1 ≤ length path
unfolding element
length-element [] = omega arith
length-element (c ∷ path) = elim (Bool-cases (c == slash)) [
  | inl yes_slash ↦ rw yes_slash (omega arith)
  | inr other ↦ rw other (omega (arith, length-element path))
]

length-skip_slashes : (path : List ℕ) → length (skip_slashes path) ≤ length path
unfolding skip_slashes
length-skip_slashes [] = omega arith
length-skip_slashes (c ∷ path) = elim (Bool-cases (c == slash)) [
  | inl yes_slash ↦ rw yes_slash (omega (arith, length-skip_slashes path))
  | inr other ↦ rw other (omega arith)
]

-- What is left after the slashes at the front begins with none.
skip_slashes-head :
    (path : List ℕ) (c : ℕ) (s : List ℕ) → skip_slashes path ≡ c ∷ s → (c == slash) ≡ false
unfolding skip_slashes
skip_slashes-head [] c s h = cc
skip_slashes-head (d ∷ path) c s h = elim (Bool-cases (d == slash)) [
  | inl yes_slash ↦ skip_slashes-head path c s (rw yes_slash at h)
  | inr other ↦ ground arith
]

-- A path that does not begin with a slash has no elements only if it is empty.
no_elements : (path : List ℕ) → elements (skip_slashes path) ≡ [] → skip_slashes path ≡ []
no_elements path h = go (skip_slashes path) refl
  where
    go : (s : List ℕ) → skip_slashes path ≡ s → s ≡ []
    go [] e = refl
    go (c ∷ s) e =
        let (more, p, q) = parts-element (c ∷ s) in
        let full = element-nonempty c s (skip_slashes-head path c s e) in
        let some_element : nonempty ((c ∷ (element s).0) ∷ more) ≡ [] =
          subst (λ f. nonempty (f ∷ more) ≡ []) full
            (ap nonempty (sym p) ∙ ap elements (sym e) ∙ h) in
        cc

-- The two ways in which `skipelem` ends.
pub data Skipped (path : List ℕ) : Option (List ℕ × List ℕ) → Type 0 where
  no_name : {r : Option (List ℕ × List ℕ)} → elements path ≡ [] → r ≡ none → Skipped path r
  name :
      (first rest : List ℕ) {r : Option (List ℕ × List ℕ)}
      → elements path ≡ first ∷ elements rest
      → length rest < length path
      → (elements rest ≡ [] → rest ≡ [])
      → r ≡ some (rest, copy_name first)
      → Skipped path r

-- `skipelem` returns the first element of the path, cut to DIRSIZ bytes, and a shorter path with
-- the other elements; it returns 0 exactly if the path has no elements.
pub skipelem-Skipped : (path : List ℕ) → Skipped path (skipelem path)
unfolding skipelem
skipelem-Skipped path = go (skip_slashes path) refl
  where
    rest_of :
        (c : ℕ) (s : List ℕ)
        → (c == slash) ≡ false
        → length (element (c ∷ s)).1 ≡ length (element s).1
    rest_of c s plain = ap (λ q. length q) (element-rest c s plain)

    shorter :
        (c : ℕ) (s : List ℕ)
        → (c == slash) ≡ false
        → skip_slashes path ≡ c ∷ s
        → length (skip_slashes (element (c ∷ s)).1) < length path
    shorter c s plain e = omega (
      arith,
      length-skip_slashes (element (c ∷ s)).1,
      length-element s,
      rest_of c s plain,
      length-skip_slashes path,
      ap (λ q. length q) e,
    )

    go : (s : List ℕ) → skip_slashes path ≡ s → Skipped path (skipelem path)
    go [] e = no_name (sym (elements-skip_slashes path) ∙ ap elements e) (rw (e, skipelem) refl)
    go (c ∷ s) e =
        let plain = skip_slashes-head path c s e in
        let (more, p, q) = parts-element (c ∷ s) in
        let full = element-nonempty c s plain in
        name (element (c ∷ s)).0 (skip_slashes (element (c ∷ s)).1)
          (sym (elements-skip_slashes path)
            ∙ ap elements e
            ∙ ap nonempty p
            ∙ subst (λ f. nonempty (f ∷ more) ≡ f ∷ nonempty more) (sym full) refl
            ∙ ap (λ ns. (element (c ∷ s)).0 ∷ ns)
                (q ∙ sym (elements-skip_slashes (element (c ∷ s)).1)))
          (shorter c s plain e) (no_elements (element (c ∷ s)).1) (rw (e, skipelem) refl)
