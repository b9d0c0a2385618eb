-- ===== src/Grep/Language.antt =====
-- The matcher says yes exactly where the pattern's language says so.
use cs.Prelude.{
  drop, ℕ, zero, suc, ◌≡◌, ◌↔◌, refl, Bool, true, false, ◌==◌, ◌||◌, if◌then◌else◌, List, [], ◌∷◌,
  arith, Bool-cases, inl, inr,
}
use cs.Grep.{
  star_char, dot_char, dollar_char, caret_char, fits, matchstar, matchone, matchhere, match_from,
  matches, is_empty,
}
use cs.Grep.Items.{Item, one, many, ending, parse, Begins, Decides}

matchone-Decides :
    (c : ℕ) (here : List ℕ → Bool) (items : List Item)
    → Decides here items
    → (text : List ℕ) → (matchone c here text ≡ true) ↔ Begins (one c ∷ items) text
unfolding matchone
matchone-Decides c here items d [] = (λ e. cc, λ b. absurd b)
matchone-Decides c here items d (x ∷ text) = elim (Bool-cases (fits c x)) [
  | inl fit ↦ rw fit (λ e. (refl, (d text).0 e), λ (m, b). (d text).1 b)
  | inr misfit ↦ rw misfit (λ e. cc, λ (m, b). cc)
]

-- The test of a character in `matchstar` is that of `matchhere`.
matchstar_test : (c x : ℕ) → (x == c || c == dot_char) ≡ fits c x
matchstar_test c x = ground arith

empty-Begins : (text : List ℕ) → (is_empty text ≡ true) ↔ Begins (ending ∷ []) text
unfolding is_empty
empty-Begins [] = (λ e. tt, λ b. refl)
empty-Begins (x ∷ text) = (λ e. cc, λ b. absurd b)

-- A character in front of a text that `matchstar` decides.
longer_star :
    (c x : ℕ) (text : List ℕ) (here rest : Bool) (items : List Item)
    → (here ≡ true) ↔ Begins items (x ∷ text)
    → (rest ≡ true) ↔ Begins (many c ∷ items) text
    → ((if here then true else if fits c x then rest else false) ≡ true)
      ↔ Begins (many c ∷ items) (x ∷ text)
longer_star c x text true rest items d ih = (λ e. (0, tt, d.0 refl), λ b. refl)
longer_star c x text false rest items d ih = elim (Bool-cases (fits c x)) [
  | inl fit ↦ rw fit (more fit, fewer)
  | inr misfit ↦ rw misfit (λ e. cc, none_fits misfit)
]
  where
    more : fits c x ≡ true → rest ≡ true → Begins (many c ∷ items) (x ∷ text)
    more fit e = let b = ih.0 e in (suc b.0, (fit, b.1), b.2)

    fewer : Begins (many c ∷ items) (x ∷ text) → rest ≡ true
    fewer (zero, m, b) = let e : false ≡ true = d.1 b in cc
    fewer (suc n, (fit, m), b) = ih.1 (n, m, b)

    none_fits : fits c x ≡ false → Begins (many c ∷ items) (x ∷ text) → false ≡ true
    none_fits misfit (zero, m, b) = d.1 b
    none_fits misfit (suc n, (fit, m), b) = cc

matchstar-Decides :
    (c : ℕ) (here : List ℕ → Bool) (items : List Item)
    → Decides here items
    → (text : List ℕ) → (matchstar c here text ≡ true) ↔ Begins (many c ∷ items) text
unfolding matchstar
matchstar-Decides c here items d [] = (λ e. (0, tt, (d []).0 e), empty)
  where
    empty : Begins (many c ∷ items) [] → here [] ≡ true
    empty (zero, m, b) = (d []).1 b
    empty (suc n, m, b) = (d []).1 b
matchstar-Decides c here items d (x ∷ text) = rw (matchstar_test c x) (
    longer_star c x text (here (x ∷ text)) (matchstar c here text) items (d (x ∷ text))
      (matchstar-Decides c here items d text))

-- A pattern with no `^` in front: the texts that begin with a match of its items are the ones that
-- `matchhere` says yes to.
pub matchhere-Begins : (re text : List ℕ) → (matchhere re text ≡ true) ↔ Begins (parse re) text
unfolding matchhere
matchhere-Begins [] text = (λ e. tt, λ b. refl)
matchhere-Begins (c ∷ []) text = elim (Bool-cases (c == dollar_char)) [
  | inl dollar ↦ rw dollar (empty-Begins text)
  | inr other ↦ rw other (matchone-Decides c (matchhere []) [] (matchhere-Begins []) text)
]
matchhere-Begins (c ∷ d ∷ re) text = elim (Bool-cases (d == star_char)) [
  | inl star ↦ rw star (matchstar-Decides c (matchhere re) (parse re) (matchhere-Begins re) text)
  | inr other ↦
      rw other
        (matchone-Decides c (matchhere (d ∷ re)) (parse (d ∷ re)) (matchhere-Begins (d ∷ re)) text)
]

longer_search :
    (re : List ℕ) (x : ℕ) (text : List ℕ) (here rest : Bool)
    → (here ≡ true) ↔ Begins (parse re) (x ∷ text)
    → (rest ≡ true) ↔ ((n : ℕ) × Begins (parse re) (drop n text))
    → ((if here then true else rest) ≡ true) ↔ ((n : ℕ) × Begins (parse re) (drop n (x ∷ text)))
longer_search re x text true rest d ih = (λ e. (0, d.0 refl), λ b. refl)
longer_search re x text false rest d ih = (λ e. let b = ih.0 e in (suc b.0, b.1), further)
  where
    further : (n : ℕ) × Begins (parse re) (drop n (x ∷ text)) → rest ≡ true
    further (zero, b) = let e : false ≡ true = d.1 b in cc
    further (suc n, b) = ih.1 (n, b)

-- `match_from` says yes exactly if some end of the text begins with a match.
match_from-Begins :
    (re text : List ℕ) → (match_from re text ≡ true) ↔ ((n : ℕ) × Begins (parse re) (drop n text))
unfolding match_from
match_from-Begins re [] = (λ e. (0, (matchhere-Begins re []).0 e), at_end)
  where
    at_end : (n : ℕ) × Begins (parse re) (drop n []) → matchhere re [] ≡ true
    at_end (zero, b) = (matchhere-Begins re []).1 b
    at_end (suc n, b) = (matchhere-Begins re []).1 b
match_from-Begins re (x ∷ text) =
    longer_search re x text (matchhere re (x ∷ text)) (match_from re text)
      (matchhere-Begins re (x ∷ text)) (match_from-Begins re text)

-- The texts that a pattern is found in: at the start of the text if it begins with `^`, and
-- anywhere if not.
abbrev pub Found : List ℕ → List ℕ → Type 0
Found [] text = Unit
Found (c ∷ re) text =
    if c == caret_char
    then Begins (parse re) text
    else (n : ℕ) × Begins (parse (c ∷ re)) (drop n text)

-- `match` says yes exactly if the pattern is found in the text: its items match one after the
-- other, `c*` any number of characters, `.` any character and a last `$` the end of the text, from
-- the start of the text if the pattern begins with `^`, and from any place of it if not.
pub matches-Found : (re text : List ℕ) → (matches re text ≡ true) ↔ Found re text
unfolding matches
matches-Found [] text = (λ e. tt, λ b. (match_from-Begins [] text).1 (0, tt))
matches-Found (c ∷ re) text = elim (Bool-cases (c == caret_char)) [
  | inl caret ↦ rw caret (matchhere-Begins re text)
  | inr other ↦ rw other (match_from-Begins (c ∷ re) text)
]
