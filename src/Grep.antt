-- ===== src/Grep.antt =====
-- grep.c: the regular expression matcher. A pattern and a text are the lists of their bytes, less
-- the 0 that ends them, so that `*text != '\0'` holds where the list has a head.
pub mod Items
pub mod Language
mod Tests
use cs.Prelude.{ℕ, Bool, true, false, ◌==◌, ◌||◌, if◌then◌else◌, List, [], ◌∷◌}

abbrev pub star_char : ℕ
star_char = 42

abbrev pub dot_char : ℕ
dot_char = 46

abbrev pub dollar_char : ℕ
dollar_char = 36

abbrev pub caret_char : ℕ
caret_char = 94

-- A character `c` of the pattern against a character of the text, in `matchhere`.
abbrev pub fits : ℕ → ℕ → Bool
fits c x = c == dot_char || c == x

-- `matchstar`; `here` is `matchhere` of the pattern behind the `*`. Its test of a character is
-- written the other way round.
pub matchstar : ℕ → (List ℕ → Bool) → List ℕ → Bool
matchstar c here [] = here []
matchstar c here (x ∷ text) =
    let rest = matchstar c here text in
    if here (x ∷ text) then true else if x == c || c == dot_char then rest else false

-- The last two tests of `matchhere` for `re[0] = c`; `here` is `matchhere` of `re + 1`.
pub matchone : ℕ → (List ℕ → Bool) → List ℕ → Bool
matchone c here [] = false
matchone c here (x ∷ text) = if fits c x then here text else false

pub is_empty : List ℕ → Bool
is_empty [] = true
is_empty (x ∷ text) = false

pub matchhere : List ℕ → List ℕ → Bool
unfolding matchstar matchone is_empty
matchhere [] text = true
matchhere (c ∷ []) text = if c == dollar_char then is_empty text else matchone c (matchhere []) text
matchhere (c ∷ d ∷ re) text =
    let starred = matchstar c (matchhere re) text in
    let once = matchone c (matchhere (d ∷ re)) text in if d == star_char then starred else once

-- The loop of `match`.
pub match_from : List ℕ → List ℕ → Bool
unfolding matchhere
match_from re [] = matchhere re []
match_from re (x ∷ text) =
    let rest = match_from re text in if matchhere re (x ∷ text) then true else rest

-- `match`
pub matches : List ℕ → List ℕ → Bool
unfolding match_from
matches [] text = match_from [] text
matches (c ∷ re) text = if c == caret_char then matchhere re text else match_from (c ∷ re) text
