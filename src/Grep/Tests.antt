-- ===== src/Grep/Tests.antt =====
-- Runs of the matcher, and its theorems at concrete inputs.
use cs.Prelude.{ℕ, ◌≡◌, ◌↔◌, refl, true, false, List, [], ◌∷◌}
use cs.Grep.{matches, caret_char, star_char, dot_char, dollar_char}
use cs.Grep.Language.{Found, matches-Found}

-- `^ab*.$` and the text `abbc`
abbrev anchored : List ℕ
anchored = caret_char ∷ 97 ∷ 98 ∷ star_char ∷ dot_char ∷ dollar_char ∷ []

abbrev abbc : List ℕ
abbc = 97 ∷ 98 ∷ 98 ∷ 99 ∷ []

anchored_yes : matches anchored abbc ≡ true
unfolding matches
anchored_yes = refl

anchored_no : matches anchored (120 ∷ abbc) ≡ false
unfolding matches
anchored_no = refl

-- `bc$`
within_yes : matches (98 ∷ 99 ∷ dollar_char ∷ []) abbc ≡ true
unfolding matches
within_yes = refl

matches-Found_example : (matches anchored abbc ≡ true) ↔ Found anchored abbc
matches-Found_example = matches-Found anchored abbc
