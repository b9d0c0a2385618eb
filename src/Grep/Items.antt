-- ===== src/Grep/Items.antt =====
-- What a pattern means: its items, and the texts that begin with a match of them.
use cs.Prelude.{◌↔◌, take, drop, ℕ, ◌≡◌, Bool, true, ◌==◌, if◌then◌else◌, List, [], ◌∷◌}
use cs.Grep.{star_char, dollar_char, fits}

pub data Item : Type 0 where
  one : ℕ → Item
  many : ℕ → Item
  ending : Item

abbrev pub last_item : ℕ → Item
last_item c = if c == dollar_char then ending else one c

abbrev pub parse : List ℕ → List Item
parse [] = []
parse (c ∷ []) = last_item c ∷ []
parse (c ∷ d ∷ re) =
    let starred = many c ∷ parse re in
    let once = one c ∷ parse (d ∷ re) in if d == star_char then starred else once

abbrev pub AllFit : ℕ → List ℕ → Type 0
AllFit c [] = Unit
AllFit c (x ∷ xs) = (fits c x ≡ true) × AllFit c xs

-- The text begins with a match: a character for `one`, the first `n` characters for some `n` for
-- `many`, and the end of the text for `ending`.
abbrev pub Begins : List Item → List ℕ → Type 0
Begins [] text = Unit
Begins (one c ∷ items) [] = ⊥
Begins (one c ∷ items) (x ∷ text) = (fits c x ≡ true) × Begins items text
Begins (many c ∷ items) text = (n : ℕ) × AllFit c (take n text) × Begins items (drop n text)
Begins (ending ∷ items) [] = Unit
Begins (ending ∷ items) (x ∷ text) = ⊥

-- A matcher says yes exactly on the texts that begin with the items.
abbrev pub Decides : (List ℕ → Bool) → List Item → Type 0
Decides here items = (text : List ℕ) → (here text ≡ true) ↔ Begins items text
