-- ===== src/Shell/Words.antt =====
-- How gettoken and peek read what is printed.
use cs.Prelude.{
  All-map, ℕ, ◌≡◌, ◌==◌, refl, ◌∙◌, true, false, Bool-cases, inl, inr, some, none, List, [], ◌∷◌,
  ◌++◌, All, arith,
}
use cs.Shell.{
  Chars, strchr, whitespace, symbols, singles, is_word_char, skip_space, take_word, token, gettoken,
  starts,
}
use cs.Shell.Printer.{close, semi, amp, bar, less, greater, Rest, chars, words, IsWord}

-- Nothing is skipped before a symbol.
pub skip_space-chars : (o : Rest) → skip_space (chars o) ≡ chars o
unfolding skip_space
skip_space-chars none = refl
skip_space-chars (some (close, s)) = refl
skip_space-chars (some (semi, s)) = refl
skip_space-chars (some (amp, s)) = refl
skip_space-chars (some (bar, s)) = refl
skip_space-chars (some (less, s)) = refl
skip_space-chars (some (greater, s)) = refl

-- What a word ends at.
pub take_word-rest :
    (ws : List Chars) (o : Rest) → take_word (words ws (chars o)) ≡ ([], words ws (chars o))
unfolding take_word
take_word-rest (w ∷ ws) o = refl
take_word-rest [] none = refl
take_word-rest [] (some (close, s)) = refl
take_word-rest [] (some (semi, s)) = refl
take_word-rest [] (some (amp, s)) = refl
take_word-rest [] (some (bar, s)) = refl
take_word-rest [] (some (less, s)) = refl
take_word-rest [] (some (greater, s)) = refl

pub take_word-append :
    (w k : Chars)
    → All (λ c. is_word_char c ≡ true) w
    → take_word k ≡ ([], k)
    → take_word (w ++ k) ≡ (w, k)
unfolding take_word
take_word-append [] k h e = e
take_word-append (c ∷ w) k (h, hs) e = rw (take_word-append w k hs e, h) refl

-- A character of a word is none that the parser looks for.
pub word_char :
    (c : ℕ) → is_word_char c ≡ true → (strchr whitespace c ≡ false) × (strchr symbols c ≡ false)
unfolding strchr
word_char c h = elim (Bool-cases (strchr whitespace c)) [
  | inl space ↦ cc (rw space at h)
  | inr other ↦ elim (Bool-cases (strchr symbols c)) [
    | inl found ↦ cc (rw (other, found) at h)
    | inr plain ↦ (other, plain)
  ]
]

pub no_symbol :
    (c : ℕ)
    → strchr symbols c ≡ false
    → (strchr singles c ≡ false)
      × ((c == b'>') ≡ false)
      × (strchr (b'|' ∷ b')' ∷ b'&' ∷ b';' ∷ []) c ≡ false)
      × (strchr (b'(' ∷ []) c ≡ false)
      × (strchr (b'<' ∷ b'>' ∷ []) c ≡ false)
unfolding strchr
no_symbol c h = (ground arith, ground arith, ground arith, ground arith, ground arith)

-- A text that begins with a word.
pub record Begins (s : Chars) : Type 0 where
  pub stays : skip_space s ≡ s
  pub not_stop : starts (b'|' ∷ b')' ∷ b'&' ∷ b';' ∷ []) s ≡ false
  pub not_block : starts (b'(' ∷ []) s ≡ false
  pub not_redir : starts (b'<' ∷ b'>' ∷ []) s ≡ false

pub word-Begins : (w k : Chars) → IsWord w → Begins (w ++ k)
unfolding skip_space starts
word-Begins [] k (ne, h) = absurd (ne refl)
word-Begins (c ∷ w) k (ne, (h, hs)) =
    let (space, plain) = word_char c h.0 in
    let (a, b, d, e, f) = no_symbol c plain in
    record { stays = rw space refl; not_stop = d; not_block = e; not_redir = f }

pub gettoken-word :
    (w : Chars) (ws : List Chars) (o : Rest)
    → IsWord w
    → gettoken (w ++ words ws (chars o)) ≡ (b'a', w, skip_space (words ws (chars o)))
unfolding gettoken token
gettoken-word [] ws o (ne, h) = absurd (ne refl)
gettoken-word (c ∷ w) ws o (ne, (h, hs)) =
    let k = words ws (chars o) in
    let (space, plain) = word_char c h.0 in
    let (a, b, d, e, f) = no_symbol c plain in
    rw
      (
        (word-Begins (c ∷ w) k (ne, (h, hs))).stays,
        token,
        a,
        b,
        take_word-append (c ∷ w) k (All-map (c ∷ w) (λ x q. q.0) (h, hs)) (take_word-rest ws o),
      )
      refl

pub gettoken-last : (w : Chars) (o : Rest) → IsWord w → gettoken (w ++ chars o) ≡ (b'a', w, chars o)
gettoken-last w o h = gettoken-word w [] o h ∙ rw (skip_space-chars o) refl
