-- ===== src/Shell/Tokens.antt =====
-- What gettoken and peek leave of the text.
use cs.Prelude.{
  ℕ, ◌+◌, ◌≤◌, ◌≡◌, refl, sym, ap, ◌∙◌, ◌⊎◌, inl, inr, ◌==◌, true, false, Bool-cases, [], ◌∷◌,
  length, arith,
}
use cs.Shell.{
  Chars, strchr, whitespace, singles, skip_space, is_word_char, take_word, second, token, gettoken,
  starts,
}

pub length-skip_space : (s : Chars) → length (skip_space s) ≤ length s
unfolding skip_space
length-skip_space [] = omega arith
length-skip_space (c ∷ s) = elim (Bool-cases (strchr whitespace c)) [
  | inl space ↦ rw space (omega (arith, length-skip_space s))
  | inr other ↦ rw other (omega arith)
]

-- Behind the space stands nothing, or something else.
pub skip_space-cases :
    (s : Chars)
    → (skip_space s ≡ [])
      ⊎ ((c : ℕ) × (r : Chars) × (skip_space s ≡ c ∷ r) × (strchr whitespace c ≡ false))
unfolding skip_space
skip_space-cases [] = inl refl
skip_space-cases (c ∷ s) = elim (Bool-cases (strchr whitespace c)) [
  | inl space ↦ rw space (skip_space-cases s)
  | inr other ↦ rw other (inr (c, s, refl, other))
]

pub skip_space-skip_space : (s : Chars) → skip_space (skip_space s) ≡ skip_space s
unfolding skip_space
skip_space-skip_space [] = refl
skip_space-skip_space (c ∷ s) = elim (Bool-cases (strchr whitespace c)) [
  | inl space ↦ rw space (skip_space-skip_space s)
  | inr other ↦ rw (other, skip_space, other) refl
]

length-take_word : (s : Chars) → length (take_word s).1 ≤ length s
unfolding take_word
length-take_word [] = omega arith
length-take_word (c ∷ s) = elim (Bool-cases (is_word_char c)) [
  | inl inside ↦ rw inside (omega (arith, length-take_word s))
  | inr end ↦ rw end (omega arith)
]

length-second : (s : Chars) → length (second s).2 ≤ length s
unfolding second
length-second [] = omega arith
length-second (c ∷ s) = elim (Bool-cases (c == b'>')) [
  | inl twice ↦ rw twice (omega (arith, length-skip_space s))
  | inr once ↦ rw once (length-skip_space (c ∷ s))
]

-- A character that is no white space and no symbol of a case belongs to a word.
word_char :
    (c : ℕ)
    → strchr whitespace c ≡ false
    → strchr singles c ≡ false
    → (c == b'>') ≡ false
    → is_word_char c ≡ true
unfolding strchr
word_char c w s g = ground arith

pub length-token :
    (c : ℕ) (s : Chars) → strchr whitespace c ≡ false → length (token (c ∷ s)).2 ≤ length s
unfolding token take_word
length-token c s w = elim (Bool-cases (strchr singles c)) [
  | inl one ↦ rw one (length-skip_space s)
  | inr other ↦ elim (Bool-cases (c == b'>')) [
    | inl redirs ↦ rw (other, redirs) (length-second s)
    | inr word ↦
        rw (other, word, word_char c w other word)
          (omega (arith, length-skip_space (take_word s).1, length-take_word s))
  ]
]

-- A token is taken off the text, if one is left.
pub length-gettoken : (s : Chars) → (skip_space s ≡ []) ⊎ (length (gettoken s).2 + 1 ≤ length s)
unfolding gettoken
length-gettoken s = elim (skip_space-cases s) [
  | inl end ↦ inl end
  | inr (c, r, e, w) ↦ inr (
      rw e (omega (arith, length-token c r w, length-skip_space s, ap (λ (q : Chars). length q) e)))
]

pub gettoken-shorter :
    (toks s : Chars)
    → starts toks (skip_space s) ≡ true
    → length (gettoken (skip_space s)).2 + 1 ≤ length s
unfolding starts
gettoken-shorter toks s h = elim (length-gettoken (skip_space s)) [
  | inl end ↦ absurd (not_empty (sym (skip_space-skip_space s) ∙ end))
  | inr shorter ↦ omega (arith, shorter, length-skip_space s)
]
  where
    not_empty : skip_space s ≡ [] → ⊥
    not_empty e = cc (rw e at h)

pub gettoken-le : (s : Chars) → length (gettoken s).2 ≤ length s
unfolding gettoken token
gettoken-le s = elim (length-gettoken s) [
  | inl end ↦ rw end (omega arith)
  | inr shorter ↦ omega (arith, shorter)
]

-- At the end of the text the token is 0.
pub gettoken-shorter_ne :
    (s : Chars)
    → ((gettoken (skip_space s)).0 == 0) ≡ false
    → length (gettoken (skip_space s)).2 + 1 ≤ length s
unfolding gettoken token
gettoken-shorter_ne s h = elim (length-gettoken (skip_space s)) [
  | inl end ↦ cc (rw end at h)
  | inr shorter ↦ omega (arith, shorter, length-skip_space s)
]
