-- ===== src/Text/Copy.antt =====
-- `strncpy` and `safestrcpy`: the copy reads as the same text.
use cs.Prelude.{
  ℕ, zero, suc, ◌+◌, ◌≤◌, ◌<◌, ◌≡◌, ◌≢◌, ◌⊎◌, inl, inr, refl, sym, ◌∙◌, ap₂, if◌then◌else◌, ◌==◌,
  arith, [], ◌∷◌, Bool-cases, update, update_self, update_ne, length, pos, ==_ne,
}
use cs.Text.{Memory, pad, strncpy, safestrcpy, safestrcpy_from, strncmp}
use cs.Text.Compare.{text, strncmp_iff}

text_zero : (n p : ℕ) (m : Memory) → m p ≡ 0 → text n p m ≡ []
text_zero zero p m e = refl
text_zero (suc n) p m e = rw e

text_more : (n p : ℕ) (m : Memory) → m p ≢ 0 → text (suc n) p m ≡ m p ∷ text n (p + 1) m
text_more n p m h = rw (==_ne (m p) 0 h)

-- The text depends on its own bytes only.
pub text-ext :
    (n p : ℕ) (m m' : Memory)
    → ((j : ℕ) → p ≤ j → j < p + n → m' j ≡ m j)
    → text n p m' ≡ text n p m
text-ext zero p m m' h = refl
text-ext (suc n) p m m' h =
    ap₂ (λ c rest. if c == 0 then [] else c ∷ rest) (h p (omega arith) (omega arith))
      (text-ext n (p + 1) m m' (λ j lo hi. h j (omega arith) (omega arith)))

length-text : (n p : ℕ) (m : Memory) → length (text n p m) ≤ n
length-text zero p m = omega arith
length-text (suc n) p m = elim (Bool-cases (m p == 0)) [
  | inl nul ↦ rw nul (omega arith)
  | inr byte ↦ rw byte (omega (arith, length-text n (p + 1) m))
]

pad_outside : (n s : ℕ) (m : Memory) (j : ℕ) → j < s ⊎ s + n ≤ j → pad s n m j ≡ m j
unfolding pad
pad_outside zero s m j h = refl
pad_outside (suc n) s m j h =
    pad_outside n (s + 1) (update m s 0) j (ground arith) ∙ update_ne m s 0 j (ground arith)

strncpy_nul :
    (n s t : ℕ) (m : Memory) → m t ≡ 0 → strncpy s t (suc n) m ≡ pad (s + 1) n (update m s (m t))
unfolding strncpy
strncpy_nul n s t m h = rw h

strncpy_byte :
    (n s t : ℕ) (m : Memory)
    → m t ≢ 0
    → strncpy s t (suc n) m ≡ strncpy (s + 1) (t + 1) n (update m s (m t))
unfolding strncpy
strncpy_byte n s t m h = rw (==_ne (m t) 0 h)

pub strncpy_outside : (n s t : ℕ) (m : Memory) (j : ℕ) → j < s ⊎ s + n ≤ j → strncpy s t n m j ≡ m j
strncpy_outside zero s t m j h = unfold strncpy in refl
strncpy_outside (suc n) s t m j h = elim (Bool-cases (m t == 0)) [
  | inl nul ↦ rw (strncpy_nul n s t m (ground arith)) (
      pad_outside n (s + 1) (update m s (m t)) j (ground arith)
      ∙ update_ne m s (m t) j (ground arith))
  | inr byte ↦ rw (strncpy_byte n s t m (ground arith)) (
      strncpy_outside n (s + 1) (t + 1) (update m s (m t)) j (ground arith)
      ∙ update_ne m s (m t) j (ground arith))
]

-- The two ranges share no byte.
abbrev pub Apart : ℕ → ℕ → ℕ → Type 0
Apart n s t = s + n ≤ t ⊎ t + n ≤ s

strncpy-text : (n s t : ℕ) (m : Memory) → Apart n s t → text n s (strncpy s t n m) ≡ text n t m
strncpy-text zero s t m h = refl
strncpy-text (suc n) s t m h = elim (Bool-cases (m t == 0)) [
  | inl nul ↦
      let e : m t ≡ 0 = ground arith in
      rw (strncpy_nul n s t m e) (
        text_zero (suc n) s (pad (s + 1) n (update m s (m t))) (
          pad_outside n (s + 1) (update m s (m t)) s (inl (omega arith))
          ∙ update_self m s (m t)
          ∙ e)
        ∙ sym (text_zero (suc n) t m e))
  | inr byte ↦
      let ne : m t ≢ 0 = ground arith in
      let m' : Memory = update m s (m t) in
      let first =
        strncpy_outside n (s + 1) (t + 1) m' s (inl (omega arith)) ∙ update_self m s (m t) in
      rw (strncpy_byte n s t m ne) (
        text_more n s (strncpy (s + 1) (t + 1) n m') (λ e. ne (sym first ∙ e))
        ∙ ap₂ ◌∷◌ first (
            strncpy-text n (s + 1) (t + 1) m' (ground arith)
            ∙ text-ext n (t + 1) m m' (λ j lo hi. update_ne m s (m t) j (ground arith)))
        ∙ sym (text_more n t m ne))
]

-- `strncpy` of a text to a range apart from it: the copy reads as the same text in its first `n`
-- bytes, so that `strncmp` finds the two equal, and no byte outside the `n` bytes changes.
pub strncpy-strncmp :
    (n s t : ℕ) (m : Memory)
    → Apart n s t
    → (text n s (strncpy s t n m) ≡ text n t m)
      × (strncmp s t n (strncpy s t n m) ≡ pos 0)
      × ((j : ℕ) → j < s ⊎ s + n ≤ j → strncpy s t n m j ≡ m j)
strncpy-strncmp n s t m h =
    (same, (strncmp_iff n s t (strncpy s t n m)).1 (same ∙ sym kept), strncpy_outside n s t m)
  where
    same : text n s (strncpy s t n m) ≡ text n t m
    same = strncpy-text n s t m h

    kept : text n t (strncpy s t n m) ≡ text n t m
    kept = text-ext n t m (strncpy s t n m) (λ j lo hi. strncpy_outside n s t m j (ground arith))

safestrcpy_nul :
    (n s t : ℕ) (m : Memory)
    → m t ≡ 0
    → safestrcpy_from s t (suc n) m ≡ update (update m s (m t)) (s + 1) 0
unfolding safestrcpy_from
safestrcpy_nul n s t m h = rw h

safestrcpy_byte :
    (n s t : ℕ) (m : Memory)
    → m t ≢ 0
    → safestrcpy_from s t (suc n) m ≡ safestrcpy_from (s + 1) (t + 1) n (update m s (m t))
unfolding safestrcpy_from
safestrcpy_byte n s t m h = rw (==_ne (m t) 0 h)

safestrcpy_from_outside :
    (n s t : ℕ) (m : Memory) (j : ℕ) → j < s ⊎ s + n < j → safestrcpy_from s t n m j ≡ m j
safestrcpy_from_outside zero s t m j h = unfold safestrcpy_from in update_ne m s 0 j (ground arith)
safestrcpy_from_outside (suc n) s t m j h = elim (Bool-cases (m t == 0)) [
  | inl nul ↦ rw (safestrcpy_nul n s t m (ground arith)) (
      update_ne (update m s (m t)) (s + 1) 0 j (ground arith)
      ∙ update_ne m s (m t) j (ground arith))
  | inr byte ↦ rw (safestrcpy_byte n s t m (ground arith)) (
      safestrcpy_from_outside n (s + 1) (t + 1) (update m s (m t)) j (ground arith)
      ∙ update_ne m s (m t) j (ground arith))
]

safestrcpy_from-text :
    (n s t : ℕ) (m : Memory)
    → Apart (suc n) s t
    → text (suc n) s (safestrcpy_from s t n m) ≡ text n t m
safestrcpy_from-text zero s t m h =
    unfold safestrcpy_from in text_zero 1 s (update m s 0) (update_self m s 0)
safestrcpy_from-text (suc n) s t m h = elim (Bool-cases (m t == 0)) [
  | inl nul ↦
      let e : m t ≡ 0 = ground arith in
      rw (safestrcpy_nul n s t m e) (
        text_zero (suc (suc n)) s (update (update m s (m t)) (s + 1) 0)
          (update_ne (update m s (m t)) (s + 1) 0 s (omega arith) ∙ update_self m s (m t) ∙ e)
        ∙ sym (text_zero (suc n) t m e))
  | inr byte ↦
      let ne : m t ≢ 0 = ground arith in
      let m' : Memory = update m s (m t) in
      let first =
        safestrcpy_from_outside n (s + 1) (t + 1) m' s (inl (omega arith))
        ∙ update_self m s (m t) in
      rw (safestrcpy_byte n s t m ne) (
        text_more (suc n) s (safestrcpy_from (s + 1) (t + 1) n m') (λ e. ne (sym first ∙ e))
        ∙ ap₂ ◌∷◌ first (
            safestrcpy_from-text n (s + 1) (t + 1) m' (ground arith)
            ∙ text-ext n (t + 1) m m' (λ j lo hi. update_ne m s (m t) j (ground arith)))
        ∙ sym (text_more n t m ne))
]

-- `safestrcpy` to a buffer of `n + 1` bytes apart from the source: the buffer then holds the text
-- of the first `n` bytes of the source, ended by a 0 inside the buffer (it reads as a text of at
-- most `n` bytes there), and no byte outside the buffer changes.
pub safestrcpy-text :
    (n s t : ℕ) (m : Memory)
    → Apart (suc n) s t
    → (text (suc n) s (safestrcpy s t (suc n) m) ≡ text n t m)
      × (length (text (suc n) s (safestrcpy s t (suc n) m)) ≤ n)
      × ((j : ℕ) → j < s ⊎ s + suc n ≤ j → safestrcpy s t (suc n) m j ≡ m j)
unfolding safestrcpy
safestrcpy-text n s t m h = (
  safestrcpy_from-text n s t m h,
  rw (safestrcpy_from-text n s t m h) (length-text n t m),
  λ j o. safestrcpy_from_outside n s t m j (ground arith),
)
