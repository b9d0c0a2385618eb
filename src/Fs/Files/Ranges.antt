-- ===== src/Fs/Files/Ranges.antt =====
-- The tests of readi and writei that come first.
use cs.Prelude.{
  u32_mod, ℕ, ◌+◌, ◌≤◌, ◌<◌, ◌≡◌, ◌⊎◌, ◌||◌, inl, inr, ltb, true, false, Bool-cases, arith, ltb→lt,
  add32,
}

pub too_far-true :
    (size off n : ℕ)
    → off < u32_mod
    → n < u32_mod
    → (ltb size off || ltb (add32 off n) off) ≡ true
    → (size < off) ⊎ (u32_mod ≤ off + n)
too_far-true size off n o h t = elim (Bool-cases (ltb size off)) [
  | inl far ↦ inl (ltb→lt size off far)
  | inr near ↦
      let t' : ltb (add32 off n) off ≡ true = ground arith in
      let w : add32 off n < off = ltb→lt (add32 off n) off t' in inr (omega arith)
]

pub too_far-false :
    (size off n : ℕ)
    → off < u32_mod
    → n < u32_mod
    → (ltb size off || ltb (add32 off n) off) ≡ false
    → (off ≤ size) × (off + n < u32_mod)
too_far-false size off n o h t = elim (Bool-cases (ltb size off)) [
  | inl far ↦ absurd (ground arith)
  | inr near ↦
      let t' : ltb (add32 off n) off ≡ false = ground arith in
      let le : off ≤ add32 off n = ground arith in (ground arith, omega arith)
]
