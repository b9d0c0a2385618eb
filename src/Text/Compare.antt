-- ===== src/Text/Compare.antt =====
-- `strncmp` and `memcmp`: 0 exactly for equal texts.
use cs.Prelude.{
  ℕ, zero, suc, ◌+◌, ◌≡◌, ◌↔◌, refl, if◌then◌else◌, ◌==◌, arith, List, [], ◌∷◌, pos, sub_ℕ-eq_zero,
}
use cs.Text.{Memory, strncmp}

-- The text at `p`: its bytes before the first 0, at most `n`.
abbrev pub text : ℕ → ℕ → Memory → List ℕ
text zero p m = []
text (suc n) p m = let rest = text n (p + 1) m in if m p == 0 then [] else m p ∷ rest

strncmp-text : (n p q : ℕ) (m : Memory) → strncmp p q n m ≡ pos 0 → text n p m ≡ text n q m
unfolding strncmp
strncmp-text zero p q m e = refl
strncmp-text (suc n) p q m e =
    ground (arith, strncmp-text n (p + 1) (q + 1) m, sub_ℕ-eq_zero (m p) (m q))

text-strncmp : (n p q : ℕ) (m : Memory) → text n p m ≡ text n q m → strncmp p q n m ≡ pos 0
unfolding strncmp
text-strncmp zero p q m e = refl
text-strncmp (suc n) p q m e = ground (arith, text-strncmp n (p + 1) (q + 1) m)

-- `strncmp` returns 0 exactly if the two texts agree in their first `n` bytes, or up to a 0 that
-- ends both.
pub strncmp_iff : (n p q : ℕ) (m : Memory) → (strncmp p q n m ≡ pos 0) ↔ (text n p m ≡ text n q m)
strncmp_iff n p q m = (strncmp-text n p q m, text-strncmp n p q m)
