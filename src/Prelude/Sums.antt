-- ===== src/Prelude/Sums.antt =====
-- Sums over an array.
use Prim.Native.Nat.{ℕ, zero, suc, ◌+◌, ◌≤◌, ◌<◌}
use mathlib.Core.Path.{◌≡◌}
use mathlib.Core.Logic.{◌≢◌, inl, inr}
use native.Mathlib.Omega.{arith}
use cs.Prelude.Tests.{◌==◌, Bool-cases, ==_iff}

abbrev pub total : ℕ → (ℕ → ℕ) → ℕ
total zero f = 0
total (suc n) f = total n f + f n

pub total-same : (n : ℕ) (f g : ℕ → ℕ) → ((i : ℕ) → i < n → f i ≡ g i) → total n f ≡ total n g
total-same zero f g h = omega arith
total-same (suc n) f g h = omega (arith, total-same n f g (λ i l. h i (omega arith)), h n)

pub total-update :
    (n : ℕ) (f g : ℕ → ℕ) (i : ℕ)
    → i < n
    → ((j : ℕ) → j < n → i ≢ j → f j ≡ g j)
    → total n f + g i ≡ total n g + f i
total-update zero f g i l h = absurd (omega arith)
total-update (suc n) f g i l h = elim (Bool-cases (i == n)) [
  | inl last ↦
      let e : i ≡ n = (==_iff i n).0 last in
      let same : total n f ≡ total n g =
        total-same n f g (λ j m. h j (omega arith) (λ q. omega arith)) in
      rw e (omega (arith, same))
  | inr before ↦
      let ne : i ≢ n = λ q. ground (arith, ==_iff i n) in
      omega (
        arith,
        total-update n f g i (omega (arith, ne)) (λ j m. h j (omega arith)),
        h n (omega arith) ne,
      )
]

pub le-total : (n : ℕ) (f : ℕ → ℕ) (i : ℕ) → i < n → f i ≤ total n f
le-total zero f i l = absurd (omega arith)
le-total (suc n) f i l = elim (Bool-cases (i == n)) [
  | inl last ↦ rw ((==_iff i n).0 last) (omega arith)
  | inr before ↦
      let ne : i ≢ n = λ q. ground (arith, ==_iff i n) in
      omega (arith, le-total n f i (omega (arith, ne)))
]
