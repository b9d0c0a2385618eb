-- ===== src/Kalloc/Chain.antt =====
-- The free list as a list of pages, and what `kfree` and `kalloc` do to it.
use cs.Prelude.{
  All, ℕ, zero, suc, ◌+◌, ◌-◌, ◌*◌, ◌%◌, ◌≤◌, ◌<◌, ◌≡◌, ◌≢◌, ◌⊎◌, subst, inl, inr, refl, sym, ◌∙◌,
  arith, List, [], ◌∷◌, update, update_ne,
}
use native.Mathlib.Decide.{dec_lt}
use cs.Kalloc.{pgsize, kernbase, phystop, fill}

-- A page that the allocator may hold.
pub record IsPage (kernel_end v : ℕ) : Type 0 where
  pub aligned : v % pgsize ≡ 0
  pub above : kernel_end ≤ v
  pub below : v - kernbase < phystop

-- From the pointer `p` the list runs through exactly these pages, to 0.
abbrev pub Chain : (ℕ → ℕ) → ℕ → List ℕ → Type 0
Chain mem p [] = p ≡ 0
Chain mem p (x ∷ xs) = (p ≡ x) × Chain mem (mem x) xs

multiple_gap : (v x : ℕ) → v % pgsize ≡ 0 → x % pgsize ≡ 0 → v ≢ x → ¬ (x < v) → v + 4 * 1024 ≤ x
multiple_gap v x hv hx ne ge = elim (dec_lt x (v + 4 * 1024)) [
  | yes lt ↦ absurd (ne (omega arith))
  | no far ↦ omega arith
]

fill_outside : (n a : ℕ) (mem : ℕ → ℕ) (j : ℕ) → j < a ⊎ a + 4 * n ≤ j → fill n a mem j ≡ mem j
unfolding fill
fill_outside zero a mem j h = refl
fill_outside (suc n) a mem j h =
    fill_outside n (a + 4) (update mem a 0x01010101) j (ground arith)
    ∙ update_ne mem a 0x01010101 j (ground arith)

pub pages_apart : (v x : ℕ) → v % pgsize ≡ 0 → x % pgsize ≡ 0 → v ≢ x → x < v ⊎ v + 4 * 1024 ≤ x
pages_apart v x hv hx ne = elim (dec_lt x v) [
  | yes lt ↦ inl lt
  | no ge ↦ inr (multiple_gap v x hv hx ne ge)
]

-- What is written in the page `v` leaves the links of other pages alone.
abbrev pub freed : ℕ → ℕ → (ℕ → ℕ) → ℕ → ℕ
freed v next mem = update (fill 1024 v mem) v next

pub freed_apart :
    (v next : ℕ) (mem : ℕ → ℕ) (x : ℕ)
    → v % pgsize ≡ 0
    → x % pgsize ≡ 0
    → v ≢ x
    → freed v next mem x ≡ mem x
freed_apart v next mem x hv hx ne =
    update_ne (fill 1024 v mem) v next x ne ∙ fill_outside 1024 v mem x (pages_apart v x hv hx ne)

-- Memory that agrees on the pages of a list has the same list.
pub Chain-agree :
    (mem mem' : ℕ → ℕ) (p : ℕ) (xs : List ℕ)
    → All (λ x. mem' x ≡ mem x) xs
    → Chain mem p xs
    → Chain mem' p xs
Chain-agree mem mem' p [] h c = c
Chain-agree mem mem' p (x ∷ xs) (e, es) (px, c) =
    (px, subst (λ q. Chain mem' q xs) (sym e) (Chain-agree mem mem' (mem x) xs es c))
