-- ===== src/Syscall/Strings.antt =====
-- The arguments that are strings.
use cs.Prelude.{
  ℕ, zero, suc, ◌+◌, ◌-◌, ◌<◌, ◌≡◌, ◌≢◌, ◌⊎◌, inl, inr, refl, sym, ◌∙◌, ap, ◌==◌, ==_iff, leb,
  false, Bool-cases, some, none, Option-cases, arith,
}
use cs.Syscall.{Caller, nul_from, fetchstr, argint, argstr}

-- The first zero at or behind `s`.
nul_from-cases :
    (n s : ℕ) (mem : ℕ → ℕ)
    → ((k : ℕ) × (nul_from n s mem ≡ some (s + k))
        × (k < n)
        × (mem (s + k) ≡ 0)
        × ((i : ℕ) → i < k → mem (s + i) ≢ 0))
      ⊎ ((nul_from n s mem ≡ none) × ((i : ℕ) → i < n → mem (s + i) ≢ 0))
unfolding nul_from
nul_from-cases zero s mem = inr (refl, λ i h. absurd (omega arith))
nul_from-cases (suc n) s mem = elim (Bool-cases (mem s == 0)) [
  | inl here ↦
      let z : s + 0 ≡ s = omega arith in
      inl (
        0,
        rw (here, z) refl,
        omega arith,
        rw z ((==_iff (mem s) 0).0 here),
        λ i h. absurd (omega arith),
      )
  | inr full ↦ elim (nul_from-cases n (s + 1) mem) [
    | inl (k, e, lt, nul, before) ↦
        let sum : s + suc k ≡ s + 1 + k = omega arith in
        inl (suc k, rw (full, sum) e, omega arith, rw sum nul, λ i h. full_to i full k before h)
    | inr (e, all) ↦ inr (rw full e, λ i h. full_to i full n all h)
  ]
]
  where
    full_to :
        (i : ℕ)
        → (mem s == 0) ≡ false
        → (k : ℕ) → ((j : ℕ) → j < k → mem (s + 1 + j) ≢ 0)
        → i < suc k
        → mem (s + i) ≢ 0
    full_to zero full k before h z =
        let e : s + 0 ≡ s = omega arith in ground (arith, ==_iff (mem s) 0, ap mem e)
    full_to (suc i) full k before h z =
        before i (omega arith) (let e : s + suc i ≡ s + 1 + i = omega arith in sym (ap mem e) ∙ z)

-- `argstr`: if it accepts the argument, this is the address of a text of the length that it returns,
-- which ends with a zero inside the process' memory and has no other; it refuses it exactly if
-- there is no argument or no zero from there to the end of the memory.
pub argstr-Inside :
    (c : Caller) (n : ℕ)
    → ((p : ℕ) × (len : ℕ) × (argstr c n ≡ some (p, len))
        × (argint c n ≡ some p)
        × (p + len < c.sz)
        × (c.mem (p + len) ≡ 0)
        × ((i : ℕ) → i < len → c.mem (p + i) ≢ 0))
      ⊎ ((argstr c n ≡ none)
          × ((argint c n ≡ none)
              ⊎ ((p : ℕ) × (argint c n ≡ some p) × ((i : ℕ) → p + i < c.sz → c.mem (p + i) ≢ 0))))
unfolding argstr fetchstr
argstr-Inside c n = elim (Option-cases (argint c n)) [
  | inl missing ↦ inr (rw (missing, argstr) refl, inl missing)
  | inr (p, found) ↦ elim (Bool-cases (leb c.sz p)) [
    | inl behind ↦
        inr
          (rw (found, argstr, fetchstr, behind) refl, inr (p, found, λ i h. absurd (ground arith)))
    | inr inside ↦ elim (nul_from-cases (c.sz - p) p c.mem) [
      | inl (k, e, lt, nul, before) ↦
          let len : p + k - p ≡ k = omega arith in
          inl (
            p,
            k,
            rw (found, argstr, fetchstr, inside, e, len) refl,
            found,
            omega arith,
            nul,
            before,
          )
      | inr (e, all) ↦
          inr (
            rw (found, argstr, fetchstr, inside, e) refl,
            inr (p, found, λ i h. all i (omega arith)),
          )
    ]
  ]
]
