-- ===== src/Sysfile/Descriptors.antt =====
-- Which descriptor fdalloc takes, and which argfd accepts.
use cs.Prelude.{
  ℕ, zero, suc, ◌+◌, ◌≤◌, ◌<◌, ◌≡◌, ◌⊎◌, inl, inr, refl, ◌∙◌, ap, ◌==◌, ==_iff, leb, Bool-cases,
  Option, some, none, Option-cases, arith, update,
}
use cs.Syscall.{argint}
use cs.Sysfile.{Process, nofile, argfd, free_from, fdalloc}

abbrev pub IsOpen : Process → ℕ → Type 0
IsOpen p fd = (f : ℕ) × (p.ofile fd ≡ some f)

free_from-cases :
    (n fd : ℕ) (ofile : ℕ → Option ℕ)
    → ((k : ℕ) × (free_from n fd ofile ≡ some k)
        × (k < fd + n)
        × (ofile k ≡ none)
        × ((j : ℕ) → fd ≤ j → j < k → (f : ℕ) × (ofile j ≡ some f)))
      ⊎ ((free_from n fd ofile ≡ none)
          × ((j : ℕ) → fd ≤ j → j < fd + n → (f : ℕ) × (ofile j ≡ some f)))
unfolding free_from
free_from-cases zero fd ofile = inr (refl, λ j lo hi. absurd (omega arith))
free_from-cases (suc n) fd ofile = elim (Option-cases (ofile fd)) [
  | inl free ↦
      inl (fd, rw (free, free_from) refl, omega arith, free, λ j lo hi. absurd (omega arith))
  | inr (f, named) ↦ elim (free_from-cases n (fd + 1) ofile) [
    | inl (k, e, h, free, before) ↦ inl (
      k,
      rw (named, free_from) e,
      omega arith,
      free,
      λ j lo hi. first f named j lo (λ later. before j later hi),
    )
    | inr (e, all) ↦ inr (
      rw (named, free_from) e,
      λ j lo hi. first f named j lo (λ later. all j later (omega arith)),
    )
  ]
]
  where
    first :
        (f : ℕ)
        → ofile fd ≡ some f
        → (j : ℕ) → fd ≤ j
        → (fd + 1 ≤ j → (g : ℕ) × (ofile j ≡ some g))
        → (g : ℕ) × (ofile j ≡ some g)
    first f named j lo later = elim (Bool-cases (j == fd)) [
      | inl this ↦ (f, ap ofile ((==_iff j fd).0 this) ∙ named)
      | inr other ↦ later (ground (arith, ==_iff j fd))
    ]

-- fdalloc takes the lowest descriptor that is free.
pub fdalloc-cases :
    (f : ℕ) (p : Process)
    → ((fd : ℕ) × (fdalloc f p ≡ some (record p { ofile = update p.ofile fd (some f) }, fd))
        × (fd < nofile)
        × (p.ofile fd ≡ none)
        × ((j : ℕ) → j < fd → IsOpen p j))
      ⊎ ((fdalloc f p ≡ none) × ((j : ℕ) → j < nofile → IsOpen p j))
unfolding fdalloc
fdalloc-cases f p = elim (free_from-cases nofile 0 p.ofile) [
  | inl (fd, e, h, free, before) ↦
      inl (fd, rw (e, fdalloc) refl, omega arith, free, λ j l. before j (omega arith) l)
  | inr (e, all) ↦ inr (rw (e, fdalloc) refl, λ j l. all j (omega arith) (omega arith))
]

pub argfd-cases :
    (p : Process) (n : ℕ)
    → ((fd : ℕ) × (f : ℕ) × (argfd p n ≡ some (fd, f))
        × (argint p.caller n ≡ some fd)
        × (fd < nofile)
        × (p.ofile fd ≡ some f))
      ⊎ ((argfd p n ≡ none)
          × ((argint p.caller n ≡ none)
              ⊎ ((fd : ℕ) × (argint p.caller n ≡ some fd) × ((nofile ≤ fd) ⊎ (p.ofile fd ≡ none)))))
unfolding argfd
argfd-cases p n = elim (Option-cases (argint p.caller n)) [
  | inl missing ↦ inr (rw (missing, argfd) refl, inl missing)
  | inr (fd, found) ↦ elim (Bool-cases (leb nofile fd)) [
    | inl large ↦ inr (rw (found, argfd, large) refl, inr (fd, found, inl (ground arith)))
    | inr small ↦ elim (Option-cases (p.ofile fd)) [
      | inl closed ↦ inr (rw (found, argfd, small, closed) refl, inr (fd, found, inr closed))
      | inr (f, named) ↦
          inl (fd, f, rw (found, argfd, small, named) refl, found, ground arith, named)
    ]
  ]
]
