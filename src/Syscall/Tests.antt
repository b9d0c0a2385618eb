-- ===== src/Syscall/Tests.antt =====
-- Arguments of a small process.
use cs.Prelude.{ℕ, ◌+◌, ◌≤◌, ◌<◌, ◌≡◌, ◌≢◌, ◌⊎◌, ◌==◌, if◌then◌else◌, refl, some, none, arith}
use cs.Syscall.{Caller, int_at, fetchint, nul_from, fetchstr, argint, argptr, argstr}
use cs.Syscall.Arguments.{argptr-Inside}
use cs.Syscall.Strings.{argstr-Inside}

-- 100 bytes; the arguments are 50 and 10, and "hi" is at 50.
abbrev small : Caller
small = record {
  sz = 100;
  mem = λ a.
      if a == 84
      then 50
      else if a == 88
      then 10
      else if a == 50
      then 104
      else if a == 51
      then 105
      else 0;
  esp = 80;
}

first_is_50 : argint small 0 ≡ some 50
unfolding argint fetchint int_at
first_is_50 = refl

text_at_50 : argstr small 0 ≡ some (50, 2)
unfolding argstr argint fetchint fetchstr int_at nul_from
text_at_50 = refl

fifty_bytes : argptr small 0 50 ≡ some 50
unfolding argptr argint fetchint int_at
fifty_bytes = refl

too_many : argptr small 0 51 ≡ none
unfolding argptr argint fetchint int_at
too_many = refl

beyond : fetchint small 97 ≡ none
unfolding fetchint
beyond = refl

argptr-Inside_example :
    ((p : ℕ) × (argptr small 0 50 ≡ some p)
      × (argint small 0 ≡ some p)
      × (50 < 0x80000000)
      × (p < 100)
      × (p + 50 ≤ 100))
    ⊎ ((argptr small 0 50 ≡ none)
        × ((argint small 0 ≡ none)
            ⊎ ((p : ℕ) × (argint small 0 ≡ some p)
                × ((0x80000000 ≤ 50) ⊎ ((100 ≤ p) ⊎ (100 < p + 50))))))
argptr-Inside_example = argptr-Inside small 0 50 (omega arith)

argstr-Inside_example :
    ((p : ℕ) × (len : ℕ) × (argstr small 0 ≡ some (p, len))
      × (argint small 0 ≡ some p)
      × (p + len < 100)
      × (small.mem (p + len) ≡ 0)
      × ((i : ℕ) → i < len → small.mem (p + i) ≢ 0))
    ⊎ ((argstr small 0 ≡ none)
        × ((argint small 0 ≡ none)
            ⊎ ((p : ℕ) × (argint small 0 ≡ some p)
                × ((i : ℕ) → p + i < 100 → small.mem (p + i) ≢ 0))))
argstr-Inside_example = argstr-Inside small 0
