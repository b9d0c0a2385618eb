-- ===== src/Sysfile/Live.antt =====
-- The argument of dup and close, and the file behind it.
use cs.Prelude.{ℕ, ◌+◌, ◌≤◌, ◌<◌, ◌≡◌, ◌⊎◌, ltb, false, some, none, arith}
use cs.Syscall.{argint}
use cs.File.{Ftable}
use cs.Sysfile.{Process, nofile}
use cs.Sysfile.Counting.{count, IsCounted, count-positive}

-- The argument is no descriptor that is open.
abbrev pub IsUnopened : Process → Type 0
IsUnopened p =
    (argint p.caller 0 ≡ none)
    ⊎ ((fd : ℕ) × (argint p.caller 0 ≡ some fd) × ((nofile ≤ fd) ⊎ (p.ofile fd ≡ none)))

-- A file that a descriptor names has a holder.
pub is_live :
    (elsewhere : ℕ → ℕ) (p : Process) (t : Ftable) (fd f : ℕ)
    → fd < nofile
    → p.ofile fd ≡ some f
    → IsCounted elsewhere p t
    → ltb (t f).ref 1 ≡ false
is_live elsewhere p t fd f h named c =
    below (t f).ref (count p.ofile f) (elsewhere f) (c f) (count-positive p.ofile fd f h named)
  where
    below : (r k e : ℕ) → r ≡ k + e → 0 < k → ltb r 1 ≡ false
    below r k e q pos = ground arith
