-- ===== src/Pipe/Bounds.antt =====
-- The counters of a pipe: 32-bit words that wrap, never more than PIPESIZE apart.
use cs.Prelude.{ℕ, ◌+◌, ◌≤◌, ◌<◌, ◌≡◌, Bool, true, false, arith, sub32, u32_mod}
use cs.Pipe.{Pipe, pipe_size, fresh, close, put, is_full}

-- How many bytes the pipe holds: `nwrite - nread` as a `uint`.
abbrev pub held : Pipe → ℕ
held p = sub32 p.nwrite p.nread

pub record IsValid (p : Pipe) : Type 0 where
  pub nread_fits : p.nread < u32_mod
  pub nwrite_fits : p.nwrite < u32_mod
  pub bounded : held p ≤ pipe_size

pub fresh-IsValid : (junk : ℕ → ℕ) → IsValid (fresh junk)
unfolding fresh
fresh-IsValid junk = omega arith

-- `pipeclose` touches no counter.
pub close-IsValid : {p : Pipe} (writable : Bool) → IsValid p → IsValid (close p writable).0
unfolding close
close-IsValid true v = ground arith
close-IsValid false v = ground arith

pub held_of_full : {p : Pipe} → IsValid p → is_full p ≡ true → held p ≡ pipe_size
held_of_full v h = ground arith

pub put-IsValid : {p : Pipe} (c : ℕ) → IsValid p → is_full p ≡ false → IsValid (put p c)
put-IsValid c v h = ground arith

pub held-put : {p : Pipe} (c : ℕ) → IsValid p → is_full p ≡ false → held (put p c) ≡ held p + 1
held-put c v h = ground arith
