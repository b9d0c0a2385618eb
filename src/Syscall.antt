-- ===== src/Syscall.antt =====
-- syscall.c: how a system call fetches its arguments from the memory of the process that makes it.
-- An int is its word; -1 is `none`.
pub mod Arguments
pub mod Strings
mod Tests
use cs.Prelude.{
  ℕ, zero, suc, ◌+◌, ◌-◌, ◌*◌, ◌==◌, ltb, leb, if◌then◌else◌, Bool, true, false, ◌||◌, Option, some,
  none, add32,
}

-- `proc`, as far as these functions read it: `sz`, the bytes at the addresses below it, and `tf->esp`.
pub record Caller : Type 0 where
  pub sz : ℕ
  pub mem : ℕ → ℕ
  pub esp : ℕ

-- The sign of an int.
abbrev pub is_negative : ℕ → Bool
is_negative n = leb 0x80000000 n

-- `*(int*)(addr)`
pub int_at : (ℕ → ℕ) → ℕ → ℕ
int_at mem a = mem a + 256 * mem (a + 1) + 65536 * mem (a + 2) + 16777216 * mem (a + 3)

pub fetchint : Caller → ℕ → Option ℕ
unfolding int_at
fetchint c addr =
    if leb c.sz addr || ltb c.sz (add32 addr 4) then none else some (int_at c.mem addr)

-- The loop of `fetchstr`: `n` addresses are left below `ep`, from `s` on.
pub nul_from : ℕ → ℕ → (ℕ → ℕ) → Option ℕ
nul_from zero s mem = none
nul_from (suc n) s mem = let rest = nul_from n (s + 1) mem in if mem s == 0 then some s else rest

-- `*pp` and the length.
pub fetchstr : Caller → ℕ → Option (ℕ × ℕ)
unfolding nul_from
fetchstr c addr =
    if leb c.sz addr
    then none
    else elim (nul_from (c.sz - addr) addr c.mem) [ none ↦ none | some s ↦ some (addr, s - addr) ]

pub argint : Caller → ℕ → Option ℕ
unfolding fetchint
argint c n = fetchint c (add32 c.esp (4 + 4 * n))

-- The pointer to a block of `size` bytes.
pub argptr : Caller → ℕ → ℕ → Option ℕ
unfolding argint
argptr c n size = elim (argint c n) [
  | none ↦ none
  | some i ↦ if is_negative size || (leb c.sz i || ltb c.sz (add32 i size)) then none else some i
]

pub argstr : Caller → ℕ → Option (ℕ × ℕ)
unfolding argint fetchstr
argstr c n = elim (argint c n) [ none ↦ none | some addr ↦ fetchstr c addr ]
