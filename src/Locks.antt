-- ===== src/Locks.antt =====
-- spinlock.c: pushcli, popcli, and acquire and release, each divided into its atomic steps: what it
-- does to its own CPU, the xchg, the write of `lk->cpu` and the final store to `lk->locked`. The
-- recorded call stacks and names, which serve debugging, are not modelled.
pub mod Nesting
pub mod Owners
pub mod System
pub mod Safety
mod Tests
use cs.Prelude.{ℕ, ◌+◌, ◌-◌, ◌==◌, if◌then◌else◌, Bool, true, false, Option, some, none}

-- The fields of `struct cpu` for nesting, and the interrupt flag of the processor.
pub record Cpu : Type 0 where
  pub flag : Bool
  pub ncli : ℕ
  pub intena : Bool

pub record Spinlock : Type 0 where
  pub locked : Bool
  pub cpu : Option ℕ

pub pushcli : Cpu → Cpu
pushcli c = record {
  flag = false;
  ncli = c.ncli + 1;
  intena = if c.ncli == 0 then c.flag else c.intena;
}

-- `none` is a panic.
pub popcli : Cpu → Option Cpu
popcli c =
    if c.flag
    then none
    else if c.ncli == 0
    then none
    else some (record c { ncli = c.ncli - 1; flag = if c.ncli - 1 == 0 then c.intena else false })

abbrev pub is_cpu : ℕ → Option ℕ → Bool
is_cpu c none = false
is_cpu c (some d) = c == d

-- By the CPU `c`. Another CPU may write `lk->cpu` between the two reads, but never `c` to it.
pub holding : ℕ → Spinlock → Bool
holding c lk = if lk.locked then is_cpu c lk.cpu else false

-- `acquire` up to its loop.
pub start_acquire : ℕ → Spinlock → Cpu → Option Cpu
unfolding holding pushcli
start_acquire c lk cpu = if holding c lk then none else some (pushcli cpu)

-- `xchg` of 1: the lock, and what was in it.
pub xchg : Spinlock → Spinlock × Bool
xchg lk = (record lk { locked = true }, lk.locked)

-- `acquire` after its loop.
abbrev pub name_cpu : ℕ → Spinlock → Spinlock
name_cpu c lk = record lk { cpu = some c }

-- `release` up to the store.
pub start_release : ℕ → Spinlock → Option Spinlock
unfolding holding
start_release c lk = if holding c lk then some (record lk { cpu = none }) else none

-- The store to `lk->locked`; a popcli is left to do.
abbrev pub unlock : Spinlock → Spinlock
unlock lk = record lk { locked = false }
