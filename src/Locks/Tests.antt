-- ===== src/Locks/Tests.antt =====
-- Two CPUs that want a lock, and the theorems at the state.
use cs.Prelude.{ℕ, ◌<◌, ◌≡◌, refl, true, false, some, none, arith, update}
use cs.Locks.{Cpu, pushcli, popcli, start_acquire, start_release, holding, xchg, name_cpu}
use cs.Locks.Owners.{away, spins, takes, holds, inside}
use cs.Locks.System.{
  System, Reach, start, after, starts, wins, names, calls_pushcli, boot, set_stage,
}
use cs.Locks.Safety.{Reach-inside, Reach-goes}

-- CPU 1 has started to acquire the lock 0.
abbrev waiting : System
waiting = record boot {
  cpu = update boot.cpu 1 (pushcli (boot.cpu 1));
  stage = set_stage 0 1 spins boot.stage;
}

abbrev won : System
won = record waiting {
  lock = update waiting.lock 0 (xchg (waiting.lock 0)).0;
  stage = set_stage 0 1 takes waiting.stage;
}

abbrev held : System
held = record won {
  lock = update won.lock 0 (name_cpu 1 (won.lock 0));
  stage = set_stage 0 1 holds won.stage;
}

-- CPU 2 waits for it, after a pushcli.
abbrev pushed : System
pushed = record held { cpu = update held.cpu 2 (pushcli (held.cpu 2)); left = update held.left 2 1 }

held_reach : Reach 3 held
unfolding start_acquire holding xchg
held_reach =
    after
      (after (after (start refl) (starts 1 0 (omega arith) refl refl))
        (wins 1 0 (omega arith) refl refl))
      (names 1 0 (omega arith) refl)

pushed_reach : Reach 3 pushed
pushed_reach = after held_reach (calls_pushcli 2)

-- The CPU that holds the lock cannot acquire it again; another can try, and does not get it.
again : start_acquire 1 (held.lock 0) (held.cpu 1) ≡ none
unfolding start_acquire holding xchg
again = refl

other : (xchg (held.lock 0)).1 ≡ true
unfolding xchg
other = refl

not_held : start_release 2 (held.lock 0) ≡ none
unfolding start_release holding xchg
not_held = refl

Reach-inside_example :
    (inside (held.stage 0 2) ≡ true → ◌≡◌ {A = ℕ} 1 2) × ((held.cpu 1).flag ≡ false)
Reach-inside_example = Reach-inside 1 2 0 held_reach (omega arith) refl

Reach-goes_example :
    (pushed.stage 0 2 ≡ away
      → start_acquire 2 (pushed.lock 0) (pushed.cpu 2) ≡ some (pushcli (pushed.cpu 2)))
    × (pushed.stage 0 2 ≡ holds
        → start_release 2 (pushed.lock 0) ≡ some (record (pushed.lock 0) { cpu = none }))
    × (0 < pushed.left 2 → (k : Cpu) × (popcli (pushed.cpu 2) ≡ some k))
Reach-goes_example = Reach-goes 2 0 pushed_reach

-- A CPU with interrupts on.
abbrev running : Cpu
running = record { flag = true; ncli = 0; intena = false }
