-- ===== src/Proc/System.antt =====
-- The process table under every interleaving of the calls of proc.c.
use cs.Prelude.{ℕ, ◌<◌, ◌≡◌, refl, sym, subst, false, some, none, arith, update}
use cs.Proc.{
  Procs, Proc, Ptable, Chan, nothing, on_addr, unused, sleeping, runnable, running, nproc, fork,
  exit, wait, kill, wakeup1, fall_asleep, tidy_up, yield_cpu, run_slot,
}
use cs.Proc.Family.{Family, Kept, Kept-Family, update-Kept, wakeup1-Kept}
use cs.Proc.Create.{fork-Family, wait-Family}
use cs.Proc.Exit.{exit-Family}
use cs.Proc.Kill.{kill-Killed, mark-Kept, mark}

abbrev pub Runs : Ptable → ℕ → Type 0
Runs t cur = (cur < nproc) × ((t.procs cur).state ≡ running)

-- A step of some processor. `cur` is its running process; `sleeps` is a sleep on a channel that is
-- no process, and `waits` is one pass of the loop of `wait`.
pub data Step (t : Ptable) : Ptable → Type 0 where
  forks : (stack dir cur : ℕ) → Runs t cur → Step t (fork stack dir cur t).0
  exits : (status cur : ℕ) {t' : Ptable} → Runs t cur → exit status cur t ≡ some t' → Step t t'
  waits : (cur : ℕ) → Runs t cur → Step t (record t { procs = (wait cur t.procs).0 })
  kills :
      (pid : ℕ) {procs : Procs}
      → kill pid t.procs ≡ some procs
      → Step t (record t { procs = procs })
  wakes : (c : Chan) → Step t (record t { procs = wakeup1 c t.procs })
  sleeps :
      (chan cur : ℕ)
      → Runs t cur
      → Step t (record t { procs = fall_asleep (on_addr chan) cur t.procs })
  resumes : (cur : ℕ) → Runs t cur → Step t (record t { procs = tidy_up cur t.procs })
  yields : (cur : ℕ) → Runs t cur → Step t (record t { procs = yield_cpu cur t.procs })
  schedules :
      (i : ℕ)
      → i < nproc
      → (t.procs i).state ≡ runnable
      → Step t (record t { procs = run_slot i t.procs })

-- A slot of the table that the kernel starts with: all zero.
abbrev pub free_slot : Proc
free_slot = record {
  sz = 0;
  pgdir = 0;
  kstack = 0;
  state = unused;
  pid = 0;
  parent = none;
  chan = nothing;
  killed = false;
  exitstat = 0;
}

-- The table after `userinit`: the first process is in slot 0, with the pid 1.
abbrev pub after_userinit : ℕ → ℕ → Ptable
after_userinit dir stack = record {
  procs =
      update (λ i. free_slot) 0
        (record free_slot { sz = 4096; pgdir = dir; kstack = stack; state = runnable; pid = 1 });
  nextpid = 2;
  initproc = 0;
}

pub data Reach (dir stack : ℕ) : Ptable → Type 0 where
  boot : Reach dir stack (after_userinit dir stack)
  later : {t u : Ptable} → Reach dir stack t → Step t u → Reach dir stack u

boot-parent : (dir stack i q : ℕ) → ((after_userinit dir stack).procs i).parent ≡ some q → ⊥
boot-parent dir stack i q e = ground arith

boot-Family : (dir stack : ℕ) → Family (after_userinit dir stack)
boot-Family dir stack = record {
  init_in = omega arith;
  init_alive = refl;
  init_root = refl;
  others = λ i hi e. boot-parent dir stack i i e;
  parents = λ i q hi e. absurd (boot-parent dir stack i q e);
  waiting = λ q i hq hi w e. absurd (boot-parent dir stack i q e);
}

asleep-Kept :
    (q chan : ℕ) (p : Proc)
    → p.state ≡ running
    → Kept q p (record p { chan = on_addr chan; state = sleeping })
asleep-Kept q chan p h = record {
  parent = refl;
  alive = λ a. refl;
  zombies = λ z. cc;
  waits_still = λ w. cc;
}

tidy-Kept : (q : ℕ) (p : Proc) → Kept q p (record p { chan = nothing })
tidy-Kept q p = record {
  parent = refl;
  alive = λ a. a;
  zombies = λ z. z;
  waits_still = λ w. ground arith;
}

awake-Kept : (q : ℕ) (p : Proc) → Kept q p (record p { state = runnable })
awake-Kept q p = record {
  parent = refl;
  alive = λ a. refl;
  zombies = λ z. cc;
  waits_still = λ w. cc;
}

run-Kept : (q : ℕ) (p : Proc) → Kept q p (record p { state = running })
run-Kept q p = record { parent = refl; alive = λ a. refl; zombies = λ z. cc; waits_still = λ w. cc }

slot-Kept :
    (t : Ptable) (i : ℕ) (p : Proc)
    → Family t
    → Kept i (t.procs i) p
    → Family (record t { procs = update t.procs i p })
slot-Kept t i p f k = Kept-Family t (update t.procs i p) (λ j hj. update-Kept t.procs i p k j) f

Step-Family : {t u : Ptable} → Step t u → Family t → Family u
unfolding fall_asleep tidy_up yield_cpu run_slot
Step-Family {t} (forks stack dir cur r) f = fork-Family t stack dir cur f r.0 (rw r.1)
Step-Family {t} (exits status cur r e) f = (exit-Family t status cur f r.0 e).0
Step-Family {t} (waits cur r) f = wait-Family t cur f (rw r.1)
Step-Family {t} (kills pid {procs} e) f =
    let k = (kill-Killed pid t.procs).finds procs e in
    subst (λ x. Family (record t { procs = x })) (sym k.4)
      (slot-Kept t k.0 (mark (t.procs k.0)) f (mark-Kept k.0 (t.procs k.0)))
Step-Family {t} (wakes c) f = Kept-Family t (wakeup1 c t.procs) (wakeup1-Kept c t.procs) f
Step-Family {t} (sleeps chan cur r) f = slot-Kept t cur _ f (asleep-Kept cur chan (t.procs cur) r.1)
Step-Family {t} (resumes cur r) f = slot-Kept t cur _ f (tidy-Kept cur (t.procs cur))
Step-Family {t} (yields cur r) f = slot-Kept t cur _ f (awake-Kept cur (t.procs cur))
Step-Family {t} (schedules i hi r) f = slot-Kept t i _ f (run-Kept i (t.procs i))

-- However processes fork, exit, wait, kill, sleep, wake and are scheduled: init stays alive, every
-- process's parent is alive (has not exited), no process is its own parent, and a parent that
-- sleeps in `wait` has no zombie child.
pub Reach-Family : {dir stack : ℕ} {t : Ptable} → Reach dir stack t → Family t
Reach-Family {dir} {stack} boot = boot-Family dir stack
Reach-Family (later r s) = Step-Family s (Reach-Family r)
