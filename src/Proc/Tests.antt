-- ===== src/Proc/Tests.antt =====
-- Runs of the process table, and its theorems at concrete inputs.
use cs.Prelude.{ℕ, ◌≡◌, ◌≢◌, ◌<◌, refl, true, some, arith, update}
use cs.Proc.{
  Procs, Ptable, embryo, runnable, zombie, alloc_in, fork, exit, wait, kill, reaped, asleep,
  run_slot,
}
use cs.Proc.Family.{Family}
use cs.Proc.Create.{fork-Family, wait-Family}
use cs.Proc.Kill.{kill_zero_poisons}
use cs.Proc.System.{Reach, Reach-Family, boot, later, schedules, forks, after_userinit}

-- The first process is scheduled.
abbrev started : Ptable
started = record (after_userinit 4096 8192) { procs = run_slot 0 (after_userinit 4096 8192).procs }

reach_started : Reach 4096 8192 started
reach_started = later boot (schedules 0 (omega arith) refl)

-- It has forked a child, which runs on another processor.
abbrev forked : Ptable
forked = (fork 12288 16384 0 started).0

abbrev both_run : Ptable
both_run = record forked { procs = run_slot 1 forked.procs }

reach_forked : Reach 4096 8192 forked
unfolding run_slot
reach_forked = later reach_started (forks 12288 16384 0 (omega arith, refl))

reach_both_run : Reach 4096 8192 both_run
unfolding run_slot fork
reach_both_run = later reach_forked (schedules 1 (omega arith) refl)

fork_returns_pid : (fork 12288 16384 0 started).1 ≡ some 2
unfolding run_slot fork
fork_returns_pid = refl

Reach-Family_example : Family both_run
Reach-Family_example = Reach-Family reach_both_run

fork-Family_example : Family forked
unfolding run_slot
fork-Family_example =
    fork-Family started 12288 16384 0 (Reach-Family reach_started) (omega arith) refl

wait-Family_example : Family (record both_run { procs = (wait 0 both_run.procs).0 })
unfolding run_slot fork
wait-Family_example = wait-Family both_run 0 (Reach-Family reach_both_run) refl

-- The parent waits, the child exits, the parent reaps it.
abbrev waiting : Procs
waiting = (wait 0 both_run.procs).0

wait_sleeps : (wait 0 both_run.procs).1 ≡ asleep
unfolding run_slot fork wait
wait_sleeps = refl

abbrev exited : Ptable
exited = record {
  procs =
      update (update both_run.procs 0 (record (both_run.procs 0) { state = runnable })) 1
        (record (both_run.procs 1) { state = zombie; exitstat = 7 });
  nextpid = 3;
  initproc = 0;
}

wait_reaps : (wait 0 exited.procs).1 ≡ reaped 2
unfolding run_slot fork wait
wait_reaps = refl

-- The exit status of a reaped child stays in its slot.
status_stays : ((wait 0 exited.procs).0 1).exitstat ≡ 7
unfolding run_slot fork wait
status_stays = refl

child_exits : (t : Ptable) × (exit 7 1 both_run ≡ some t)
unfolding run_slot fork exit
child_exits = (_, refl)

killed_zero : (p : Procs) × (kill 0 both_run.procs ≡ some p)
unfolding run_slot fork kill
killed_zero = (_, refl)

pids_taken : (k : ℕ) → k < 2 → (both_run.procs k).pid ≢ 0
unfolding run_slot fork
pids_taken k h = ground arith

kill_zero_poisons_example :
    let (t, slot) = alloc_in 20480 (record both_run { procs = killed_zero.0 }) (some 2) in
    ((t.procs 2).killed ≡ true)
    × ((t.procs 2).state ≡ embryo)
    × ((t.procs 2).pid ≡ both_run.nextpid)
unfolding run_slot fork
kill_zero_poisons_example =
    kill_zero_poisons both_run 2 20480 killed_zero.1 (omega arith) refl pids_taken (omega arith)
