-- ===== src/Proc.antt =====
-- proc.c: the process table and the states of processes.
-- A slot is an index into `ptable.proc`, and a pointer to a process is its slot. The functions are
-- the critical sections under `ptable.lock`; `cur` is the slot of `proc`, the calling process.
pub mod Loops
pub mod Family
pub mod Create
pub mod Adopt
pub mod Exit
pub mod Kill
pub mod System
mod Tests
use cs.Prelude.{
  ℕ, zero, suc, ◌+◌, ◌==◌, if◌then◌else◌, Bool, true, false, not, ◌&&◌, ◌||◌, Option, some, none,
  update,
}

-- NPROC of param.h.
abbrev pub nproc : ℕ
nproc = 64

-- `enum procstate`
pub data State : Type 0 where
  unused embryo sleeping runnable running zombie : State

-- What `p->chan` points to: nothing, a process (as in `wait`), or another address.
pub data Chan : Type 0 where
  nothing : Chan
  on_proc : ℕ → Chan
  on_addr : ℕ → Chan

abbrev pub is_chan : Chan → Chan → Bool
is_chan nothing nothing = true
is_chan (on_proc a) (on_proc b) = a == b
is_chan (on_addr a) (on_addr b) = a == b
is_chan (on_proc a) nothing = false
is_chan (on_addr a) nothing = false
is_chan nothing (on_proc b) = false
is_chan (on_addr a) (on_proc b) = false
is_chan nothing (on_addr b) = false
is_chan (on_proc a) (on_addr b) = false

abbrev pub is_unused : State → Bool
is_unused unused = true
is_unused embryo = false
is_unused sleeping = false
is_unused runnable = false
is_unused running = false
is_unused zombie = false

abbrev pub is_sleeping : State → Bool
is_sleeping sleeping = true
is_sleeping unused = false
is_sleeping embryo = false
is_sleeping runnable = false
is_sleeping running = false
is_sleeping zombie = false

abbrev pub is_zombie : State → Bool
is_zombie zombie = true
is_zombie unused = false
is_zombie embryo = false
is_zombie sleeping = false
is_zombie runnable = false
is_zombie running = false

abbrev pub is_runnable : State → Bool
is_runnable runnable = true
is_runnable unused = false
is_runnable embryo = false
is_runnable sleeping = false
is_runnable running = false
is_runnable zombie = false

-- `struct proc`, less what belongs to traps, files and the file system. `kstack` and `pgdir` are
-- addresses, 0 for none.
pub record Proc : Type 0 where
  pub sz : ℕ
  pub pgdir : ℕ
  pub kstack : ℕ
  pub state : State
  pub pid : ℕ
  pub parent : Option ℕ
  pub chan : Chan
  pub killed : Bool
  pub exitstat : ℕ

abbrev pub Procs : Type 0
Procs = ℕ → Proc

-- `ptable`, `nextpid` and `initproc`. Slots from NPROC on are not in the table.
pub record Ptable : Type 0 where
  pub procs : Procs
  pub nextpid : ℕ
  pub initproc : ℕ

-- `p->parent == q`
abbrev pub is_child : Proc → ℕ → Bool
is_child p q = elim p.parent [ none ↦ false | some r ↦ r == q ]

-- The search of `allocproc`, with `n` slots left from `i` on.
pub find_unused : ℕ → ℕ → Procs → Option ℕ
find_unused zero i procs = none
find_unused (suc n) i procs =
    let rest = find_unused n (i + 1) procs in if is_unused (procs i).state then some i else rest

-- `allocproc` on the slot that the search found; `stack` is what kalloc returns. The trap frame and
-- the context that it sets up on the new stack are not modelled.
pub alloc_in : ℕ → Ptable → Option ℕ → Ptable × Option ℕ
alloc_in stack t none = (t, none)
alloc_in stack t (some i) =
    let p = record (t.procs i) { state = embryo; pid = t.nextpid; kstack = stack } in
    let found = λ (q : Proc). record t { procs = update t.procs i q; nextpid = t.nextpid + 1 } in
    if stack == 0 then (found (record p { state = unused }), none) else (found p, some i)

pub allocproc : ℕ → Ptable → Ptable × Option ℕ
unfolding find_unused alloc_in
allocproc stack t = alloc_in stack t (find_unused nproc 0 t.procs)

-- `fork` from the return of allocproc on; `dir` is what copyuvm returns, and `size` is `proc->sz`.
-- The copies of the trap frame, the open files, the current directory and the name are not modelled.
-- The result is the child's pid, or none for -1.
pub fork_in : ℕ → ℕ → ℕ → Ptable → Option ℕ → Ptable × Option ℕ
fork_in dir size cur t none = (t, none)
fork_in dir size cur t (some i) =
    let np = t.procs i in
    let child = λ (q : Proc). record t { procs = update t.procs i q } in
    if dir == 0 then (child (record np { pgdir = 0; kstack = 0; state = unused }), none) else (
      child (record np { pgdir = dir; sz = size; parent = some cur; state = runnable }),
      some np.pid,
    )

-- allocproc's critical section, the copying after it, which holds no lock, and the critical section
-- that makes the child runnable are one function here.
pub fork : ℕ → ℕ → ℕ → Ptable → Ptable × Option ℕ
unfolding allocproc fork_in
fork stack dir cur t =
    let (t', slot) = allocproc stack t in fork_in dir (t.procs cur).sz cur t' slot

-- The body of the loop of `wakeup1`.
abbrev pub wake : Chan → Proc → Proc
wake c p = if is_sleeping p.state && is_chan p.chan c then record p { state = runnable } else p

pub wakeup_from : ℕ → ℕ → Chan → Procs → Procs
wakeup_from zero i c procs = procs
wakeup_from (suc n) i c procs = wakeup_from n (i + 1) c (update procs i (wake c (procs i)))

pub wakeup1 : Chan → Procs → Procs
unfolding wakeup_from
wakeup1 c procs = wakeup_from nproc 0 c procs

-- `sleep` up to its call of `sched`, and its `proc->chan = 0` after it.
pub fall_asleep : Chan → ℕ → Procs → Procs
fall_asleep c cur procs = update procs cur (record (procs cur) { chan = c; state = sleeping })

pub tidy_up : ℕ → Procs → Procs
tidy_up cur procs = update procs cur (record (procs cur) { chan = nothing })

-- `yield`, up to its call of `sched`.
pub yield_cpu : ℕ → Procs → Procs
yield_cpu cur procs = update procs cur (record (procs cur) { state = runnable })

-- The search of `scheduler` from slot `i` on, and what it does to the process that it picks.
pub find_runnable : ℕ → ℕ → Procs → Option ℕ
find_runnable zero i procs = none
find_runnable (suc n) i procs =
    let rest = find_runnable n (i + 1) procs in if is_runnable (procs i).state then some i else rest

pub run_slot : ℕ → Procs → Procs
run_slot i procs = update procs i (record (procs i) { state = running })

-- `kill`: the search from slot `i` on; none is the return of -1.
pub kill_from : ℕ → ℕ → ℕ → Procs → Option Procs
kill_from zero i pid procs = none
kill_from (suc n) i pid procs =
    let rest = kill_from n (i + 1) pid procs in
    let p = procs i in
    if p.pid == pid
    then some (
        update procs i
          (record p { killed = true; state = if is_sleeping p.state then runnable else p.state }))
    else rest

pub kill : ℕ → Procs → Option Procs
unfolding kill_from
kill pid procs = kill_from nproc 0 pid procs

-- The body of the loop of `exit` that passes children to init, at slot `i`.
pub adopt_one : ℕ → ℕ → ℕ → Procs → Procs
adopt_one i cur init procs =
    let p = procs i in
    let adopted = update procs i (record p { parent = some init }) in
    if is_child p cur
    then (if is_zombie p.state then wakeup1 (on_proc init) adopted else adopted)
    else procs

pub adopt_from : ℕ → ℕ → ℕ → ℕ → Procs → Procs
adopt_from zero i cur init procs = procs
adopt_from (suc n) i cur init procs = adopt_from n (i + 1) cur init (adopt_one i cur init procs)

-- `wakeup1(proc->parent)`
abbrev pub parent_chan : Proc → Chan
parent_chan p = elim p.parent [ none ↦ nothing | some q ↦ on_proc q ]

-- `exit` under `ptable.lock`, up to its call of `sched`; none is the panic of init.
pub exit : ℕ → ℕ → Ptable → Option Ptable
exit status cur t =
    if cur == t.initproc
    then none
    else (let woken = wakeup1 (parent_chan (t.procs cur)) t.procs in
        let adopted = adopt_from nproc 0 cur t.initproc woken in
        some (record t {
          procs = update adopted cur (record (adopted cur) { exitstat = status; state = zombie });
        }))

-- How one pass of the loop of `wait` ends: a reaped child's pid, -1, or asleep on `proc`.
pub data Waited : Type 0 where
  reaped : ℕ → Waited
  no_children : Waited
  asleep : Waited

-- The first zombie child from slot `i` on.
pub find_zombie : ℕ → ℕ → ℕ → Procs → Option ℕ
find_zombie zero i cur procs = none
find_zombie (suc n) i cur procs =
    let rest = find_zombie n (i + 1) cur procs in
    if is_child (procs i) cur && is_zombie (procs i).state then some i else rest

-- `havekids` after the scan.
pub has_child : ℕ → ℕ → ℕ → Procs → Bool
has_child zero i cur procs = false
has_child (suc n) i cur procs = is_child (procs i) cur || has_child n (i + 1) cur procs

-- What `wait` makes of the slot that it reaps. `sz` and `chan` stay, and so does `pgdir`, which
-- freevm has freed.
abbrev pub reap : Proc → Proc
reap p = record p { kstack = 0; pid = 0; parent = none; killed = false; state = unused }

-- One pass of the loop of `wait`, from the end of its scan to its return or its sleep.
pub wait_in : ℕ → Procs → Option ℕ → Procs × Waited
unfolding has_child fall_asleep
wait_in cur procs (some i) = (update procs i (reap (procs i)), reaped (procs i).pid)
wait_in cur procs none =
    let havekids = has_child nproc 0 cur procs in
    if not havekids || (procs cur).killed
    then (procs, no_children)
    else (fall_asleep (on_proc cur) cur procs, asleep)

pub wait : ℕ → Procs → Procs × Waited
unfolding find_zombie wait_in
wait cur procs = wait_in cur procs (find_zombie nproc 0 cur procs)
