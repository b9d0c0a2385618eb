-- ===== src/Pipe.antt =====
-- pipe.c: the bounded byte buffer between the two ends of a pipe.
-- A process in the kernel holds `p->lock` from its acquire or its wake-up to the next sleep or
-- release, so such a stretch runs alone, and each function here is one stretch: it returns the new
-- pipe, the channels that it called `wakeup` on, and how it ended.
pub mod Bounds
pub mod Fifo
pub mod Write
pub mod Read
pub mod Stream
pub mod Wakeups
mod Tests
use cs.Prelude.{
  ℕ, zero, suc, ◌+◌, ◌%◌, ◌==◌, if◌then◌else◌, Bool, true, false, not, ◌&&◌, ◌||◌, List, [], ◌∷◌,
  update, add32, length,
}

-- PIPESIZE
abbrev pub pipe_size : ℕ
pipe_size = 512

-- `struct pipe`, less its lock. `data` is read and written at indices below PIPESIZE only.
pub record Pipe : Type 0 where
  pub buf : ℕ → ℕ
  pub nread : ℕ  -- uint
  pub nwrite : ℕ  -- uint
  pub readopen : Bool
  pub writeopen : Bool

-- The channels `&p->nread` and `&p->nwrite`.
pub data Chan : Type 0 where
  on_nread on_nwrite : Chan

-- How a stretch ends: a return of a count, a return of -1, or asleep with `i` bytes moved.
pub data Outcome : Type 0 where
  ret : ℕ → Outcome
  fail : Outcome
  asleep : ℕ → Outcome

-- The part of `pipealloc` that fills in the page from kalloc; `junk` is what the page held.
pub fresh : (ℕ → ℕ) → Pipe
fresh junk = record { buf = junk; nread = 0; nwrite = 0; readopen = true; writeopen = true }

-- `pipeclose`: the pipe, the wake-ups, and whether its page is given to kfree.
pub close : Pipe → Bool → Pipe × List Chan × Bool
close p writable =
    let q = if writable then record p { writeopen = false } else record p { readopen = false } in
    (q, (if writable then on_nread else on_nwrite) ∷ [], not q.readopen && not q.writeopen)

-- The test of the inner `while` of `pipewrite`.
abbrev pub is_full : Pipe → Bool
is_full p = p.nwrite == add32 p.nread pipe_size

-- `p->data[p->nwrite++ % PIPESIZE] = c`
abbrev pub put : Pipe → ℕ → Pipe
put p c = record p { buf = update p.buf (p.nwrite % pipe_size) c; nwrite = add32 p.nwrite 1 }

-- `pipewrite` from the loop test at `i` on. The list is `addr[i..n)`; `killed` is `proc->killed`.
-- A writer that was asleep runs it again on what is left.
pub write_from : Bool → Pipe → List ℕ → ℕ → Pipe × List Chan × Outcome
write_from killed p [] i = (p, on_nread ∷ [], ret i)
write_from killed p (c ∷ cs) i =
    let rest = write_from killed (put p c) cs (i + 1) in
    if is_full p
    then (if not p.readopen || killed then (p, [], fail) else (p, on_nread ∷ [], asleep i))
    else rest

pub write : Bool → Pipe → List ℕ → Pipe × List Chan × Outcome
unfolding write_from
write killed p addr = write_from killed p addr 0

-- The test of the `while` of `piperead`.
abbrev pub is_waiting : Pipe → Bool
is_waiting p = p.nread == p.nwrite && p.writeopen

-- The copying loop of `piperead`, with `k` rounds left: the pipe and the bytes copied.
pub copy : ℕ → Pipe → Pipe × List ℕ
copy zero p = (p, [])
copy (suc k) p =
    let rest = copy k (record p { nread = add32 p.nread 1 }) in
    if p.nread == p.nwrite then (p, []) else (rest.0, p.buf (p.nread % pipe_size) ∷ rest.1)

-- `piperead`; the length of the copied list is the loop's `i`. The pipe, the wake-ups, what was stored at `addr`, and how the stretch ended.
pub read : Bool → Pipe → ℕ → Pipe × List Chan × List ℕ × Outcome
unfolding copy
read killed p n =
    if is_waiting p
    then (if killed then (p, [], [], fail) else (p, [], [], asleep 0))
    else let (q, bytes) = copy n p in (q, on_nwrite ∷ [], bytes, ret (length bytes))
