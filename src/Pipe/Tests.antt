-- ===== src/Pipe/Tests.antt =====
-- Runs of the pipe, and its theorems at concrete inputs.
use cs.Prelude.{
  ℕ, ◌≡◌, refl, ◌-◌, true, false, [], ◌∷◌, arith, replicate, u32_mod, ◌==◌, if◌then◌else◌,
}
use cs.Pipe.{Pipe, asleep, fail, pipe_size, fresh, write, read}
use cs.Pipe.Bounds.{held, IsValid}
use cs.Pipe.Fifo.{contents}
use cs.Pipe.Stream
use cs.Pipe.Stream.{Traffic, InOrder, Reach-InOrder}
use cs.Pipe.Wakeups
use cs.Pipe.Wakeups.{Sleepers, NoneMissed, Reach-NoneMissed, write_killed_misses}

abbrev zeros : ℕ → ℕ
zeros i = 0

-- The counters are about to wrap: two bytes, 7 and 8.
abbrev wrapping : Pipe
wrapping = record {
  buf = λ i. if i == 511 then 7 else if i == 0 then 8 else 0;
  nread = u32_mod - 1;
  nwrite = 1;
  readopen = true;
  writeopen = true;
}

contents-wrapping : contents wrapping ≡ 7 ∷ 8 ∷ []
contents-wrapping = refl

wrapping-IsValid : IsValid wrapping
wrapping-IsValid = omega arith

read_two : (read false wrapping 5).2 ≡ 7 ∷ 8 ∷ []
unfolding read
read_two = refl

write_too_much : (write false wrapping (replicate 600 1)).2 ≡ asleep 510
unfolding write
write_too_much = refl

abbrev opened : Traffic
opened = record { pipe = fresh zeros; sent = []; received = [] }

Reach-InOrder_example :
    InOrder (Stream.after_read (Stream.after_write opened false (4 ∷ 5 ∷ [])) false 1)
Reach-InOrder_example = Reach-InOrder (
    Stream.Reach.later
      (Stream.Reach.later Stream.Reach.start (Stream.Step.writes false (4 ∷ 5 ∷ [])))
      (Stream.Step.reads false 1))

abbrev awake : Sleepers
awake = record { pipe = fresh zeros; readers = false; writers = false }

Reach-NoneMissed_example : NoneMissed (Wakeups.after_read awake false 3)
Reach-NoneMissed_example =
    Reach-NoneMissed (Wakeups.Reach.later Wakeups.Reach.start (Wakeups.Step.reads false 3))

abbrev waiting : Sleepers
waiting = record {
  pipe = record { buf = zeros; nread = 0; nwrite = 0; readopen = true; writeopen = true };
  readers = true;
  writers = false;
}

write_killed_misses_example :
    let t = Wakeups.after_write waiting true (replicate 513 1) in
    (t.readers ≡ true)
    × (held t.pipe ≡ pipe_size)
    × ((write true waiting.pipe (replicate 513 1)).1 ≡ [])
    × ((write true waiting.pipe (replicate 513 1)).2 ≡ fail)
write_killed_misses_example =
    write_killed_misses waiting (replicate 513 1) (omega arith) refl refl (omega arith)
