-- ===== src/Pipe/Wakeups.antt =====
-- Who sleeps on a pipe, and whether the wake-ups suffice.
use cs.Prelude.{
  ℕ, ◌+◌, ◌-◌, ◌≤◌, ◌<◌, min, ◌≡◌, ◌⊎◌, refl, ap, ◌∙◌, Bool, true, false, not, ◌&&◌, ◌||◌, List, [],
  ◌∷◌, arith, length, inl, inr,
}
use cs.Pipe.{
  Pipe, Chan, on_nread, on_nwrite, Outcome, ret, fail, asleep, pipe_size, fresh, close, write, read,
}
use cs.Pipe.Bounds.{held, IsValid, fresh-IsValid}
use cs.Pipe.Fifo.{room}
use cs.Pipe.Write.{Written, write-Written, held-Written, write_outcome, write_wakes}
use cs.Pipe.Read.{Taken, read-Taken, held-Taken, read_outcome, read_wakes}

-- `wakeup` is called on a channel.
abbrev pub wakes_nread : List Chan → Bool
wakes_nread [] = false
wakes_nread (on_nread ∷ cs) = true
wakes_nread (on_nwrite ∷ cs) = wakes_nread cs

abbrev pub wakes_nwrite : List Chan → Bool
wakes_nwrite [] = false
wakes_nwrite (on_nwrite ∷ cs) = true
wakes_nwrite (on_nread ∷ cs) = wakes_nwrite cs

abbrev pub is_asleep : Outcome → Bool
is_asleep (ret k) = false
is_asleep fail = false
is_asleep (asleep k) = true

abbrev pub is_fail : Outcome → Bool
is_fail (ret k) = false
is_fail fail = true
is_fail (asleep k) = false

-- A pipe, and whether some reader sleeps on `nread` and some writer on `nwrite`.
pub record Sleepers : Type 0 where
  pub pipe : Pipe
  pub readers : Bool
  pub writers : Bool

abbrev pub after_write : Sleepers → Bool → List ℕ → Sleepers
after_write s killed src =
    let (q, woken, outcome) = write killed s.pipe src in
    record {
      pipe = q;
      readers = s.readers && not (wakes_nread woken);
      writers = s.writers && not (wakes_nwrite woken) || is_asleep outcome;
    }

abbrev pub after_read : Sleepers → Bool → ℕ → Sleepers
after_read s killed n =
    let (q, woken, bytes, outcome) = read killed s.pipe n in
    record {
      pipe = q;
      readers = s.readers && not (wakes_nread woken) || is_asleep outcome;
      writers = s.writers && not (wakes_nwrite woken);
    }

abbrev pub after_close : Sleepers → Bool → Sleepers
after_close s writable =
    let (q, woken, freed) = close s.pipe writable in
    record {
      pipe = q;
      readers = s.readers && not (wakes_nread woken);
      writers = s.writers && not (wakes_nwrite woken);
    }

-- A stretch of any process, but no write that returns -1.
pub data Step (s : Sleepers) : Sleepers → Type 0 where
  writes :
      (killed : Bool) (src : List ℕ)
      → is_fail (write killed s.pipe src).2 ≡ false
      → Step s (after_write s killed src)
  reads : (killed : Bool) (n : ℕ) → Step s (after_read s killed n)
  closes : (writable : Bool) → Step s (after_close s writable)

pub data Reach (junk : ℕ → ℕ) : Sleepers → Type 0 where
  start : Reach junk (record { pipe = fresh junk; readers = false; writers = false })
  later : {s t : Sleepers} → Reach junk s → Step s t → Reach junk t

-- Who sleeps has a reason to.
pub record NoneMissed (s : Sleepers) : Type 0 where
  pub valid : IsValid s.pipe
  pub readers_wait : s.readers ≡ true → (held s.pipe ≡ 0) × (s.pipe.writeopen ≡ true)
  pub writers_wait : s.writers ≡ true → (held s.pipe ≡ pipe_size) × (s.pipe.readopen ≡ true)

still_asleep : (w a b : Bool) → w && not a || b ≡ true → (w ≡ true) ⊎ (b ≡ true)
still_asleep w a b h = ground arith

woken_by_write : (out : Outcome) → is_fail out ≡ false → wakes_nread (write_wakes out) ≡ true
woken_by_write (ret k) h = refl
woken_by_write fail h = cc
woken_by_write (asleep k) h = refl

asleep_write :
    (killed : Bool) (p : Pipe) (k : ℕ) {out : Outcome}
    → out ≡ write_outcome killed p k 0
    → is_asleep out ≡ true
    → (room p ≤ k) × (p.readopen ≡ true)
asleep_write killed p k e h = ground arith

asleep_read :
    (killed : Bool) (p : Pipe) (n : ℕ) {out : Outcome}
    → out ≡ read_outcome killed p n
    → is_asleep out ≡ true
    → (held p ≡ 0) × (p.writeopen ≡ true)
asleep_read killed p n e h = ground arith

woken_by_read :
    (killed : Bool) (p : Pipe) (n : ℕ) {out : Outcome}
    → out ≡ read_outcome killed p n
    → (wakes_nwrite (read_wakes out) ≡ true) ⊎ (held p ≡ 0)
woken_by_read killed p n e = ground arith

write-NoneMissed :
    {s : Sleepers} (killed : Bool) (src : List ℕ) {r : Pipe × List Chan × Outcome}
    → NoneMissed s
    → Written killed s.pipe src 0 r
    → is_fail r.2 ≡ false
    → NoneMissed (record {
      pipe = r.0;
      readers = s.readers && not (wakes_nread r.1);
      writers = s.writers && not (wakes_nwrite r.1) || is_asleep r.2;
    })
write-NoneMissed {s} killed src {r} m w f = record {
  valid = w.valid;
  readers_wait = λ e. absurd (awake e);
  writers_wait = λ e. elim (still_asleep s.writers (wakes_nwrite r.1) (is_asleep r.2) e) [
    | inl old ↦ let (full, open') = m.writers_wait old in (omega (arith, more), w.ends.0 ∙ open')
    | inr new ↦
        let (much, open') = asleep_write killed s.pipe (length src) w.outcome new in
        (omega (arith, more), w.ends.0 ∙ open')
  ];
}
  where
    more : held r.0 ≡ held s.pipe + min (room s.pipe) (length src)
    more = held-Written src m.valid w

    woken : wakes_nread r.1 ≡ true
    woken = rw w.wakes (woken_by_write r.2 f)

    awake : s.readers && not (wakes_nread r.1) ≡ true → ⊥
    awake e = ground (arith, woken)

read-NoneMissed :
    {s : Sleepers} (killed : Bool) (n : ℕ) {r : Pipe × List Chan × List ℕ × Outcome}
    → NoneMissed s
    → Taken killed s.pipe n r
    → NoneMissed (record {
      pipe = r.0;
      readers = s.readers && not (wakes_nread r.1) || is_asleep r.3;
      writers = s.writers && not (wakes_nwrite r.1);
    })
read-NoneMissed {s} killed n {r} m t = record {
  valid = t.valid;
  readers_wait = λ e. elim (still_asleep s.readers (wakes_nread r.1) (is_asleep r.3) e) [
    | inl old ↦
        let (none_held, open') = m.readers_wait old in (omega (arith, less), t.ends.1 ∙ open')
    | inr new ↦
        let (none_held, open') = asleep_read killed s.pipe n t.outcome new in
        (omega (arith, less), t.ends.1 ∙ open')
  ];
  writers_wait = λ e. elim (woken_by_read killed s.pipe n t.outcome) [
    | inl woken ↦ absurd (ground (arith, t.wakes, ap wakes_nwrite t.wakes ∙ woken))
    | inr none_held ↦
        let asl : s.writers ≡ true = ground arith in absurd (omega (arith, (m.writers_wait asl).0))
  ];
}
  where
    less : held r.0 ≡ held s.pipe - n
    less = held-Taken t

close-NoneMissed :
    {s : Sleepers} (writable : Bool) → NoneMissed s → NoneMissed (after_close s writable)
unfolding close
close-NoneMissed true m = ground arith
close-NoneMissed false m = ground arith

Step-NoneMissed : {s t : Sleepers} → Step s t → NoneMissed s → NoneMissed t
Step-NoneMissed {s} (writes killed src f) m =
    write-NoneMissed killed src m (write-Written killed src m.valid) f
Step-NoneMissed {s} (reads killed n) m = read-NoneMissed killed n m (read-Taken killed n m.valid)
Step-NoneMissed (closes writable) m = close-NoneMissed writable m

-- No wake-up is missed, as long as no write returns -1: whenever a reader sleeps, the pipe is empty
-- and its write end open, and whenever a writer sleeps, the pipe is full and its read end open.
pub Reach-NoneMissed : {junk : ℕ → ℕ} {s : Sleepers} → Reach junk s → NoneMissed s
Reach-NoneMissed {junk} start = record {
  valid = fresh-IsValid junk;
  readers_wait = λ e. cc;
  writers_wait = λ e. cc;
}
Reach-NoneMissed (later r s) = Step-NoneMissed s (Reach-NoneMissed r)

-- A killed writer with more bytes than fit returns -1 and calls no `wakeup`, so that the readers of
-- an empty pipe stay asleep beside PIPESIZE bytes.
pub write_killed_misses :
    (s : Sleepers) (src : List ℕ)
    → IsValid s.pipe
    → s.readers ≡ true
    → held s.pipe ≡ 0
    → pipe_size < length src
    → let t = after_write s true src in
      (t.readers ≡ true)
      × (held t.pipe ≡ pipe_size)
      × ((write true s.pipe src).1 ≡ [])
      × ((write true s.pipe src).2 ≡ fail)
write_killed_misses s src v asl e long =
    (rw (asl, quiet), omega (arith, held-Written src v w), quiet, failed)
  where
    w : Written true s.pipe src 0 (write true s.pipe src)
    w = write-Written true src v

    failed : (write true s.pipe src).2 ≡ fail
    failed = w.outcome ∙ ground arith

    quiet : (write true s.pipe src).1 ≡ []
    quiet = w.wakes ∙ ap write_wakes failed
