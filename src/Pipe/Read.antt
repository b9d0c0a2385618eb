-- ===== src/Pipe/Read.antt =====
-- What `piperead` takes, how it ends, and whom it wakes.
use cs.Prelude.{
  ℕ, zero, suc, ◌-◌, ◌%◌, min, ◌≡◌, ◌≢◌, refl, sym, ap, Bool, true, false, ◌&&◌, ◌==◌,
  if◌then◌else◌, List, [], ◌∷◌, arith, add32, length, take, drop, length-drop, Bool-cases, inl, inr,
}
use cs.Pipe.{Pipe, Chan, on_nwrite, Outcome, ret, fail, asleep, pipe_size, is_waiting, copy, read}
use cs.Pipe.Bounds.{held, IsValid}
use cs.Pipe.Fifo.{length-contents, contents, take-nil, drop-nil}

-- The pipe after one round of the copying loop.
abbrev advance : Pipe → Pipe
advance p = record p { nread = add32 p.nread 1 }

held_of_ne : {p : Pipe} → IsValid p → p.nread ≢ p.nwrite → held p ≡ suc (held (advance p))
held_of_ne v h = omega arith

held_of_eq : {p : Pipe} → IsValid p → p.nread ≡ p.nwrite → held p ≡ 0
held_of_eq v h = omega arith

advance-IsValid : {p : Pipe} → IsValid p → p.nread ≢ p.nwrite → IsValid (advance p)
advance-IsValid v h = omega arith

contents_of_eq : {p : Pipe} → IsValid p → p.nread ≡ p.nwrite → contents p ≡ []
contents_of_eq v h = rw (held_of_eq v h)

contents_of_ne :
    {p : Pipe}
    → IsValid p
    → p.nread ≢ p.nwrite
    → contents p ≡ p.buf (p.nread % pipe_size) ∷ contents (advance p)
contents_of_ne v h = rw (held_of_ne v h)

pub record Copied (k : ℕ) (p : Pipe) (r : Pipe × List ℕ) : Type 0 where
  pub valid : IsValid r.0
  pub bytes : r.1 ≡ take k (contents p)
  pub rest : contents r.0 ≡ drop k (contents p)
  pub count : length r.1 ≡ min k (held p)
  pub ends : (r.0.readopen ≡ p.readopen) × (r.0.writeopen ≡ p.writeopen)

copy_round :
    (k : ℕ) {p : Pipe} {r : Pipe × List ℕ}
    → IsValid p
    → p.nread ≢ p.nwrite
    → Copied k (advance p) r
    → Copied (suc k) p (r.0, p.buf (p.nread % pipe_size) ∷ r.1)
copy_round k {p} v h c = record {
  valid = c.valid;
  bytes = rw (contents_of_ne v h, c.bytes);
  rest = rw (contents_of_ne v h) c.rest;
  count = omega (arith, c.count, held_of_ne v h);
  ends = c.ends;
}

pub copy-Copied : (k : ℕ) {p : Pipe} → IsValid p → Copied k p (copy k p)
unfolding copy
copy-Copied zero v = record {
  valid = v;
  bytes = refl;
  rest = refl;
  count = omega arith;
  ends = (refl, refl);
}
copy-Copied (suc k) {p} v = elim (Bool-cases (p.nread == p.nwrite)) [
  | inl stop ↦
      let e = contents_of_eq v (ground arith) in
      rw stop (record {
        valid = v;
        bytes = rw e;
        rest = rw e;
        count = omega (arith, held_of_eq v (ground arith));
        ends = (refl, refl);
      })
  | inr go ↦
      rw go (copy_round k v (ground arith) (copy-Copied k (advance-IsValid v (ground arith))))
]

-- How a stretch of `piperead` ends.
abbrev pub read_outcome : Bool → Pipe → ℕ → Outcome
read_outcome killed p n =
    if held p == 0 && p.writeopen then (if killed then fail else asleep 0) else ret (min n (held p))

-- A read wakes the writers when it returns a count.
abbrev pub read_wakes : Outcome → List Chan
read_wakes fail = []
read_wakes (ret k) = on_nwrite ∷ []
read_wakes (asleep k) = []

pub record Taken (killed : Bool) (p : Pipe) (n : ℕ) (r : Pipe × List Chan × List ℕ × Outcome)
    : Type 0 where
  pub valid : IsValid r.0
  pub bytes : r.2 ≡ take n (contents p)
  pub rest : contents r.0 ≡ drop n (contents p)
  pub ends : (r.0.readopen ≡ p.readopen) × (r.0.writeopen ≡ p.writeopen)
  pub outcome : r.3 ≡ read_outcome killed p n
  pub wakes : r.1 ≡ read_wakes r.3

waiting-Taken :
    (killed : Bool) {p : Pipe} (n : ℕ)
    → IsValid p
    → is_waiting p ≡ true
    → Taken killed p n (if killed then (p, [], [], fail) else (p, [], [], asleep 0))
waiting-Taken true {p} n v h = record {
  valid = v;
  bytes = rw (contents_of_eq v (ground arith)) (sym (take-nil n));
  rest = rw (contents_of_eq v (ground arith)) (sym (drop-nil n));
  ends = (refl, refl);
  outcome = ground (arith, held_of_eq {p = p} v);
  wakes = refl;
}
waiting-Taken false {p} n v h = record {
  valid = v;
  bytes = rw (contents_of_eq v (ground arith)) (sym (take-nil n));
  rest = rw (contents_of_eq v (ground arith)) (sym (drop-nil n));
  ends = (refl, refl);
  outcome = ground (arith, held_of_eq {p = p} v);
  wakes = refl;
}

going-Taken :
    (killed : Bool) {p : Pipe} (n : ℕ) {q : Pipe} {bytes : List ℕ}
    → IsValid p
    → is_waiting p ≡ false
    → Copied n p (q, bytes)
    → Taken killed p n (q, on_nwrite ∷ [], bytes, ret (length bytes))
going-Taken killed {p} n v h c = record {
  valid = c.valid;
  bytes = c.bytes;
  rest = c.rest;
  ends = c.ends;
  outcome = ground (arith, c.count, held_of_ne {p = p} v);
  wakes = refl;
}

-- What `piperead` does to a valid pipe: it takes the oldest bytes, as many as there are up to `n`,
-- and returns their number and wakes the writers; but on an empty pipe whose write end is open it
-- returns -1 if the process is killed, and sleeps if not.
pub read-Taken : (killed : Bool) {p : Pipe} (n : ℕ) → IsValid p → Taken killed p n (read killed p n)
unfolding read
read-Taken killed {p} n v = elim (Bool-cases (is_waiting p)) [
  | inl waits ↦ rw waits (waiting-Taken killed n v waits)
  | inr goes ↦ rw goes (going-Taken killed n v goes (copy-Copied n v))
]

pub held-Taken :
    {killed : Bool} {p : Pipe} {n : ℕ} {r : Pipe × List Chan × List ℕ × Outcome}
    → Taken killed p n r
    → held r.0 ≡ held p - n
held-Taken {p = p} {n} {r} t =
    omega
      (arith, length-contents p, length-contents r.0, ap length t.rest, length-drop n (contents p))
