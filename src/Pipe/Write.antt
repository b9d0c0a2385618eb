-- ===== src/Pipe/Write.antt =====
-- What `pipewrite` appends, how it ends, and whom it wakes.
use cs.Prelude.{
  ℕ, suc, ◌+◌, ◌≡◌, refl, sym, ◌∙◌, Bool, true, false, not, ◌||◌, if◌then◌else◌, List, [], ◌∷◌,
  ◌++◌, append-nil, append_assoc, arith, length, take, min, ap, length-append, length-take,
  Bool-cases, inl, inr, leb,
}
use cs.Pipe.{Pipe, Chan, on_nread, Outcome, ret, fail, asleep, put, is_full, write_from, write}
use cs.Pipe.Bounds.{held, IsValid, held_of_full, put-IsValid, held-put}
use cs.Pipe.Fifo.{length-contents, contents, contents-put, room, take-nil}

-- How a stretch of `pipewrite` ends that has `k` bytes to write at position `i`.
abbrev pub write_outcome : Bool → Pipe → ℕ → ℕ → Outcome
write_outcome killed p k i =
    if leb k (room p)
    then ret (i + k)
    else if not p.readopen || killed
    then fail
    else asleep (i + room p)

-- A write wakes the readers unless it returns -1.
abbrev pub write_wakes : Outcome → List Chan
write_wakes fail = []
write_wakes (ret k) = on_nread ∷ []
write_wakes (asleep k) = on_nread ∷ []

pub record Written (killed : Bool) (p : Pipe) (src : List ℕ) (i : ℕ)
    (r : Pipe × List Chan × Outcome) : Type 0 where
  pub valid : IsValid r.0
  pub bytes : contents r.0 ≡ contents p ++ take (room p) src
  pub ends : (r.0.readopen ≡ p.readopen) × (r.0.writeopen ≡ p.writeopen)
  pub outcome : r.2 ≡ write_outcome killed p (length src) i
  pub wakes : r.1 ≡ write_wakes r.2
  pub reader_still : r.0.nread ≡ p.nread

take-suc : (c : ℕ) (cs : List ℕ) (m n : ℕ) → m ≡ suc n → take m (c ∷ cs) ≡ c ∷ take n cs
take-suc c cs m n e = rw e

take-room_full : (p : Pipe) (src : List ℕ) → IsValid p → is_full p ≡ true → take (room p) src ≡ []
take-room_full p src v h = let e : room p ≡ 0 = omega (arith, held_of_full v h) in rw e

-- A full pipe ends the stretch.
write_from_full :
    (killed : Bool) (p : Pipe) (c : ℕ) (cs : List ℕ) (i : ℕ)
    → is_full p ≡ true
    → write_from killed p (c ∷ cs) i
      ≡ (if not p.readopen || killed then (p, [], fail) else (p, on_nread ∷ [], asleep i))
unfolding write_from
write_from_full killed p c cs i h = rw h

write_from_free :
    (killed : Bool) (p : Pipe) (c : ℕ) (cs : List ℕ) (i : ℕ)
    → is_full p ≡ false
    → write_from killed p (c ∷ cs) i ≡ write_from killed (put p c) cs (i + 1)
unfolding write_from
write_from_free killed p c cs i h = rw h

full_outcome :
    (killed : Bool) {p : Pipe} (i k : ℕ)
    → IsValid p
    → is_full p ≡ true
    → write_outcome killed p (suc k) i ≡ (if not p.readopen || killed then fail else asleep i)
full_outcome killed {p} i k v h =
    let none_left : room p ≡ 0 = omega (arith, held_of_full v h) in rw none_left (ground arith)

full-Written :
    (killed : Bool) (c : ℕ) (cs : List ℕ) {p : Pipe} (i : ℕ)
    → IsValid p
    → is_full p ≡ true
    → Written killed p
        (c ∷ cs)
        i
        (if not p.readopen || killed then (p, [], fail) else (p, on_nread ∷ [], asleep i))
full-Written killed c cs {p} i v h = elim (Bool-cases (not p.readopen || killed)) [
  | inl over ↦ rw over (record {
    valid = v;
    bytes = same;
    ends = (refl, refl);
    outcome = rw (full_outcome killed i (length cs) v h, over);
    wakes = refl;
    reader_still = refl;
  })
  | inr waits ↦ rw waits (record {
    valid = v;
    bytes = same;
    ends = (refl, refl);
    outcome = rw (full_outcome killed i (length cs) v h, waits);
    wakes = refl;
    reader_still = refl;
  })
]
  where
    same : contents p ≡ contents p ++ take (room p) (c ∷ cs)
    same = rw (take-room_full p (c ∷ cs) v h) (sym (append-nil _))

free-Written :
    (killed : Bool) (c : ℕ) (cs : List ℕ) {p : Pipe} (i : ℕ) {r : Pipe × List Chan × Outcome}
    → IsValid p
    → is_full p ≡ false
    → Written killed (put p c) cs (i + 1) r
    → Written killed p (c ∷ cs) i r
free-Written killed c cs {p} i v h w = record {
  valid = w.valid;
  bytes =
      w.bytes ∙ rw (contents-put c v h, append_assoc, take-suc c cs (room p) (room (put p c)) more);
  ends = w.ends;
  outcome = w.outcome ∙ ground (arith, more);
  wakes = w.wakes;
  reader_still = w.reader_still;
}
  where
    more : room p ≡ suc (room (put p c))
    more = ground (arith, held-put c v h, (put-IsValid c v h).bounded)

pub write_from-Written :
    (killed : Bool) (src : List ℕ) {p : Pipe} (i : ℕ)
    → IsValid p
    → Written killed p src i (write_from killed p src i)
write_from-Written killed [] {p} i v =
    unfold write_from in
    record {
      valid = v;
      bytes = rw (take-nil (room p)) (sym (append-nil _));
      ends = (refl, refl);
      outcome = ground arith;
      wakes = refl;
      reader_still = refl;
    }
write_from-Written killed (c ∷ cs) {p} i v = elim (Bool-cases (is_full p)) [
  | inl full ↦ rw (write_from_full killed p c cs i full) (full-Written killed c cs i v full)
  | inr free ↦ rw (write_from_free killed p c cs i free) (
      free-Written killed c cs i v free
        (write_from-Written killed cs (i + 1) (put-IsValid c v free)))
]

-- What `pipewrite` does to a valid pipe: it appends as much of the bytes as there is room for; it
-- returns their number if that is all of them, and otherwise returns -1 if the read end is closed
-- or the process is killed, and sleeps with the rest if not; it wakes the readers unless it
-- returns -1.
pub write-Written :
    (killed : Bool) {p : Pipe} (src : List ℕ)
    → IsValid p
    → Written killed p src 0 (write killed p src)
unfolding write
write-Written killed src v = write_from-Written killed src 0 v

pub held-Written :
    {killed : Bool} {p : Pipe} (src : List ℕ) {i : ℕ} {r : Pipe × List Chan × Outcome}
    → IsValid p
    → Written killed p src i r
    → held r.0 ≡ held p + min (room p) (length src)
held-Written {p = p} src {r = r} v w = omega (
  arith,
  length-contents p,
  length-contents r.0,
  ap length w.bytes,
  length-append (contents p) (take (room p) src),
  length-take (room p) src,
)
