-- ===== src/Pipe/Stream.antt =====
-- A pipe under any interleaving of its writers and readers: one stream of bytes.
use cs.Prelude.{
  ℕ, ◌+◌, ◌≡◌, refl, sym, ap, Bool, List, [], ◌++◌, append_assoc, arith, sub32, take,
  take-append-drop, take-min, true, false,
}
use cs.Pipe.{Pipe, fresh, close, write, read}
use cs.Pipe.Bounds.{held, IsValid, fresh-IsValid, close-IsValid}
use cs.Pipe.Fifo.{contents, room}
use cs.Pipe.Write.{held-Written, write-Written}
use cs.Pipe.Read.{read-Taken}

-- The pipe, with all that its writers put in and all that its readers took out so far.
pub record Traffic : Type 0 where
  pub pipe : Pipe
  pub sent : List ℕ
  pub received : List ℕ

-- How many bytes a stretch of `pipewrite` took, by its counter.
abbrev pub taken : Pipe → Pipe → ℕ
taken p q = sub32 q.nwrite p.nwrite

abbrev pub after_write : Traffic → Bool → List ℕ → Traffic
after_write t killed src =
    let q = (write killed t.pipe src).0 in
    record t { pipe = q; sent = t.sent ++ take (taken t.pipe q) src }

abbrev pub after_read : Traffic → Bool → ℕ → Traffic
after_read t killed n =
    let (q, woken, bytes, outcome) = read killed t.pipe n in
    record t { pipe = q; received = t.received ++ bytes }

-- One stretch by some process, with any buffer, count and `killed` flag; a sleeping process that
-- goes on is one more stretch.
pub data Step (t : Traffic) : Traffic → Type 0 where
  writes : (killed : Bool) (src : List ℕ) → Step t (after_write t killed src)
  reads : (killed : Bool) (n : ℕ) → Step t (after_read t killed n)
  closes : (writable : Bool) → Step t (record t { pipe = (close t.pipe writable).0 })

pub data Reach (junk : ℕ → ℕ) : Traffic → Type 0 where
  start : Reach junk (record { pipe = fresh junk; sent = []; received = [] })
  later : {t u : Traffic} → Reach junk t → Step t u → Reach junk u

pub record InOrder (t : Traffic) : Type 0 where
  pub valid : IsValid t.pipe
  pub fifo : t.sent ≡ t.received ++ contents t.pipe

-- The counter tells how many bytes went in.
taken_of_held :
    {p q : Pipe} {n : ℕ}
    → IsValid p
    → IsValid q
    → q.nread ≡ p.nread
    → held q ≡ held p + n
    → taken p q ≡ n
taken_of_held v w same h = omega arith

abbrev written : Traffic → Bool → List ℕ → Pipe
written t killed src = (write killed t.pipe src).0

writes-fifo :
    {t : Traffic} (killed : Bool) (src : List ℕ)
    → InOrder t
    → t.sent ++ take (taken t.pipe (written t killed src)) src
      ≡ t.received ++ contents (written t killed src)
writes-fifo {t} killed src o =
    let w = write-Written killed src o.valid in
    let n = taken_of_held o.valid w.valid w.reader_still (held-Written src o.valid w) in
    rw (take-min (room t.pipe) _ src n, o.fifo, append_assoc)
      (ap (λ x. t.received ++ x) (sym w.bytes))

reads-fifo :
    {t : Traffic} (killed : Bool) (n : ℕ)
    → InOrder t
    → t.sent ≡ (t.received ++ (read killed t.pipe n).2) ++ contents (read killed t.pipe n).0
reads-fifo {t} killed n o =
    let r = read-Taken killed n o.valid in
    rw (r.bytes, r.rest, append_assoc, take-append-drop) o.fifo

contents-close : (p : Pipe) (writable : Bool) → contents (close p writable).0 ≡ contents p
unfolding close
contents-close p true = refl
contents-close p false = refl

Step-InOrder : {t u : Traffic} → Step t u → InOrder t → InOrder u
Step-InOrder {t} (writes killed src) o = record {
  valid = (write-Written killed src o.valid).valid;
  fifo = writes-fifo killed src o;
}
Step-InOrder {t} (reads killed n) o = record {
  valid = (read-Taken killed n o.valid).valid;
  fifo = reads-fifo killed n o;
}
Step-InOrder {t} (closes writable) o = record {
  valid = close-IsValid writable o.valid;
  fifo = rw (contents-close t.pipe writable) o.fifo;
}

-- After any interleaving of reads, writes and closes of a new pipe, the bytes read so far and then
-- the bytes that the pipe holds are exactly the bytes written so far, in their order; and the
-- counters are 32-bit words at most PIPESIZE apart.
pub Reach-InOrder : {junk : ℕ → ℕ} {t : Traffic} → Reach junk t → InOrder t
unfolding fresh
Reach-InOrder {junk} start = record { valid = fresh-IsValid junk; fifo = refl }
Reach-InOrder (later r s) = Step-InOrder s (Reach-InOrder r)
