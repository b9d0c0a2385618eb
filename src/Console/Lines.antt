-- ===== src/Console/Lines.antt =====
-- The console as those who type and read see it: what is ready to be read, and the line that is
-- being typed, with its last character first.
use cs.Prelude.{ℕ, zero, suc, ◌+◌, ◌==◌, ltb, if◌then◌else◌, ◌||◌, List, [], ◌∷◌, ◌++◌, length}
use cs.Console.{
  input_buf, newline, control_d, control_h, control_p, control_u, delete, ends_line, translate,
  Pause, sleeps, done,
}

pub record Lines : Type 0 where
  pub ready : List ℕ
  pub line : List ℕ

abbrev pub without_last : List ℕ → List ℕ
without_last [] = []
without_last (c ∷ l) = l

-- `l` behind `ready`.
abbrev pub onto : List ℕ → List ℕ → List ℕ
onto ready [] = ready
onto ready (c ∷ l) = onto ready l ++ (c ∷ [])

-- The character at the end of the line, which ends it if it is a newline or C('D') or if there is no
-- more room.
abbrev pub extend : ℕ → Lines → Lines
extend c l =
    if ends_line c || length l.ready + length l.line + 1 == input_buf
    then record { ready = onto l.ready (c ∷ l.line); line = [] }
    else record l { line = c ∷ l.line }

abbrev pub edit : ℕ → Lines → Lines
edit c l =
    if c == control_p
    then l
    else if c == control_u
    then record l { line = [] }
    else if c == control_h || c == delete
    then record l { line = without_last l.line }
    else if c == 0
    then l
    else if ltb (length l.ready + length l.line) input_buf
    then extend (translate c) l
    else l

-- Reading: up to a newline, which is read too, or to C('D'), which is read only if nothing is before it.
abbrev pub take_line : ℕ → ℕ → List ℕ → List ℕ × List ℕ × Pause
take_line zero target ready = (ready, [], done)
take_line (suc n) target [] = ([], [], sleeps (suc n))
take_line (suc n) target (c ∷ cs) =
    let (rest, got, p) = take_line n target cs in
    if c == control_d
    then (if ltb (suc n) target then c ∷ cs else cs, [], done)
    else if c == newline
    then (cs, c ∷ [], done)
    else (rest, c ∷ got, p)

abbrev pub edits : List ℕ → Lines → Lines
edits [] l = l
edits (c ∷ cs) l = edits cs (edit c l)
