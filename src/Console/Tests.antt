-- ===== src/Console/Tests.antt =====
-- Typing and reading on an empty console.
use cs.Prelude.{ℕ, ◌≡◌, refl, List, [], ◌∷◌, arith}
use cs.Console.{Input, Pause, consoleintr, typed, kill_from, insert, read_from}
use cs.Console.Lines.{Lines, edits, take_line}
use cs.Console.Ring.{View}
use cs.Console.Editing.{consoleintr-View}
use cs.Console.Taking.{read_from-View}

-- The ring as it is just before its indices wrap.
abbrev empty : Input
empty = record { buf = λ i. 0; r = 4294967295; w = 4294967295; e = 4294967295 }

abbrev no_lines : Lines
no_lines = record { ready = []; line = [] }

empty-View : View 0 0 empty no_lines
empty-View = record {
  word = omega arith;
  w_is = refl;
  e_is = refl;
  room = omega arith;
  ready_is = refl;
  line_is = refl;
  plain = λ k h. absurd (omega arith);
}

-- "hx", backspace, "i" and return, and what is read then.
abbrev keys : List ℕ
keys = 104 ∷ 120 ∷ 8 ∷ 105 ∷ 13 ∷ []

becomes_ready : edits keys no_lines ≡ record { ready = 104 ∷ 105 ∷ 10 ∷ []; line = [] }
becomes_ready = refl

reads_the_line : (read_from 9 9 (consoleintr keys empty)).1 ≡ 104 ∷ 105 ∷ 10 ∷ []
unfolding read_from consoleintr typed insert kill_from
reads_the_line = refl

consoleintr-View_example :
    (a' : ℕ) × (b' : ℕ) × View a' b'
      (consoleintr keys empty)
      (record { ready = 104 ∷ 105 ∷ 10 ∷ []; line = [] })
consoleintr-View_example = consoleintr-View keys 0 0 empty no_lines empty-View

read_from-View_example :
    (a' : ℕ) × (t' : Input) × (rest : List ℕ) × (got : List ℕ) × (p : Pause) × (read_from 9 9 empty
      ≡ (t', got, p))
    × (take_line 9 9 [] ≡ (rest, got, p))
    × View a' 0 t' (record { ready = rest; line = [] })
read_from-View_example = read_from-View 9 9 0 0 empty no_lines empty-View
