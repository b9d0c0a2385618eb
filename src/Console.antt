-- ===== src/Console.antt =====
-- console.c: the input of the console. A character is its code; what is echoed is left out.
pub mod Lines
pub mod Ring
pub mod Storing
pub mod Editing
pub mod Taking
mod Tests
use cs.Prelude.{
  ℕ, zero, suc, ◌+◌, ◌-◌, ◌%◌, ◌==◌, ltb, if◌then◌else◌, Bool, true, false, ◌||◌, List, [], ◌∷◌,
  update, add32, sub32,
}

-- INPUT_BUF
abbrev pub input_buf : ℕ
input_buf = 128

-- `input`
pub record Input : Type 0 where
  pub buf : ℕ → ℕ
  pub r : ℕ
  pub w : ℕ
  pub e : ℕ

abbrev pub newline : ℕ
newline = 10

abbrev pub carriage_return : ℕ
carriage_return = 13

-- C('D'), C('H'), C('P') and C('U')
abbrev pub control_d : ℕ
control_d = 4

abbrev pub control_h : ℕ
control_h = 8

abbrev pub control_p : ℕ
control_p = 16

abbrev pub control_u : ℕ
control_u = 21

abbrev pub delete : ℕ
delete = 127

-- The loop for C('U'); fuel is spent on a character each.
pub kill_from : ℕ → Input → Input
kill_from zero t = t
kill_from (suc fuel) t = elim (t.e == t.w) [
  | true ↦ t
  | false ↦ elim (t.buf (sub32 t.e 1 % input_buf) == newline) [
    | true ↦ t
    | false ↦ kill_from fuel (record t { e = sub32 t.e 1 })
  ]
]

abbrev pub backspace : Input → Input
backspace t = if t.e == t.w then t else record t { e = sub32 t.e 1 }

abbrev pub ends_line : ℕ → Bool
ends_line c = c == newline || c == control_d

-- `input.buf[input.e++ % INPUT_BUF] = c`, and the end of a line; `c` is a byte, so the `char` keeps it.
abbrev pub store : ℕ → Input → Input
store c t =
    let t' : Input = record t { buf = update t.buf (t.e % input_buf) c; e = add32 t.e 1 } in
    if ends_line c || t'.e == add32 t'.r input_buf then record t' { w = t'.e } else t'

abbrev pub translate : ℕ → ℕ
translate c = if c == carriage_return then newline else c

-- A character other than those that edit the line.
pub insert : ℕ → Input → Input
insert c t =
    if c == 0 then t else if ltb (sub32 t.e t.r) input_buf then store (translate c) t else t

-- A round of `consoleintr`.
pub typed : ℕ → Input → Input
unfolding kill_from insert
typed c t =
    if c == control_p
    then t
    else if c == control_u
    then kill_from input_buf t
    else if c == control_h || c == delete
    then backspace t
    else insert c t

-- `consoleintr`, with the characters that `getc` returns before it returns a negative number.
pub consoleintr : List ℕ → Input → Input
unfolding typed
consoleintr [] t = t
consoleintr (c ∷ cs) t = consoleintr cs (typed c t)

-- What a stretch of `consoleread` ends with: it sleeps with so many bytes left to read, or is done.
pub data Pause : Type 0 where
  sleeps : ℕ → Pause
  done : Pause

-- The loop of `consoleread`, up to where it sleeps or ends, with the bytes that it has stored; `n`
-- bytes are left of `target`.
pub read_from : ℕ → ℕ → Input → Input × List ℕ × Pause
read_from zero target t = (t, [], done)
read_from (suc n) target t = elim (t.r == t.w) [
  | true ↦ (t, [], sleeps (suc n))
  | false ↦
      let c = t.buf (t.r % input_buf) in
      let t' = record t { r = add32 t.r 1 } in
      elim (c == control_d) [
        | true ↦ (if ltb (suc n) target then record t' { r = sub32 t'.r 1 } else t', [], done)
        | false ↦ elim (c == newline) [
          | true ↦ (t', c ∷ [], done)
          | false ↦ let (t'', cs, p) = read_from n target t' in (t'', c ∷ cs, p)
        ]
      ]
]
