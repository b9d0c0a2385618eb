-- ===== src/Text/Tests.antt =====
-- Copies of short texts.
use cs.Prelude.{ℕ, ◌+◌, ◌≡◌, ◌<◌, ◌≤◌, ◌⊎◌, inr, refl, arith, if◌then◌else◌, ◌==◌, pos}
use cs.Text.{Memory, memmove, strncmp, strncpy}
use cs.Text.Move.{Moved, memmove-Moved}
use cs.Text.Compare.{text}
use cs.Text.Copy.{strncpy-strncmp}

-- "abc" at 10, zeros elsewhere.
abbrev abc : Memory
abc j = if j == 10 then 97 else if j == 11 then 98 else if j == 12 then 99 else 0

-- The ranges overlap in both directions.
shifted_up : memmove 11 10 3 abc 13 ≡ 99
unfolding memmove
shifted_up = refl

shifted_down : memmove 9 10 3 abc 9 ≡ 97
unfolding memmove
shifted_down = refl

memmove-Moved_example : Moved 11 10 3 abc (memmove 11 10 3 abc)
memmove-Moved_example = memmove-Moved 11 10 3 abc

strncpy-strncmp_example :
    (text 5 20 (strncpy 20 10 5 abc) ≡ text 5 10 abc)
    × (strncmp 20 10 5 (strncpy 20 10 5 abc) ≡ pos 0)
    × ((j : ℕ) → j < 20 ⊎ 20 + 5 ≤ j → strncpy 20 10 5 abc j ≡ abc j)
strncpy-strncmp_example = strncpy-strncmp 5 20 10 abc (inr (omega arith))
