-- ===== src/Printf.antt =====
-- printf.c: how `printint` writes a number. A character is its code, and the text written is the
-- list of the characters that reach `putc`, in their order.
pub mod Number
mod Tests
use cs.Prelude.{
  ℕ, zero, suc, ◌+◌, ◌-◌, ◌/◌, ◌%◌, ◌==◌, ltb, leb, Bool, true, false, ◌&&◌, if◌then◌else◌, List,
  [], ◌∷◌,
}

-- `digits[d]`
abbrev pub digit : ℕ → ℕ
digit d = if ltb d 10 then 48 + d else 55 + d

abbrev pub minus_char : ℕ
minus_char = 45

-- The first loop, the lowest digit first; `n` bounds its rounds.
pub digits_from : ℕ → ℕ → ℕ → List ℕ
digits_from zero base x = []
digits_from (suc n) base x =
    let rest = digits_from n base (x / base) in
    digit (x % base) ∷ (if x / base == 0 then [] else rest)

-- The second loop: `buf` from its last character to its first, before what is written later.
abbrev pub put_back : List ℕ → List ℕ → List ℕ
put_back [] later = later
put_back (c ∷ buf) later = put_back buf (c ∷ later)

-- `xx` is the word that holds the int: it is negative from 2 ^ 31 on. A word has at most 32 digits.
pub printint : ℕ → ℕ → Bool → List ℕ
unfolding digits_from
printint xx base sgn =
    if sgn && leb 0x80000000 xx
    then minus_char ∷ put_back (digits_from 32 base ((0x100000000 - xx) % 0x100000000)) []
    else put_back (digits_from 32 base xx) []
