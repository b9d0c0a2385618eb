-- ===== src/Printf/Number.antt =====
-- The text that `printint` writes, read as a number again.
use cs.Prelude.{
  ℕ, zero, suc, ◌+◌, ◌-◌, ◌*◌, ◌/◌, ◌%◌, ◌^◌, ◌≤◌, ◌<◌, ◌≡◌, ◌⊎◌, inl, inr, refl, sym, ◌∙◌, ap,
  subst, ◌==◌, ltb, leb, Bool, true, ◌&&◌, if◌then◌else◌, List, [], ◌∷◌, arith, Bool-cases, ==_iff,
  length,
}
use native.Mathlib.Nat.{pow-zero, pow-suc, mod-add-div, mod-lt, div-lt_iff_lt-mul}
use cs.Printf.{digit, minus_char, digits_from, put_back, printint}

-- The value of a digit's character, and of a text after the value `v` of what precedes it.
abbrev pub digit_value : ℕ → ℕ
digit_value c = if ltb c 58 then c - 48 else c - 55

abbrev pub read : ℕ → ℕ → List ℕ → ℕ
read base v [] = v
read base v (c ∷ text) = read base (v * base + digit_value c) text

-- The same with the lowest digit first.
abbrev number : ℕ → List ℕ → ℕ
number base [] = 0
number base (c ∷ buf) = digit_value c + base * number base buf

digit_value-digit : (d : ℕ) → d < 16 → digit_value (digit d) ≡ d
digit_value-digit d h = ground arith

read-put_back :
    (base : ℕ) (buf later : List ℕ)
    → read base 0 (put_back buf later) ≡ read base (number base buf) later
read-put_back base [] later = refl
read-put_back base (c ∷ buf) later =
    read-put_back base buf (c ∷ later) ∙ ap (λ v. read base v later) (omega arith)

length-put_back : (buf later : List ℕ) → length (put_back buf later) ≡ length buf + length later
length-put_back [] later = omega arith
length-put_back (c ∷ buf) later = length-put_back buf (c ∷ later) ∙ omega arith

smaller : {a b c : ℕ} → a < b → b ≤ c → a < c
smaller h k = omega arith

quotient_bound : (n base x : ℕ) → 2 ≤ base → x < base ^ suc n → x / base < base ^ n
quotient_bound n base x lo h =
    (div-lt_iff_lt-mul (omega arith)).1 (subst (λ q. x < q) (pow-suc base n) h)

number-digits_from :
    (n base x : ℕ) → 2 ≤ base → base ≤ 16 → x < base ^ n → number base (digits_from n base x) ≡ x
unfolding digits_from
number-digits_from zero base x lo hi h = let one : base ^ 0 ≡ 1 = pow-zero base in omega arith
number-digits_from (suc n) base x lo hi h =
    let low : digit_value (digit (x % base)) ≡ x % base =
      digit_value-digit (x % base) (smaller (mod-lt x (omega arith)) hi) in
    elim (Bool-cases (x / base == 0)) [
      | inl z ↦
          rw (z, low)
            (subst (λ q. x % base + base * q ≡ x) ((==_iff (x / base) 0).0 z) (mod-add-div x base))
      | inr more ↦
          let rest : number base (digits_from n base (x / base)) ≡ x / base =
            number-digits_from n base (x / base) lo hi (quotient_bound n base x lo h) in
          rw (more, low, rest) (mod-add-div x base)
    ]

length-digits_from :
    (n k base x : ℕ) → 2 ≤ base → x < base ^ (k + 1) → length (digits_from n base x) ≤ k + 1
unfolding digits_from
length-digits_from zero k base x lo h = omega arith
length-digits_from (suc n) zero base x lo h =
    let small : x / base < 1 =
      subst (λ q. x / base < q) (pow-zero base) (quotient_bound 0 base x lo h) in
    let z : (x / base == 0) ≡ true = ground arith in rw z (omega arith)
length-digits_from (suc n) (suc k) base x lo h = elim (Bool-cases (x / base == 0)) [
  | inl z ↦ rw z (omega arith)
  | inr more ↦
      let shorter : length (digits_from n base (x / base)) ≤ k + 1 =
        length-digits_from n k base (x / base) lo (
          subst (λ e. x / base < base ^ e) (omega arith)
            (quotient_bound (suc k) base x lo (subst (λ e. x < base ^ e) (omega arith) h))) in
      rw more (omega arith)
]

-- The bases that `printf` passes.
abbrev pub IsBase : ℕ → Type 0
IsBase base = (base ≡ 10) ⊎ (base ≡ 16)

-- A word in base 10 or 16 is written with at most 10 digits, which read as the number.
word_shown :
    (base x : ℕ)
    → IsBase base
    → x < 0x100000000
    → (read base 0 (put_back (digits_from 32 base x) []) ≡ x)
      × (length (put_back (digits_from 32 base x) []) ≤ 10)
word_shown base x b h = (
  read-put_back base (digits_from 32 base x) []
      ∙ number-digits_from 32 base x (bounds b).0 (bounds b).1 (fits b),
  subst (λ l. l ≤ 10) (sym (length-put_back (digits_from 32 base x) []))
      (at_most (length-digits_from 32 9 base x (bounds b).0 (fits_ten b))),
)
  where
    bounds : IsBase base → (2 ≤ base) × (base ≤ 16)
    bounds b = (omega arith, omega arith)

    fits : IsBase base → x < base ^ 32
    fits (inl ten) = subst (λ q. x < q ^ 32) (sym ten) (omega arith)
    fits (inr sixteen) = subst (λ q. x < q ^ 32) (sym sixteen) (omega arith)

    fits_ten : IsBase base → x < base ^ (9 + 1)
    fits_ten (inl ten) = subst (λ q. x < q ^ 10) (sym ten) (omega arith)
    fits_ten (inr sixteen) = subst (λ q. x < q ^ 10) (sym sixteen) (omega arith)

    at_most : {l : ℕ} → l ≤ 10 → l + 0 ≤ 10
    at_most h = omega arith

-- Whether the int that the word `xx` holds is shown as negative, and its absolute value.
abbrev pub is_negative : Bool → ℕ → Bool
is_negative sgn xx = sgn && leb 0x80000000 xx

abbrev pub magnitude : Bool → ℕ → ℕ
magnitude sgn xx = if is_negative sgn xx then 0x100000000 - xx else xx

-- In base 10 or 16, `printint` of a word writes a minus sign if the int is negative and signed,
-- and then a text that reads as its absolute value; with the sign it has at most 11 characters,
-- so that the 16 of `buf` are enough, and 32 rounds of the loop are.
pub printint-magnitude :
    (xx base : ℕ) (sgn : Bool)
    → IsBase base
    → xx < 0x100000000
    → (text : List ℕ) × (printint xx base sgn
        ≡ (if is_negative sgn xx then minus_char ∷ text else text))
      × (read base 0 text ≡ magnitude sgn xx)
      × (length (printint xx base sgn) ≤ 11)
unfolding printint
printint-magnitude xx base sgn b h = elim (Bool-cases (is_negative sgn xx)) [
  | inl neg ↦
      let size : (0x100000000 - xx) % 0x100000000 ≡ 0x100000000 - xx = negated neg in
      let shown = word_shown base (0x100000000 - xx) b (below neg) in
      rw (neg, size)
        (put_back (digits_from 32 base (0x100000000 - xx)) [], refl, shown.0, next shown.1)
  | inr pos ↦
      let shown = word_shown base xx b h in
      rw pos (put_back (digits_from 32 base xx) [], refl, shown.0, wider shown.1)
]
  where
    above : is_negative sgn xx ≡ true → 0x80000000 ≤ xx
    above neg = ground arith

    negated : is_negative sgn xx ≡ true → (0x100000000 - xx) % 0x100000000 ≡ 0x100000000 - xx
    negated neg = let a = above neg in omega arith

    below : is_negative sgn xx ≡ true → 0x100000000 - xx < 0x100000000
    below neg = let a = above neg in omega arith

    next : {l : ℕ} → l ≤ 10 → suc l ≤ 11
    next k = omega arith

    wider : {l : ℕ} → l ≤ 10 → l ≤ 11
    wider k = omega arith
