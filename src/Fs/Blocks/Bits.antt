-- ===== src/Fs/Blocks/Bits.antt =====
-- The bits of a byte, checked over all bytes.
use Prim.Native.Nat.{bit_and, bit_or}
use cs.Prelude.{
  ℕ, zero, suc, ◌-◌, ◌^◌, ◌<◌, ◌≡◌, refl, ◌==◌, ◌&&◌, ltb, if◌then◌else◌, Bool, true, false, arith,
  ltb→lt,
}

-- A property of all numbers below `n`, checked one by one.
all_below : ℕ → (ℕ → Bool) → Bool
all_below zero p = true
all_below (suc n) p = p n && all_below n p

all_below-true : (n : ℕ) (p : ℕ → Bool) (x : ℕ) → all_below n p ≡ true → x < n → p x ≡ true
unfolding all_below
all_below-true zero p x h lt = absurd (omega arith)
all_below-true (suc n) p x h lt = ground (arith, all_below-true n p x)

abbrev pub has_bit : ℕ → ℕ → Bool
has_bit byte k = if bit_and byte (2 ^ k) == 0 then false else true

abbrev same : Bool → Bool → Bool
same a b = if a then b else if b then false else true

same-eq : (a b : Bool) → same a b ≡ true → a ≡ b
same-eq true b h = ground arith
same-eq false b h = ground arith

and_left : (a b : Bool) → (a && b) ≡ true → a ≡ true
and_left true b h = refl
and_left false b h = h

and_right : (a b : Bool) → (a && b) ≡ true → b ≡ true
and_right true b h = h
and_right false b h = cc

abbrev set_ok : ℕ → ℕ → ℕ → Bool
set_ok byte k j =
    same (has_bit (bit_or byte (2 ^ k)) j) (if k == j then true else has_bit byte j)
    && ltb (bit_or byte (2 ^ k)) 256

abbrev clear_ok : ℕ → ℕ → ℕ → Bool
clear_ok byte k j =
    same (has_bit (bit_and byte (255 - 2 ^ k)) j) (if k == j then false else has_bit byte j)
    && ltb (bit_and byte (255 - 2 ^ k)) 256

set_table : all_below 256 (λ b. all_below 8 (λ k. all_below 8 (λ j. set_ok b k j))) ≡ true
unfolding all_below
set_table = refl

clear_table : all_below 256 (λ b. all_below 8 (λ k. all_below 8 (λ j. clear_ok b k j))) ≡ true
unfolding all_below
clear_table = refl

pub set_bit :
    (byte k j : ℕ)
    → byte < 256
    → k < 8
    → j < 8
    → (has_bit (bit_or byte (2 ^ k)) j ≡ (if k == j then true else has_bit byte j))
      × (bit_or byte (2 ^ k) < 256)
set_bit byte k j hb hk hj =
    let ok : set_ok byte k j ≡ true =
      all_below-true 8 (λ j. set_ok byte k j) j
        (all_below-true 8 (λ k. all_below 8 (λ j. set_ok byte k j)) k
          (all_below-true 256 (λ b. all_below 8 (λ k. all_below 8 (λ j. set_ok b k j))) byte
            set_table hb)
          hk)
        hj in
    (same-eq _ _ (and_left _ _ ok), ltb→lt _ _ (and_right _ _ ok))

pub clear_bit :
    (byte k j : ℕ)
    → byte < 256
    → k < 8
    → j < 8
    → (has_bit (bit_and byte (255 - 2 ^ k)) j ≡ (if k == j then false else has_bit byte j))
      × (bit_and byte (255 - 2 ^ k) < 256)
clear_bit byte k j hb hk hj =
    let ok : clear_ok byte k j ≡ true =
      all_below-true 8 (λ j. clear_ok byte k j) j
        (all_below-true 8 (λ k. all_below 8 (λ j. clear_ok byte k j)) k
          (all_below-true 256 (λ b. all_below 8 (λ k. all_below 8 (λ j. clear_ok b k j))) byte
            clear_table hb)
          hk)
        hj in
    (same-eq _ _ (and_left _ _ ok), ltb→lt _ _ (and_right _ _ ok))
