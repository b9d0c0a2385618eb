-- ===== src/Printf/Tests.antt =====
-- Numbers as `printint` writes them.
use cs.Prelude.{ℕ, ◌≡◌, ◌≤◌, inl, refl, true, List, [], ◌∷◌, arith, if◌then◌else◌, length}
use cs.Printf.{printint, minus_char}
use cs.Printf.Number.{read, is_negative, magnitude, printint-magnitude}

-- -42
abbrev minus_42 : ℕ
minus_42 = 0xFFFFFFD6

writes_minus_42 : printint minus_42 10 true ≡ minus_char ∷ 52 ∷ 50 ∷ []
unfolding printint
writes_minus_42 = refl

writes_hex : printint 0xBEEF 16 true ≡ 66 ∷ 69 ∷ 69 ∷ 70 ∷ []
unfolding printint
writes_hex = refl

printint-magnitude_example :
    (text : List ℕ) × (printint minus_42 10 true
      ≡ (if is_negative true minus_42 then minus_char ∷ text else text))
    × (read 10 0 text ≡ magnitude true minus_42)
    × (length (printint minus_42 10 true) ≤ 11)
printint-magnitude_example = printint-magnitude minus_42 10 true (inl refl) (omega arith)
