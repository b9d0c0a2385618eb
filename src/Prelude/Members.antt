-- ===== src/Prelude/Members.antt =====
-- Predicates on the members of a list, by recursion on the list.
use mathlib.Core.Path.{◌≡◌, refl, sym, subst}
use mathlib.Core.Logic.{◌≢◌, ◌⊎◌, inl, inr}
use mathlib.Core.List.{List, [], ◌∷◌, ◌++◌}

abbrev pub All {ℓ κ} : {A : Type ℓ} → (A → Type κ) → List A → Type κ
All P [] = Unit
All P (x ∷ xs) = P x × All P xs

abbrev pub In : {A : Type 0} → A → List A → Type 0
In x [] = ⊥
In x (y ∷ ys) = (x ≡ y) ⊎ In x ys

-- No member stands twice.
abbrev pub Apart {ℓ} : {A : Type ℓ} → List A → Type ℓ
Apart [] = Unit
Apart (x ∷ xs) = All (λ y. x ≢ y) xs × Apart xs

module _ {ℓ κ ι} {A : Type ℓ} {P : A → Type κ} {Q : A → Type ι} where
  pub All-map : (xs : List A) → ((x : A) → P x → Q x) → All P xs → All Q xs
  All-map [] f h = tt
  All-map (x ∷ xs) f (h, hs) = (f x h, All-map xs f hs)

module _ {κ} {A : Type 0} {P : A → Type κ} where
  pub All-of : (xs : List A) → ((x : A) → In x xs → P x) → All P xs
  All-of [] f = tt
  All-of (x ∷ xs) f = (f x (inl refl), All-of xs (λ y h. f y (inr h)))

module _ {ℓ κ ι} {A : Type ℓ} (P : A → Type κ) (Q : A → Type ι) where
  pub All-both : (xs : List A) → All P xs → All Q xs → All (λ x. P x × Q x) xs
  All-both [] hs ks = tt
  All-both (x ∷ xs) (h, hs) (k, ks) = ((h, k), All-both xs hs ks)

module _ {ℓ κ} {A : Type ℓ} (P : A → Type κ) where
  pub All-append : (xs ys : List A) → All P xs → All P ys → All P (xs ++ ys)
  All-append [] ys hs ks = ks
  All-append (x ∷ xs) ys (h, hs) ks = (h, All-append xs ys hs ks)

module _ {ℓ κ} {A : Type ℓ} (P : A → Type κ) where
  pub All-left : (xs ys : List A) → All P (xs ++ ys) → All P xs
  All-left [] ys h = tt
  All-left (x ∷ xs) ys (h, hs) = (h, All-left xs ys hs)

  pub All-right : (xs ys : List A) → All P (xs ++ ys) → All P ys
  All-right [] ys h = h
  All-right (x ∷ xs) ys (h, hs) = All-right xs ys hs

module _ {κ} {A : Type 0} (P : A → Type κ) where
  pub All-In : (xs : List A) (x : A) → All P xs → In x xs → P x
  All-In [] x hs m = absurd m
  All-In (y ∷ ys) x (h, hs) (inl e) = subst P (sym e) h
  All-In (y ∷ ys) x (h, hs) (inr m) = All-In ys x hs m

module _ {A : Type 0} where
  pub In-append : (x : A) (xs ys : List A) → In x (xs ++ ys) → In x xs ⊎ In x ys
  In-append x [] ys m = inr m
  In-append x (y ∷ xs) ys (inl e) = inl (inl e)
  In-append x (y ∷ xs) ys (inr m) = elim (In-append x xs ys m) [
    | inl l ↦ inl (inr l)
    | inr r ↦ inr r
  ]

  pub In-append_left : (x : A) (xs ys : List A) → In x xs → In x (xs ++ ys)
  In-append_left x [] ys m = absurd m
  In-append_left x (y ∷ xs) ys (inl e) = inl e
  In-append_left x (y ∷ xs) ys (inr m) = inr (In-append_left x xs ys m)

  pub In-append_right : (x : A) (xs ys : List A) → In x ys → In x (xs ++ ys)
  In-append_right x [] ys m = m
  In-append_right x (y ∷ xs) ys m = inr (In-append_right x xs ys m)

  -- A member splits its list.
  pub In-split :
      (x : A) (xs : List A) → In x xs → (us : List A) × (vs : List A) × (xs ≡ us ++ x ∷ vs)
  In-split x [] m = absurd m
  In-split x (y ∷ ys) (inl e) = ([], ys, rw e)
  In-split x (y ∷ ys) (inr m) = let (us, vs, e) = In-split x ys m in (y ∷ us, vs, rw e)

module _ {A : Type 0} where
  pub Apart-split :
      (us ws : List A) → Apart (us ++ ws) → Apart us × Apart ws × All (λ u. All (λ w. u ≢ w) ws) us
  Apart-split [] ws d = (tt, d, tt)
  Apart-split (u ∷ us) ws (h, d) =
      let (du, dw, c) = Apart-split us ws d in
      ((All-left (λ w. u ≢ w) us ws h, du), dw, (All-right (λ w. u ≢ w) us ws h, c))

  pub Apart-join :
      (us ws : List A) → Apart us → Apart ws → All (λ u. All (λ w. u ≢ w) ws) us → Apart (us ++ ws)
  Apart-join [] ws du dw c = dw
  Apart-join (u ∷ us) ws (h, du) dw (cu, c) =
      (All-append (λ w. u ≢ w) us ws h cu, Apart-join us ws du dw c)
