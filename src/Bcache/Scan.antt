-- ===== src/Bcache/Scan.antt =====
-- The loops of `bget`: following the links finds the first buffer of the list that passes the test.
use cs.Prelude.{
  ℕ, zero, suc, ◌≤◌, ◌≡◌, ◌≢◌, inl, inr, refl, sym, ◌∙◌, subst, ◌==◌, if◌then◌else◌, Bool, true,
  false, Bool-cases, Option, some, none, List, [], ◌∷◌, ◌++◌, arith, length, length-append, All, In,
  In-append, In-append_left, In-append_right,
}
use cs.Bcache.{head, scan}
use cs.Bcache.Ring.{Linked, Linked-append}

abbrev pub find : (ℕ → Bool) → List ℕ → Option ℕ
find test [] = none
find test (x ∷ xs) = let rest = find test xs in if test x then some x else rest

-- The links `n` run from `a` through `xs` to the head.
abbrev pub Leads : (ℕ → ℕ) → ℕ → List ℕ → Type 0
Leads n a [] = n a ≡ head
Leads n a (x ∷ xs) = (n a ≡ x) × (x ≢ head) × Leads n x xs

-- With fuel for the whole list, the loop returns the first buffer on it that passes the test.
pub scan-find :
    (n : ℕ → ℕ) (test : ℕ → Bool) (fuel a : ℕ) (xs : List ℕ)
    → Leads n a xs
    → length xs ≤ fuel
    → scan n test fuel (n a) ≡ find test xs
unfolding scan
scan-find n test zero a [] l h = refl
scan-find n test (suc fuel) a [] l h = let e : (n a == head) ≡ true = ground arith in rw e
scan-find n test zero a (x ∷ xs) l h = absurd (omega arith)
scan-find n test (suc fuel) a (x ∷ xs) (e, ne, l) h =
    let rest : scan n test fuel (n x) ≡ find test xs = scan-find n test fuel x xs l (omega arith) in
    let other : (x == head) ≡ false = ground arith in
    subst
      (λ y.
        (if y == head then none else if test y then some y else scan n test fuel (n y))
        ≡ (if test x then some x else find test xs))
      (sym e) (rw (other, rest))

pub find-some :
    (test : ℕ → Bool) (xs : List ℕ) (i : ℕ) → find test xs ≡ some i → In i xs × (test i ≡ true)
find-some test [] i h = cc
find-some test (x ∷ xs) i h = elim (Bool-cases (test x)) [
  | inl pass ↦ let e : i ≡ x = ground arith in (inl e, subst (λ y. test y ≡ true) (sym e) pass)
  | inr fail ↦ let rest = find-some test xs i (ground arith) in (inr rest.0, rest.1)
]

pub find-none : (test : ℕ → Bool) (xs : List ℕ) → find test xs ≡ none → All (λ x. test x ≡ false) xs
find-none test [] h = tt
find-none test (x ∷ xs) h = elim (Bool-cases (test x)) [
  | inl pass ↦ absurd (ground arith)
  | inr fail ↦ (fail, find-none test xs (ground arith))
]

-- Forwards a ring leads through its list, and backwards through the reverse.
pub forward :
    (n p : ℕ → ℕ) (a : ℕ) (xs : List ℕ)
    → All (λ y. head ≢ y) xs
    → Linked n p a xs head
    → Leads n a xs
forward n p a [] ne (h, k) = h
forward n p a (x ∷ xs) (ne, nes) (h, k, l) = (h, (λ e. ne (sym e)), forward n p x xs nes l)

-- A path run backwards: the same nodes in some order.
pub record Backward (n p : ℕ → ℕ) (a : ℕ) (xs : List ℕ) (b : ℕ) : Type 0 where
  pub nodes : List ℕ
  pub linked : Linked p n b nodes a
  pub same_length : length nodes ≡ length xs
  pub from_path : (x : ℕ) → In x nodes → In x xs
  pub on_path : (x : ℕ) → In x xs → In x nodes

Backward-more :
    (n p : ℕ → ℕ) (a x : ℕ) (xs : List ℕ) (b : ℕ)
    → n a ≡ x
    → p x ≡ a
    → Backward n p x xs b
    → Backward n p a (x ∷ xs) b
Backward-more n p a x xs b h k r = record {
  nodes = r.nodes ++ x ∷ [];
  linked = Linked-append p n b r.nodes x [] a r.linked (k, h);
  same_length = length-append r.nodes (x ∷ []) ∙ omega (arith, r.same_length);
  from_path = λ y m. elim (In-append y r.nodes (x ∷ []) m) [
    | inl l ↦ inr (r.from_path y l)
    | inr q ↦ inl (only y q)
  ];
  on_path = there;
}
  where
    only : (y : ℕ) → In y (x ∷ []) → y ≡ x
    only y (inl e) = e
    only y (inr m) = absurd m

    there : (y : ℕ) → In y (x ∷ xs) → In y (r.nodes ++ x ∷ [])
    there y (inl e) = In-append_right y r.nodes (x ∷ []) (inl e)
    there y (inr m) = In-append_left y r.nodes (x ∷ []) (r.on_path y m)

pub backward : (n p : ℕ → ℕ) (a : ℕ) (xs : List ℕ) (b : ℕ) → Linked n p a xs b → Backward n p a xs b
backward n p a [] b (h, k) = record {
  nodes = [];
  linked = (k, h);
  same_length = refl;
  from_path = λ x m. m;
  on_path = λ x m. m;
}
backward n p a (x ∷ xs) b (h, k, l) = Backward-more n p a x xs b h k (backward n p x xs b l)
