-- ===== src/Bcache/Ring.antt =====
-- The doubly linked list of buffers, as a list: what the assignments to the links do to it.
use cs.Prelude.{
  ℕ, ◌≡◌, ◌≢◌, ◌⊎◌, inl, inr, refl, sym, ◌∙◌, ap, subst, List, [], ◌∷◌, ◌++◌, arith, update,
  update_self, update_ne, All, Apart, In, Apart-split, Apart-join, All-map, All-of, All-both,
  append-nil, All-In,
}
use cs.Bcache.{Links, head, push_front, unlink}

-- From `a`, the links `n` run through `xs` to `b`, and the links `p` run back.
abbrev pub Linked : (ℕ → ℕ) → (ℕ → ℕ) → ℕ → List ℕ → ℕ → Type 0
Linked n p a [] b = (n a ≡ b) × (p b ≡ a)
Linked n p a (x ∷ xs) b = (n a ≡ x) × (p x ≡ a) × Linked n p x xs b

-- Links that agree on the list's nodes make the same list.
pub Linked-agree :
    (n p n' p' : ℕ → ℕ) (a : ℕ) (xs : List ℕ) (b : ℕ)
    → n' a ≡ n a
    → All (λ x. n' x ≡ n x) xs
    → All (λ x. p' x ≡ p x) xs
    → p' b ≡ p b
    → Linked n p a xs b
    → Linked n' p' a xs b
Linked-agree n p n' p' a [] b ea en ep eb (h, k) = (ea ∙ h, eb ∙ k)
Linked-agree n p n' p' a (x ∷ xs) b ea (ex, en) (fx, ep) eb (h, k, l) =
    (ea ∙ h, fx ∙ k, Linked-agree n p n' p' x xs b ex en ep eb l)

pub Linked-split :
    (n p : ℕ → ℕ) (a : ℕ) (us : List ℕ) (x : ℕ) (vs : List ℕ) (b : ℕ)
    → Linked n p a (us ++ x ∷ vs) b
    → Linked n p a us x × Linked n p x vs b
Linked-split n p a [] x vs b (h, k, l) = ((h, k), l)
Linked-split n p a (u ∷ us) x vs b (h, k, l) =
    let r = Linked-split n p u us x vs b l in ((h, k, r.0), r.1)

pub Linked-append :
    (n p : ℕ → ℕ) (a : ℕ) (us : List ℕ) (x : ℕ) (vs : List ℕ) (b : ℕ)
    → Linked n p a us x
    → Linked n p x vs b
    → Linked n p a (us ++ x ∷ vs) b
Linked-append n p a [] x vs b (h, k) l = (h, k, l)
Linked-append n p a (u ∷ us) x vs b (h, k, m) l = (h, k, Linked-append n p u us x vs b m l)

-- The node before the end of a path is its start or on it.
before : (n p : ℕ → ℕ) (a : ℕ) (us : List ℕ) (x : ℕ) → Linked n p a us x → (p x ≡ a) ⊎ In (p x) us
before n p a [] x (h, k) = inl k
before n p a (u ∷ us) x (h, k, l) = inr (before n p u us x l)

-- A path to `x` is led to `c` instead.
redirect :
    (n p : ℕ → ℕ) (a : ℕ) (us : List ℕ) (x c : ℕ)
    → Apart (a ∷ us)
    → All (λ u. c ≢ u) us
    → Linked n p a us x
    → Linked (update n (p x) c) (update p c (p x)) a us c
redirect n p a [] x c d f (h, k) =
    (ap (update n (p x) c) (sym k) ∙ update_self n (p x) c, update_self p c (p x) ∙ k)
redirect n p a (u ∷ us) x c ((au, aus), d) (cu, f) (h, k, l) =
    let last : p x ≢ a = λ e. elim (before n p u us x l) [
      | inl is_u ↦ au (sym e ∙ is_u)
      | inr in_us ↦ All-In (λ y. a ≢ y) us (p x) aus in_us (sym e)
    ] in
    (update_ne n (p x) c a last ∙ h, update_ne p c (p x) u cu ∙ k, redirect n p u us x c d f l)

-- The list from the head round to the head.
pub record Ring (l : Links) (xs : List ℕ) : Type 0 where
  pub linked : Linked l.next l.prev head xs head
  pub apart : Apart (head ∷ xs)

-- The node before `x` is none that all nodes up to `x` differ from.
before_ne :
    (n p : ℕ → ℕ) (a : ℕ) (us : List ℕ) (x y : ℕ)
    → Linked n p a us x
    → All (λ u. u ≢ y) (a ∷ us)
    → p x ≢ y
before_ne n p a us x y l (ca, c) e = elim (before n p a us x l) [
  | inl here ↦ ca (sym here ∙ e)
  | inr there ↦ All-In (λ u. u ≢ y) us (p x) c there e
]

-- What is left when `x` is taken out of a path.
taken_out :
    (n p : ℕ → ℕ) (us : List ℕ) (x : ℕ) (vs : List ℕ)
    → Linked n p head us x
    → Linked n p x vs head
    → Apart (head ∷ us)
    → Apart vs
    → All (λ u. All (λ w. u ≢ w) (x ∷ vs)) (head ∷ us)
    → Linked (update n (p x) (n x)) (update p (n x) (p x)) head (us ++ vs) head
taken_out n p us x [] a (h, k) d dv c =
    subst (λ ys. Linked (update n (p x) (n x)) (update p (n x) (p x)) head ys head)
      (sym (append-nil us))
      (subst (λ e. Linked (update n (p x) e) (update p e (p x)) head us head) (sym h)
        (redirect n p head us x head d d.0 a))
taken_out n p us x (v ∷ vs) a (h, k, l) d (dv, dvs) c =
    subst (λ e. Linked (update n (p x) e) (update p e (p x)) head (us ++ v ∷ vs) head) (sym h)
      (Linked-append (update n (p x) v) (update p v (p x)) head us v vs head
        (redirect n p head us x v d (All-map us (λ u q e. q.1.0 (sym e)) c.1) a)
        (Linked-agree n p (update n (p x) v) (update p v (p x)) v vs head (same v (inl refl))
          (All-of vs (λ y m. same y (inr m))) (All-map vs (λ y ne. update_ne p v (p x) y ne) dv)
          (update_ne p v (p x) head (λ e. c.0.1.0 (sym e))) l))
  where
    same : (y : ℕ) → In y (v ∷ vs) → update n (p x) v y ≡ n y
    same y m = update_ne n (p x) v y (
        before_ne n p head us x y a
          (All-map (head ∷ us) (λ u q. All-In (λ w. u ≢ w) (x ∷ v ∷ vs) y q (inr m)) c))

-- The first assignment of `unlink` leaves `prev` of the buffer itself.
unlink_self : (x : ℕ) (l : Links) → update l.prev (l.next x) (l.prev x) x ≡ l.prev x
unlink_self x l = ground arith

pub unlink-Ring :
    (l : Links) (us : List ℕ) (x : ℕ) (vs : List ℕ)
    → Ring l (us ++ x ∷ vs)
    → Ring (unlink x l) (us ++ vs)
unfolding unlink
unlink-Ring l us x vs r =
    let parts = Linked-split l.next l.prev head us x vs head r.linked in
    let (d, (dx, dvs), c) = Apart-split (head ∷ us) (x ∷ vs) r.apart in
    record {
      linked =
          subst
            (λ q.
              Linked (update l.next q (l.next x)) (update l.prev (l.next x) (l.prev x)) head
                (us ++ vs) head)
            (sym (unlink_self x l)) (taken_out l.next l.prev us x vs parts.0 parts.1 d dvs c);
      apart = Apart-join (head ∷ us) vs d dvs (All-map (head ∷ us) (λ u q. tail_of q) c);
    }
  where
    tail_of : {u : ℕ} → All (λ w. u ≢ w) (x ∷ vs) → All (λ w. u ≢ w) vs
    tail_of (q, qs) = qs

front :
    (n p : ℕ → ℕ) (x : ℕ) (zs : List ℕ)
    → All (λ y. x ≢ y) (head ∷ zs)
    → Apart (head ∷ zs)
    → Linked n p head zs head
    → Linked
        (update (update n x (n head)) head x)
        (update (update p x head) (n head) x)
        head
        (x ∷ zs)
        head
front n p x [] (ne, f) d (h, k) = (ground arith, ground arith, (ground arith, ground arith))
front n p x (z ∷ zs) (ne, (nz, f)) ((hz, hzs), (dz, d)) (h, k, l) = (
  ground arith,
  ground arith,
  (
    ground arith,
    ground arith,
    Linked-agree n p (update (update n x (n head)) head x) (update (update p x head) (n head) x) z
        zs head (ground arith)
        (All-map zs (λ y q. ground arith) (All-both (λ y. x ≢ y) (λ y. head ≢ y) zs f hzs))
        (All-map zs (λ y q. ground arith) (All-both (λ y. x ≢ y) (λ y. z ≢ y) zs f dz))
        (ground arith) l,
  ),
)

pub push_front-Ring :
    (l : Links) (x : ℕ) (zs : List ℕ)
    → All (λ y. x ≢ y) (head ∷ zs)
    → Ring l zs
    → Ring (push_front x l) (x ∷ zs)
unfolding push_front
push_front-Ring l x zs f r = record {
  linked =
      subst
        (λ q.
          Linked (update (update l.next x (l.next head)) head x) (update (update l.prev x head) q x)
            head (x ∷ zs) head)
        (sym (update_ne l.next x (l.next head) head f.0))
        (front l.next l.prev x zs f r.apart r.linked);
  apart = (((λ e. f.0 (sym e)), r.apart.0), (f.1, r.apart.1));
}
