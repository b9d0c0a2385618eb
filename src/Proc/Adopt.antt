-- ===== src/Proc/Adopt.antt =====
-- The loop of `exit` that passes the children of the exiting process to init.
use cs.Prelude.{
  ℕ, zero, suc, ◌+◌, ◌≤◌, ◌<◌, ◌≡◌, ◌≢◌, ◌⊎◌, inl, inr, refl, sym, ◌∙◌, ap, subst, true, false,
  ◌==◌, Option, some, none, arith, update, update_self, update_ne, Bool-cases, ==_ne,
}
use mathlib.Core.Bool.{false≢true}
use cs.Proc.{
  Procs, Proc, Chan, on_proc, nproc, wake, wakeup1, is_zombie, is_child, adopt_one, adopt_from,
}
use cs.Proc.Loops.{wakeup1-at}
use cs.Proc.Family.{is_alive, waits, wakeup1-Kept}

-- What the adoption of the children of `cur` by `init` may do to a slot `q`.
pub record Turned (cur init q : ℕ) (p p' : Proc) : Type 0 where
  pub parent : (p'.parent ≡ p.parent) ⊎ ((is_child p cur ≡ true) × (p'.parent ≡ some init))
  pub alive : is_alive p.state ≡ true → is_alive p'.state ≡ true
  pub zombies : is_zombie p'.state ≡ is_zombie p.state
  pub waits_still : waits p' q ≡ true → waits p q ≡ true

Turned-refl : (cur init q : ℕ) (p : Proc) → Turned cur init q p p
Turned-refl cur init q p = record {
  parent = inl refl;
  alive = λ h. h;
  zombies = refl;
  waits_still = λ h. h;
}

is_child-parent : (p p' : Proc) (cur : ℕ) → p'.parent ≡ p.parent → is_child p' cur ≡ is_child p cur
is_child-parent p p' cur e = ap (λ (o : Option ℕ). elim o [ none ↦ false | some r ↦ r == cur ]) e

-- With init another process, who is no child of `cur` does not become one.
Turned-childless :
    (cur init q : ℕ) (p p' : Proc)
    → init ≢ cur
    → Turned cur init q p p'
    → is_child p cur ≡ false
    → is_child p' cur ≡ false
Turned-childless cur init q p p' ne r h = elim r.parent [
  | inl same ↦ is_child-parent p p' cur same ∙ h
  | inr (child, new) ↦ absurd (false≢true (sym h ∙ child))
]

Turned-trans :
    (cur init q : ℕ) (p p' p'' : Proc)
    → init ≢ cur
    → Turned cur init q p p'
    → Turned cur init q p' p''
    → Turned cur init q p p''
Turned-trans cur init q p p' p'' ne a b = record {
  parent = elim b.parent [
    | inl same ↦ elim a.parent [
      | inl same' ↦ inl (same ∙ same')
      | inr (child, new) ↦ inr (child, same ∙ new)
    ]
    | inr (child, new) ↦ elim a.parent [
      | inl same' ↦ inr (sym (is_child-parent p p' cur same') ∙ child, new)
      | inr (child', new') ↦ inr (child', new)
    ]
  ];
  alive = λ h. b.alive (a.alive h);
  zombies = b.zombies ∙ a.zombies;
  waits_still = λ h. a.waits_still (b.waits_still h);
}

wake-Turned : (cur init q : ℕ) (c : Chan) (p : Proc) → Turned cur init q p (wake c p)
wake-Turned cur init q c p = record {
  parent = inl (ground arith);
  alive = λ h. ground arith;
  zombies = ground arith;
  waits_still = λ h. ground arith;
}

-- One round of the loop, at slot `i`.
record Round (cur init i : ℕ) (b a : Procs) : Type 0 where
  turned : (j : ℕ) → j < nproc → Turned cur init j (b j) (a j)
  apart : (j : ℕ) → j < nproc → i ≢ j → (a j).parent ≡ (b j).parent
  childless : is_child (a i) cur ≡ false
  told : is_child (b i) cur ≡ true → is_zombie (b i).state ≡ true → waits (a init) init ≡ false

set_parent-Turned :
    (cur init i : ℕ) (b : Procs) (j : ℕ)
    → is_child (b i) cur ≡ true
    → Turned cur init j (b j) (update b i (record (b i) { parent = some init }) j)
set_parent-Turned cur init i b j child = elim (Bool-cases (i == j)) [
  | inl here ↦
      let same : i ≡ j = ground arith in
      rw here (
        subst (λ x. Turned cur init x (b x) (record (b i) { parent = some init })) same
          (record {
            parent = inr (child, refl);
            alive = λ h. h;
            zombies = refl;
            waits_still = λ h. h;
          }))
  | inr there ↦ rw there (Turned-refl cur init j (b j))
]

pub woken : (c : ℕ) (p : Proc) → waits (wake (on_proc c) p) c ≡ false
woken c p = ground arith

abbrev adopted : Procs → ℕ → ℕ → Procs
adopted b i init = update b i (record (b i) { parent = some init })

parent-adopted : (b : Procs) (i init j : ℕ) → i ≢ j → (adopted b i init j).parent ≡ (b j).parent
parent-adopted b i init j ne =
    ap (λ (p : Proc). p.parent) (update_ne b i (record (b i) { parent = some init }) j ne)

is_child-adopted :
    (b : Procs) (i init cur : ℕ) → init ≢ cur → is_child (adopted b i init i) cur ≡ false
is_child-adopted b i init cur ne =
    is_child-parent (record (b i) { parent = some init }) (adopted b i init i) cur
      (ap (λ (p : Proc). p.parent) (update_self b i (record (b i) { parent = some init })))
    ∙ ==_ne init cur ne

-- The round of a child that has exited already: init is woken too.
dead-Round :
    (cur init i : ℕ) (b : Procs)
    → init ≢ cur
    → init < nproc
    → i < nproc
    → is_child (b i) cur ≡ true
    → Round cur init i b (wakeup1 (on_proc init) (adopted b i init))
dead-Round cur init i b ne hinit hi child = record {
  turned = λ j hj.
      Turned-trans cur init j (b j) (adopted b i init j) _ ne
        (set_parent-Turned cur init i b j child) (woken_slot j hj);
  apart = λ j hj there.
      (wakeup1-Kept (on_proc init) (adopted b i init) j hj).parent
      ∙ parent-adopted b i init j there;
  childless =
      Turned-childless cur init i _ _ ne (woken_slot i hi) (is_child-adopted b i init cur ne);
  told = λ c d.
      ap (λ (p : Proc). waits p init) (wakeup1-at (on_proc init) (adopted b i init) init hinit)
      ∙ woken init (adopted b i init init);
}
  where
    woken_slot :
        (j : ℕ)
        → j < nproc
        → Turned cur init j (adopted b i init j) (wakeup1 (on_proc init) (adopted b i init) j)
    woken_slot j hj =
        subst (Turned cur init j (adopted b i init j))
          (sym (wakeup1-at (on_proc init) (adopted b i init) j hj))
          (wake-Turned cur init j (on_proc init) (adopted b i init j))

adopt_one-Round :
    (cur init i : ℕ) (b : Procs)
    → init ≢ cur
    → init < nproc
    → i < nproc
    → Round cur init i b (adopt_one i cur init b)
unfolding adopt_one
adopt_one-Round cur init i b ne hinit hi = elim (Bool-cases (is_child (b i) cur)) [
  | inr other ↦ rw other (record {
    turned = λ j hj. Turned-refl cur init j (b j);
    apart = λ j hj there. refl;
    childless = other;
    told = λ c d. absurd (false≢true (sym other ∙ c));
  })
  | inl child ↦ rw child (elim (Bool-cases (is_zombie (b i).state)) [
    | inl dead ↦ rw dead (dead-Round cur init i b ne hinit hi child)
    | inr live ↦ rw live (record {
      turned = λ j hj. set_parent-Turned cur init i b j child;
      apart = λ j hj there. parent-adopted b i init j there;
      childless = is_child-adopted b i init cur ne;
      told = λ c d. absurd (false≢true (sym live ∙ d));
    })
  ])
]

-- The whole loop, over the slots from `lo` to `hi`.
pub record Rounds (cur init lo hi : ℕ) (b a : Procs) : Type 0 where
  pub turned : (j : ℕ) → j < nproc → Turned cur init j (b j) (a j)
  pub childless : (j : ℕ) → lo ≤ j → j < hi → is_child (a j) cur ≡ false
  pub told :
      (j : ℕ)
      → lo ≤ j
      → j < hi
      → is_child (b j) cur ≡ true
      → is_zombie (b j).state ≡ true
      → waits (a init) init ≡ false

pub not_waits :
    (cur init q : ℕ) (p p' : Proc) → Turned cur init q p p' → waits p q ≡ false → waits p' q ≡ false
not_waits cur init q p p' r h = elim (Bool-cases (waits p' q)) [
  | inl w ↦ absurd (false≢true (sym h ∙ r.waits_still w))
  | inr n ↦ n
]

more-Rounds :
    (n cur init i : ℕ) (b m a : Procs)
    → init ≢ cur
    → init < nproc
    → i + suc n ≤ nproc
    → Round cur init i b m
    → Rounds cur init (i + 1) (i + 1 + n) m a
    → Rounds cur init i (i + suc n) b a
more-Rounds n cur init i b m a ne hinit fits r rs = record {
  turned = λ j hj. Turned-trans cur init j (b j) (m j) (a j) ne (r.turned j hj) (rs.turned j hj);
  childless = λ j lo hi. elim (Bool-cases (i == j)) [
    | inl here ↦
        let same : i ≡ j = ground arith in
        subst (λ x. is_child (a x) cur ≡ false) same
          (Turned-childless cur init i (m i) (a i) ne (rs.turned i (omega arith)) r.childless)
    | inr later ↦ rs.childless j (ground arith) (omega arith)
  ];
  told = λ j lo hi c d. elim (Bool-cases (i == j)) [
    | inl here ↦
        let same : i ≡ j = ground arith in
        not_waits cur init init (m init) (a init) (rs.turned init hinit) (
          r.told (subst (λ x. is_child (b x) cur ≡ true) (sym same) c)
            (subst (λ x. is_zombie (b x).state ≡ true) (sym same) d))
    | inr later ↦
        rs.told j (ground arith) (omega arith)
          (is_child-parent (b j) (m j) cur (r.apart j (omega arith) (ground arith)) ∙ c)
          ((r.turned j (omega arith)).zombies ∙ d)
  ];
}

pub adopt_from-Rounds :
    (n cur init i : ℕ) (b : Procs)
    → init ≢ cur
    → init < nproc
    → i + n ≤ nproc
    → Rounds cur init i (i + n) b (adopt_from n i cur init b)
unfolding adopt_from
adopt_from-Rounds zero cur init i b ne hinit fits = record {
  turned = λ j hj. Turned-refl cur init j (b j);
  childless = λ j lo hi. absurd (omega arith);
  told = λ j lo hi c d. absurd (omega arith);
}
adopt_from-Rounds (suc n) cur init i b ne hinit fits =
    more-Rounds n cur init i b _ _ ne hinit fits
      (adopt_one-Round cur init i b ne hinit (omega arith))
      (adopt_from-Rounds n cur init (i + 1) (adopt_one i cur init b) ne hinit (omega arith))
