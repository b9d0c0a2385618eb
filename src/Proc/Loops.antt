-- ===== src/Proc/Loops.antt =====
-- What the loops over the process table do to each slot.
use cs.Prelude.{
  ℕ, zero, suc, ◌+◌, ◌≤◌, ◌<◌, ◌≡◌, ◌≢◌, inl, inr, refl, sym, ◌∙◌, ap, subst, Bool, true, false,
  ◌&&◌, ◌==◌, some, none, arith, update, update_self, update_ne, Bool-cases,
}
use mathlib.Core.Option.{some-injective}
use cs.Proc.{
  Procs, Chan, nproc, wake, wakeup_from, wakeup1, is_unused, find_unused, is_child, is_zombie,
  find_zombie,
}

and_left : (a b : Bool) → a && b ≡ true → a ≡ true
and_left a b h = ground arith

and_right : (a b : Bool) → a && b ≡ true → b ≡ true
and_right a b h = ground arith

some≢none : {i : ℕ} → some i ≢ none
some≢none e = cc

-- A search's answer is a slot in range that passes the test.
pub find_unused_lem :
    (n i : ℕ) (procs : Procs) {j : ℕ}
    → find_unused n i procs ≡ some j
    → (i ≤ j) × (j < i + n) × (is_unused (procs j).state ≡ true)
unfolding find_unused
find_unused_lem zero i procs e = cc
find_unused_lem (suc n) i procs {j} e = ground (arith, find_unused_lem n (i + 1) procs {j = j})

pub find_zombie_lem :
    (n i cur : ℕ) (procs : Procs) {j : ℕ}
    → find_zombie n i cur procs ≡ some j
    → (i ≤ j) × (j < i + n) × (is_child (procs j) cur ≡ true) × (is_zombie (procs j).state ≡ true)
unfolding find_zombie
find_zombie_lem zero i cur procs e = cc
find_zombie_lem (suc n) i cur procs {j} e =
    elim (Bool-cases (is_child (procs i) cur && is_zombie (procs i).state)) [
      | inl here ↦
          let same : i ≡ j = some-injective _ _ (sym (rw here) ∙ e) in
          subst
            (λ k.
              (i ≤ k)
              × (k < i + suc n)
              × (is_child (procs k) cur ≡ true)
              × (is_zombie (procs k).state ≡ true))
            same (omega arith, omega arith, and_left _ _ here, and_right _ _ here)
      | inr next ↦
          let (lo, hi, child, dead) = find_zombie_lem n (i + 1) cur procs (sym (rw next) ∙ e) in
          (omega arith, omega arith, child, dead)
    ]

-- No zombie child is overlooked.
pub find_zombie-none :
    (n i cur : ℕ) (procs : Procs) (j : ℕ)
    → find_zombie n i cur procs ≡ none
    → i ≤ j
    → j < i + n
    → is_child (procs j) cur && is_zombie (procs j).state ≡ false
unfolding find_zombie
find_zombie-none zero i cur procs j e lo hi = absurd (omega arith)
find_zombie-none (suc n) i cur procs j e lo hi =
    elim (Bool-cases (is_child (procs i) cur && is_zombie (procs i).state)) [
      | inl here ↦ absurd (some≢none {i = i} (sym (rw here) ∙ e))
      | inr next ↦ elim (Bool-cases (i == j)) [
        | inl now ↦
            subst (λ k. is_child (procs k) cur && is_zombie (procs k).state ≡ false) (ground arith)
              next
        | inr later ↦
            find_zombie-none n (i + 1) cur procs j (sym (rw next) ∙ e) (ground arith) (omega arith)
      ]
    ]

wakeup_from-before :
    (n i : ℕ) (c : Chan) (procs : Procs) (j : ℕ) → j < i → wakeup_from n i c procs j ≡ procs j
unfolding wakeup_from
wakeup_from-before zero i c procs j h = refl
wakeup_from-before (suc n) i c procs j h =
    wakeup_from-before n (i + 1) c (update procs i (wake c (procs i))) j (omega arith)
    ∙ update_ne procs i (wake c (procs i)) j (omega arith)

wakeup_from-at :
    (n i : ℕ) (c : Chan) (procs : Procs) (j : ℕ)
    → i ≤ j
    → j < i + n
    → wakeup_from n i c procs j ≡ wake c (procs j)
unfolding wakeup_from
wakeup_from-at zero i c procs j h l = absurd (omega arith)
wakeup_from-at (suc n) i c procs j h l = elim (Bool-cases (i == j)) [
  | inl here ↦
      let same : i ≡ j = ground arith in
      subst (λ k. wakeup_from (suc n) i c procs k ≡ wake c (procs k)) same
        (wakeup_from-before n (i + 1) c (update procs i (wake c (procs i))) i (omega arith)
          ∙ update_self procs i (wake c (procs i)))
  | inr later ↦
      wakeup_from-at n (i + 1) c (update procs i (wake c (procs i))) j (ground arith) (omega arith)
      ∙ ap (wake c) (update_ne procs i (wake c (procs i)) j (ground arith))
]

-- `wakeup1` makes exactly the sleepers on the channel runnable, and changes nothing else.
pub wakeup1-at :
    (c : Chan) (procs : Procs) (j : ℕ) → j < nproc → wakeup1 c procs j ≡ wake c (procs j)
unfolding wakeup1
wakeup1-at c procs j h = wakeup_from-at nproc 0 c procs j (omega arith) (omega arith)
