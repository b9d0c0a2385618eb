-- ===== src/Proc/Exit.antt =====
-- `exit` keeps the family invariant: children pass to init, and whoever must know is woken.
use cs.Prelude.{
  ℕ, ◌<◌, ◌≡◌, ◌≢◌, ◌⊎◌, inl, inr, sym, ◌∙◌, ap, subst, true, false, ◌==◌, Option, some, none,
  arith, update, update_self, update_ne, Bool-cases,
}
use mathlib.Core.Bool.{false≢true}
use mathlib.Core.Option.{some-injective}
use cs.Proc.{
  Procs, Proc, Ptable, nothing, on_proc, zombie, nproc, wake, wakeup1, is_zombie, is_child,
  adopt_from, parent_chan, exit,
}
use cs.Proc.Loops.{wakeup1-at}
use cs.Proc.Family.{is_alive, waits, Family, Kept-Family, wakeup1-Kept}
use cs.Proc.Adopt.{Rounds, adopt_from-Rounds, not_waits, woken}

-- The table when `cur` has exited, from the table `a` after the adoptions.
abbrev exited : ℕ → ℕ → Procs → Procs
exited status cur a = update a cur (record (a cur) { exitstat = status; state = zombie })

-- Whoever waits for `cur` has been woken before.
abbrev Told : ℕ → Procs → Type 0
Told cur b = (q : ℕ) → q < nproc → (b cur).parent ≡ some q → waits (b q) q ≡ false

module _ (t : Ptable) (status cur : ℕ) (a : Procs) (f : Family t) (hc : cur < nproc)
    (ne : t.initproc ≢ cur) (told : Told cur t.procs)
    (r : Rounds cur t.initproc 0 nproc t.procs a) where
  out : (j : ℕ) → cur ≢ j → exited status cur a j ≡ a j
  out j h = update_ne a cur _ j h

  parent_same : (j : ℕ) → (exited status cur a j).parent ≡ (a j).parent
  parent_same j = elim (Bool-cases (cur == j)) [
    | inl me ↦ let same : cur ≡ j = ground arith in rw me (ap (λ x. (a x).parent) same)
    | inr other ↦ rw other
  ]

  not_child : (j : ℕ) → j < nproc → (a j).parent ≢ some cur
  not_child j hj e = child_of j (r.childless j (omega arith) (omega arith)) e
    where
      child_of : (j : ℕ) → is_child (a j) cur ≡ false → (a j).parent ≡ some cur → ⊥
      child_of j h e = ground arith

  -- A parent after the adoptions is the parent before, or init.
  parent_before :
      (j q : ℕ)
      → j < nproc
      → (a j).parent ≡ some q
      → ((t.procs j).parent ≡ some q) ⊎ ((is_child (t.procs j) cur ≡ true) × (t.initproc ≡ q))
  parent_before j q hj e = elim (r.turned j hj).parent [
    | inl same ↦ inl (sym same ∙ e)
    | inr (child, new) ↦ inr (child, some-injective _ _ (sym new ∙ e))
  ]

  live_after :
      (q : ℕ)
      → q < nproc
      → cur ≢ q
      → is_alive (t.procs q).state ≡ true
      → is_alive (exited status cur a q).state ≡ true
  live_after q hq h l = ap (λ (p : Proc). is_alive p.state) (out q h) ∙ (r.turned q hq).alive l

  parents_after :
      (i q : ℕ)
      → i < nproc
      → (exited status cur a i).parent ≡ some q
      → (q < nproc) × (is_alive (exited status cur a q).state ≡ true)
  parents_after i q hi e =
      let e' : (a i).parent ≡ some q = sym (parent_same i) ∙ e in
      let other : cur ≢ q = λ same. not_child i hi (e' ∙ ap some (sym same)) in
      elim (parent_before i q hi e') [
        | inl old ↦ let (hq, l) = f.parents i q hi old in (hq, live_after q hq other l)
        | inr (child, new) ↦ (
          subst (λ x. x < nproc) new f.init_in,
          live_after q (subst (λ x. x < nproc) new f.init_in) other
              (subst (λ x. is_alive (t.procs x).state ≡ true) new f.init_alive),
        )
      ]

  -- Nobody waits for `cur`: its parent was woken, and still is awake.
  none_waits_for_cur : (q : ℕ) → q < nproc → (a cur).parent ≡ some q → waits (a q) q ≡ false
  none_waits_for_cur q hq e = elim (parent_before cur q hc e) [
    | inl old ↦ not_waits cur t.initproc q _ _ (r.turned q hq) (told q hq old)
    | inr (child, new) ↦ absurd (self child)
  ]
    where
      self : is_child (t.procs cur) cur ≡ true → ⊥
      self c = f.others cur hc (ground arith)

  waiting_after :
      (q i : ℕ)
      → q < nproc
      → i < nproc
      → waits (a q) q ≡ true
      → (a i).parent ≡ some q
      → is_zombie (a i).state ≡ false
  waiting_after q i hq hi w e = elim (parent_before i q hi e) [
    | inl old ↦ (r.turned i hi).zombies ∙ f.waiting q i hq hi ((r.turned q hq).waits_still w) old
    | inr (child, new) ↦ elim (Bool-cases (is_zombie (t.procs i).state)) [
      | inr live ↦ (r.turned i hi).zombies ∙ live
      | inl dead ↦ absurd (
          false≢true (
            sym (
              subst (λ x. waits (a x) x ≡ false) new
                (r.told i (omega arith) (omega arith) child dead))
            ∙ w))
    ]
  ]

  waiting_for_cur :
      (q i : ℕ) → q < nproc → cur ≡ i → waits (a q) q ≡ true → (a i).parent ≡ some q → ⊥
  waiting_for_cur q i hq same w e =
      false≢true
        (sym (none_waits_for_cur q hq (subst (λ x. (a x).parent ≡ some q) (sym same) e)) ∙ w)

  init_no_child : is_child (t.procs t.initproc) cur ≡ true → ⊥
  init_no_child c = ground (arith, f.init_root)

  root : (a t.initproc).parent ≡ none
  root = elim (r.turned t.initproc f.init_in).parent [
    | inl same ↦ same ∙ f.init_root
    | inr (child, new) ↦ absurd (init_no_child child)
  ]

  not_self : (i : ℕ) → i < nproc → (a i).parent ≢ some i
  not_self i hi e = elim (parent_before i i hi e) [
    | inl old ↦ f.others i hi old
    | inr (child, new) ↦
        init_no_child (subst (λ x. is_child (t.procs x) cur ≡ true) (sym new) child)
  ]

  pub exited-Family : Family (record t { procs = exited status cur a })
  exited-Family = record {
    init_in = f.init_in;
    init_alive = live_after t.initproc f.init_in (λ e. ne (sym e)) f.init_alive;
    init_root = parent_same t.initproc ∙ root;
    others = λ i hi e. not_self i hi (sym (parent_same i) ∙ e);
    parents = parents_after;
    waiting = λ q i hq hi w e. elim (Bool-cases (cur == q)) [
      | inl me ↦ absurd (false≢true (rw me at w))
      | inr other ↦ elim (Bool-cases (cur == i)) [
        | inl mine ↦
            absurd
              (waiting_for_cur q i hq (ground arith) (sym (rw other) ∙ w) (sym (parent_same i) ∙ e))
        | inr its ↦ rw its (waiting_after q i hq hi (sym (rw other) ∙ w) (sym (parent_same i) ∙ e))
      ]
    ];
  }

parent-Told :
    (cur : ℕ) (procs : Procs) → cur < nproc → Told cur (wakeup1 (parent_chan (procs cur)) procs)
parent-Told cur procs hc q hq e =
    ap (λ (p : Proc). waits p q) (wakeup1-at (parent_chan (procs cur)) procs q hq)
    ∙ ap (λ c. waits (wake c (procs q)) q) chan_is
    ∙ woken q (procs q)
  where
    same : (procs cur).parent ≡ some q
    same = sym (wakeup1-Kept (parent_chan (procs cur)) procs cur hc).parent ∙ e

    chan_is : parent_chan (procs cur) ≡ on_proc q
    chan_is = ap (λ (o : Option ℕ). elim o [ none ↦ nothing | some r ↦ on_proc r ]) same

-- `exit` of a process other than init: its children pass to init, every parent is still alive, and
-- no parent waits beside a zombie child, although the process is now a zombie.
pub exit-Family :
    (t : Ptable) (status cur : ℕ) {t' : Ptable}
    → Family t
    → cur < nproc
    → exit status cur t ≡ some t'
    → Family t' × (is_zombie (t'.procs cur).state ≡ true) × (cur ≢ t.initproc)
unfolding exit
exit-Family t status cur {t'} f hc e = elim (Bool-cases (cur == t.initproc)) [
  | inl init ↦ absurd (none≢some (sym (rw init) ∙ e))
  | inr other ↦
      let ne : t.initproc ≢ cur = ground arith in
      subst (λ x. Family x × (is_zombie (x.procs cur).state ≡ true) × (cur ≢ t.initproc))
        (some-injective _ _ (sym (rw other) ∙ e))
        (
          exited-Family woken_table status cur (adopt_from nproc 0 cur t.initproc woken_table.procs)
              woken_Family hc ne (parent-Told cur t.procs hc)
              (adopt_from-Rounds nproc cur t.initproc 0 woken_table.procs ne f.init_in
                (omega arith)),
          ap (λ (p : Proc). is_zombie p.state)
              (update_self (adopt_from nproc 0 cur t.initproc woken_table.procs) cur _),
          λ h. ne (sym h),
        )
]
  where
    none≢some : {x : Ptable} → none ≡ some x → ⊥
    none≢some h = cc

    woken_table : Ptable
    woken_table = record t { procs = wakeup1 (parent_chan (t.procs cur)) t.procs }

    woken_Family : Family woken_table
    woken_Family =
        Kept-Family t woken_table.procs (wakeup1-Kept (parent_chan (t.procs cur)) t.procs) f
