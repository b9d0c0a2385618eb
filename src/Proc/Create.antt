-- ===== src/Proc/Create.antt =====
-- `fork`, `wait`, `kill` and the scheduler keep the family invariant.
use cs.Prelude.{
  ℕ, ◌<◌, ◌≡◌, ◌≢◌, inl, inr, refl, sym, ◌∙◌, ap, subst, true, false, not, ◌&&◌, ◌||◌, ◌==◌, Option,
  some, none, arith, update, update_self, update_ne, Bool-cases,
}
use mathlib.Core.Bool.{false≢true}
use mathlib.Core.Option.{some-injective}
use cs.Proc.{
  Procs, Proc, Ptable, on_proc, State, unused, embryo, sleeping, runnable, running, zombie, nproc,
  is_unused, is_zombie, is_child, find_unused, alloc_in, fork_in, wait_in, allocproc, fork,
  fall_asleep, wait, find_zombie, has_child, reap,
}
use cs.Proc.Loops.{find_unused_lem, find_zombie_lem, find_zombie-none}
use cs.Proc.Family.{is_alive, waits, Family}

live :
    (t : Ptable) (i : ℕ) (p : Proc)
    → is_alive (t.procs i).state ≡ false
    → (q : ℕ) → is_alive (t.procs q).state ≡ true
    → is_alive (update t.procs i p q).state ≡ true
live t i p dead q a = elim (Bool-cases (i == q)) [
  | inl here ↦
      let same : i ≡ q = ground arith in
      absurd (false≢true (sym dead ∙ subst (λ x. is_alive (t.procs x).state ≡ true) (sym same) a))
  | inr there ↦ rw there a
]

-- A slot that holds no live process gets a new process, or is emptied.
pub slot-Family :
    (t : Ptable) (i : ℕ) (p : Proc) (n : ℕ)
    → Family t
    → i < nproc
    → is_alive (t.procs i).state ≡ false
    → is_zombie p.state ≡ false
    → waits p i ≡ false
    → ((q : ℕ) → p.parent ≡ some q → (q < nproc) × (is_alive (t.procs q).state ≡ true))
    → Family (record t { procs = update t.procs i p; nextpid = n })
slot-Family t i p n f hi dead nz nw par = record {
  init_in = f.init_in;
  init_alive = live t i p dead t.initproc f.init_alive;
  init_root =
      ap (λ (x : Proc). x.parent)
        (update_ne t.procs i p t.initproc (not_dead t.initproc f.init_alive))
      ∙ f.init_root;
  others = λ j hj e. elim (Bool-cases (i == j)) [
    | inl here ↦ let same : i ≡ j = ground arith in not_dead j (par j (sym (rw here) ∙ e)).1 same
    | inr there ↦ f.others j hj (sym (rw there) ∙ e)
  ];
  parents = λ j q hj e. elim (Bool-cases (i == j)) [
    | inl here ↦ let (hq, a) = par q (sym (rw here) ∙ e) in (hq, live t i p dead q a)
    | inr there ↦ let (hq, a) = f.parents j q hj (sym (rw there) ∙ e) in (hq, live t i p dead q a)
  ];
  waiting = λ q j hq hj w e. elim (Bool-cases (i == j)) [
    | inl here ↦ rw here nz
    | inr there ↦ rw there (f.waiting q j hq hj (waits_old q w) (sym (rw there) ∙ e))
  ];
}
  where
    not_dead : (q : ℕ) → is_alive (t.procs q).state ≡ true → i ≢ q
    not_dead q a same =
        false≢true (sym dead ∙ subst (λ x. is_alive (t.procs x).state ≡ true) (sym same) a)

    waits_old : (q : ℕ) → waits (update t.procs i p q) q ≡ true → waits (t.procs q) q ≡ true
    waits_old q w = elim (Bool-cases (i == q)) [
      | inl here ↦
          let same : i ≡ q = ground arith in
          absurd (false≢true (sym (subst (λ x. waits p x ≡ false) same nw) ∙ sym (rw here) ∙ w))
      | inr there ↦ sym (rw there) ∙ w
    ]

dead_of_unused : (s : State) → is_unused s ≡ true → is_alive s ≡ false
dead_of_unused unused h = refl
dead_of_unused embryo h = cc
dead_of_unused sleeping h = cc
dead_of_unused runnable h = cc
dead_of_unused running h = cc
dead_of_unused zombie h = cc

record Allocated (t : Ptable) (r : Ptable × Option ℕ) : Type 0 where
  family : Family r.0
  live : (q : ℕ) → is_alive (t.procs q).state ≡ true → is_alive (r.0.procs q).state ≡ true
  slot : (i : ℕ) → r.1 ≡ some i → (i < nproc) × ((r.0.procs i).state ≡ embryo)

alloc_in-Allocated :
    (t : Ptable) (stack : ℕ) (o : Option ℕ)
    → Family t
    → ((i : ℕ) → o ≡ some i → (i < nproc) × (is_unused (t.procs i).state ≡ true))
    → Allocated t (alloc_in stack t o)
unfolding alloc_in
alloc_in-Allocated t stack none f ok = record { family = f; live = λ q a. a; slot = λ i e. cc }
alloc_in-Allocated t stack (some i) f ok = elim (Bool-cases (stack == 0)) [
  | inl failed ↦ rw failed (record {
    family = slot-Family t i _ _ f hi dead refl refl (λ q e. f.parents i q hi e);
    live = live t i _ dead;
    slot = λ j e. cc;
  })
  | inr got ↦ rw got (record {
    family = slot-Family t i _ _ f hi dead refl refl (λ q e. f.parents i q hi e);
    live = live t i _ dead;
    slot = λ j e.
        let same : i ≡ j = some-injective _ _ e in
        (
          subst (λ x. x < nproc) same hi,
          subst
              (λ x.
                (update t.procs i
                  (record (t.procs i) { state = embryo; pid = t.nextpid; kstack = stack }) x).state
                ≡ embryo)
              same (ap (λ (p : Proc). p.state) (update_self t.procs i _)),
        );
  })
]
  where
    hi : i < nproc
    hi = (ok i refl).0

    dead : is_alive (t.procs i).state ≡ false
    dead = dead_of_unused _ (ok i refl).1

fork_in-Family :
    (t : Ptable) (dir size cur : ℕ) (o : Option ℕ)
    → Family t
    → cur < nproc
    → is_alive (t.procs cur).state ≡ true
    → ((i : ℕ) → o ≡ some i → (i < nproc) × ((t.procs i).state ≡ embryo))
    → Family (fork_in dir size cur t o).0
unfolding fork_in
fork_in-Family t dir size cur none f hc a ok = f
fork_in-Family t dir size cur (some i) f hc a ok = elim (Bool-cases (dir == 0)) [
  | inl failed ↦
      rw failed (slot-Family t i _ t.nextpid f hi dead refl refl (λ q e. f.parents i q hi e))
  | inr got ↦ rw got (
      slot-Family t i _ t.nextpid f hi dead refl refl (λ q e.
        subst (λ x. (x < nproc) × (is_alive (t.procs x).state ≡ true)) (some-injective _ _ e)
          (hc, a)))
]
  where
    hi : i < nproc
    hi = (ok i refl).0

    dead : is_alive (t.procs i).state ≡ false
    dead = rw (ok i refl).1

-- Where a live process forks, every parent is still alive and no parent waits beside a zombie
-- child, whether or not the fork succeeds.
pub fork-Family :
    (t : Ptable) (stack dir cur : ℕ)
    → Family t
    → cur < nproc
    → is_alive (t.procs cur).state ≡ true
    → Family (fork stack dir cur t).0
unfolding fork allocproc
fork-Family t stack dir cur f hc a =
    fork_in-Family _ dir (t.procs cur).sz cur _ r.family hc (r.live cur a) r.slot
  where
    r : Allocated t (allocproc stack t)
    r =
        alloc_in-Allocated t stack (find_unused nproc 0 t.procs) f
          (λ i e. let (lo, hi, u) = find_unused_lem nproc 0 t.procs e in (hi, u))

dead_of_zombie : (s : State) → is_zombie s ≡ true → is_alive s ≡ false
dead_of_zombie zombie h = refl
dead_of_zombie unused h = cc
dead_of_zombie embryo h = cc
dead_of_zombie sleeping h = cc
dead_of_zombie runnable h = cc
dead_of_zombie running h = cc

-- The parent falls asleep in `wait` where no child is a zombie.
asleep-Family :
    (t : Ptable) (cur : ℕ)
    → Family t
    → is_alive (t.procs cur).state ≡ true
    → ((j : ℕ) → j < nproc → is_child (t.procs j) cur && is_zombie (t.procs j).state ≡ false)
    → Family (record t { procs = fall_asleep (on_proc cur) cur t.procs })
unfolding fall_asleep
asleep-Family t cur f a quiet = record {
  init_in = f.init_in;
  init_alive = stays t.initproc f.init_alive;
  init_root = parent_same t.initproc ∙ f.init_root;
  others = λ i hi e. f.others i hi (sym (parent_same i) ∙ e);
  parents = λ i q hi e. let (hq, b) = f.parents i q hi (sym (parent_same i) ∙ e) in (hq, stays q b);
  waiting = λ q i hq hi w e. elim (Bool-cases (cur == i)) [
    | inl me ↦ rw me
    | inr other ↦ rw other (elim (Bool-cases (cur == q)) [
      | inl mine ↦ childless q i hi (ground arith) (sym (parent_same i) ∙ e)
      | inr its ↦ f.waiting q i hq hi (sym (rw its) ∙ w) (sym (parent_same i) ∙ e)
    ])
  ];
}
  where
    slept : Proc
    slept = record (t.procs cur) { chan = on_proc cur; state = sleeping }

    stays :
        (q : ℕ)
        → is_alive (t.procs q).state ≡ true
        → is_alive (update t.procs cur slept q).state ≡ true
    stays q b = elim (Bool-cases (cur == q)) [ inl me ↦ rw me | inr other ↦ rw other b ]

    parent_same : (i : ℕ) → (update t.procs cur slept i).parent ≡ (t.procs i).parent
    parent_same i = elim (Bool-cases (cur == i)) [
      | inl me ↦ let same : cur ≡ i = ground arith in rw me (ap (λ x. (t.procs x).parent) same)
      | inr other ↦ rw other
    ]

    childless :
        (q i : ℕ)
        → i < nproc
        → cur ≡ q
        → (t.procs i).parent ≡ some q
        → is_zombie (t.procs i).state ≡ false
    childless q i hi same e = ground (arith, quiet i hi)

wait_in-Family :
    (t : Ptable) (cur : ℕ) (o : Option ℕ)
    → Family t
    → is_alive (t.procs cur).state ≡ true
    → ((i : ℕ) → o ≡ some i → (i < nproc) × (is_zombie (t.procs i).state ≡ true))
    → (o ≡ none
        → (j : ℕ) → j < nproc
        → is_child (t.procs j) cur && is_zombie (t.procs j).state ≡ false)
    → Family (record t { procs = (wait_in cur t.procs o).0 })
unfolding wait_in
wait_in-Family t cur none f a found quiet =
    elim (Bool-cases (not (has_child nproc 0 cur t.procs) || (t.procs cur).killed)) [
      | inl gives_up ↦ rw gives_up f
      | inr waits_on ↦ rw waits_on (asleep-Family t cur f a (quiet refl))
    ]
wait_in-Family t cur (some i) f a found quiet =
    slot-Family t i (reap (t.procs i)) t.nextpid f (found i refl).0
      (dead_of_zombie _ (found i refl).1) refl refl (λ q e. cc)

wait_as_wait_in :
    (cur : ℕ) (procs : Procs) → wait cur procs ≡ wait_in cur procs (find_zombie nproc 0 cur procs)
unfolding wait
wait_as_wait_in cur procs = refl

-- `wait` of a live process, whichever way it ends: it reaps a child, gives up, or sleeps.
pub wait-Family :
    (t : Ptable) (cur : ℕ)
    → Family t
    → is_alive (t.procs cur).state ≡ true
    → Family (record t { procs = (wait cur t.procs).0 })
wait-Family t cur f a = rw (wait_as_wait_in cur t.procs) (
    wait_in-Family t cur (find_zombie nproc 0 cur t.procs) f a
      (λ i e. let (lo, hi, child, dead) = find_zombie_lem nproc 0 cur t.procs e in (hi, dead))
      (λ e j hj. find_zombie-none nproc 0 cur t.procs j e (omega arith) (omega arith)))
