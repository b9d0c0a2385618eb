-- ===== src/Locks/Owners.antt =====
-- What the steps of acquire and release keep of one lock.
use cs.Prelude.{
  ℕ, ◌≡◌, ◌≢◌, refl, sym, ◌∙◌, ap, subst, ◌==◌, Bool, true, false, Bool-cases, inl, inr, Option,
  some, none, arith, update, update_self, update_ne, ==_iff,
}
use mathlib.Core.Option.{some-injective, none-ne-some}
use cs.Locks.{Spinlock, holding, is_cpu, name_cpu, unlock, xchg}

-- How far a CPU is with a lock: it waits in the loop of `acquire`, has done the xchg, holds the lock,
-- or has yet to do the store of `release`.
pub data Stage : Type 0 where
  away : Stage
  spins : Stage
  takes : Stage
  holds : Stage
  clears : Stage

-- It is between the xchg and the store.
abbrev pub inside : Stage → Bool
inside away = false
inside spins = false
inside takes = true
inside holds = true
inside clears = true

-- No two CPUs are inside, `locked` is set if one is, and `cpu` names the one that holds the lock.
pub record Owned (lk : Spinlock) (stage : ℕ → Stage) : Type 0 where
  pub one : (c d : ℕ) → inside (stage c) ≡ true → inside (stage d) ≡ true → c ≡ d
  pub taken : (c : ℕ) → inside (stage c) ≡ true → lk.locked ≡ true
  pub named : (c : ℕ) → stage c ≡ holds → lk.cpu ≡ some c
  pub only : (c : ℕ) → lk.cpu ≡ some c → stage c ≡ holds

module _ (stage : ℕ → Stage) (c : ℕ) (v : Stage) where
  -- A property of the new stage of each CPU, from that of `c` and those of the others.
  changed :
      (P : ℕ → Stage → Type 0)
      → P c v
      → ((d : ℕ) → c ≢ d → P d (stage d))
      → (d : ℕ) → P d (update stage c v d)
  changed P here there d = elim (Bool-cases (c == d)) [
    | inl same ↦
        let e : c ≡ d = (==_iff c d).0 same in
        subst (λ q. P q (update stage c v q)) e (subst (P c) (sym (update_self stage c v)) here)
    | inr other ↦
        let ne : c ≢ d = λ q. ground (arith, ==_iff c d) in
        subst (P d) (sym (update_ne stage c v d ne)) (there d ne)
  ]

-- A change of stage by a CPU that stays inside or outside and neither gets nor gives up the lock.
pub same_side-Owned :
    (lk : Spinlock) (stage : ℕ → Stage) (c : ℕ) (v : Stage)
    → (inside v ≡ true → inside (stage c) ≡ true)
    → v ≢ holds
    → stage c ≢ holds
    → Owned lk stage
    → Owned lk (update stage c v)
same_side-Owned lk stage c v side new old o = record {
  one = λ d e p q. o.one d e (back d p) (back e q);
  taken = λ d p. o.taken d (back d p);
  named =
      changed stage c v (λ d w. w ≡ holds → lk.cpu ≡ some d) (λ e. absurd (new e))
        (λ d ne. o.named d);
  only =
      changed stage c v (λ d w. lk.cpu ≡ some d → w ≡ holds) (λ e. absurd (old (o.only c e)))
        (λ d ne. o.only d);
}
  where
    back : (d : ℕ) → inside (update stage c v d) ≡ true → inside (stage d) ≡ true
    back = changed stage c v (λ d w. inside w ≡ true → inside (stage d) ≡ true) side (λ d ne p. p)

-- The xchg that finds the lock free.
pub xchg-Owned :
    (lk : Spinlock) (stage : ℕ → Stage) (c : ℕ)
    → (xchg lk).1 ≡ false
    → Owned lk stage
    → Owned (xchg lk).0 (update stage c takes)
unfolding xchg
xchg-Owned lk stage c free o = record {
  one = λ d e p q. me d p ∙ sym (me e q);
  taken = λ d p. refl;
  named = changed stage c takes (λ d w. w ≡ holds → lk.cpu ≡ some d) (λ e. cc) (λ d ne. o.named d);
  only =
      changed stage c takes (λ d w. lk.cpu ≡ some d → w ≡ holds)
        (λ e. absurd (no_one c (ap inside (o.only c e)))) (λ d ne. o.only d);
}
  where
    no_one : (d : ℕ) → inside (stage d) ≢ true
    no_one d p = true_not_false (sym (o.taken d p) ∙ free)
      where
        true_not_false : true ≢ false
        true_not_false e = cc

    me : (d : ℕ) → inside (update stage c takes d) ≡ true → d ≡ c
    me =
        changed stage c takes (λ d w. inside w ≡ true → d ≡ c) (λ p. refl)
          (λ d ne p. absurd (no_one d p))

-- The write of `lk->cpu`, after the xchg.
pub name_cpu-Owned :
    (lk : Spinlock) (stage : ℕ → Stage) (c : ℕ)
    → stage c ≡ takes
    → Owned lk stage
    → Owned (name_cpu c lk) (update stage c holds)
name_cpu-Owned lk stage c h o = record {
  one = λ d e p q. o.one d e (back d p) (back e q);
  taken = λ d p. o.taken d (back d p);
  named =
      changed stage c holds (λ d w. w ≡ holds → some c ≡ some d) (λ e. refl)
        (λ d ne e. absurd (ne (o.one c d (ap inside h) (ap inside e))));
  only =
      changed stage c holds (λ d w. some c ≡ some d → w ≡ holds) (λ e. refl)
        (λ d ne e. absurd (ne (some-injective c d e)));
}
  where
    back : (d : ℕ) → inside (update stage c holds d) ≡ true → inside (stage d) ≡ true
    back =
        changed stage c holds (λ d w. inside w ≡ true → inside (stage d) ≡ true) (λ p. ap inside h)
          (λ d ne p. p)

-- `release` by the CPU that holds the lock, up to the store.
pub release-Owned :
    (lk : Spinlock) (stage : ℕ → Stage) (c : ℕ)
    → stage c ≡ holds
    → Owned lk stage
    → Owned (record lk { cpu = none }) (update stage c clears)
release-Owned lk stage c h o = record {
  one = λ d e p q. o.one d e (back d p) (back e q);
  taken = λ d p. o.taken d (back d p);
  named =
      changed stage c clears (λ d w. w ≡ holds → none ≡ some d) (λ e. cc)
        (λ d ne e. absurd (ne (o.one c d (ap inside h) (ap inside e))));
  only = λ d e. absurd (none-ne-some d e);
}
  where
    back : (d : ℕ) → inside (update stage c clears d) ≡ true → inside (stage d) ≡ true
    back =
        changed stage c clears (λ d w. inside w ≡ true → inside (stage d) ≡ true) (λ p. ap inside h)
          (λ d ne p. p)

-- The store.
pub unlock-Owned :
    (lk : Spinlock) (stage : ℕ → Stage) (c : ℕ)
    → stage c ≡ clears
    → Owned lk stage
    → Owned (unlock lk) (update stage c away)
unlock-Owned lk stage c h o = record {
  one = λ d e p q. absurd (no_one d p);
  taken = λ d p. absurd (no_one d p);
  named = changed stage c away (λ d w. w ≡ holds → lk.cpu ≡ some d) (λ e. cc) (λ d ne. o.named d);
  only =
      changed stage c away (λ d w. lk.cpu ≡ some d → w ≡ holds)
        (λ e. absurd (clears_not_holds (sym h ∙ o.only c e))) (λ d ne. o.only d);
}
  where
    clears_not_holds : clears ≢ holds
    clears_not_holds e = cc

    no_one : (d : ℕ) → inside (update stage c away d) ≢ true
    no_one =
        changed stage c away (λ d w. inside w ≢ true) (λ p. cc)
          (λ d ne p. ne (o.one c d (ap inside h) p))

-- Whether `holding` says yes.
pub holding_iff :
    (lk : Spinlock) (stage : ℕ → Stage) (c : ℕ)
    → Owned lk stage
    → (stage c ≡ holds → holding c lk ≡ true) × (holding c lk ≡ true → stage c ≡ holds)
unfolding holding
holding_iff lk stage c o =
    (λ h. rw (o.taken c (ap inside h), o.named c h) ((==_iff c c).1 refl), from_holding)
  where
    named_cpu : (p : Option ℕ) → is_cpu c p ≡ true → p ≡ some c
    named_cpu none e = cc
    named_cpu (some d) e = ap some (sym ((==_iff c d).0 e))

    from_holding : holding c lk ≡ true → stage c ≡ holds
    from_holding e = elim (Bool-cases lk.locked) [
      | inl l ↦ o.only c (named_cpu lk.cpu (rw (l, holding) at e))
      | inr l ↦ cc
    ]
