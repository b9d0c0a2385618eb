-- ===== src/Locks/System.antt =====
-- Spin locks under every interleaving of the CPUs.
use cs.Prelude.{
  ℕ, ◌+◌, ◌-◌, ◌<◌, ◌≡◌, sym, ◌∙◌, ap, subst, ◌==◌, Bool, true, false, Bool-cases, inl, inr, some,
  none, update, ==_iff,
}
use mathlib.Core.Option.{some-injective, none-ne-some}
use cs.Locks.{
  Cpu, Spinlock, pushcli, popcli, holding, start_acquire, xchg, name_cpu, start_release, unlock,
}
use cs.Locks.Owners.{
  Stage, away, spins, takes, holds, clears, Owned, same_side-Owned, xchg-Owned, name_cpu-Owned,
  release-Owned, unlock-Owned, holding_iff,
}

-- `stage l c` is how far the CPU `c` is with the lock `l`; `left c` counts the other calls of
-- pushcli that `c` is to match by popcli.
pub record System : Type 0 where
  pub cpu : ℕ → Cpu
  pub lock : ℕ → Spinlock
  pub stage : ℕ → ℕ → Stage
  pub left : ℕ → ℕ

abbrev pub set_stage : ℕ → ℕ → Stage → (ℕ → ℕ → Stage) → ℕ → ℕ → Stage
set_stage l c v stage = update stage l (update (stage l) c v)

abbrev pub boot : System
boot = record {
  cpu = λ c. record { flag = false; ncli = 0; intena = false };
  lock = λ l. record { locked = false; cpu = none };
  stage = λ l c. away;
  left = λ c. 0;
}

-- The kernel has the locks below `nlocks`.
module _ (nlocks : ℕ) where
  -- `flips` is what else changes the interrupt flag, outside critical sections; `switches` what
  -- `sched` does to `intena` while it holds one lock.
  pub data Step (s : System) : System → Type 0 where
    flips :
        (c : ℕ) (b : Bool)
        → (s.cpu c).ncli ≡ 0
        → Step s (record s { cpu = update s.cpu c (record (s.cpu c) { flag = b }) })
    switches :
        (c : ℕ) (b : Bool)
        → (s.cpu c).ncli ≡ 1
        → Step s (record s { cpu = update s.cpu c (record (s.cpu c) { intena = b }) })
    calls_pushcli :
        (c : ℕ)
        → Step s (record s {
          cpu = update s.cpu c (pushcli (s.cpu c));
          left = update s.left c (s.left c + 1);
        })
    calls_popcli :
        (c : ℕ) {k : Cpu}
        → 0 < s.left c
        → popcli (s.cpu c) ≡ some k
        → Step s (record s { cpu = update s.cpu c k; left = update s.left c (s.left c - 1) })
    starts :
        (c l : ℕ) {k : Cpu}
        → l < nlocks
        → s.stage l c ≡ away
        → start_acquire c (s.lock l) (s.cpu c) ≡ some k
        → Step s (record s { cpu = update s.cpu c k; stage = set_stage l c spins s.stage })
    wins :
        (c l : ℕ)
        → l < nlocks
        → s.stage l c ≡ spins
        → (xchg (s.lock l)).1 ≡ false
        → Step s (record s {
          lock = update s.lock l (xchg (s.lock l)).0;
          stage = set_stage l c takes s.stage;
        })
    loses :
        (c l : ℕ)
        → l < nlocks
        → s.stage l c ≡ spins
        → (xchg (s.lock l)).1 ≡ true
        → Step s (record s { lock = update s.lock l (xchg (s.lock l)).0 })
    names :
        (c l : ℕ)
        → l < nlocks
        → s.stage l c ≡ takes
        → Step s (record s {
          lock = update s.lock l (name_cpu c (s.lock l));
          stage = set_stage l c holds s.stage;
        })
    releases :
        (c l : ℕ) {lk : Spinlock}
        → l < nlocks
        → start_release c (s.lock l) ≡ some lk
        → Step s (record s { lock = update s.lock l lk; stage = set_stage l c clears s.stage })
    unlocks :
        (c l : ℕ)
        → l < nlocks
        → s.stage l c ≡ clears
        → Step s (record s {
          lock = update s.lock l (unlock (s.lock l));
          stage = set_stage l c away s.stage;
          left = update s.left c (s.left c + 1);
        })

  pub data Reach : System → Type 0 where
    start : {s : System} → s ≡ boot → Reach s
    after : {s t : System} → Reach s → Step s t → Reach t

-- Each lock on its own.
abbrev pub AllOwned : System → Type 0
AllOwned s = (l : ℕ) → Owned (s.lock l) (s.stage l)

-- A change of one lock.
one_lock :
    (s : System) (l : ℕ) (lk : Spinlock) (stage : ℕ → Stage)
    → AllOwned s
    → Owned lk stage
    → (m : ℕ) → Owned (update s.lock l lk m) (update s.stage l stage m)
one_lock s l lk stage o new m = elim (Bool-cases (l == m)) [
  | inl here ↦ rw here new
  | inr there ↦ rw there (o m)
]

same_lock :
    (s : System) (l : ℕ) (stage : ℕ → Stage)
    → AllOwned s
    → Owned (s.lock l) stage
    → (m : ℕ) → Owned (s.lock m) (update s.stage l stage m)
same_lock s l stage o new m = elim (Bool-cases (l == m)) [
  | inl here ↦ rw here (subst (λ q. Owned (s.lock q) stage) ((==_iff l m).0 here) new)
  | inr there ↦ rw there (o m)
]

unchanged_lock :
    (s : System) (l : ℕ) (lk : Spinlock)
    → AllOwned s
    → lk ≡ s.lock l
    → (m : ℕ) → Owned (update s.lock l lk m) (s.stage m)
unchanged_lock s l lk o e m = elim (Bool-cases (l == m)) [
  | inl here ↦
      rw here
        (subst (λ k. Owned k (s.stage m)) (ap s.lock (sym ((==_iff l m).0 here)) ∙ sym e) (o m))
  | inr there ↦ rw there (o m)
]

pub release-cases :
    (c : ℕ) (lk : Spinlock) (q : Spinlock)
    → start_release c lk ≡ some q
    → (holding c lk ≡ true) × (record lk { cpu = none } ≡ q)
unfolding start_release
release-cases c lk q e = elim (Bool-cases (holding c lk)) [
  | inl h ↦ (h, some-injective _ _ (rw h at e))
  | inr h ↦ absurd (none-ne-some _ (rw h at e))
]

pub Step-Owned : {n : ℕ} {s t : System} → Step n s t → AllOwned s → AllOwned t
unfolding xchg
Step-Owned (flips c b z) o = o
Step-Owned (switches c b z) o = o
Step-Owned (calls_pushcli c) o = o
Step-Owned (calls_popcli c h e) o = o
Step-Owned {n} {s} (starts c l h a e) o =
    same_lock s l (update (s.stage l) c spins) o
      (same_side-Owned (s.lock l) (s.stage l) c spins (λ p. cc) (λ p. cc) (λ p. cc) (o l))
Step-Owned {n} {s} (wins c l h a free) o =
    one_lock s l (xchg (s.lock l)).0 (update (s.stage l) c takes) o
      (xchg-Owned (s.lock l) (s.stage l) c free (o l))
Step-Owned {n} {s} (loses c l h a busy) o =
    unchanged_lock s l (xchg (s.lock l)).0 o (ap (λ b. record (s.lock l) { locked = b }) (sym busy))
Step-Owned {n} {s} (names c l h a) o =
    one_lock s l (name_cpu c (s.lock l)) (update (s.stage l) c holds) o
      (name_cpu-Owned (s.lock l) (s.stage l) c a (o l))
Step-Owned {n} {s} (releases c l {lk} h e) o =
    let (h, q) = release-cases c (s.lock l) lk e in
    one_lock s l lk (update (s.stage l) c clears) o (
      subst (λ k. Owned k (update (s.stage l) c clears)) q
        (release-Owned (s.lock l) (s.stage l) c ((holding_iff (s.lock l) (s.stage l) c (o l)).1 h)
          (o l)))
Step-Owned {n} {s} (unlocks c l h a) o =
    one_lock s l (unlock (s.lock l)) (update (s.stage l) c away) o
      (unlock-Owned (s.lock l) (s.stage l) c a (o l))
