-- ===== src/Locks/Safety.antt =====
-- What holds of the locks and the CPUs however they interleave.
use cs.Prelude.{
  total, total-same, total-update, le-total, ℕ, zero, suc, ◌+◌, ◌-◌, ◌<◌, ◌≤◌, ◌≡◌, ◌≢◌, refl, sym,
  ◌∙◌, ap, subst, ◌==◌, if◌then◌else◌, true, false, Bool-cases, inl, inr, some, none, arith, update,
  update_self, update_ne, ==_iff,
}
use mathlib.Core.Option.{some-injective, none-ne-some}
use cs.Locks.{
  Cpu, Spinlock, pushcli, popcli, holding, start_acquire, xchg, name_cpu, start_release, unlock,
}
use cs.Locks.Nesting.{IsNested}
use cs.Locks.Owners.{Stage, away, spins, takes, holds, clears, inside, holding_iff}
use cs.Locks.System.{
  System, Step, Reach, boot, start, after, flips, switches, calls_pushcli, calls_popcli, starts,
  wins, loses, names, releases, unlocks, set_stage, AllOwned, Step-Owned, release-cases,
}

-- A CPU that waits for a lock or holds it has a popcli to come for it.
abbrev busy : Stage → ℕ
busy away = 0
busy spins = 1
busy takes = 1
busy holds = 1
busy clears = 1

module _ (n : ℕ) where
  abbrev pub waits : (ℕ → ℕ → Stage) → ℕ → ℕ
  waits stage c = total n (λ l. busy (stage l c))

  -- A change of the stage of `c` with one lock.
  waits-set_stage :
      (stage : ℕ → ℕ → Stage) (l c : ℕ) (v : Stage)
      → l < n
      → waits (set_stage l c v stage) c + busy (stage l c) ≡ waits stage c + busy v
  waits-set_stage stage l c v h =
      total-update n (λ m. busy (set_stage l c v stage m c)) (λ m. busy (stage m c)) l h
        (λ m k ne.
          ap (λ (g : ℕ → Stage). busy (g c)) (update_ne stage l (update (stage l) c v) m ne))
      ∙ ap (λ (g : ℕ → Stage). waits stage c + busy (g c))
          (update_self stage l (update (stage l) c v))
      ∙ ap (λ q. waits stage c + busy q) (update_self (stage l) c v)

  waits-set_stage_ne :
      (stage : ℕ → ℕ → Stage) (l c : ℕ) (v : Stage) (d : ℕ)
      → c ≢ d
      → waits (set_stage l c v stage) d ≡ waits stage d
  waits-set_stage_ne stage l c v d ne = total-same n _ _ (λ m h. elim (Bool-cases (l == m)) [
    | inl here ↦
        rw here (
          ap busy (update_ne (stage l) c v d ne) ∙ ap (λ q. busy (stage q d)) ((==_iff l m).0 here))
    | inr there ↦ rw there refl
  ])

  -- `ncli` counts the calls that are to be matched, and interrupts are off if there are any.
  abbrev pub IsCounted : System → ℕ → Type 0
  IsCounted s c = ((s.cpu c).ncli ≡ s.left c + waits s.stage c) × IsNested (s.cpu c)

  -- A step of the CPU `c`.
  recount :
      (s t : System) (c : ℕ)
      → ((d : ℕ)
          → c ≢ d
          → (t.cpu d ≡ s.cpu d) × (t.left d ≡ s.left d) × (waits t.stage d ≡ waits s.stage d))
      → IsCounted t c
      → ((d : ℕ) → IsCounted s d)
      → (d : ℕ) → IsCounted t d
  recount s t c same here all d = elim (Bool-cases (c == d)) [
    | inl this ↦ subst (IsCounted t) ((==_iff c d).0 this) here
    | inr other ↦
        let (p, q, r) = same d (λ e. ground (arith, ==_iff c d)) in
        (
          ap (λ (k : Cpu). k.ncli) p ∙ (all d).0 ∙ omega (arith, q, r),
          subst IsNested (sym p) (all d).1,
        )
  ]

  -- A step that changes only registers and other calls.
  recount_cpu :
      (s : System) (c : ℕ) (k : Cpu) (left : ℕ)
      → k.ncli + s.left c ≡ (s.cpu c).ncli + left
      → IsNested k
      → ((d : ℕ) → IsCounted s d)
      → (d : ℕ) → IsCounted (record s { cpu = update s.cpu c k; left = update s.left c left }) d
  recount_cpu s c k left e nest all =
      recount s (record s { cpu = update s.cpu c k; left = update s.left c left }) c
        (λ d ne. (update_ne s.cpu c k d ne, update_ne s.left c left d ne, refl))
        (
          ap (λ (x : Cpu). x.ncli) (update_self s.cpu c k)
              ∙ omega (arith, e, (all c).0, update_self s.left c left),
          subst IsNested (sym (update_self s.cpu c k)) nest,
        )
        all

  -- A step that changes the stage with one lock.
  recount_stage :
      (s : System) (c l : ℕ) (v : Stage) (cpu : ℕ → Cpu) (left : ℕ → ℕ) (lock : ℕ → Spinlock)
      → l < n
      → ((d : ℕ) → c ≢ d → (cpu d ≡ s.cpu d) × (left d ≡ s.left d))
      → (cpu c).ncli + s.left c + busy (s.stage l c) ≡ (s.cpu c).ncli + left c + busy v
      → IsNested (cpu c)
      → ((d : ℕ) → IsCounted s d)
      → (d : ℕ)
      → IsCounted
          (record { cpu = cpu; lock = lock; stage = set_stage l c v s.stage; left = left })
          d
  recount_stage s c l v cpu left lock h same e nest all =
      recount s (record { cpu = cpu; lock = lock; stage = set_stage l c v s.stage; left = left }) c
        (λ d ne. ((same d ne).0, (same d ne).1, waits-set_stage_ne s.stage l c v d ne))
        (omega (arith, e, (all c).0, waits-set_stage s.stage l c v h), nest) all

  -- Of these, one that leaves the registers and the other calls alone.
  recount_lock :
      (s : System) (c l : ℕ) (v : Stage) (lock : ℕ → Spinlock)
      → l < n
      → busy (s.stage l c) ≡ busy v
      → ((d : ℕ) → IsCounted s d)
      → (d : ℕ) → IsCounted (record s { lock = lock; stage = set_stage l c v s.stage }) d
  recount_lock s c l v lock h e all =
      recount_stage s c l v s.cpu s.left lock h (λ d ne. (refl, refl)) (omega (arith, e)) (all c).1
        all

pub popcli-cases : (c k : Cpu) → IsNested c → popcli c ≡ some k → (k.ncli + 1 ≡ c.ncli) × IsNested k
unfolding popcli
popcli-cases c k nest e = elim (Bool-cases c.flag) [
  | inl on ↦ absurd (none-ne-some _ (rw on at e))
  | inr off ↦ elim (Bool-cases (c.ncli == 0)) [
    | inl z ↦ absurd (none-ne-some _ (rw (off, z) at e))
    | inr deep ↦
        subst (λ (q : Cpu). (q.ncli + 1 ≡ c.ncli) × IsNested q)
          (some-injective _ _ (rw (off, deep) at e)) (ground arith, λ h. ground arith)
  ]
]

acquire-cases :
    (c : ℕ) (lk : Spinlock) (cpu k : Cpu)
    → start_acquire c lk cpu ≡ some k
    → (holding c lk ≡ false) × (k.ncli ≡ cpu.ncli + 1) × (k.flag ≡ false)
unfolding start_acquire pushcli
acquire-cases c lk cpu k e = elim (Bool-cases (holding c lk)) [
  | inl h ↦ absurd (none-ne-some _ (rw h at e))
  | inr h ↦
      let q = some-injective _ _ (rw h at e) in
      (h, ap (λ (x : Cpu). x.ncli) (sym q), ap (λ (x : Cpu). x.flag) (sym q))
]

Step-IsCounted :
    {n : ℕ} {s t : System}
    → Step n s t
    → AllOwned s
    → ((d : ℕ) → IsCounted n s d)
    → (d : ℕ) → IsCounted n t d
unfolding pushcli
Step-IsCounted {n} {s} (flips c b z) o all =
    let k : Cpu = record (s.cpu c) { flag = b } in
    recount n s (record s { cpu = update s.cpu c k }) c
      (λ d ne. (update_ne s.cpu c k d ne, refl, refl))
      (subst (λ (q : Cpu). (q.ncli ≡ s.left c + waits n s.stage c) × IsNested q)
        (sym (update_self s.cpu c k)) ((all c).0, λ h. absurd (omega arith)))
      all
Step-IsCounted {n} {s} (switches c b z) o all =
    let k : Cpu = record (s.cpu c) { intena = b } in
    recount n s (record s { cpu = update s.cpu c k }) c
      (λ d ne. (update_ne s.cpu c k d ne, refl, refl))
      (subst (λ (q : Cpu). (q.ncli ≡ s.left c + waits n s.stage c) × IsNested q)
        (sym (update_self s.cpu c k)) (all c))
      all
Step-IsCounted {n} {s} (calls_pushcli c) o all =
    recount_cpu n s c (pushcli (s.cpu c)) (s.left c + 1) (omega arith) (λ h. refl) all
Step-IsCounted {n} {s} (calls_popcli c {k} h e) o all =
    let (p, q) = popcli-cases (s.cpu c) k (all c).1 e in
    recount_cpu n s c k (s.left c - 1) (omega arith) q all
Step-IsCounted {n} {s} (starts c l {k} h a e) o all =
    let (free, p, off) = acquire-cases c (s.lock l) (s.cpu c) k e in
    recount_stage n s c l spins (update s.cpu c k) s.left s.lock h
      (λ d ne. (update_ne s.cpu c k d ne, refl))
      (omega (arith, ap (λ (x : Cpu). x.ncli) (update_self s.cpu c k), p, ap busy a))
      (subst IsNested (sym (update_self s.cpu c k)) (λ m. off)) all
Step-IsCounted {n} {s} (wins c l h a free) o all =
    recount_lock n s c l takes (update s.lock l (xchg (s.lock l)).0) h (ap busy a) all
Step-IsCounted {n} {s} (loses c l h a set) o all = all
Step-IsCounted {n} {s} (names c l h a) o all =
    recount_lock n s c l holds (update s.lock l (name_cpu c (s.lock l))) h (ap busy a) all
Step-IsCounted {n} {s} (releases c l {lk} h e) o all =
    let (held, q) = release-cases c (s.lock l) lk e in
    let a : s.stage l c ≡ holds = (holding_iff (s.lock l) (s.stage l) c (o l)).1 held in
    recount_lock n s c l clears (update s.lock l lk) h (ap busy a) all
Step-IsCounted {n} {s} (unlocks c l h a) o all =
    recount_stage n s c l away s.cpu (update s.left c (s.left c + 1))
      (update s.lock l (unlock (s.lock l))) h
      (λ d ne. (refl, update_ne s.left c (s.left c + 1) d ne))
      (omega (arith, update_self s.left c (s.left c + 1), ap busy a)) (all c).1 all

total-zero : (n : ℕ) → total n (λ i. 0) ≡ 0
total-zero zero = refl
total-zero (suc n) = omega (arith, total-zero n)

-- Both parts of the invariant.
abbrev pub IsSafe : ℕ → System → Type 0
IsSafe n s = AllOwned s × ((c : ℕ) → IsCounted n s c)

boot-IsSafe : (n : ℕ) → IsSafe n boot
boot-IsSafe n = (
  λ l. record {
    one = λ c d p q. cc;
    taken = λ c p. cc;
    named = λ c e. cc;
    only = λ c e. absurd (none-ne-some c e);
  },
  λ c. (omega (arith, total-zero n), λ h. refl),
)

Reach-IsSafe : {n : ℕ} {s : System} → Reach n s → IsSafe n s
Reach-IsSafe {n} (start e) = subst (IsSafe n) (sym e) (boot-IsSafe n)
Reach-IsSafe {n} (after {s} {t} r step) =
    let safe : IsSafe n s = Reach-IsSafe r in
    (Step-Owned step safe.0, Step-IsCounted step safe.0 safe.1)

busy-inside : (v : Stage) → inside v ≡ true → 1 ≤ busy v
busy-inside away e = cc
busy-inside spins e = cc
busy-inside takes e = omega arith
busy-inside holds e = omega arith
busy-inside clears e = omega arith

-- However the CPUs interleave: a CPU that is between the xchg that gets a lock and the store that
-- gives it up is the only one there for that lock, and its interrupts are off.
pub Reach-inside :
    {n : ℕ} {s : System} (c d l : ℕ)
    → Reach n s
    → l < n
    → inside (s.stage l c) ≡ true
    → (inside (s.stage l d) ≡ true → c ≡ d) × ((s.cpu c).flag ≡ false)
Reach-inside {n} {s} c d l r h e =
    let safe = Reach-IsSafe r in
    (
      (safe.0 l).one c d e,
      (safe.1 c).1
          (omega (arith, (safe.1 c).0, le-total n (λ m. busy (s.stage m c)) l h, busy-inside _ e)),
    )

-- However the CPUs interleave, none of the panics of spinlock.c happens: `acquire` of a lock that
-- the CPU has nothing to do with starts, `release` of a lock that it holds starts, and `popcli` goes
-- through as long as there is a call of `pushcli` to match.
pub Reach-goes :
    {n : ℕ} {s : System} (c l : ℕ)
    → Reach n s
    → (s.stage l c ≡ away → start_acquire c (s.lock l) (s.cpu c) ≡ some (pushcli (s.cpu c)))
      × (s.stage l c ≡ holds → start_release c (s.lock l) ≡ some (record (s.lock l) { cpu = none }))
      × (0 < s.left c → (k : Cpu) × (popcli (s.cpu c) ≡ some k))
unfolding start_acquire start_release popcli
Reach-goes {n} {s} c l r =
    let safe = Reach-IsSafe r in
    let says = holding_iff (s.lock l) (s.stage l) c (safe.0 l) in
    (
      λ a. elim (Bool-cases (holding c (s.lock l))) [
        | inl held ↦ absurd (away_not_holds (sym a ∙ says.1 held))
        | inr free ↦ rw free refl
      ],
      λ h. rw (says.0 h) refl,
      λ h.
          let k : Cpu = record (s.cpu c) {
            ncli = (s.cpu c).ncli - 1;
            flag = if (s.cpu c).ncli - 1 == 0 then (s.cpu c).intena else false;
          } in
          let off : (s.cpu c).flag ≡ false = (safe.1 c).1 (omega (arith, (safe.1 c).0)) in
          let deep : ((s.cpu c).ncli == 0) ≡ false = ground (arith, (safe.1 c).0) in
          (k, rw (off, deep) refl),
    )
  where
    away_not_holds : away ≢ holds
    away_not_holds e = cc
