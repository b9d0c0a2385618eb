-- ===== src/Proc/Kill.antt =====
-- `kill`: which process it marks, and that a pid of 0 marks a free slot.
use cs.Prelude.{
  ℕ, zero, suc, ◌+◌, ◌≤◌, ◌<◌, ◌≡◌, ◌≢◌, inl, inr, refl, sym, ◌∙◌, ap, subst, true, false, ◌==◌,
  if◌then◌else◌, Option, some, none, arith, update, update_self, Bool-cases, ==_ne,
}
use mathlib.Core.Option.{some-injective}
use native.Mathlib.Decide.{dec_lt}
use cs.Proc.{Procs, Proc, embryo, runnable, nproc, is_sleeping, kill, kill_from, alloc_in, Ptable}
use cs.Proc.Family.{Kept}

-- The body of the loop of `kill`.
abbrev pub mark : Proc → Proc
mark p = record p { killed = true; state = if is_sleeping p.state then runnable else p.state }

kill_from-here :
    (n i pid : ℕ) (procs : Procs)
    → (procs i).pid ≡ pid
    → kill_from (suc n) i pid procs ≡ some (update procs i (mark (procs i)))
unfolding kill_from
kill_from-here n i pid procs h = let e : ((procs i).pid == pid) ≡ true = ground arith in rw e

kill_from-next :
    (n i pid : ℕ) (procs : Procs)
    → (procs i).pid ≢ pid
    → kill_from (suc n) i pid procs ≡ kill_from n (i + 1) pid procs
unfolding kill_from
kill_from-next n i pid procs h = let e : ((procs i).pid == pid) ≡ false = ground arith in rw e

-- What `kill` of `pid` makes of the slots from `lo` to `hi`.
pub record Killed (lo hi pid : ℕ) (procs : Procs) (r : Option Procs) : Type 0 where
  pub finds :
      (procs' : Procs)
      → r ≡ some procs'
      → (j : ℕ) × (lo ≤ j)
        × (j < hi)
        × ((procs j).pid ≡ pid)
        × (procs' ≡ update procs j (mark (procs j)))
        × ((k : ℕ) → lo ≤ k → k < j → (procs k).pid ≢ pid)
  pub misses : r ≡ none → (j : ℕ) → lo ≤ j → j < hi → (procs j).pid ≢ pid

kill_round :
    (n i pid : ℕ) (procs : Procs)
    → Killed (i + 1) (i + 1 + n) pid procs (kill_from n (i + 1) pid procs)
    → Killed i (i + suc n) pid procs (kill_from (suc n) i pid procs)
kill_round n i pid procs rest = elim (Bool-cases ((procs i).pid == pid)) [
  | inl here ↦ rw (kill_from-here n i pid procs (ground arith)) (record {
    finds = λ p' e. (
      i,
      omega arith,
      omega arith,
      ground arith,
      sym (some-injective _ _ e),
      λ k lo hi. absurd (omega arith),
    );
    misses = λ e. absurd (some≢none e);
  })
  | inr other ↦
      let ne : (procs i).pid ≢ pid = ground arith in
      rw (kill_from-next n i pid procs ne) (record {
        finds = λ p' e.
            let (j, lo, hi, same, is, first) = rest.finds p' e in
            (
              j,
              omega arith,
              omega arith,
              same,
              is,
              λ k lo' hi'. skip ne k (λ lo''. first k lo'' hi') lo',
            );
        misses = λ e j lo hi. skip ne j (λ lo'. rest.misses e j lo' (omega arith)) lo;
      })
]
  where
    some≢none : {x : Procs} → some x ≡ none → ⊥
    some≢none e = cc

    skip :
        (procs i).pid ≢ pid
        → (k : ℕ) → (i + 1 ≤ k → (procs k).pid ≢ pid)
        → i ≤ k
        → (procs k).pid ≢ pid
    skip ne k later lo e = elim (Bool-cases (i == k)) [
      | inl same ↦ ne (subst (λ x. (procs x).pid ≡ pid) (sym (ground arith)) e)
      | inr differs ↦ later (ground arith) e
    ]

kill_from-Killed :
    (n i pid : ℕ) (procs : Procs) → Killed i (i + n) pid procs (kill_from n i pid procs)
kill_from-Killed zero i pid procs =
    unfold kill_from in record { finds = λ p' e. cc; misses = λ e j lo hi. absurd (omega arith) }
kill_from-Killed (suc n) i pid procs =
    kill_round n i pid procs (kill_from-Killed n (i + 1) pid procs)

-- `kill` marks the first slot of the table whose pid field is `pid`, makes it runnable if it
-- sleeps, and changes nothing else; it returns -1 exactly if no slot has that pid.
pub kill-Killed : (pid : ℕ) (procs : Procs) → Killed 0 nproc pid procs (kill pid procs)
unfolding kill
kill-Killed pid procs = kill_from-Killed nproc 0 pid procs

pub mark-Kept : (q : ℕ) (p : Proc) → Kept q p (mark p)
mark-Kept q p = record {
  parent = refl;
  alive = λ h. ground arith;
  zombies = λ h. ground arith;
  waits_still = λ h. ground arith;
}

-- A `kill` of 0 that returns 0, on a table whose first slot with the pid 0 is `i` (the pid of slots
-- that were never used, or were reaped): it marks that slot, and the process that allocproc next
-- makes in it, with a stack from kalloc, starts out killed.
pub kill_zero_poisons :
    (t : Ptable) (i stack : ℕ) {procs' : Procs}
    → kill 0 t.procs ≡ some procs'
    → i < nproc
    → (t.procs i).pid ≡ 0
    → ((k : ℕ) → k < i → (t.procs k).pid ≢ 0)
    → stack ≢ 0
    → let (t', slot) = alloc_in stack (record t { procs = procs' }) (some i) in
      ((t'.procs i).killed ≡ true) × ((t'.procs i).state ≡ embryo) × ((t'.procs i).pid ≡ t.nextpid)
unfolding alloc_in
kill_zero_poisons t i stack {procs'} e hi zero_pid first got = rw (==_ne stack 0 got) (
  ap (λ (p : Proc). p.killed) (update_self procs' i _) ∙ marked,
  ap (λ (p : Proc). p.state) (update_self procs' i _),
  ap (λ (p : Proc). p.pid) (update_self procs' i _),
)
  where
    open ((kill-Killed 0 t.procs).finds procs' e) use {
      «0» as j, «3» as same, «4» as is, «5» as least,
    }

    j_is : j ≡ i
    j_is = elim (dec_lt j i) [
      | yes below ↦ absurd (first j below same)
      | no not_below ↦ elim (dec_lt i j) [
        | yes above ↦ absurd (least i (omega arith) above zero_pid)
        | no not_above ↦ omega arith
      ]
    ]

    marked : (procs' i).killed ≡ true
    marked =
        ap (λ (m : Procs). (m i).killed) (is ∙ ap (λ x. update t.procs x (mark (t.procs x))) j_is)
        ∙ ap (λ (p : Proc). p.killed) (update_self t.procs i (mark (t.procs i)))
