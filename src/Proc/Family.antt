-- ===== src/Proc/Family.antt =====
-- Parents and children: every parent is alive, and no parent waits beside a zombie child.
use cs.Prelude.{
  ℕ, ◌<◌, ◌≡◌, ◌≢◌, inl, inr, refl, sym, ◌∙◌, subst, Bool, true, false, ◌&&◌, ◌==◌, some, none,
  arith, update, Bool-cases,
}
use cs.Proc.{
  Procs, Proc, Ptable, Chan, on_proc, is_chan, State, unused, embryo, sleeping, runnable, running,
  zombie, nproc, wake, wakeup1, is_sleeping, is_zombie,
}
use mathlib.Core.Bool.{false≢true}
use cs.Proc.Loops.{wakeup1-at}

-- A process that has been created and has not exited.
abbrev pub is_alive : State → Bool
is_alive sleeping = true
is_alive runnable = true
is_alive running = true
is_alive unused = false
is_alive embryo = false
is_alive zombie = false

-- The process of slot `q` sleeps in `wait`.
abbrev pub waits : Proc → ℕ → Bool
waits p q = is_sleeping p.state && is_chan p.chan (on_proc q)

pub record Family (t : Ptable) : Type 0 where
  pub init_in : t.initproc < nproc
  pub init_alive : is_alive (t.procs t.initproc).state ≡ true
  pub init_root : (t.procs t.initproc).parent ≡ none
  pub others : (i : ℕ) → i < nproc → (t.procs i).parent ≢ some i
  pub parents :
      (i q : ℕ)
      → i < nproc
      → (t.procs i).parent ≡ some q
      → (q < nproc) × (is_alive (t.procs q).state ≡ true)
  pub waiting :
      (q i : ℕ)
      → q < nproc
      → i < nproc
      → waits (t.procs q) q ≡ true
      → (t.procs i).parent ≡ some q
      → is_zombie (t.procs i).state ≡ false

-- A slot's change that can upset neither.
pub record Kept (q : ℕ) (p p' : Proc) : Type 0 where
  pub parent : p'.parent ≡ p.parent
  pub alive : is_alive p.state ≡ true → is_alive p'.state ≡ true
  pub zombies : is_zombie p'.state ≡ true → is_zombie p.state ≡ true
  pub waits_still : waits p' q ≡ true → waits p q ≡ true

pub Kept-refl : (q : ℕ) (p : Proc) → Kept q p p
Kept-refl q p = record { parent = refl; alive = λ h. h; zombies = λ h. h; waits_still = λ h. h }

not_true : (b : Bool) → (b ≡ true → ⊥) → b ≡ false
not_true true h = absurd (h refl)
not_true false h = refl

pub Kept-Family :
    (t : Ptable) (procs : Procs)
    → ((j : ℕ) → j < nproc → Kept j (t.procs j) (procs j))
    → Family t
    → Family (record t { procs = procs })
Kept-Family t procs k f = record {
  init_in = f.init_in;
  init_alive = (k t.initproc f.init_in).alive f.init_alive;
  init_root = (k t.initproc f.init_in).parent ∙ f.init_root;
  others = λ i hi e. f.others i hi (sym (k i hi).parent ∙ e);
  parents = λ i q hi e.
      let (hq, a) = f.parents i q hi (sym (k i hi).parent ∙ e) in (hq, (k q hq).alive a);
  waiting = λ q i hq hi w e. not_true _ (λ z. false≢true (
      sym (f.waiting q i hq hi ((k q hq).waits_still w) (sym (k i hi).parent ∙ e))
      ∙ (k i hi).zombies z));
}

-- One slot changes.
pub update-Kept :
    (procs : Procs) (c : ℕ) (p : Proc)
    → Kept c (procs c) p
    → (j : ℕ) → Kept j (procs j) (update procs c p j)
update-Kept procs c p k j = elim (Bool-cases (c == j)) [
  | inl here ↦ let same : c ≡ j = ground arith in rw here (subst (λ x. Kept x (procs x) p) same k)
  | inr there ↦ rw there (Kept-refl j (procs j))
]

wake-Kept : (c : Chan) (q : ℕ) (p : Proc) → Kept q p (wake c p)
wake-Kept c q p = record {
  parent = ground arith;
  alive = λ h. ground arith;
  zombies = λ h. ground arith;
  waits_still = λ h. ground arith;
}

pub wakeup1-Kept :
    (c : Chan) (procs : Procs) (j : ℕ) → j < nproc → Kept j (procs j) (wakeup1 c procs j)
wakeup1-Kept c procs j h = rw (wakeup1-at c procs j h) (wake-Kept c j (procs j))
