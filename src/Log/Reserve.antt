-- ===== src/Log/Reserve.antt =====
-- `begin_op` reserves log space, so that no operation in its limit finds the log full.
use cs.Prelude.{
  All, ℕ, zero, suc, ◌+◌, ◌-◌, ◌*◌, ◌≤◌, ◌<◌, ◌≡◌, inl, inr, refl, sym, ap, subst, true, false, ltb,
  List, [], ◌∷◌, some, arith, length, get_elem?, set, Bool-cases,
}
use cs.Log.{
  Log, Fs, max_op_blocks, log_size, begin_op, last, more, end_op, commit, commit_op, absorb,
  log_write, write_log, write_head, install_trans,
}
use cs.Log.Buffers.{Store, pin}

abbrev pub sum : List ℕ → ℕ
sum [] = 0
sum (x ∷ xs) = x + sum xs

-- The list less its element `i`.
abbrev pub remove : List ℕ → ℕ → List ℕ
remove [] i = []
remove (x ∷ xs) zero = xs
remove (x ∷ xs) (suc i) = x ∷ remove xs i

-- The file system with its operations in progress: for each, how many more blocks it may log.
pub record Ops : Type 0 where
  pub fs : Fs
  pub left : List ℕ

-- The calls of log.c by concurrent operations, each of which logs at most MAXOPBLOCKS blocks.
pub data Step (s : Ops) : Ops → Type 0 where
  begins :
      {l : Log}
      → begin_op s.fs.log ≡ some l
      → Step s (record { fs = record (s.fs) { log = l }; left = max_op_blocks ∷ s.left })
  writes :
      (i q b : ℕ) {g : Fs}
      → get_elem? s.left i ≡ some (suc q)
      → log_write b s.fs ≡ some g
      → Step s (record { fs = g; left = set s.left i q })
  ends :
      (i q : ℕ) {l : Log}
      → get_elem? s.left i ≡ some q
      → end_op s.fs.log ≡ more l
      → Step s (record { fs = record (s.fs) { log = l }; left = remove s.left i })
  ends_last :
      (i q : ℕ) {l : Log}
      → get_elem? s.left i ≡ some q
      → end_op s.fs.log ≡ last l
      → Step s (record { fs = record (s.fs) { log = l }; left = remove s.left i })
  commits : s.fs.log.committing ≡ true → Step s (record s { fs = commit_op s.fs })

abbrev pub idle : ℕ → ℕ → Store → Ops
idle start size store = record {
  fs = record {
    log = record { start = start; size = size; outstanding = 0; committing = false; lh = [] };
    store = store;
  };
  left = [];
}

pub data Reach (start size : ℕ) (store : Store) : Ops → Type 0 where
  start_up : Reach start size store (idle start size store)
  later : {s t : Ops} → Reach start size store s → Step s t → Reach start size store t

-- `left` has the operations in progress, and the log has room for all that they may still log.
pub record Reserved (size : ℕ) (l : Log) (left : List ℕ) : Type 0 where
  pub room : length l.lh + sum left ≤ log_size
  pub counted : l.outstanding ≡ length left
  pub limited : All (λ q. q ≤ max_op_blocks) left
  pub quiet : l.committing ≡ true → left ≡ []
  pub sized : l.size ≡ size

get_lt : (xs : List ℕ) (i : ℕ) {x : ℕ} → get_elem? xs i ≡ some x → i < length xs
get_lt [] i e = cc
get_lt (x ∷ xs) zero e = omega arith
get_lt (x ∷ xs) (suc i) e = omega (arith, get_lt xs i e)

length-absorb : (b : ℕ) (hs : List ℕ) → length (absorb b hs) ≤ length hs + 1
unfolding absorb
length-absorb b [] = omega arith
length-absorb b (h ∷ hs) = ground (arith, length-absorb b hs)

sum-set :
    (xs : List ℕ) (i q : ℕ)
    → get_elem? xs i ≡ some (suc q)
    → (sum (set xs i q) + 1 ≡ sum xs) × (length (set xs i q) ≡ length xs)
sum-set [] i q e = cc
sum-set (x ∷ xs) zero q e = ground arith
sum-set (x ∷ xs) (suc i) q e = omega (arith, sum-set xs i q e)

sum-remove :
    (xs : List ℕ) (i q : ℕ)
    → get_elem? xs i ≡ some q
    → (sum (remove xs i) + q ≡ sum xs) × (length (remove xs i) + 1 ≡ length xs)
sum-remove [] i q e = cc
sum-remove (x ∷ xs) zero q e = ground arith
sum-remove (x ∷ xs) (suc i) q e = omega (arith, sum-remove xs i q e)

sum-le : (xs : List ℕ) → All (λ q. q ≤ max_op_blocks) xs → sum xs ≤ length xs * max_op_blocks
sum-le [] a = omega arith
sum-le (x ∷ xs) a = omega (arith, sum-le xs a.1, a.0)

All-set :
    (xs : List ℕ) (i q : ℕ)
    → get_elem? xs i ≡ some (suc q)
    → All (λ q. q ≤ max_op_blocks) xs
    → All (λ q. q ≤ max_op_blocks) (set xs i q)
All-set [] i q e a = tt
All-set (x ∷ xs) zero q e a = (ground (arith, a.0), a.1)
All-set (x ∷ xs) (suc i) q e a = (a.0, All-set xs i q e a.1)

All-remove :
    (xs : List ℕ) (i : ℕ)
    → All (λ q. q ≤ max_op_blocks) xs
    → All (λ q. q ≤ max_op_blocks) (remove xs i)
All-remove [] i a = tt
All-remove (x ∷ xs) zero a = a.1
All-remove (x ∷ xs) (suc i) a = (a.0, All-remove xs i a.1)

-- `commit` empties the log and leaves the counters alone.
commit_log :
    (g : Fs)
    → (length (commit g).log.lh ≡ 0)
      × ((commit g).log.outstanding ≡ g.log.outstanding)
      × ((commit g).log.size ≡ g.log.size)
unfolding commit write_log write_head install_trans
commit_log g = elim (Bool-cases (ltb 0 (length g.log.lh))) [
  | inl some_logged ↦ rw some_logged (refl, refl, refl)
  | inr none_logged ↦ rw none_logged (ground arith, refl, refl)
]

begin_op-some :
    (l : Log) {l' : Log}
    → begin_op l ≡ some l'
    → (length l.lh + (l.outstanding + 1) * max_op_blocks ≤ log_size)
      × (l' ≡ record l { outstanding = l.outstanding + 1 })
      × (l.committing ≡ false)
unfolding begin_op
begin_op-some l e = ground arith

end_op-more :
    (l : Log) {l' : Log}
    → end_op l ≡ more l'
    → (l' ≡ record l { outstanding = l.outstanding - 1 }) × (l.committing ≡ false)
unfolding end_op
end_op-more l e = ground arith

end_op-last :
    (l : Log) {l' : Log}
    → end_op l ≡ last l'
    → (l' ≡ record l { outstanding = l.outstanding - 1; committing = true }) × (l.outstanding ≡ 1)
unfolding end_op
end_op-last l e = ground arith

log_write-some :
    (b : ℕ) (g : Fs) {g' : Fs}
    → log_write b g ≡ some g'
    → g'.log ≡ record (g.log) { lh = absorb b g.log.lh }
unfolding log_write
log_write-some b g e = ground arith

nil_of_length : (xs : List ℕ) → length xs ≡ 0 → xs ≡ []
nil_of_length [] e = refl
nil_of_length (x ∷ xs) e = absurd (omega arith)

Step-Reserved :
    {size : ℕ} {s t : Ops}
    → Step s t
    → Reserved size s.fs.log s.left
    → Reserved size t.fs.log t.left
Step-Reserved {size} {s} (begins {l} e) v =
    let (fits, l', idle') = begin_op-some s.fs.log e in
    subst (λ x. Reserved size x (max_op_blocks ∷ s.left)) (sym l')
      (record {
        room = omega (arith, sum-le s.left v.limited, v.room, v.counted);
        counted = omega (arith, v.counted);
        limited = (omega arith, v.limited);
        quiet = λ c. cc;
        sized = v.sized;
      })
Step-Reserved {size} {s} (writes i q b {g} e w) v =
    subst (λ x. Reserved size x (set s.left i q)) (sym (log_write-some b s.fs w))
      (record {
        room = omega (arith, v.room, length-absorb b s.fs.log.lh, sum-set s.left i q e);
        counted = omega (arith, v.counted, sum-set s.left i q e);
        limited = All-set s.left i q e v.limited;
        quiet = λ c. ap (λ xs. set xs i q) (v.quiet c);
        sized = v.sized;
      })
Step-Reserved {size} {s} (ends i q {l} e m) v =
    let (l', idle') = end_op-more s.fs.log m in
    subst (λ x. Reserved size x (remove s.left i)) (sym l')
      (record {
        room = omega (arith, v.room, sum-remove s.left i q e);
        counted = omega (arith, v.counted, sum-remove s.left i q e);
        limited = All-remove s.left i v.limited;
        quiet = λ c. cc;
        sized = v.sized;
      })
Step-Reserved {size} {s} (ends_last i q {l} e m) v =
    let (l', one) = end_op-last s.fs.log m in
    subst (λ x. Reserved size x (remove s.left i)) (sym l')
      (record {
        room = omega (arith, v.room, sum-remove s.left i q e);
        counted = omega (arith, v.counted, sum-remove s.left i q e);
        limited = All-remove s.left i v.limited;
        quiet = λ c. nil_of_length _ (omega (arith, one, v.counted, sum-remove s.left i q e));
        sized = v.sized;
      })
Step-Reserved {size} {s} (commits c) v =
    unfold commit_op in
    record {
      room = omega (arith, ap sum (v.quiet c), commit_log s.fs);
      counted = omega (arith, v.counted, commit_log s.fs);
      limited = v.limited;
      quiet = λ e. cc;
      sized = omega (arith, v.sized, commit_log s.fs);
    }

Reach-Reserved :
    {start size : ℕ} {store : Store} {s : Ops}
    → Reach start size store s
    → Reserved size s.fs.log s.left
Reach-Reserved start_up = record {
  room = omega arith;
  counted = refl;
  limited = tt;
  quiet = λ e. refl;
  sized = refl;
}
Reach-Reserved (later r st) = Step-Reserved st (Reach-Reserved r)

log_write_fits :
    (b : ℕ) (g : Fs)
    → length g.log.lh < log_size
    → 0 < g.log.outstanding
    → log_size < g.log.size
    → log_write b g
      ≡ some (record { log = record (g.log) { lh = absorb b g.log.lh }; store = pin g.store b })
unfolding log_write
log_write_fits b g h o z = ground arith

-- An operation in progress that has logged fewer than MAXOPBLOCKS blocks can log another one,
-- however the operations interleave, if the log area has more than LOGSIZE blocks: `log_write`
-- does not panic.
pub reserved_write :
    {start size : ℕ} {store : Store} {s : Ops} (i q b : ℕ)
    → Reach start size store s
    → log_size < size
    → get_elem? s.left i ≡ some (suc q)
    → (g : Fs) × (log_write b s.fs ≡ some g)
reserved_write {size = size} {s = s} i q b r big e =
    (_, log_write_fits b s.fs fits some_op.0 some_op.1)
  where
    v : Reserved size s.fs.log s.left
    v = Reach-Reserved r

    fits : length s.fs.log.lh < log_size
    fits = omega (arith, v.room, sum-set s.left i q e)

    some_op : (0 < s.fs.log.outstanding) × (log_size < s.fs.log.size)
    some_op = omega (arith, v.counted, v.sized, v.room, get_lt s.left i e)
