-- ===== src/Log/Tests.antt =====
-- Runs of the log, and its theorems at concrete inputs.
use cs.Prelude.{
  ℕ, zero, suc, ◌+◌, ◌≡◌, ◌⊎◌, refl, true, false, List, [], ◌∷◌, Option, some, none, arith, inl,
  inr, get_elem?, get_or,
}
use cs.Log.{Fs, log_size, begin_op, log_write, initlog, commit, decode}
use cs.Log.Buffers.{Block, Disk, modify, boot}
use cs.Log.Recovery.{IsView, recover_disk}
use cs.Log.Crash.{Ready, none_yet}
use cs.Log.Transaction.{write_block, write_blocks, write_block-Ready, apply, transaction_atomic}
use cs.Log.Reserve.{Ops, begins, writes, Reach, start_up, later, reserved_write}

abbrev blank : Disk
blank b i = 0

abbrev filled : ℕ → Block
filled v i = v

-- The log area is blocks 2 to 5; blocks 10 and 11 are changed and logged.
abbrev two_logged : Fs
two_logged = record {
  log = record { start = 2; size = 4; outstanding = 0; committing = true; lh = 10 ∷ 11 ∷ [] };
  store = modify (modify (boot blank) 10 (filled 7)) 11 (filled 8);
}

commit_runs : let d = (commit two_logged).store.disk in (d 10 3 ≡ 7) × (d 11 0 ≡ 8)
unfolding commit
commit_runs = (refl, refl)

two_logged-Ready : Ready two_logged
unfolding decode
two_logged-Ready = record {
  homes = (omega arith, (omega arith, tt));
  fits = omega arith;
  clean = λ b o e. ground arith;
  empty = refl;
}

-- A crash after block 10 is home and before block 11 is, and a recovery cut short there again.
abbrev crashed : Disk
crashed = get_or (commit two_logged).store.past 1 blank

abbrev cut : Disk
cut = get_or (initlog 2 4 crashed).store.past 1 blank

-- A reachable state, stepped by evaluation.
record Run (size : ℕ) : Type 0 where
  ops : Ops
  reach : Reach 2 size (boot blank) ops

inspect : {A : Type 0} (o : Option A) → (o ≡ none) ⊎ ((a : A) × (o ≡ some a))
inspect none = inl refl
inspect (some a) = inr (a, refl)

begin_one : {size : ℕ} → Run size → Run size
begin_one r = elim (inspect (begin_op r.ops.fs.log)) [
  | inl none_now ↦ r
  | inr (l, e) ↦ record { ops = _; reach = later r.reach (begins e) }
]

-- The operation `i` logs block `b`, if it may.
write_one : {size : ℕ} → ℕ → Run size → ℕ → Run size
write_one i r b = elim (inspect (get_elem? r.ops.left i)) [
  | inl none_now ↦ r
  | inr (zero, e) ↦ r
  | inr (suc q, e) ↦ elim (inspect (log_write b r.ops.fs)) [
    | inl panics ↦ r
    | inr (g, w) ↦ record { ops = _; reach = later r.reach (writes i q b e w) }
  ]
]

write_all : {size : ℕ} → ℕ → Run size → ℕ → ℕ → Run size
unfolding write_one
write_all i r b zero = r
write_all i r b (suc n) = write_all i (write_one i r b) (b + 1) n

-- Three operations have begun; two have logged ten blocks each, and the third nine.
nine_and_twenty : (size : ℕ) → Run size
unfolding inspect begin_one write_all
nine_and_twenty size =
    let r = begin_one (begin_one (begin_one (record { ops = _; reach = start_up }))) in
    write_all 2 (write_all 1 (write_all 0 r 100 10) 110 10) 120 9

-- With the log area that mkfs makes, of LOGSIZE blocks, the third operation is refused its tenth
-- block: `log_write` panics.
mkfs_log_too_small :
    (s : Ops) × Reach 2 log_size (boot blank) s
    × (get_elem? s.left 2 ≡ some 1)
    × (log_write 129 s.fs ≡ none)
unfolding nine_and_twenty begin_op log_write
mkfs_log_too_small = let r = nine_and_twenty log_size in (r.ops, r.reach, refl, refl)

-- With one block more it is not.
reserved_write_example : (g : Fs) × (log_write 129 (nine_and_twenty (log_size + 1)).ops.fs ≡ some g)
unfolding nine_and_twenty begin_op log_write
reserved_write_example =
    reserved_write 2 0 129 (nine_and_twenty (log_size + 1)).reach (omega arith) refl

-- A transaction that begins with an empty log.
abbrev begun : Fs
begun = record {
  log = record { start = 2; size = 4; outstanding = 1; committing = false; lh = [] };
  store = boot blank;
}

begun-Ready : Ready begun
unfolding decode
begun-Ready = record { homes = tt; fits = omega arith; clean = λ b o e. refl; empty = refl }

abbrev two_writes : List (ℕ × Block)
two_writes = (10, filled 7) ∷ (11, filled 8) ∷ (10, filled 9) ∷ []

written : (g : Fs) × (write_blocks begun two_writes ≡ some g)
unfolding write_blocks
written = (_, refl)

write_block-Ready_example : (g : Fs) × Ready g
unfolding write_block
write_block-Ready_example =
    (_, write_block-Ready begun 10 (filled 7) begun-Ready (omega arith) refl)

abbrev cut_commit : Disk
cut_commit = get_or (commit written.0).store.past 2 blank

transaction_atomic_example :
    IsView 2 4 (recover_disk 2 4 cut_commit) blank
    ⊎ IsView 2 4 (recover_disk 2 4 cut_commit) (apply two_writes blank)
unfolding written commit
transaction_atomic_example =
    transaction_atomic begun two_writes 2 {d = cut_commit} begun-Ready refl (omega arith) written.1
      refl none_yet
