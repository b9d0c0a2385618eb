-- ===== src/Log/Transaction.antt =====
-- The writes of a transaction: `log_write` leaves the log ready to commit.
use cs.Prelude.{
  All, ℕ, ◌+◌, ◌≤◌, ◌<◌, ◌≡◌, refl, sym, ◌∙◌, ap, ap₂, subst, subst₂, subst₃, get_elem?, ◌⊎◌, false,
  ◌||◌, ◌==◌, List, [], ◌∷◌, Option, some, none, arith, length, update, Bool-cases, inl, inr,
}
use cs.Log.{Fs, absorb, log_write, commit}
use cs.Log.Buffers.{Block, Disk, modify, pin}
use cs.Log.Install.{mem?, IsHome}
use cs.Log.Crash.{Ready, Restarts, commit_atomic}
use cs.Log.Recovery.{IsView, recover_disk}
use mathlib.Core.Option.{some-injective}

-- A caller's use of a buffer: it changes the data of block `b` to `x`, and calls `log_write`.
unfoldable pub write_block : Fs → ℕ → Block → Option Fs
unfolding log_write
write_block g b x = log_write b (record g { store = modify g.store b x })

-- The blocks that a transaction writes, in order.
unfoldable pub write_blocks : Fs → List (ℕ × Block) → Option Fs
unfolding write_block
write_blocks g [] = some g
write_blocks g ((b, x) ∷ ws) = elim (write_block g b x) [
  | none ↦ none
  | some g' ↦ write_blocks g' ws
]

mem?-absorb : (b : ℕ) (hs : List ℕ) (c : ℕ) → mem? (absorb b hs) c ≡ (b == c || mem? hs c)
unfolding absorb
mem?-absorb b [] c = refl
mem?-absorb b (h ∷ hs) c = ground (arith, mem?-absorb b hs c)

All-absorb {ℓ} : (P : ℕ → Type ℓ) (b : ℕ) (hs : List ℕ) → P b → All P hs → All P (absorb b hs)
unfolding absorb
All-absorb P b [] p a = (p, tt)
All-absorb P b (h ∷ hs) p a = elim (Bool-cases (h == b)) [
  | inl here ↦ rw here a
  | inr there ↦ rw there (a.0, All-absorb P b hs p a.1)
]

length-absorb : (b : ℕ) (hs : List ℕ) → length (absorb b hs) ≤ length hs + 1
unfolding absorb
length-absorb b [] = omega arith
length-absorb b (h ∷ hs) = ground (arith, length-absorb b hs)

log_write-some :
    (b : ℕ) (g : Fs) {g' : Fs}
    → log_write b g ≡ some g'
    → (g' ≡ record { log = record (g.log) { lh = absorb b g.log.lh }; store = pin g.store b })
      × (length g.log.lh + 1 < g.log.size)
unfolding log_write
log_write-some b g e = ground arith

-- A logged write outside the log keeps the log ready to commit, and changes no block on disk.
pub write_block-Ready :
    (g : Fs) (b : ℕ) (x : Block) {g' : Fs}
    → Ready g
    → IsHome g.log.start g.log.size b
    → write_block g b x ≡ some g'
    → Ready g'
unfolding write_block
write_block-Ready g b x {g'} r o e =
    let (g'_is, fits) = log_write-some b (record g { store = modify g.store b x }) e in
    subst Ready (sym g'_is) (record {
      homes = All-absorb (IsHome g.log.start g.log.size) b g.log.lh o r.homes;
      fits = omega (arith, length-absorb b g.log.lh);
      clean = clean;
      empty = r.empty;
    })
  where
    clean :
        (c : ℕ)
        → IsHome g.log.start g.log.size c
        → mem? (absorb b g.log.lh) c ≡ false
        → update g.store.mem b x c ≡ g.store.disk c
    clean c oc out = elim (Bool-cases (b == c)) [
      | inl here ↦ absurd (ground (arith, mem?-absorb b g.log.lh c))
      | inr there ↦ rw there (r.clean c oc (ground (arith, mem?-absorb b g.log.lh c)))
    ]

-- The disk after a list of block writes.
abbrev pub apply : List (ℕ × Block) → Disk → Disk
apply [] d = d
apply ((b, x) ∷ ws) d = apply ws (update d b x)

abbrev pub AllHome : ℕ → ℕ → List (ℕ × Block) → Type 0
AllHome start size [] = Unit
AllHome start size ((b, x) ∷ ws) = IsHome start size b × AllHome start size ws

record Wrote (g : Fs) (ws : List (ℕ × Block)) (g' : Fs) : Type 0 where
  ready : Ready g'
  disk : g'.store.disk ≡ g.store.disk
  past : g'.store.past ≡ g.store.past
  mem : g'.store.mem ≡ apply ws g.store.mem
  area : (g'.log.start ≡ g.log.start) × (g'.log.size ≡ g.log.size)

write_block-still :
    (g : Fs) (b : ℕ) (x : Block) {g' : Fs}
    → write_block g b x ≡ some g'
    → (g'.store.disk ≡ g.store.disk)
      × (g'.store.past ≡ g.store.past)
      × (g'.store.mem ≡ update g.store.mem b x)
      × (g'.log.start ≡ g.log.start)
      × (g'.log.size ≡ g.log.size)
unfolding write_block
write_block-still g b x {g'} e =
    let (g'_is, fits) = log_write-some b (record g { store = modify g.store b x }) e in
    (
      ap (λ h. h.store.disk) g'_is,
      ap (λ h. h.store.past) g'_is,
      ap (λ h. h.store.mem) g'_is,
      ap (λ h. h.log.start) g'_is,
      ap (λ h. h.log.size) g'_is,
    )

Wrote-more :
    (g : Fs) (b : ℕ) (x : Block) (ws : List (ℕ × Block)) {g' : Fs}
    → ((h : Fs)
        → Ready h
        → AllHome h.log.start h.log.size ws
        → write_blocks h ws ≡ some g'
        → Wrote h ws g')
    → Ready g
    → AllHome g.log.start g.log.size ((b, x) ∷ ws)
    → (m : Option Fs) → write_block g b x ≡ m
    → (elim m [ none ↦ none | some h ↦ write_blocks h ws ]) ≡ some g'
    → Wrote g ((b, x) ∷ ws) g'
Wrote-more g b x ws rest r o none eq q = cc
Wrote-more g b x ws rest r o (some h) eq q =
    let (disk, past, mem, start, size) = write_block-still g b x eq in
    let w =
      rest h (write_block-Ready g b x r o.0 eq)
        (subst₂ (λ s z. AllHome s z ws) (sym start) (sym size) o.1) q in
    record {
      ready = w.ready;
      disk = w.disk ∙ disk;
      past = w.past ∙ past;
      mem = w.mem ∙ ap (apply ws) mem;
      area = (w.area.0 ∙ start, w.area.1 ∙ size);
    }

write_blocks-Wrote :
    (ws : List (ℕ × Block)) (g : Fs) {g' : Fs}
    → Ready g
    → AllHome g.log.start g.log.size ws
    → write_blocks g ws ≡ some g'
    → Wrote g ws g'
unfolding write_blocks
write_blocks-Wrote [] g r o e =
    subst (Wrote g []) (some-injective _ _ e)
      (record { ready = r; disk = refl; past = refl; mem = refl; area = (refl, refl) })
write_blocks-Wrote ((b, x) ∷ ws) g {g'} r o e =
    Wrote-more g b x ws (λ h r' o' e'. write_blocks-Wrote ws h r' o' e') r o (write_block g b x)
      refl e

-- A crash in the commit of a transaction, and restarts that are cut short: recovery leaves outside
-- the log what was on disk before the transaction, or all the writes of the transaction.
pub transaction_atomic :
    (g : Fs) (ws : List (ℕ × Block)) (k : ℕ) {g' : Fs} {d e : Disk}
    → Ready g
    → g.store.past ≡ []
    → AllHome g.log.start g.log.size ws
    → write_blocks g ws ≡ some g'
    → get_elem? (commit g').store.past k ≡ some d
    → Restarts g'.log.start g'.log.size d e
    → IsView g.log.start g.log.size (recover_disk g.log.start g.log.size e) g.store.disk
      ⊎ IsView g.log.start g.log.size (recover_disk g.log.start g.log.size e) (apply ws g.store.mem)
transaction_atomic g ws k {g'} {d} {e} r now o w at_k restarts =
    let t = write_blocks-Wrote ws g r o w in
    let atomic = commit_atomic g' k t.ready (t.past ∙ now) at_k restarts in
    subst₃
      (λ (area : ℕ × ℕ) before after.
        IsView area.0 area.1 (recover_disk area.0 area.1 e) before
        ⊎ IsView area.0 area.1 (recover_disk area.0 area.1 e) after)
      (ap₂ (λ (x y : ℕ). (x, y)) t.area.0 t.area.1) t.disk t.mem atomic
