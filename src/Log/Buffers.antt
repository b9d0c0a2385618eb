-- ===== src/Log/Buffers.antt =====
-- The buffer cache as log.c sees it: the disk, and for each block the data that `bread` finds.
-- A block that is not pinned may be evicted and read again; then `mem` and `disk` agree on it.
use cs.Prelude.{ℕ, Bool, true, false, List, [], ◌∷◌, update}

-- A block's 128 words.
abbrev pub Block : Type 0
Block = ℕ → ℕ

abbrev pub Disk : Type 0
Disk = ℕ → Block

-- `past` is for the proofs about a loss of power: the disks before each write so far, newest first.
pub record Store : Type 0 where
  pub disk : Disk
  pub mem : Disk
  pub dirty : ℕ → Bool
  pub past : List Disk

abbrev pub bread : Store → ℕ → Block
bread s b = s.mem b

-- A write to disk of a buffer whose data is now `x`.
abbrev pub bwrite : Store → ℕ → Block → Store
bwrite s b x = record {
  disk = update s.disk b x;
  mem = update s.mem b x;
  dirty = update s.dirty b false;
  past = s.disk ∷ s.past;
}

-- The holder of a buffer changes its data.
abbrev pub modify : Store → ℕ → Block → Store
modify s b x = record s { mem = update s.mem b x }

-- `b->flags |= B_DIRTY`
abbrev pub pin : Store → ℕ → Store
pin s b = record s { dirty = update s.dirty b true }

-- A machine that has just started: no buffer holds anything but what is on disk.
abbrev pub boot : Disk → Store
boot d = record { disk = d; mem = d; dirty = λ b. false; past = [] }
