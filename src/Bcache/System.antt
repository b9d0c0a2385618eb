-- ===== src/Bcache/System.antt =====
-- The buffer cache under every interleaving of the processes that use it.
use cs.Prelude.{ℕ, ◌+◌, ◌-◌, ◌<◌, ◌≡◌, true, false, some, u32_mod, update}
use cs.Bcache.{
  Bcache, Block, binit, bget, lock_buf, bread_locked, modify, bwrite, unlock_buf, drop_buf,
}

-- `waiting i` counts the processes whose `bget` returned the buffer `i` and that have not locked it yet,
-- and `leaving i` those that have unlocked it in `brelse` and not yet dropped their reference.
pub record System : Type 0 where
  pub cache : Bcache
  pub waiting : ℕ → ℕ
  pub leaving : ℕ → ℕ

-- `b->flags |= B_DIRTY`, as log_write does.
abbrev pub pinned : ℕ → Bcache → Bcache
pinned i c = record c { buf = update c.buf i (record (c.buf i) { dirty = true }) }

-- What the holder of a buffer must leave behind in it: data that are on disk, or are pinned.
abbrev pub Settled : ℕ → Bcache → Type 0
Settled i c =
    (c.buf i).valid ≡ true
    → (c.buf i).dirty ≡ false
    → (c.buf i).content ≡ c.memdisk (c.buf i).blockno

-- A step of some process. Fewer than 2 ^ 32 processes use one buffer.
pub data Step (s : System) : System → Type 0 where
  gets :
      (dev blockno i : ℕ) {c : Bcache}
      → bget dev blockno s.cache ≡ some (c, i)
      → s.waiting i + s.leaving i + 2 < u32_mod
      → Step s (record s { cache = c; waiting = update s.waiting i (s.waiting i + 1) })
  locks :
      (i : ℕ)
      → 0 < s.waiting i
      → (s.cache.buf i).locked ≡ false
      → Step s
          (record s { cache = lock_buf i s.cache; waiting = update s.waiting i (s.waiting i - 1) })
  reads :
      (i : ℕ) {c : Bcache}
      → (s.cache.buf i).locked ≡ true
      → bread_locked i s.cache ≡ some c
      → Step s (record s { cache = c })
  modifies :
      (i : ℕ) (x : Block)
      → (s.cache.buf i).locked ≡ true
      → (s.cache.buf i).valid ≡ true
      → Step s (record s { cache = modify i x s.cache })
  pins :
      (i : ℕ)
      → (s.cache.buf i).locked ≡ true
      → (s.cache.buf i).valid ≡ true
      → Step s (record s { cache = pinned i s.cache })
  writes :
      (i : ℕ) {c : Bcache}
      → (s.cache.buf i).valid ≡ true
      → bwrite i s.cache ≡ some c
      → Step s (record s { cache = c })
  unlocks :
      (i : ℕ) {c : Bcache}
      → Settled i s.cache
      → unlock_buf i s.cache ≡ some c
      → Step s (record s { cache = c; leaving = update s.leaving i (s.leaving i + 1) })
  drops :
      (i : ℕ)
      → 0 < s.leaving i
      → Step s
          (record s { cache = drop_buf i s.cache; leaving = update s.leaving i (s.leaving i - 1) })

abbrev pub boot : ℕ → (ℕ → Block) → System
boot disksize memdisk = record {
  cache = binit disksize memdisk;
  waiting = λ i. 0;
  leaving = λ i. 0;
}

pub data Reach (disksize : ℕ) (memdisk : ℕ → Block) : System → Type 0 where
  start : {s : System} → s ≡ boot disksize memdisk → Reach disksize memdisk s
  after : {s t : System} → Reach disksize memdisk s → Step s t → Reach disksize memdisk t
