-- ===== src/Bcache/Tests.antt =====
-- Runs of the buffer cache, and its theorems at them.
use cs.Prelude.{ℕ, none, true, ◌≡◌, refl, some, arith, update}
use cs.Bcache.{
  Bcache, Block, binit, link_from, push_front, scan, bget, iderw, bread_locked, lock_buf,
  unlock_buf, drop_buf, brelse,
}
use cs.Bcache.Order.{shared, reused, put_first}
use cs.Bcache.System.{
  System, Reach, boot, start, after, gets, locks, reads, pins, unlocks, drops, pinned,
}
use cs.Bcache.Disk.{filled}
use cs.Bcache.Reachable.{IsCache, Reach-IsCache, unlocked}
use cs.Bcache.Refinement.{Follows, IsView, Reach-IsView}
use cs.Log.Buffers.{Store}

-- Block `b` holds `b` everywhere.
abbrev disk : ℕ → Block
disk b i = b

abbrev booted : System
booted = boot 1000 disk

-- Block 7 goes to the buffer at the end of the list, the first that `binit` linked.
abbrev with_7 : Bcache
with_7 = reused 1 7 0 booted.cache

first_get : bget 1 7 booted.cache ≡ some (with_7, 0)
unfolding bget binit link_from push_front scan
first_get = refl

second_get : bget 1 7 with_7 ≡ some (shared 0 with_7, 0)
unfolding bget binit link_from push_front scan
second_get = refl

-- The disk has 1000 blocks.
past_the_end : bread_locked 0 (lock_buf 0 (reused 1 1000 0 booted.cache)) ≡ none
unfolding bread_locked lock_buf iderw binit
past_the_end = refl

-- Block 7 is read, pinned and released.
abbrev locked_7 : Bcache
locked_7 = record with_7 { buf = update with_7.buf 0 (record (with_7.buf 0) { locked = true }) }

abbrev read_7 : Bcache
read_7 = filled 0 locked_7

abbrev pinned_7 : Bcache
pinned_7 = pinned 0 read_7

abbrev unlocked_7 : Bcache
unlocked_7 = unlocked 0 pinned_7

abbrev dropped_7 : System
dropped_7 = record {
  cache = drop_buf 0 unlocked_7;
  waiting = update (update booted.waiting 0 1) 0 0;
  leaving = update (update booted.leaving 0 1) 0 0;
}

lock_7 : lock_buf 0 with_7 ≡ locked_7
unfolding lock_buf
lock_7 = refl

fill_7 : bread_locked 0 locked_7 ≡ some read_7
unfolding bread_locked iderw binit
fill_7 = refl

unlock_7 : unlock_buf 0 pinned_7 ≡ some unlocked_7
unfolding unlock_buf binit
unlock_7 = refl

get_reach : Reach 1000 disk dropped_7
unfolding lock_buf binit
get_reach =
    after
      (after
        (after
          (after
            (after (after (start refl) (gets 1 7 0 first_get (omega arith)))
              (locks 0 (omega arith) refl))
            (reads 0 refl fill_7))
          (pins 0 refl refl))
        (unlocks 0 (λ v d. cc) unlock_7))
      (drops 0 (omega arith))

IsCache-reached_example : IsCache dropped_7
IsCache-reached_example = Reach-IsCache 1000 disk get_reach

IsView-reached_example : (st : Store) × Follows get_reach st × IsView dropped_7 st
IsView-reached_example = Reach-IsView 1000 disk get_reach

-- Buffer 3, held by one process, as it is released.
abbrev holding_3 : Bcache
holding_3 = lock_buf 3 (shared 3 booted.cache)

release_3 : brelse 3 holding_3 ≡ some (put_first 3 (unlocked 3 holding_3))
unfolding brelse unlock_buf drop_buf lock_buf binit
release_3 = refl
