-- ===== src/Bcache.antt =====
-- bio.c: the buffer cache, and the memory disk of memide.c below it. A pointer to a buffer is its
-- index in `bcache.buf`; `head` is the index after the last. Each function is what runs under
-- `bcache.lock`, or by the holder of the buffer's sleep lock.
pub mod Ring
pub mod Scan
pub mod Order
pub mod Disk
pub mod System
pub mod Counted
pub mod Reachable
pub mod View
pub mod Refinement
mod Tests
use mathlib.Core.Option
use cs.Prelude.{
  ℕ, zero, suc, ◌+◌, ◌==◌, ltb, if◌then◌else◌, Bool, true, false, not, ◌&&◌, Option, some, none,
  update, add32,
}

-- A block's bytes.
abbrev pub Block : Type 0
Block = ℕ → ℕ

-- NBUF
abbrev pub nbuf : ℕ
nbuf = 30

abbrev pub head : ℕ
head = nbuf

-- `struct buf`, less its links; `valid` and `dirty` are B_VALID and B_DIRTY of `flags`, and
-- `locked` is what `holdingsleep(&b->lock)` returns.
pub record Buf : Type 0 where
  pub dev : ℕ
  pub blockno : ℕ
  pub valid : Bool
  pub dirty : Bool
  pub refcnt : ℕ
  pub locked : Bool
  pub content : Block

-- `bcache`, less its lock, and the disk: `next` and `prev` hold the links of the buffers and of
-- `bcache.head`.
pub record Bcache : Type 0 where
  pub buf : ℕ → Buf
  pub next : ℕ → ℕ
  pub prev : ℕ → ℕ
  pub memdisk : ℕ → Block
  pub disksize : ℕ

-- The list's links alone.
pub record Links : Type 0 where
  pub next : ℕ → ℕ
  pub prev : ℕ → ℕ

-- `b->next = head.next; b->prev = &head; head.next->prev = b; head.next = b`
pub push_front : ℕ → Links → Links
push_front b l =
    let next = update l.next b (l.next head) in
    let prev = update l.prev b head in
    record { next = update next head b; prev = update prev (next head) b }

-- `b->next->prev = b->prev; b->prev->next = b->next`
pub unlink : ℕ → Links → Links
unlink b l =
    let prev = update l.prev (l.next b) (l.prev b) in
    record { next = update l.next (prev b) (l.next b); prev = prev }

-- The loop of `binit`; `n` buffers are left, from `b` on.
pub link_from : ℕ → ℕ → Links → Links
link_from zero b l = l
link_from (suc n) b l = link_from n (b + 1) (push_front b l)

abbrev pub zero_buf : Buf
zero_buf = record {
  dev = 0;
  blockno = 0;
  valid = false;
  dirty = false;
  refcnt = 0;
  locked = false;
  content = λ i. 0;
}

abbrev pub links : Bcache → Links
links c = record { next = c.next; prev = c.prev }

-- The cache that `binit` leaves, with the disk of `ideinit`.
pub binit : ℕ → (ℕ → Block) → Bcache
binit disksize memdisk =
    let l = link_from nbuf 0 (record { next = λ i. head; prev = λ i. head }) in
    record {
      buf = λ i. zero_buf;
      next = l.next;
      prev = l.prev;
      memdisk = memdisk;
      disksize = disksize;
    }

-- The loops of `bget`, which follow `next` or `prev` from `b` to the head. Fuel `n` is spent on a
-- buffer each.
pub scan : (ℕ → ℕ) → (ℕ → Bool) → ℕ → ℕ → Option ℕ
scan link test zero b = none
scan link test (suc n) b =
    let rest = scan link test n (link b) in
    if b == head then none else if test b then some b else rest

abbrev pub is_for : ℕ → ℕ → Buf → Bool
is_for dev blockno b = b.dev == dev && b.blockno == blockno

abbrev pub is_free : Buf → Bool
is_free b = b.refcnt == 0 && not b.dirty

-- The recycled buffer.
abbrev pub recycled : ℕ → ℕ → Buf → Buf
recycled dev blockno b = record b {
  dev = dev;
  blockno = blockno;
  valid = false;
  dirty = false;
  refcnt = 1;
}

-- `bget` up to its `acquiresleep`; `none` is the panic.
pub bget : ℕ → ℕ → Bcache → Option (Bcache × ℕ)
unfolding scan
bget dev blockno c = elim (scan c.next (λ i. is_for dev blockno (c.buf i)) nbuf (c.next head)) [
  | some i ↦
      let b = c.buf i in
      some (record c { buf = update c.buf i (record b { refcnt = add32 b.refcnt 1 }) }, i)
  | none ↦ elim (scan c.prev (λ i. is_free (c.buf i)) nbuf (c.prev head)) [
    | some i ↦ some (record c { buf = update c.buf i (recycled dev blockno (c.buf i)) }, i)
    | none ↦ none
  ]
]

-- The end of `acquiresleep(&b->lock)`: the lock was free.
pub lock_buf : ℕ → Bcache → Bcache
lock_buf i c = record c { buf = update c.buf i (record (c.buf i) { locked = true }) }

-- `iderw` of memide.c; `none` is one of its panics.
pub iderw : ℕ → Bcache → Option Bcache
iderw i c =
    let b = c.buf i in
    if not b.locked
    then none
    else if b.valid && not b.dirty
    then none
    else if not (b.dev == 1)
    then none
    else if not (ltb b.blockno c.disksize)
    then none
    else if b.dirty
    then some (record c {
      buf = update c.buf i (record b { dirty = false; valid = true });
      memdisk = update c.memdisk b.blockno b.content;
    })
    else some (record c {
      buf = update c.buf i (record b { content = c.memdisk b.blockno; valid = true });
    })

-- `bread` from the return of `bget` on.
pub bread_locked : ℕ → Bcache → Option Bcache
unfolding iderw
bread_locked i c = if not (c.buf i).valid then iderw i c else some c

-- The holder of a buffer changes its data, or sets B_DIRTY, as log_write does.
pub modify : ℕ → Block → Bcache → Bcache
modify i x c = record c { buf = update c.buf i (record (c.buf i) { content = x }) }

pub bwrite : ℕ → Bcache → Option Bcache
unfolding iderw
bwrite i c =
    if not (c.buf i).locked
    then none
    else iderw i (record c { buf = update c.buf i (record (c.buf i) { dirty = true }) })

-- `brelse` up to `releasesleep(&b->lock)`; `none` is the panic.
pub unlock_buf : ℕ → Bcache → Option Bcache
unlock_buf i c =
    if not (c.buf i).locked
    then none
    else some (record c { buf = update c.buf i (record (c.buf i) { locked = false }) })

-- `brelse` from `acquire(&bcache.lock)` on; the reference count is a `uint`.
pub drop_buf : ℕ → Bcache → Bcache
unfolding push_front unlink
drop_buf i c =
    let b = c.buf i in
    let dropped = record b { refcnt = add32 b.refcnt 0xFFFFFFFF } in
    let moved = push_front i (unlink i (links c)) in
    if dropped.refcnt == 0
    then record c { buf = update c.buf i dropped; next = moved.next; prev = moved.prev }
    else record c { buf = update c.buf i dropped }

-- `brelse` that no other process gets in between.
pub brelse : ℕ → Bcache → Option Bcache
unfolding unlock_buf drop_buf
brelse i c = Option.map (drop_buf i) (unlock_buf i c)
