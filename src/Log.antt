-- ===== src/Log.antt =====
-- log.c: the redo log of the file system. `Buffers` is what it uses of the buffer cache.
-- `log.lh` is the list of its first `n` block numbers. On disk the header is a block of words: word
-- 0 is `n`, and the words from 1 on are `block[]`.
pub mod Buffers
pub mod Header
pub mod Install
pub mod Recovery
pub mod Crash
pub mod Transaction
pub mod Reserve
mod Tests
use cs.Prelude.{
  ℕ, zero, suc, ◌+◌, ◌-◌, ◌*◌, ◌==◌, ltb, leb, if◌then◌else◌, Bool, true, false, ◌||◌, List, [],
  ◌∷◌, ◌++◌, Option, none, some, update, length,
}
use Buffers.{Block, Store, bread, bwrite, pin, boot}

-- LOGSIZE and MAXOPBLOCKS of param.h.
abbrev pub max_op_blocks : ℕ
max_op_blocks = 10

abbrev pub log_size : ℕ
log_size = max_op_blocks * 3

-- `struct log`, less its lock and its device, with `lh` as a list.
pub record Log : Type 0 where
  pub start : ℕ
  pub size : ℕ
  pub outstanding : ℕ
  pub committing : Bool
  pub lh : List ℕ

-- The log and the buffers that it works on.
pub record Fs : Type 0 where
  pub log : Log
  pub store : Store

-- The words `i`, `i + 1`, … of a block.
pub words : Block → ℕ → ℕ → List ℕ
words blk zero i = []
words blk (suc n) i = blk i ∷ words blk n (i + 1)

-- The loop of `write_head`: `hb->block[i] = log.lh.block[i]`.
pub put_words : Block → List ℕ → ℕ → Block
put_words blk [] i = blk
put_words blk (h ∷ hs) i = put_words (update blk i h) hs (i + 1)

-- What `read_head` reads from the header block.
pub decode : Block → List ℕ
unfolding words
decode blk = words blk (blk 0) 1

-- What `write_head` makes of the header block.
pub encode : Block → List ℕ → Block
unfolding put_words
encode blk hs = put_words (update blk 0 (length hs)) hs 1

pub read_head : Fs → Fs
unfolding decode
read_head g = record g { log = record (g.log) { lh = decode (bread g.store g.log.start) } }

pub write_head : Fs → Fs
unfolding encode
write_head g =
    let hb = encode (bread g.store g.log.start) g.log.lh in
    record g { store = bwrite g.store g.log.start hb }

-- The loop of `install_trans` from `tail` on; the list is `block[tail..n)`.
pub install_from : ℕ → List ℕ → ℕ → Store → Store
install_from start [] tail s = s
install_from start (h ∷ hs) tail s =
    install_from start hs (tail + 1) (bwrite s h (bread s (start + tail + 1)))

pub install_trans : Fs → Fs
unfolding install_from
install_trans g = record g { store = install_from g.log.start g.log.lh 0 g.store }

-- The loop of `write_log` from `tail` on.
pub write_log_from : ℕ → List ℕ → ℕ → Store → Store
write_log_from start [] tail s = s
write_log_from start (h ∷ hs) tail s =
    write_log_from start hs (tail + 1) (bwrite s (start + tail + 1) (bread s h))

pub write_log : Fs → Fs
unfolding write_log_from
write_log g = record g { store = write_log_from g.log.start g.log.lh 0 g.store }

-- `log.lh.n = 0`
abbrev pub clear : Fs → Fs
clear g = record g { log = record (g.log) { lh = [] } }

pub recover_from_log : Fs → Fs
unfolding read_head write_head install_trans
recover_from_log g = write_head (clear (install_trans (read_head g)))

-- `initlog`, with `sb.logstart` and `sb.nlog`, on a machine that starts from this disk. The other
-- fields of `struct log` are zero, as static data.
pub initlog : ℕ → ℕ → (ℕ → Block) → Fs
unfolding recover_from_log
initlog logstart nlog disk = recover_from_log (record {
  log = record { start = logstart; size = nlog; outstanding = 0; committing = false; lh = [] };
  store = boot disk;
})

pub commit : Fs → Fs
unfolding write_log write_head install_trans
commit g =
    if ltb 0 (length g.log.lh)
    then write_head (clear (install_trans (write_head (write_log g))))
    else g

-- One pass of the loop of `begin_op`: none is a sleep on `&log`, after which it runs again.
pub begin_op : Log → Option Log
begin_op l =
    if l.committing
    then none
    else if ltb log_size (length l.lh + (l.outstanding + 1) * max_op_blocks)
    then none
    else some (record l { outstanding = l.outstanding + 1 })

-- What the first critical section of `end_op` decides. Both other ends call `wakeup(&log)`: `more`
-- at once, and `last` after the commit.
pub data End : Type 0 where
  panicked : End
  last : Log → End
  more : Log → End

-- `outstanding` is an `int` there, and is at least 1: each `end_op` follows a `begin_op`.
pub end_op : Log → End
end_op l =
    let l' = record l { outstanding = l.outstanding - 1 } in
    if l.committing
    then panicked
    else if l.outstanding == 1
    then last (record l' { committing = true })
    else more l'

-- The rest of `end_op` where it commits.
pub commit_op : Fs → Fs
unfolding commit
commit_op g = let g' = commit g in record g' { log = record (g'.log) { committing = false } }

-- The search of `log_write`, and the append where the block is new.
unfoldable pub absorb : ℕ → List ℕ → List ℕ
absorb b [] = b ∷ []
absorb b (h ∷ hs) = let rest = absorb b hs in if h == b then h ∷ hs else h ∷ rest

-- `log_write` of the buffer of block `b`; none is a panic.
unfoldable pub log_write : ℕ → Fs → Option Fs
unfolding absorb
log_write b g =
    if leb log_size (length g.log.lh) || leb (g.log.size - 1) (length g.log.lh)
    then none
    else if ltb g.log.outstanding 1
    then none
    else some (record { log = record (g.log) { lh = absorb b g.log.lh }; store = pin g.store b })
