-- ===== src/File.antt =====
-- file.c: the table of open files. A pointer to a file is its index in `ftable.file`. filealloc,
-- filedup and the first stretch of fileclose run under `ftable.lock`. The calls of a pipe or an
-- inode that a file stands for are named by their result (`Closing`) or are parameters.
pub mod Table
pub mod Write
mod Tests
use cs.Prelude.{
  ℕ, zero, suc, ◌+◌, ◌-◌, ◌*◌, ◌/◌, ◌==◌, ltb, leb, if◌then◌else◌, Bool, true, false, not, List, [],
  ◌∷◌, Option, some, none, update, add32,
}
use cs.Log.{log_size}

-- NFILE
abbrev pub nfile : ℕ
nfile = 100

-- `type` with the pipe or the inode, by its address.
pub data Kind : Type 0 where
  fd_none : Kind
  fd_pipe : ℕ → Kind
  fd_inode : ℕ → Kind

-- `struct file`; `ref` is an int.
pub record File : Type 0 where
  pub kind : Kind
  pub ref : ℕ
  pub readable : Bool
  pub writable : Bool
  pub off : ℕ

abbrev pub Ftable : Type 0
Ftable = ℕ → File

-- The loop of `filealloc`: `n` files are left, from `i` on.
pub find_file : ℕ → ℕ → Ftable → Option ℕ
find_file zero i t = none
find_file (suc n) i t = let rest = find_file n (i + 1) t in if (t i).ref == 0 then some i else rest

unfoldable pub filealloc : Ftable → Option (Ftable × ℕ)
unfolding find_file
filealloc t = elim (find_file nfile 0 t) [
  | some i ↦ some (update t i (record (t i) { ref = 1 }), i)
  | none ↦ none
]

-- `none` is the panic.
unfoldable pub filedup : ℕ → Ftable → Option Ftable
filedup i t =
    if ltb (t i).ref 1 then none else some (update t i (record (t i) { ref = (t i).ref + 1 }))

-- What `fileclose` goes on with, after it has released the lock: `pipeclose` of an end, or `iput` of
-- an inode in a transaction.
pub data Closing : Type 0 where
  nothing : Closing
  closes_pipe : ℕ → Bool → Closing
  puts_inode : ℕ → Closing

abbrev pub closing : File → Closing
closing f = elim f.kind [
  | fd_none ↦ nothing
  | fd_pipe p ↦ closes_pipe p f.writable
  | fd_inode ip ↦ puts_inode ip
]

unfoldable pub fileclose : ℕ → Ftable → Option (Ftable × Closing)
fileclose i t =
    let f = t i in
    if ltb f.ref 1
    then none
    else if ltb 0 (f.ref - 1)
    then some (update t i (record f { ref = f.ref - 1 }), nothing)
    else some (update t i (record f { ref = 0; kind = fd_none }), closing f)

-- What a call of `writei` returns: a number of bytes, or -1.
pub data Wrote : Type 0 where
  wrote : ℕ → Wrote
  failed : Wrote

-- The result of `filewrite`: the return value, -1 being `failed`; or a panic.
pub data Written : Type 0 where
  returns : Wrote → Written
  panics : Written

-- The most bytes that `filewrite` writes in a transaction.
abbrev pub max : ℕ
max = (log_size - 1 - 1 - 2) / 2 * 512

-- `n1`
abbrev pub chunk : ℕ → ℕ
chunk left = if ltb max left then max else left

-- The state `S` of the kernel has the open file in it: `off` reads its `f->off`, a `uint`, and
-- `set_off` writes it. The parameters that begin with a number get the place in the buffer at which
-- a round of the loop starts: `enter` is what happens from the start of the round to the return of
-- `ilock` (begin_op, ilock, and whatever other processes do meanwhile, with this file too), `leave`
-- is iunlock and end_op, and `writei` is called with that place, the offset and the number of bytes.
module _ {S : Type 0} (off : S → ℕ) (set_off : ℕ → S → S) (enter leave : ℕ → S → S) where
  -- `if(r > 0) f->off += r`
  pub move_off : ℕ → S → S
  move_off r s = if ltb 0 r then set_off (add32 (off s) r) s else s

  module _ (writei : ℕ → ℕ → ℕ → S → S × Wrote) where
    -- The loop of `filewrite`; fuel `fuel` is spent on a round each.
    pub write_from : ℕ → ℕ → ℕ → S → S × Written
    unfolding move_off
    write_from zero i n s = (s, panics)
    write_from (suc fuel) i n s = elim (ltb i n) [
      | false ↦ (s, returns (if i == n then wrote n else failed))
      | true ↦
          let s0 = enter i s in
          let (s1, r) = writei i (off s0) (chunk (n - i)) s0 in
          elim r [
            | failed ↦ (leave i s1, returns failed)
            | wrote k ↦ elim (k == chunk (n - i)) [
              | true ↦ write_from fuel (i + k) n (leave i (move_off k s1))
              | false ↦ (leave i (move_off k s1), panics)
            ]
          ]
    ]

  -- `pipewrite`, whose arguments are the pipe and the number of bytes, and `writei` of an inode.
  module _ (pipewrite : ℕ → ℕ → S → S × Wrote) (writei : ℕ → ℕ → ℕ → ℕ → S → S × Wrote) where
    -- `n` is not negative; with a negative one the loop is left at once with -1.
    pub filewrite : File → ℕ → S → S × Written
    unfolding write_from
    filewrite f n s =
        if f.writable
        then elim f.kind [
          | fd_none ↦ (s, panics)
          | fd_pipe p ↦ let (s', r) = pipewrite p n s in (s', returns r)
          | fd_inode ip ↦ write_from (writei ip) (n + 1) 0 n s
        ]
        else (s, returns failed)
