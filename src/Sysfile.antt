-- ===== src/Sysfile.antt =====
-- sysfile.c: the file descriptors of a process, and the system calls that are about them. A file is
-- named by its index in the table of open files.
pub mod Descriptors
pub mod Counting
pub mod Live
pub mod Dup
pub mod Close
pub mod Opening
pub mod Transfers
mod Tests
use Prim.Native.Nat.{bit_and}
use cs.Prelude.{
  ℕ, zero, suc, ◌+◌, ◌-◌, ◌*◌, ◌==◌, ltb, leb, if◌then◌else◌, Bool, true, false, not, ◌||◌, Option,
  some, none, update,
}
use cs.Syscall.{Caller, argint, argptr}
use cs.File.{File, Ftable, fd_inode, filealloc, filedup, Closing, nothing, fileclose}

-- NOFILE
abbrev pub nofile : ℕ
nofile = 16

-- `proc`: its memory and its open files.
pub record Process : Type 0 where
  pub caller : Caller
  pub ofile : ℕ → Option ℕ

-- The descriptor and its file. A negative int is no descriptor, as its word is not below `nofile`.
pub argfd : Process → ℕ → Option (ℕ × ℕ)
argfd p n = elim (argint p.caller n) [
  | none ↦ none
  | some fd ↦
      if leb nofile fd then none else elim (p.ofile fd) [ none ↦ none | some f ↦ some (fd, f) ]
]

-- The loop of `fdalloc`: `n` descriptors are left, from `fd` on.
pub free_from : ℕ → ℕ → (ℕ → Option ℕ) → Option ℕ
free_from zero fd ofile = none
free_from (suc n) fd ofile =
    let rest = free_from n (fd + 1) ofile in elim (ofile fd) [ none ↦ some fd | some f ↦ rest ]

pub fdalloc : ℕ → Process → Option (Process × ℕ)
unfolding free_from
fdalloc f p = elim (free_from nofile 0 p.ofile) [
  | none ↦ none
  | some fd ↦ some (record p { ofile = update p.ofile fd (some f) }, fd)
]

-- What a call leaves: the process, the table, what it returns, with -1 as `none`, and what fileclose
-- goes on with.
pub record Done : Type 0 where
  pub process : Process
  pub table : Ftable
  pub result : Option ℕ
  pub closes : Closing

-- The call that returns -1 and has done nothing.
abbrev pub unchanged : Process → Ftable → Done
unchanged p t = record { process = p; table = t; result = none; closes = nothing }

-- `none` is a panic, here and below.
pub sys_dup : Process → Ftable → Option Done
unfolding argfd fdalloc
sys_dup p t = elim (argfd p 0) [
  | none ↦ some (unchanged p t)
  | some (old, f) ↦ elim (fdalloc f p) [
    | none ↦ some (unchanged p t)
    | some (p', fd) ↦ elim (filedup f t) [
      | none ↦ none
      | some t' ↦ some (record { process = p'; table = t'; result = some fd; closes = nothing })
    ]
  ]
]

pub sys_close : Process → Ftable → Option Done
unfolding argfd
sys_close p t = elim (argfd p 0) [
  | none ↦ some (unchanged p t)
  | some (fd, f) ↦ elim (fileclose f t) [
    | none ↦ none
    | some (t', c) ↦ some (record {
      process = record p { ofile = update p.ofile fd none };
      table = t';
      result = some 0;
      closes = c;
    })
  ]
]

-- The checks of `sys_read` and `sys_write`: what fileread and filewrite are called with.
pub transfer_args : Process → Option (ℕ × ℕ × ℕ)
unfolding argfd
transfer_args p = elim (argfd p 0) [
  | none ↦ none
  | some (fd, f) ↦ elim (argint p.caller 2) [
    | none ↦ none
    | some n ↦ elim (argptr p.caller 1 n) [ none ↦ none | some a ↦ some (f, a, n) ]
  ]
]

abbrev pub o_wronly : ℕ
o_wronly = 1

abbrev pub o_rdwr : ℕ
o_rdwr = 2

-- `omode & m`, as a test
abbrev pub has_mode : ℕ → ℕ → Bool
has_mode omode m = not (bit_and omode m == 0)

-- The end of `sys_open`, with the inode `ip` found or created. Its calls of iunlock, iunlockput and
-- end_op, which leave files and descriptors alone, are left out.
pub open_file : ℕ → ℕ → Process → Ftable → Option Done
unfolding fdalloc
open_file ip omode p t = elim (filealloc t) [
  | none ↦ some (unchanged p t)
  | some (t', f) ↦ elim (fdalloc f p) [
    | none ↦ elim (fileclose f t') [
      | none ↦ none
      | some (t'', c) ↦ some (record { process = p; table = t''; result = none; closes = c })
    ]
    | some (p', fd) ↦ some (record {
      process = p';
      table = update t' f (record (t' f) {
        kind = fd_inode ip;
        off = 0;
        readable = not (has_mode omode o_wronly);
        writable = has_mode omode o_wronly || has_mode omode o_rdwr;
      });
      result = some fd;
      closes = nothing;
    })
  ]
]
