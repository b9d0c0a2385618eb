-- ===== src/Sysfile/Tests.antt =====
-- A process with the descriptors 0 and 1 open, for one file that nobody else holds.
use cs.Prelude.{ℕ, ◌+◌, ◌≤◌, ◌<◌, ◌≡◌, ◌≢◌, ◌⊎◌, ◌==◌, if◌then◌else◌, some, none, true, arith}
use cs.Syscall.{argint, argptr}
use cs.File.{Ftable, fd_none, fd_inode, nfile}
use cs.Sysfile.{
  Process, nofile, argfd, Done, unchanged, sys_dup, sys_close, open_file, transfer_args,
}
use cs.Sysfile.Counting.{IsCounted}
use cs.Sysfile.Descriptors.{IsOpen}
use cs.Sysfile.Live.{IsUnopened}
use cs.Sysfile.Dup.{Dupped, sys_dup-Dupped}
use cs.Sysfile.Close.{Closed, sys_close-Closed}
use cs.Sysfile.Opening.{Opened, open_file-Opened}
use cs.Sysfile.Transfers.{transfer_args-Inside}

-- The arguments are 1, 50 and 10.
abbrev shell : Process
shell = record {
  caller = record {
    sz = 100;
    mem = λ a. if a == 84 then 1 else if a == 88 then 50 else if a == 92 then 10 else 0;
    esp = 80;
  };
  ofile = λ fd. if fd == 0 then some 3 else if fd == 1 then some 3 else none;
}

abbrev table : Ftable
table i = record {
  kind = if i == 3 then fd_inode 7 else fd_none;
  ref = if i == 3 then 2 else 0;
  readable = true;
  writable = true;
  off = 0;
}

shell-IsCounted : IsCounted (λ i. 0) shell table
shell-IsCounted i = ground arith

sys_dup-Dupped_example :
    ((sys_dup shell table ≡ some (unchanged shell table))
      × (IsUnopened shell ⊎ ((j : ℕ) → j < 16 → IsOpen shell j)))
    ⊎ ((old : ℕ) × (fd : ℕ) × (f : ℕ) × (r : Done) × (sys_dup shell table ≡ some r)
        × (argint shell.caller 0 ≡ some old)
        × Dupped (λ i. 0) shell table old fd f r)
sys_dup-Dupped_example = sys_dup-Dupped (λ i. 0) shell table shell-IsCounted

sys_close-Closed_example :
    ((sys_close shell table ≡ some (unchanged shell table)) × IsUnopened shell)
    ⊎ ((fd : ℕ) × (f : ℕ) × (r : Done) × (sys_close shell table ≡ some r)
        × (argint shell.caller 0 ≡ some fd)
        × (shell.ofile fd ≡ some f)
        × Closed (λ i. 0) shell table fd f r)
sys_close-Closed_example = sys_close-Closed (λ i. 0) shell table shell-IsCounted

open_file-Opened_example :
    ((r : Done) × (open_file 9 1 shell table ≡ some r)
      × (r.result ≡ none)
      × (r.process ≡ shell)
      × IsCounted (λ i. 0) shell r.table
      × (((i : ℕ) → i < nfile → (table i).ref ≢ 0) ⊎ ((j : ℕ) → j < nofile → IsOpen shell j)))
    ⊎ ((fd : ℕ) × (f : ℕ) × (r : Done) × (open_file 9 1 shell table ≡ some r)
        × Opened (λ i. 0) 9 1 shell table fd f r)
open_file-Opened_example = open_file-Opened (λ i. 0) 9 1 shell table shell-IsCounted

transfer_args-Inside_example :
    ((fd : ℕ) × (f : ℕ) × (a : ℕ) × (n : ℕ) × (transfer_args shell ≡ some (f, a, n))
      × ((argint shell.caller 0 ≡ some fd)
          × (argint shell.caller 1 ≡ some a)
          × (argint shell.caller 2 ≡ some n))
      × (fd < 16)
      × (shell.ofile fd ≡ some f)
      × (n < 0x80000000)
      × (a < 100)
      × (a + n ≤ 100))
    ⊎ ((transfer_args shell ≡ none)
        × ((argfd shell 0 ≡ none)
            ⊎ ((argint shell.caller 2 ≡ none)
                ⊎ ((n : ℕ) × (argint shell.caller 2 ≡ some n) × (argptr shell.caller 1 n ≡ none)))))
transfer_args-Inside_example = transfer_args-Inside shell (omega arith)
