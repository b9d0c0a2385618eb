-- ===== src/Sysfile/Transfers.antt =====
-- What read and write are called with.
use cs.Prelude.{ℕ, ◌+◌, ◌≤◌, ◌<◌, ◌≡◌, ◌⊎◌, inl, inr, refl, some, none, Option-cases}
use cs.Syscall.{argint, argptr}
use cs.Syscall.Arguments.{argptr-Inside}
use cs.Sysfile.{Process, nofile, argfd, transfer_args}
use cs.Sysfile.Descriptors.{argfd-cases}

-- The checks of `read` and `write`, in a process whose memory ends below the kernel's half: if they
-- pass, fileread or filewrite gets a file that an open descriptor of the process names, and a buffer
-- of a size that is not negative and lies all in the process' memory; they fail exactly if the
-- descriptor, the size or the buffer is refused.
pub transfer_args-Inside :
    (p : Process)
    → p.caller.sz ≤ 0x80000000
    → ((fd : ℕ) × (f : ℕ) × (a : ℕ) × (n : ℕ) × (transfer_args p ≡ some (f, a, n))
        × ((argint p.caller 0 ≡ some fd)
            × (argint p.caller 1 ≡ some a)
            × (argint p.caller 2 ≡ some n))
        × (fd < nofile)
        × (p.ofile fd ≡ some f)
        × (n < 0x80000000)
        × (a < p.caller.sz)
        × (a + n ≤ p.caller.sz))
      ⊎ ((transfer_args p ≡ none)
          × ((argfd p 0 ≡ none)
              ⊎ ((argint p.caller 2 ≡ none)
                  ⊎ ((n : ℕ) × (argint p.caller 2 ≡ some n) × (argptr p.caller 1 n ≡ none)))))
unfolding transfer_args
transfer_args-Inside p h = elim (argfd-cases p 0) [
  | inr (e, why) ↦ inr (rw (e, transfer_args) refl, inl e)
  | inl (fd, f, e, arg, low, named) ↦ elim (Option-cases (argint p.caller 2)) [
    | inl missing ↦ inr (rw (e, transfer_args, missing) refl, inr (inl missing))
    | inr (n, size) ↦ elim (argptr-Inside p.caller 1 n h) [
      | inr (bad, why) ↦ inr (rw (e, transfer_args, size, bad) refl, inr (inr (n, size, bad)))
      | inl (a, good, at, small, start, end) ↦ inl (
        fd,
        f,
        a,
        n,
        rw (e, transfer_args, size, good) refl,
        (arg, at, size),
        low,
        named,
        small,
        start,
        end,
      )
    ]
  ]
]
