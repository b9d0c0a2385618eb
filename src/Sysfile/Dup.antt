-- ===== src/Sysfile/Dup.antt =====
-- dup.
use cs.Prelude.{
  ℕ, ◌+◌, ◌<◌, ◌≡◌, ◌≢◌, ◌⊎◌, inl, inr, refl, sym, ◌∙◌, ap, ==_iff, ltb, false, some, none, arith,
  update, update_self, update_ne,
}
use cs.Syscall.{argint}
use cs.File.{Ftable, filedup, nothing}
use cs.Sysfile.{Process, nofile, Done, unchanged, sys_dup}
use cs.Sysfile.Counting.{names, count, IsCounted, count-update}
use cs.Sysfile.Descriptors.{IsOpen, fdalloc-cases, argfd-cases}
use cs.Sysfile.Live.{IsUnopened, is_live}

-- What dup leaves: one more name for the file `f`.
pub record Dupped (elsewhere : ℕ → ℕ) (p : Process) (t : Ftable) (old fd f : ℕ) (r : Done)
    : Type 0 where
  pub was_free : p.ofile fd ≡ none
  pub lowest : (j : ℕ) → j < fd → IsOpen p j
  pub in_range : fd < nofile
  pub same_file : (r.process.ofile old ≡ some f) × (r.process.ofile fd ≡ some f)
  pub others : (j : ℕ) → fd ≢ j → r.process.ofile j ≡ p.ofile j
  pub counted : IsCounted elsewhere r.process r.table
  pub result : r.result ≡ some fd

filedup-IsCounted :
    (elsewhere : ℕ → ℕ) (p : Process) (t : Ftable) (fd f : ℕ)
    → fd < nofile
    → p.ofile fd ≡ none
    → IsCounted elsewhere p t
    → IsCounted elsewhere
        (record p { ofile = update p.ofile fd (some f) })
        (update t f (record (t f) { ref = (t f).ref + 1 }))
filedup-IsCounted elsewhere p t fd f h free c i =
    let u : count (update p.ofile fd (some f)) i + 0 ≡ count p.ofile i + names (some f) i =
      sym (ap (λ o. count (update p.ofile fd (some f)) i + names o i) free)
      ∙ count-update p.ofile fd i (some f) h in
    ground (arith, u, c i, c f, ==_iff f i)

-- `dup` in a process whose descriptors are counted: it never panics. It returns -1, and does
-- nothing, exactly if its argument is no open descriptor or all descriptors are open; otherwise it
-- returns the lowest free descriptor, which now names the same file, the other descriptors name what
-- they did, and every file's reference count is still the number of its holders.
pub sys_dup-Dupped :
    (elsewhere : ℕ → ℕ) (p : Process) (t : Ftable)
    → IsCounted elsewhere p t
    → ((sys_dup p t ≡ some (unchanged p t)) × (IsUnopened p ⊎ ((j : ℕ) → j < nofile → IsOpen p j)))
      ⊎ ((old : ℕ) × (fd : ℕ) × (f : ℕ) × (r : Done) × (sys_dup p t ≡ some r)
          × (argint p.caller 0 ≡ some old)
          × Dupped elsewhere p t old fd f r)
unfolding sys_dup filedup
sys_dup-Dupped elsewhere p t c = elim (argfd-cases p 0) [
  | inr (e, why) ↦ inl (rw (e, sys_dup) refl, inl why)
  | inl (old, f, e, arg, low, named) ↦ elim (fdalloc-cases f p) [
    | inr (full, all) ↦ inl (rw (e, sys_dup, full) refl, inr all)
    | inl (fd, got, h, free, before) ↦
        let live : ltb (t f).ref 1 ≡ false = is_live elsewhere p t old f low named c in
        let apart : fd ≢ old = λ q. some_none (sym named ∙ ap p.ofile (sym q) ∙ free) in
        inr (
          old,
          fd,
          f,
          record {
            process = record p { ofile = update p.ofile fd (some f) };
            table = update t f (record (t f) { ref = (t f).ref + 1 });
            result = some fd;
            closes = nothing;
          },
          rw (e, sys_dup, got, live) refl,
          arg,
          record {
            was_free = free;
            lowest = before;
            in_range = h;
            same_file =
                (update_ne p.ofile fd (some f) old apart ∙ named, update_self p.ofile fd (some f));
            others = λ j ne. update_ne p.ofile fd (some f) j ne;
            counted = filedup-IsCounted elsewhere p t fd f h free c;
            result = refl;
          },
        )
  ]
]
  where
    some_none : {f : ℕ} → some f ≡ none → ⊥
    some_none e = cc e
