-- ===== src/Sysfile/Opening.antt =====
-- The end of open: a file and a descriptor, or neither.
use cs.Prelude.{
  ℕ, ◌+◌, ◌<◌, ◌≡◌, ◌≢◌, ◌⊎◌, inl, inr, refl, sym, ◌∙◌, ap, ◌==◌, ==_iff, ==_self, if◌then◌else◌,
  not, ◌||◌, Bool-cases, some, none, arith, update, update_self, update_ne,
}
use cs.File.{File, Ftable, fd_none, fd_inode, nfile, filealloc, fileclose, nothing, closing}
use cs.File.Table.{find_file-cases}
use cs.Sysfile.{Process, nofile, Done, unchanged, has_mode, o_wronly, o_rdwr, open_file}
use cs.Sysfile.Counting.{names, count, IsCounted, count-update}
use cs.Sysfile.Descriptors.{IsOpen, fdalloc-cases}

filealloc-cases :
    (t : Ftable)
    → ((f : ℕ) × (filealloc t ≡ some (update t f (record (t f) { ref = 1 }), f))
        × (f < nfile)
        × ((t f).ref ≡ 0))
      ⊎ ((filealloc t ≡ none) × ((i : ℕ) → i < nfile → (t i).ref ≢ 0))
unfolding filealloc
filealloc-cases t = elim (find_file-cases nfile 0 t) [
  | inl (f, e, h, z) ↦ inl (f, rw (e, filealloc) refl, omega arith, z)
  | inr (e, all) ↦ inr (rw (e, filealloc) refl, λ i h. all i (omega arith) (omega arith))
]

-- The file that is given up again.
given_up :
    (t : Ftable) (f : ℕ)
    → fileclose f (update t f (record (t f) { ref = 1 }))
      ≡ some (
        update (update t f (record (t f) { ref = 1 })) f (record (t f) { ref = 0; kind = fd_none }),
        closing (t f),
      )
unfolding fileclose
given_up t f = rw (==_self f) refl

given_up-IsCounted :
    (elsewhere : ℕ → ℕ) (p : Process) (t : Ftable) (f : ℕ)
    → (t f).ref ≡ 0
    → IsCounted elsewhere p t
    → IsCounted elsewhere p (
        update (update t f (record (t f) { ref = 1 })) f (record (t f) { ref = 0; kind = fd_none }))
given_up-IsCounted elsewhere p t f z c i = elim (Bool-cases (f == i)) [
  | inl this ↦
      let e : (t f).ref ≡ (t i).ref = ap (λ j. (t j).ref) ((==_iff f i).0 this) in
      rw this (sym z ∙ e ∙ c i)
  | inr other ↦ rw other (c i)
]

-- The file that `open` makes of the inode `ip`.
abbrev pub opened : ℕ → ℕ → File
opened ip omode = record {
  kind = fd_inode ip;
  ref = 1;
  readable = not (has_mode omode o_wronly);
  writable = has_mode omode o_wronly || has_mode omode o_rdwr;
  off = 0;
}

pub record Opened (elsewhere : ℕ → ℕ) (ip omode : ℕ) (p : Process) (t : Ftable) (fd f : ℕ)
    (r : Done) : Type 0 where
  pub in_process : fd < nofile
  pub in_table : f < nfile
  pub was_free : p.ofile fd ≡ none
  pub lowest : (j : ℕ) → j < fd → IsOpen p j
  pub unheld : (t f).ref ≡ 0
  pub names_file : r.process.ofile fd ≡ some f
  pub others : (j : ℕ) → fd ≢ j → r.process.ofile j ≡ p.ofile j
  pub file : r.table f ≡ opened ip omode
  pub other_files : (i : ℕ) → f ≢ i → r.table i ≡ t i
  pub counted : IsCounted elsewhere r.process r.table
  pub result : r.result ≡ some fd

opened-IsCounted :
    (elsewhere : ℕ → ℕ) (ip omode : ℕ) (p : Process) (t : Ftable) (fd f : ℕ)
    → fd < nofile
    → p.ofile fd ≡ none
    → (t f).ref ≡ 0
    → IsCounted elsewhere p t
    → IsCounted elsewhere
        (record p { ofile = update p.ofile fd (some f) })
        (update (update t f (record (t f) { ref = 1 })) f (opened ip omode))
opened-IsCounted elsewhere ip omode p t fd f h free z c i =
    let u : count (update p.ofile fd (some f)) i + 0 ≡ count p.ofile i + names (some f) i =
      sym (ap (λ o. count (update p.ofile fd (some f)) i + names o i) free)
      ∙ count-update p.ofile fd i (some f) h in
    elim (Bool-cases (f == i)) [
      | inl this ↦
          let e : (t f).ref ≡ (t i).ref = ap (λ j. (t j).ref) ((==_iff f i).0 this) in
          let v : count (update p.ofile fd (some f)) i + 0 ≡ count p.ofile i + 1 =
            u ∙ ap (λ b. count p.ofile i + (if b then 1 else 0)) this in
          rw this (one_more _ _ _ v (sym z ∙ e ∙ c i))
      | inr other ↦
          let v : count (update p.ofile fd (some f)) i + 0 ≡ count p.ofile i + 0 =
            u ∙ ap (λ b. count p.ofile i + (if b then 1 else 0)) other in
          rw other (as_many _ _ _ _ v (c i))
    ]
  where
    one_more : (m n e : ℕ) → m + 0 ≡ n + 1 → 0 ≡ n + e → 1 ≡ m + e
    one_more m n e v w = omega arith

    as_many : (r m n e : ℕ) → m + 0 ≡ n + 0 → r ≡ n + e → r ≡ m + e
    as_many r m n e v w = omega arith

-- The end of `open`, with the inode found, in a process whose descriptors are counted: it never
-- panics. It returns -1, with the descriptors and the reference counts as they were, exactly if all
-- files of the table are in use or all descriptors are open. Otherwise it returns the lowest free
-- descriptor, which names a file of the table that nobody held and that is now at the start of the inode, readable
-- and writable as the mode says; the other descriptors and files are as they were, and every file's
-- reference count is the number of its holders.
pub open_file-Opened :
    (elsewhere : ℕ → ℕ) (ip omode : ℕ) (p : Process) (t : Ftable)
    → IsCounted elsewhere p t
    → ((r : Done) × (open_file ip omode p t ≡ some r)
        × (r.result ≡ none)
        × (r.process ≡ p)
        × IsCounted elsewhere p r.table
        × (((i : ℕ) → i < nfile → (t i).ref ≢ 0) ⊎ ((j : ℕ) → j < nofile → IsOpen p j)))
      ⊎ ((fd : ℕ) × (f : ℕ) × (r : Done) × (open_file ip omode p t ≡ some r)
          × Opened elsewhere ip omode p t fd f r)
unfolding open_file
open_file-Opened elsewhere ip omode p t c = elim (filealloc-cases t) [
  | inr (e, all) ↦ inl (unchanged p t, rw (e, open_file) refl, refl, refl, c, inl all)
  | inl (f, e, in_table, z) ↦ elim (fdalloc-cases f p) [
    | inr (full, all) ↦ inl (
      record {
        process = p;
        table =
            update (update t f (record (t f) { ref = 1 })) f
              (record (t f) { ref = 0; kind = fd_none });
        result = none;
        closes = closing (t f);
      },
      rw (e, open_file, full, given_up t f) refl,
      refl,
      refl,
      given_up-IsCounted elsewhere p t f z c,
      inr all,
    )
    | inl (fd, got, h, free, before) ↦ inr (
      fd,
      f,
      record {
        process = record p { ofile = update p.ofile fd (some f) };
        table = update (update t f (record (t f) { ref = 1 })) f (opened ip omode);
        result = some fd;
        closes = nothing;
      },
      rw (e, open_file, got, ==_self f) refl,
      record {
        in_process = h;
        in_table = in_table;
        was_free = free;
        lowest = before;
        unheld = z;
        names_file = update_self p.ofile fd (some f);
        others = λ j ne. update_ne p.ofile fd (some f) j ne;
        file = update_self (update t f (record (t f) { ref = 1 })) f (opened ip omode);
        other_files = λ i ne.
            update_ne (update t f (record (t f) { ref = 1 })) f (opened ip omode) i ne
            ∙ update_ne t f (record (t f) { ref = 1 }) i ne;
        counted = opened-IsCounted elsewhere ip omode p t fd f h free z c;
        result = refl;
      },
    )
  ]
]
