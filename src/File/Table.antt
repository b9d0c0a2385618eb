-- ===== src/File/Table.antt =====
-- The table of open files under every interleaving: references, and when a file is closed.
use cs.Prelude.{
  ℕ, zero, suc, ◌+◌, ◌-◌, ◌≤◌, ◌<◌, ◌≡◌, ◌≢◌, ◌⊎◌, inl, inr, refl, sym, ◌∙◌, ap, subst, ◌==◌, ltb,
  if◌then◌else◌, true, false, Bool-cases, some, none, arith, update, ==_iff,
}
use mathlib.Core.Option.{some-injective, none-ne-some}
use cs.File.{
  fd_none, File, Ftable, nfile, find_file, filealloc, filedup, Closing, nothing, closing, fileclose,
}

-- What the loop of `filealloc` finds.
pub find_file-cases :
    (n i : ℕ) (t : Ftable)
    → ((j : ℕ) × (find_file n i t ≡ some j) × (j < i + n) × ((t j).ref ≡ 0))
      ⊎ ((find_file n i t ≡ none) × ((j : ℕ) → i ≤ j → j < i + n → (t j).ref ≢ 0))
unfolding find_file
find_file-cases zero i t = inr (refl, λ j lo hi. absurd (omega arith))
find_file-cases (suc n) i t = elim (Bool-cases ((t i).ref == 0)) [
  | inl free ↦ inl (i, rw free refl, omega arith, (==_iff _ 0).0 free)
  | inr used ↦ elim (find_file-cases n (i + 1) t) [
    | inl (j, e, h, z) ↦ inl (j, rw used e, omega arith, z)
    | inr (e, all) ↦ inr (
      rw used e,
      λ j lo hi z. elim (Bool-cases (j == i)) [
        | inl this ↦ ground arith
        | inr later ↦ all j (ground arith) (omega arith) z
      ],
    )
  ]
]

-- The table, and the number of the references that the rest of the kernel holds to each file. `sets`
-- is what a holder writes in a file.
pub record System : Type 0 where
  pub table : Ftable
  pub holders : ℕ → ℕ

pub data Step (s : System) : System → Type 0 where
  allocs :
      (i : ℕ) {t : Ftable}
      → filealloc s.table ≡ some (t, i)
      → Step s (record { table = t; holders = update s.holders i 1 })
  dups :
      (i : ℕ) {t : Ftable}
      → 0 < s.holders i
      → filedup i s.table ≡ some t
      → Step s (record { table = t; holders = update s.holders i (s.holders i + 1) })
  closes :
      (i : ℕ) (c : Closing) {t : Ftable}
      → 0 < s.holders i
      → fileclose i s.table ≡ some (t, c)
      → Step s (record { table = t; holders = update s.holders i (s.holders i - 1) })
  sets :
      (i : ℕ) (f : File)
      → 0 < s.holders i
      → f.ref ≡ (s.table i).ref
      → Step s (record s { table = update s.table i f })

abbrev pub boot : System
boot = record {
  table = λ i. record { kind = fd_none; ref = 0; readable = false; writable = false; off = 0 };
  holders = λ i. 0;
}

pub data Reach : System → Type 0 where
  start : {s : System} → s ≡ boot → Reach s
  after : {s t : System} → Reach s → Step s t → Reach t

abbrev pub Counted : System → Type 0
Counted s = (i : ℕ) → (s.table i).ref ≡ s.holders i

filealloc-free :
    (t : Ftable) (q : Ftable × ℕ)
    → filealloc t ≡ some q
    → ((t q.1).ref ≡ 0) × (q.0 ≡ update t q.1 (record (t q.1) { ref = 1 }))
unfolding filealloc
filealloc-free t q e = elim (find_file-cases nfile 0 t) [
  | inr (full, _) ↦ absurd (none-ne-some _ (rw (full, filealloc) at e))
  | inl (j, found, h, z) ↦
      subst
        (λ (r : Ftable × ℕ). ((t r.1).ref ≡ 0) × (r.0 ≡ update t r.1 (record (t r.1) { ref = 1 })))
        (some-injective _ _ (rw (found, filealloc) at e)) (z, refl)
]

Step-Counted : {s t : System} → Step s t → Counted s → Counted t
unfolding filedup fileclose
Step-Counted {s} (allocs i {t} e) c j =
    let r = filealloc-free s.table (t, i) e in
    ap (λ (f : Ftable). (f j).ref) r.1 ∙ ground (arith, c j)
Step-Counted {s} (dups i h e) c j = elim (Bool-cases (ltb (s.table i).ref 1)) [
  | inl unused ↦ absurd (none-ne-some _ (rw unused at e))
  | inr live ↦
      ap (λ (f : Ftable). (f j).ref) (sym (some-injective _ _ (rw live at e)))
      ∙ ground (arith, c j, c i, ==_iff i j)
]
Step-Counted {s} (closes i k h e) c j = elim (Bool-cases (ltb (s.table i).ref 1)) [
  | inl unused ↦ absurd (none-ne-some _ (rw unused at e))
  | inr live ↦ elim (Bool-cases (ltb 0 ((s.table i).ref - 1))) [
    | inl others ↦
        ap (λ (f : Ftable × Closing). (f.0 j).ref)
          (sym (some-injective _ _ (rw (live, others) at e)))
        ∙ ground (arith, c j, c i, ==_iff i j)
    | inr last ↦
        ap (λ (f : Ftable × Closing). (f.0 j).ref) (sym (some-injective _ _ (rw (live, last) at e)))
        ∙ ground (arith, c j, c i, ==_iff i j)
  ]
]
Step-Counted {s} (sets i f h e) c j = ground (arith, c j, c i, ==_iff i j)

Reach-Counted : {s : System} → Reach s → Counted s
Reach-Counted (start e) = subst Counted (sym e) (λ i. refl)
Reach-Counted (after r step) = Step-Counted step (Reach-Counted r)

-- However files are opened, duplicated and closed: `fileclose` of a file that somebody holds does
-- not panic, and it closes the pipe's end or puts the inode exactly if the reference was the last.
pub Reach-closing :
    {s : System} (i : ℕ)
    → Reach s
    → 0 < s.holders i
    → (t : Ftable) × (fileclose i s.table
        ≡ some (t, if s.holders i == 1 then closing (s.table i) else nothing))
unfolding fileclose
Reach-closing {s} i r h =
    let c = Reach-Counted r in
    let live : ltb (s.table i).ref 1 ≡ false = ground (arith, c i) in
    elim (Bool-cases (s.holders i == 1)) [
      | inl one ↦
          let last : ltb 0 ((s.table i).ref - 1) ≡ false =
            ground (arith, c i, ==_iff (s.holders i) 1) in
          (
            update s.table i (record (s.table i) { ref = 0; kind = fd_none }),
            rw (live, last, one) refl,
          )
      | inr more ↦
          let others : ltb 0 ((s.table i).ref - 1) ≡ true =
            ground (arith, c i, ==_iff (s.holders i) 1) in
          (
            update s.table i (record (s.table i) { ref = (s.table i).ref - 1 }),
            rw (live, others, more) refl,
          )
    ]

-- `filealloc` returns only files that nobody holds.
pub Reach-filealloc :
    {s : System} (q : Ftable × ℕ) → Reach s → filealloc s.table ≡ some q → s.holders q.1 ≡ 0
Reach-filealloc {s} q r e = sym (Reach-Counted r q.1) ∙ (filealloc-free s.table q e).0
