-- ===== src/Sysfile/Close.antt =====
-- close.
use cs.Prelude.{
  ℕ, ◌+◌, ◌-◌, ◌<◌, ◌≡◌, ◌≢◌, ◌⊎◌, inl, inr, refl, sym, ◌∙◌, ap, ◌==◌, ==_iff, ==_self, ltb,
  if◌then◌else◌, true, false, Bool-cases, some, none, arith, update, update_self, update_ne,
}
use cs.Syscall.{argint}
use cs.File.{Kind, Ftable, fd_none, fileclose, Closing, nothing, closing}
use cs.Sysfile.{Process, nofile, Done, unchanged, sys_close}
use cs.Sysfile.Counting.{names, count, IsCounted, count-update}
use cs.Sysfile.Descriptors.{argfd-cases}
use cs.Sysfile.Live.{IsUnopened, is_live}

-- What close leaves: one name less.
pub record Closed (elsewhere : ℕ → ℕ) (p : Process) (t : Ftable) (fd f : ℕ) (r : Done)
    : Type 0 where
  pub is_free : r.process.ofile fd ≡ none
  pub others : (j : ℕ) → fd ≢ j → r.process.ofile j ≡ p.ofile j
  pub counted : IsCounted elsewhere r.process r.table
  pub result : r.result ≡ some 0
  pub closes :
      r.closes ≡ (if count r.process.ofile f + elsewhere f == 0 then closing (t f) else nothing)

closed_count :
    (p : Process) (fd f i : ℕ)
    → fd < nofile
    → p.ofile fd ≡ some f
    → count (update p.ofile fd none) i + (if f == i then 1 else 0) ≡ count p.ofile i
closed_count p fd f i h named =
    sym (ap (λ o. count (update p.ofile fd none) i + names o i) named)
    ∙ count-update p.ofile fd i none h
    ∙ plus_zero (count p.ofile i)
  where
    plus_zero : (n : ℕ) → n + 0 ≡ n
    plus_zero n = omega arith

less :
    (elsewhere : ℕ → ℕ) (t : Ftable) (f i n m e : ℕ)
    → n + (if f == i then 1 else 0) ≡ m
    → (t i).ref ≡ m + e
    → (k : Kind) (r : ℕ) → r ≡ (t f).ref - 1
    → (update t f (record (t f) { ref = r; kind = k }) i).ref ≡ n + e
less elsewhere t f i n m e h c k r q = elim (Bool-cases (f == i)) [
  | inl this ↦
      let ref_eq : (t f).ref ≡ (t i).ref = ap (λ j. (t j).ref) ((==_iff f i).0 this) in
      let h' : n + 1 ≡ m = ap (λ b. n + (if b then 1 else 0)) (sym this) ∙ h in
      rw this (omega (arith, h', c, q, ref_eq))
  | inr other ↦
      let h' : n + 0 ≡ m = ap (λ b. n + (if b then 1 else 0)) (sym other) ∙ h in
      rw other (omega (arith, h', c))
]

left_of : (f n m e r : ℕ) → n + (if f == f then 1 else 0) ≡ m → r ≡ m + e → n + e ≡ r - 1
left_of f n m e r h c =
    let h' : n + 1 ≡ m = ap (λ b. n + (if b then 1 else 0)) (sym (==_self f)) ∙ h in
    omega (arith, h', c)

no_more : (n : ℕ) → ltb 0 n ≡ false → 0 ≡ n
no_more n h = ground arith

fileclose-IsCounted :
    (elsewhere : ℕ → ℕ) (p : Process) (t : Ftable) (fd f : ℕ)
    → fd < nofile
    → p.ofile fd ≡ some f
    → IsCounted elsewhere p t
    → (t' : Ftable) × (c : Closing) × (fileclose f t ≡ some (t', c))
      × IsCounted elsewhere (record p { ofile = update p.ofile fd none }) t'
      × (c ≡ (
          if count (update p.ofile fd none) f + elsewhere f == 0 then closing (t f) else nothing))
unfolding fileclose
fileclose-IsCounted elsewhere p t fd f h named c =
    let live : ltb (t f).ref 1 ≡ false = is_live elsewhere p t fd f h named c in
    let left : count (update p.ofile fd none) f + elsewhere f ≡ (t f).ref - 1 =
      left_of f _ _ _ (t f).ref (closed_count p fd f f h named) (c f) in
    elim (Bool-cases (ltb 0 ((t f).ref - 1))) [
      | inl held ↦
          let some_left : (count (update p.ofile fd none) f + elsewhere f == 0) ≡ false =
            decides left held in
          (
            update t f (record (t f) { ref = (t f).ref - 1 }),
            nothing,
            rw (live, held) refl,
            λ i.
                less elsewhere t f i _ _ _ (closed_count p fd f i h named) (c i) ((t f).kind)
                  ((t f).ref - 1) refl,
            rw some_left refl,
          )
      | inr last ↦
          let none_left : (count (update p.ofile fd none) f + elsewhere f == 0) ≡ true =
            decides' left last in
          (
            update t f (record (t f) { ref = 0; kind = fd_none }),
            closing (t f),
            rw (live, last) refl,
            λ i.
                less elsewhere t f i _ _ _ (closed_count p fd f i h named) (c i) fd_none 0
                  (no_more ((t f).ref - 1) last),
            rw none_left refl,
          )
    ]
  where
    decides : {n m : ℕ} → n ≡ m → ltb 0 m ≡ true → (n == 0) ≡ false
    decides e h = rw e (ground arith)

    decides' : {n m : ℕ} → n ≡ m → ltb 0 m ≡ false → (n == 0) ≡ true
    decides' e h = rw e (ground arith)

-- `close` in a process whose descriptors are counted: it never panics. It returns -1, and does
-- nothing, exactly if its argument is no open descriptor; otherwise it returns 0, the descriptor is
-- free, the others name what they did, and every file's reference count is still the number of its
-- holders. The pipe or the inode behind the file is closed exactly if that was its last holder.
pub sys_close-Closed :
    (elsewhere : ℕ → ℕ) (p : Process) (t : Ftable)
    → IsCounted elsewhere p t
    → ((sys_close p t ≡ some (unchanged p t)) × IsUnopened p)
      ⊎ ((fd : ℕ) × (f : ℕ) × (r : Done) × (sys_close p t ≡ some r)
          × (argint p.caller 0 ≡ some fd)
          × (p.ofile fd ≡ some f)
          × Closed elsewhere p t fd f r)
unfolding sys_close
sys_close-Closed elsewhere p t c = elim (argfd-cases p 0) [
  | inr (e, why) ↦ inl (rw (e, sys_close) refl, why)
  | inl (fd, f, e, arg, low, named) ↦
      let (t', k, closed, counted, closes) = fileclose-IsCounted elsewhere p t fd f low named c in
      inr (
        fd,
        f,
        record {
          process = record p { ofile = update p.ofile fd none };
          table = t';
          result = some 0;
          closes = k;
        },
        rw (e, sys_close, closed) refl,
        arg,
        named,
        record {
          is_free = update_self p.ofile fd none;
          others = λ j ne. update_ne p.ofile fd none j ne;
          counted = counted;
          result = refl;
          closes = closes;
        },
      )
]
