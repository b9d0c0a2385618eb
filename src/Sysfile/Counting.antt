-- ===== src/Sysfile/Counting.antt =====
-- How many descriptors name a file.
use cs.Prelude.{
  ℕ, ◌+◌, ◌<◌, ◌≡◌, refl, ◌∙◌, ap, ◌==◌, ==_self, if◌then◌else◌, Option, some, none, arith, update,
  update_self, update_ne, total, total-update, le-total,
}
use cs.File.{Ftable}
use cs.Sysfile.{Process, nofile}

abbrev pub names : Option ℕ → ℕ → ℕ
names (some f) i = if f == i then 1 else 0
names none i = 0

abbrev pub count : (ℕ → Option ℕ) → ℕ → ℕ
count ofile i = total nofile (λ fd. names (ofile fd) i)

-- The reference count of every file is the number of the process' descriptors that name it and of
-- the references that are held `elsewhere`.
abbrev pub IsCounted : (ℕ → ℕ) → Process → Ftable → Type 0
IsCounted elsewhere p t = (i : ℕ) → (t i).ref ≡ count p.ofile i + elsewhere i

pub count-update :
    (ofile : ℕ → Option ℕ) (fd i : ℕ) (v : Option ℕ)
    → fd < nofile
    → count (update ofile fd v) i + names (ofile fd) i ≡ count ofile i + names v i
count-update ofile fd i v h =
    total-update nofile (λ k. names (update ofile fd v k) i) (λ k. names (ofile k) i) fd h
      (λ j l ne. ap (λ o. names o i) (update_ne ofile fd v j ne))
    ∙ ap (λ o. count ofile i + names o i) (update_self ofile fd v)

-- A file that a descriptor names is in use.
pub count-positive :
    (ofile : ℕ → Option ℕ) (fd f : ℕ) → fd < nofile → ofile fd ≡ some f → 0 < count ofile f
count-positive ofile fd f h e =
    let l = le-total nofile (λ k. names (ofile k) f) fd h in
    let one : names (ofile fd) f ≡ 1 = rw (e, ==_self f) refl in omega (arith, l, one)
