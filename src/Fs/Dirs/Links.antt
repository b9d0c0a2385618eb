-- ===== src/Fs/Dirs/Links.antt =====
-- What `dirlookup` finds after `dirlink`.
use cs.Prelude.{
  ℕ, ◌+◌, ◌%◌, ◌≤◌, ◌<◌, ◌≡◌, ◌≢◌, inl, inr, refl, sym, ◌∙◌, ap, ap₂, ◌==◌, ltb, if◌then◌else◌,
  true, false, Bool-cases, List, [], ◌∷◌, Option, Option-cases, some, none, arith, take, ==_iff,
  ==_ne, ==_self, ltb→lt,
}
use mathlib.Core.Option.{none-ne-some}
use cs.Fs.Dirs.{
  Dirent, dirsiz, max_bytes, same_name, namecmp, lookup_from, dirlookup, empty_from, put_entry,
  Linked, exists_already, linked, panics, dirlink,
}

le-empty_from : (off : ℕ) (des : List Dirent) → off ≤ empty_from off des
unfolding empty_from
le-empty_from off [] = omega arith
le-empty_from off (e ∷ des) = elim (Bool-cases (e.inum == 0)) [
  | inl free ↦ rw free (omega arith)
  | inr used ↦ rw used (omega (arith, le-empty_from (off + 16) des))
]

-- An entry in use in front: `old` and `new` are what is found behind it before and after.
after_entry :
    (name field : List ℕ) (de : Dirent) (off : ℕ) (old new : Option (ℕ × ℕ)) (inum at_off : ℕ)
    → (namecmp name de.name ≡ true → (if namecmp name field then some (inum, off) else old) ≡ none)
    → ((namecmp name de.name ≡ true → old ≡ none)
        → new ≡ (if namecmp name de.name then some (de.inum, at_off) else old))
    → (if namecmp name field then some (inum, off) else new) ≡ (
        if namecmp name de.name
        then some (de.inum, at_off)
        else if namecmp name field
        then some (inum, off)
        else old)
after_entry name field de off old new inum at_off h ih = elim (Bool-cases (namecmp name field)) [
  | inl here ↦ elim (Bool-cases (namecmp name de.name)) [
    | inl same ↦ absurd (none-ne-some _ (sym (rw here at (h same))))
    | inr other ↦ rw (here, other) refl
  ]
  | inr not_here ↦ rw not_here (ih (λ same. rw not_here at (h same)))
]

-- An entry put at the first empty place. `at` is that place, as the loops count it.
lookup-put_entry :
    (off : ℕ) (name : List ℕ) (de : Dirent) (des : List Dirent)
    → de.inum ≢ 0
    → (namecmp name de.name ≡ true → lookup_from off name des ≡ none)
    → lookup_from off name (put_entry off (empty_from off des) de des) ≡ (
        if namecmp name de.name
        then some (de.inum, empty_from off des)
        else lookup_from off name des)
unfolding lookup_from put_entry empty_from
lookup-put_entry off name de [] live h =
    let not_zero : (de.inum == 0) ≡ false = ==_ne de.inum 0 live in rw not_zero refl
lookup-put_entry off name de (e ∷ des) live h =
    let not_zero : (de.inum == 0) ≡ false = ==_ne de.inum 0 live in
    elim (Bool-cases (e.inum == 0)) [
      | inl free ↦ rw free (rw (==_self off) (rw not_zero refl))
      | inr used ↦
          let later : (off == empty_from (off + 16) des) ≡ false =
            ==_ne off (empty_from (off + 16) des)
              (λ q. omega (arith, le-empty_from (off + 16) des)) in
          let rest = lookup-put_entry (off + 16) name de des live in
          rw used (
            rw (later, lookup_from)
              (rw used (
                after_entry name e.name de off (lookup_from (off + 16) name des)
                  (lookup_from (off + 16) name
                    (put_entry (off + 16) (empty_from (off + 16) des) de des))
                  e.inum (empty_from (off + 16) des) (λ same. rw (used, lookup_from) at (h same))
                  rest)))
    ]

same_name-eq : (s t : List ℕ) → same_name s t ≡ true → s ≡ t
unfolding same_name
same_name-eq [] [] h = refl
same_name-eq [] (d ∷ t) h = cc
same_name-eq (c ∷ s) [] h = cc
same_name-eq (c ∷ s) (d ∷ t) h = elim (Bool-cases (c == d)) [
  | inl e ↦ ap₂ (λ x xs. x ∷ xs) ((==_iff c d).0 e) (same_name-eq s t (ground arith))
  | inr ne ↦ absurd (ground arith)
]

-- Only the first DIRSIZ bytes of a name count.
lookup_cut :
    (off : ℕ) (m n : List ℕ) (des : List Dirent)
    → take dirsiz m ≡ take dirsiz n
    → lookup_from off m des ≡ lookup_from off n des
unfolding lookup_from
lookup_cut off m n [] e = refl
lookup_cut off m n (de ∷ des) e =
    let rest = lookup_cut (off + 16) m n des e in
    let same : namecmp m de.name ≡ namecmp n de.name = ap (λ s. same_name s de.name) e in
    rw (same, rest) refl

-- What a directory holds after a successful `dirlink`: the new name, cut to DIRSIZ bytes, leads to
-- the new inode, and every other name to where it led before.
abbrev pub Adds : List ℕ → ℕ → List Dirent → List Dirent → Type 0
Adds name inum des des' =
    (other : List ℕ)
    → dirlookup other des' ≡ (
        if namecmp other (take dirsiz name)
        then some (inum, empty_from 0 des)
        else dirlookup other des)

-- The three ways in which `dirlink` ends.
pub data DirlinkEnds (name : List ℕ) (inum : ℕ) (des : List Dirent) : Linked → Type 0 where
  found :
      (at_name : ℕ × ℕ) {r : Linked}
      → dirlookup name des ≡ some at_name
      → r ≡ exists_already
      → DirlinkEnds name inum des r
  adds :
      (des' : List Dirent) {r : Linked}
      → dirlookup name des ≡ none
      → empty_from 0 des + 16 ≤ max_bytes
      → Adds name (inum % 65536) des des'
      → r ≡ linked des'
      → DirlinkEnds name inum des r
  no_room :
      {r : Linked}
      → dirlookup name des ≡ none
      → max_bytes < empty_from 0 des + 16
      → r ≡ panics
      → DirlinkEnds name inum des r

-- `dirlink` of an inode number that is not 0 as an unsigned short, where the disk has room for the
-- entry: it returns -1 exactly if the name leads somewhere, panics exactly if the name is new and the directory has no room for one more
-- entry, and otherwise adds the name and leaves all other names as they were.
pub dirlink-Ends :
    (name : List ℕ) (inum : ℕ) (des : List Dirent)
    → inum % 65536 ≢ 0
    → DirlinkEnds name inum des (dirlink name inum des)
unfolding dirlink
dirlink-Ends name inum des live = elim (Option-cases (dirlookup name des)) [
  | inr (at_name, e) ↦ found at_name e (rw (e, dirlink) refl)
  | inl e ↦ elim (Bool-cases (ltb max_bytes (empty_from 0 des + 16))) [
    | inl over ↦ no_room e (ltb→lt _ _ over) (rw (e, over, dirlink) refl)
    | inr fits ↦
        adds (put_entry 0 (empty_from 0 des) de des) e (ground arith)
          (λ other. lookup-put_entry 0 other de des live (λ same.
            lookup_cut 0 other name des (same_name-eq (take dirsiz other) (take dirsiz name) same)
            ∙ e))
          (rw (e, fits, dirlink) refl)
  ]
]
  where
    de : Dirent
    de = record { inum = inum % 65536; name = take dirsiz name }
