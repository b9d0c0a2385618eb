-- ===== src/Fs/Names/Walk.antt =====
-- `namex` as a walk along the elements of the path, and the references that it takes and drops.
use cs.Prelude.{
  ℕ, zero, suc, ◌+◌, ◌≤◌, ◌<◌, ◌≡◌, inl, inr, refl, sym, ◌∙◌, ap, subst, subst₂, ◌==◌, ◌&&◌,
  if◌then◌else◌, Bool, true, false, Bool-cases, List, [], ◌∷◌, map, Option, Option-cases, some,
  none, arith, length, ==_iff,
}
use cs.Fs.Dirs.{dirlookup}
use cs.Fs.Names.{skipelem, copy_name, Tree, Users, iget, iput, is_empty, walk, start, namex}
use cs.Fs.Names.Elements.{elements, Skipped, no_name, name, skipelem-Skipped}

abbrev none_left : List (List ℕ) → Bool
none_left [] = true
none_left (n ∷ ns) = false

-- Where a list of names leads from an inode. With `parent` the last name is not followed.
pub resolve : Bool → Tree → ℕ → List ℕ → List (List ℕ) → Option (ℕ × List ℕ)
resolve parent tree ip last [] = if parent then none else some (ip, last)
resolve parent tree ip last (n ∷ ns) = elim (tree ip) [
  | none ↦ none
  | some des ↦ elim (parent && none_left ns) [
    | true ↦ some (ip, n)
    | false ↦ elim (dirlookup n des) [
      | none ↦ none
      | some (next, off) ↦ resolve parent tree next n ns
    ]
  ]
]

-- The reference that a result of `namex` stands for.
abbrev pub holds : Option (ℕ × List ℕ) → ℕ → ℕ
holds none j = 0
holds (some (k, n)) j = if k == j then 1 else 0

-- The walk gives what the names lead to, and gives the reference to `ip` up for one to the result.
abbrev Walked : Option (ℕ × List ℕ) → ℕ → Users → Option (ℕ × List ℕ) × Users → Type 0
Walked result ip u r =
    (r.0 ≡ result) × ((j : ℕ) → r.1 j + (if ip == j then 1 else 0) ≡ u j + holds result j)

gives_up : (ip : ℕ) (u : Users) → 0 < u ip → Walked none ip u (none, iput ip u)
gives_up ip u h = (refl, λ j. ground (arith, ==_iff ip j))

keeps : (ip : ℕ) (n : List ℕ) (u : Users) → Walked (some (ip, n)) ip u (some (ip, n), u)
keeps ip n u = (refl, λ j. refl)

-- One step further along the path.
passes_on :
    (ip next : ℕ) (u : Users) (result : Option (ℕ × List ℕ)) (r : Option (ℕ × List ℕ) × Users)
    → 0 < u ip
    → Walked result next (iput ip (iget next u)) r
    → Walked result ip u r
passes_on ip next u result r h w =
    (w.0, λ j. ground (arith, w.1 j, ==_iff ip j, ==_iff next j, ==_iff next ip))

null-elements :
    (rest : List ℕ)
    → (elements rest ≡ [] → rest ≡ [])
    → is_empty rest ≡ none_left (map copy_name (elements rest))
null-elements [] h = refl
null-elements (c ∷ rest) h = go (elements (c ∷ rest)) refl
  where
    go :
        (ns : List (List ℕ))
        → elements (c ∷ rest) ≡ ns
        → false ≡ none_left (map copy_name (elements (c ∷ rest)))
    go [] e = let q : (c ∷ rest) ≡ [] = h e in cc
    go (n ∷ ns) e = rw e refl

-- One round of the loop, at a path whose first element is `first`.
module _ (n : ℕ) (parent : Bool) (tree : Tree) (ip : ℕ) (path last : List ℕ) (u : Users) where
  abbrev Follows : Type 0
  Follows =
      Walked (resolve parent tree ip last (map copy_name (elements path))) ip u
        (walk (suc n) parent tree ip path last u)

  at_end : elements path ≡ [] → skipelem path ≡ none → 0 < u ip → Follows
  unfolding walk resolve
  at_end e r held =
      subst₂ (λ a b. Walked a ip u b)
        (ap (λ ns. resolve parent tree ip last (map copy_name ns)) (sym e))
        (sym (rw (r, walk) refl)) (ended parent)
    where
      ended :
          (p : Bool)
          → Walked
              (if p then none else some (ip, last))
              ip
              u
              (if p then (none, iput ip u) else (some (ip, last), u))
      ended true = gives_up ip u held
      ended false = keeps ip last u

  along :
      (first rest : List ℕ)
      → elements path ≡ first ∷ elements rest
      → (elements rest ≡ [] → rest ≡ [])
      → skipelem path ≡ some (rest, copy_name first)
      → 0 < u ip
      → ((next : ℕ)
          → Walked
              (resolve parent tree next (copy_name first) (map copy_name (elements rest)))
              next
              (iput ip (iget next u))
              (walk n parent tree next rest (copy_name first) (iput ip (iget next u))))
      → Follows
  unfolding walk resolve
  along first rest e null r held ih =
      subst
        (λ ns.
          Walked (resolve parent tree ip last (map copy_name ns)) ip u
            (walk (suc n) parent tree ip path last u))
        (sym e)
        (elim (Option-cases (tree ip)) [
          | inl file ↦ rw (r, walk) (rw (file, resolve) (gives_up ip u held))
          | inr (des, dir) ↦ elim (Bool-cases (parent && is_empty rest)) [
            | inl stop ↦
                rw (r, walk) (rw (dir, stop, agrees ∙ stop, resolve) (keeps ip (copy_name first) u))
            | inr go_on ↦ elim (Option-cases (dirlookup (copy_name first) des)) [
              | inl missing ↦
                  rw (r, walk)
                    (rw (dir, go_on, agrees ∙ go_on, missing, resolve) (gives_up ip u held))
              | inr ((next, off), found) ↦
                  rw (r, walk)
                    (rw (dir, go_on, agrees ∙ go_on, found, resolve)
                      (passes_on ip next u _ _ held (ih next)))
            ]
          ]
        ])
    where
      agrees : (parent && none_left (map copy_name (elements rest))) ≡ (parent && is_empty rest)
      agrees = ap (λ b. parent && b) (sym (null-elements rest null))

next_held : (ip next : ℕ) (u : Users) → 0 < u ip → 0 < iput ip (iget next u) next
next_held ip next u h = ground (arith, ==_iff ip next)

-- Either end of a round, with the rest of the walk given.
round :
    (n : ℕ) (parent : Bool) (tree : Tree) (ip : ℕ) (path last : List ℕ) (u : Users)
    → 0 < u ip
    → ((next : ℕ) (rest m : List ℕ) (u' : Users)
        → length rest < length path
        → 0 < u' next
        → Walked
            (resolve parent tree next m (map copy_name (elements rest)))
            next
            u'
            (walk n parent tree next rest m u'))
    → Skipped path (skipelem path)
    → Follows n parent tree ip path last u
round n parent tree ip path last u held ih (no_name e r) =
    at_end n parent tree ip path last u e r held
round n parent tree ip path last u held ih (name first rest e shorter null r) =
    along n parent tree ip path last u first rest e null r held (λ next.
      ih next rest (copy_name first) (iput ip (iget next u)) shorter (next_held ip next u held))

-- With fuel for the path, the walk follows its elements.
walk-Walked :
    (n : ℕ) (parent : Bool) (tree : Tree) (ip : ℕ) (path last : List ℕ) (u : Users)
    → length path ≤ n
    → 0 < u ip
    → Follows n parent tree ip path last u
walk-Walked zero parent tree ip path last u h held =
    round zero parent tree ip path last u held (λ next rest m u' l. absurd (omega arith))
      (skipelem-Skipped path)
walk-Walked (suc n) parent tree ip path last u h held =
    round (suc n) parent tree ip path last u held
      (λ next rest m u' l. walk-Walked n parent tree next rest m u' (omega arith))
      (skipelem-Skipped path)

walk-more :
    (parent : Bool) (tree : Tree) (ip : ℕ) (path last : List ℕ) (u : Users)
    → 0 < u ip
    → Walked
        (resolve parent tree ip last (map copy_name (elements path)))
        ip
        u
        (walk (length path + 1) parent tree ip path last u)
walk-more parent tree ip path last u held =
    subst
      (λ n.
        Walked (resolve parent tree ip last (map copy_name (elements path))) ip u
          (walk n parent tree ip path last u))
      (omega arith) (walk-Walked (length path) parent tree ip path last u (omega arith) held)

-- Where the elements of a path lead, from the root or from the current directory.
abbrev pub destination : ℕ → Bool → Tree → List ℕ → Option (ℕ × List ℕ)
destination cwd parent tree path =
    resolve parent tree (start cwd path) [] (map copy_name (elements path))

-- `namex` finds what the elements of the path, each cut to DIRSIZ bytes, lead to from the root or
-- the current directory, and 0 if one of them leads nowhere (with `nameiparent`, all but the last
-- are followed, and there must be a last one); and it holds one reference more than before, to the
-- inode that it returns, or none if it returns 0.
pub namex-resolve :
    (cwd : ℕ) (parent : Bool) (tree : Tree) (path : List ℕ) (u : Users)
    → ((namex cwd parent tree path u).0 ≡ destination cwd parent tree path)
      × ((j : ℕ)
          → (namex cwd parent tree path u).1 j ≡ u j + holds (destination cwd parent tree path) j)
unfolding namex
namex-resolve cwd parent tree path u =
    let ip = start cwd path in
    let w = walk-more parent tree ip path [] (iget ip u) (ground arith) in
    (w.0, λ j. ground (arith, w.1 j, ==_iff ip j))
