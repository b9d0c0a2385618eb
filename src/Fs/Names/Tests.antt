-- ===== src/Fs/Names/Tests.antt =====
-- Runs on a small tree, and the theorems at it.
use cs.Prelude.{ℕ, ◌+◌, ◌≡◌, ◌==◌, if◌then◌else◌, refl, true, false, List, [], ◌∷◌, some, none}
use cs.Fs.Dirs.{lookup_from}
use cs.Fs.Names.{Tree, skipelem, namex}
use cs.Fs.Names.Walk.{destination, holds, namex-resolve}

-- The paths `//a/b` and `a/x`; the root 1 has a directory 2 called `a`, which has a file 3 called `b`.
abbrev a_b : List ℕ
a_b = 47 ∷ 47 ∷ 97 ∷ 47 ∷ 98 ∷ []

abbrev a_x : List ℕ
a_x = 97 ∷ 47 ∷ 120 ∷ []

abbrev tree : Tree
tree i =
    if i == 1
    then some (record { inum = 2; name = 97 ∷ [] } ∷ [])
    else if i == 2
    then some (record { inum = 3; name = 98 ∷ [] } ∷ [])
    else none

skips_a : skipelem a_b ≡ some (98 ∷ [], 97 ∷ [])
unfolding skipelem
skips_a = refl

finds_b : (namex 2 false tree a_b (λ i. 0)).0 ≡ some (3, 98 ∷ [])
unfolding namex lookup_from
finds_b = refl

finds_parent : (namex 2 true tree a_b (λ i. 0)).0 ≡ some (2, 98 ∷ [])
unfolding namex lookup_from
finds_parent = refl

no_x : (namex 1 false tree a_x (λ i. 0)).0 ≡ none
unfolding namex lookup_from
no_x = refl

namex-resolve_example :
    ((namex 2 true tree a_b (λ i. 0)).0 ≡ destination 2 true tree a_b)
    × ((j : ℕ) → (namex 2 true tree a_b (λ i. 0)).1 j ≡ 0 + holds (destination 2 true tree a_b) j)
namex-resolve_example = namex-resolve 2 true tree a_b (λ i. 0)
