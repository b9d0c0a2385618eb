-- ===== src/Fs/Dirs/Tests.antt =====
-- Runs on a small directory, and its theorem at one.
use cs.Prelude.{ℕ, ◌≡◌, refl, List, [], ◌∷◌, some, arith}
use cs.Fs.Dirs.{Dirent, exists_already, linked, dirlookup, lookup_from, dirlink}
use cs.Fs.Dirs.Links.{DirlinkEnds, dirlink-Ends}

abbrev entry : ℕ → List ℕ → Dirent
entry inum name = record { inum = inum; name = name }

-- `.` and an empty entry, and a file `a`
abbrev small : List Dirent
small = entry 1 (46 ∷ []) ∷ entry 0 [] ∷ entry 5 (97 ∷ []) ∷ []

adds_b :
    dirlink (98 ∷ []) 7 small
    ≡ linked (entry 1 (46 ∷ []) ∷ entry 7 (98 ∷ []) ∷ entry 5 (97 ∷ []) ∷ [])
unfolding dirlink
adds_b = refl

has_a : dirlink (97 ∷ []) 7 small ≡ exists_already
unfolding dirlink
has_a = refl

finds_a : dirlookup (97 ∷ []) small ≡ some (5, 32)
unfolding lookup_from
finds_a = refl

dirlink-Ends_example : DirlinkEnds (98 ∷ []) 7 small (dirlink (98 ∷ []) 7 small)
dirlink-Ends_example = dirlink-Ends (98 ∷ []) 7 small (λ e. omega arith)
