-- ===== src/Fs/Names.antt =====
-- Path names of fs.c. A path and a name are the lists of their bytes, less the 0 that ends them.
pub mod Elements
pub mod Walk
mod Tests
use cs.Fs.Dirs.{Dirent, dirlookup, lookup_from}
use cs.Prelude.{
  ℕ, zero, suc, ◌==◌, leb, if◌then◌else◌, Bool, true, false, not, List, [], ◌∷◌, Option, some, none,
  take, length, ◌&&◌, ◌+◌, ◌-◌, update,
}

-- DIRSIZ
abbrev pub dirsiz : ℕ
dirsiz = 14

abbrev pub slash : ℕ
slash = 47

-- `while(*path == '/') path++`
pub skip_slashes : List ℕ → List ℕ
skip_slashes [] = []
skip_slashes (c ∷ path) = if c == slash then skip_slashes path else c ∷ path

-- The bytes up to the next slash, and the rest.
pub element : List ℕ → List ℕ × List ℕ
element [] = ([], [])
element (c ∷ path) =
    let rest = element path in if c == slash then ([], c ∷ path) else (c ∷ rest.0, rest.1)

-- The bytes of `name` up to its 0 or its end: `memmove(name, s, DIRSIZ)`, or `len` bytes and a 0.
abbrev pub copy_name : List ℕ → List ℕ
copy_name s = if leb dirsiz (length s) then take dirsiz s else s

-- `skipelem`: the rest of the path and the name, or 0.
pub skipelem : List ℕ → Option (List ℕ × List ℕ)
unfolding skip_slashes element
skipelem path = elim (skip_slashes path) [
  | [] ↦ none
  | c ∷ s ↦ some (skip_slashes (element (c ∷ s)).1, copy_name (element (c ∷ s)).0)
]

-- The directories: the content of the inode with a number, or none if it is no directory.
abbrev pub Tree : Type 0
Tree = ℕ → Option (List Dirent)

-- The references to inodes, by number: `iget` and `idup` add one, `iput` drops one.
abbrev pub Users : Type 0
Users = ℕ → ℕ

abbrev pub iget : ℕ → Users → Users
iget ip u = update u ip (u ip + 1)

abbrev pub iput : ℕ → Users → Users
iput ip u = update u ip (u ip - 1)

abbrev pub is_empty : List ℕ → Bool
is_empty [] = true
is_empty (c ∷ path) = false

-- The loop of `namex`, with `name` as the loop before left it: the inode and the name, or 0. Fuel
-- `n` is spent on an element each.
pub walk : ℕ → Bool → Tree → ℕ → List ℕ → List ℕ → Users → Option (ℕ × List ℕ) × Users
unfolding skipelem lookup_from
walk zero parent tree ip path name u = (none, u)
walk (suc n) parent tree ip path name u = elim (skipelem path) [
  | none ↦ if parent then (none, iput ip u) else (some (ip, name), u)
  | some (rest, name') ↦ elim (tree ip) [
    | none ↦ (none, iput ip u)
    | some des ↦ elim (parent && is_empty rest) [
      | true ↦ (some (ip, name'), u)
      | false ↦ elim (dirlookup name' des) [
        | none ↦ (none, iput ip u)
        | some (next, off) ↦ walk n parent tree next rest name' (iput ip (iget next u))
      ]
    ]
  ]
]

-- ROOTINO
abbrev pub rootino : ℕ
rootino = 1

abbrev pub start : ℕ → List ℕ → ℕ
start cwd [] = cwd
start cwd (c ∷ path) = if c == slash then rootino else cwd

-- `namex`; `cwd` is the current directory of the process.
pub namex : ℕ → Bool → Tree → List ℕ → Users → Option (ℕ × List ℕ) × Users
unfolding walk
namex cwd parent tree path u =
    walk (length path + 1) parent tree (start cwd path) path [] (iget (start cwd path) u)
