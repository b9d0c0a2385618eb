-- ===== src/Fs/Dirs/Bytes.antt =====
-- dirlookup and dirlink of fs.c down to the bytes that readi and writei move.
pub mod Entries
pub mod Reading
pub mod Linking
mod Tests
use cs.Prelude.{
  ℕ, zero, suc, ◌+◌, ◌-◌, ◌*◌, ◌%◌, ◌==◌, ltb, if◌then◌else◌, Bool, true, false, List, [], ◌∷◌,
  Option, some, none,
}
use cs.Fs.{Block, Disk, Superblock}
use cs.Fs.Files.{Inode, half_byte, readi, writei, Moved, refused, moved}
use cs.Fs.Dirs.{Dirent, dirsiz, namecmp}

-- T_DIR
abbrev pub t_dir : ℕ
t_dir = 1

-- sizeof(struct dirent)
abbrev pub entry_size : ℕ
entry_size = 16

-- The name in the `n` bytes from `i` on: up to a 0.
pub name_of : ℕ → Block → ℕ → List ℕ
name_of zero x i = []
name_of (suc n) x i = let rest = name_of n x (i + 1) in if x i == 0 then [] else x i ∷ rest

pub entry_of : Block → Dirent
unfolding name_of
entry_of x = record { inum = x 0 + 256 * x 1; name = name_of dirsiz x 2 }

-- The byte `i` of a name, as strncpy stores it.
pub name_byte : List ℕ → ℕ → ℕ
name_byte [] i = 0
name_byte (c ∷ s) zero = c
name_byte (c ∷ s) (suc i) = name_byte s i

pub entry_byte : List ℕ → ℕ → ℕ → ℕ
unfolding name_byte
entry_byte name inum i = if ltb i 2 then half_byte (inum % 65536) i else name_byte name (i - 2)

-- Whether a call of readi or writei has moved all `n` bytes.
abbrev pub is_moved : ℕ → Moved → Bool
is_moved n refused = false
is_moved n (moved k) = k == n

-- `readi` of an entry; `none` is a panic, here and below.
pub fetch : Superblock → ℕ → Inode → Disk → Option (Inode × Disk × Dirent)
unfolding entry_of
fetch sb off ip d = elim (readi sb off entry_size ip d (λ i. 0)) [
  | none ↦ none
  | some (ip', d', x, m) ↦ if is_moved entry_size m then some (ip', d', entry_of x) else none
]

-- The loop of `dirlookup`, with fuel for a round each, here and below; the inode number and the
-- offset.
pub lookup_bytes :
    ℕ → ℕ → Superblock → List ℕ → Inode → Disk → Option (Inode × Disk × Option (ℕ × ℕ))
unfolding fetch
lookup_bytes zero off sb name ip d = some (ip, d, none)
lookup_bytes (suc n) off sb name ip d = elim (ltb off ip.size) [
  | false ↦ some (ip, d, none)
  | true ↦ elim (fetch sb off ip d) [
    | none ↦ none
    | some (ip', d', de) ↦ elim (de.inum == 0) [
      | true ↦ lookup_bytes n (off + entry_size) sb name ip' d'
      | false ↦ elim (namecmp name de.name) [
        | true ↦ some (ip', d', some (de.inum, off))
        | false ↦ lookup_bytes n (off + entry_size) sb name ip' d'
      ]
    ]
  ]
]

-- `dirlookup`, up to iget.
pub find_entry : Superblock → List ℕ → Inode → Disk → Option (Inode × Disk × Option (ℕ × ℕ))
unfolding lookup_bytes
find_entry sb name ip d = if ip.kind == t_dir then lookup_bytes ip.size 0 sb name ip d else none

-- The loop of `dirlink`.
pub empty_bytes : ℕ → ℕ → Superblock → Inode → Disk → Option (Inode × Disk × ℕ)
unfolding fetch
empty_bytes zero off sb ip d = some (ip, d, off)
empty_bytes (suc n) off sb ip d = elim (ltb off ip.size) [
  | false ↦ some (ip, d, off)
  | true ↦ elim (fetch sb off ip d) [
    | none ↦ none
    | some (ip', d', de) ↦ elim (de.inum == 0) [
      | true ↦ some (ip', d', off)
      | false ↦ empty_bytes n (off + entry_size) sb ip' d'
    ]
  ]
]

-- `dirlink` without the iget and iput of an inode that is found: whether it returns 0.
pub link_bytes : Superblock → List ℕ → ℕ → Inode → Disk → Option (Inode × Disk × Bool)
unfolding find_entry empty_bytes entry_byte
link_bytes sb name inum ip d = elim (find_entry sb name ip d) [
  | none ↦ none
  | some (ip1, d1, found) ↦ elim found [
    | some f ↦ some (ip1, d1, false)
    | none ↦ elim (empty_bytes ip1.size 0 sb ip1 d1) [
      | none ↦ none
      | some (ip2, d2, off) ↦ elim (writei sb off entry_size ip2 d2 (entry_byte name inum)) [
        | none ↦ none
        | some (ip3, d3, m) ↦ if is_moved entry_size m then some (ip3, d3, true) else none
      ]
    ]
  ]
]
