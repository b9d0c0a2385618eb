-- ===== src/Fs/Dirs.antt =====
-- Directories of fs.c: an inode whose content is a sequence of `struct dirent`, 16 bytes each.
pub mod Links
pub mod Bytes
mod Tests
use cs.Prelude.{
  ℕ, zero, suc, ◌+◌, ◌*◌, ◌/◌, ◌%◌, ◌==◌, ltb, if◌then◌else◌, Bool, true, false, ◌&&◌, List, [],
  ◌∷◌, Option, some, none, take, length,
}

-- DIRSIZ
abbrev pub dirsiz : ℕ
dirsiz = 14

-- MAXFILE * BSIZE
abbrev pub max_bytes : ℕ
max_bytes = (12 + 512 / 4) * 512

-- `struct dirent`: the name is its bytes up to the first 0, DIRSIZ at most.
pub record Dirent : Type 0 where
  pub inum : ℕ
  pub name : List ℕ

-- Equality of two names without a 0, as strncmp finds it.
pub same_name : List ℕ → List ℕ → Bool
same_name [] [] = true
same_name [] (d ∷ t) = false
same_name (c ∷ s) [] = false
same_name (c ∷ s) (d ∷ t) = c == d && same_name s t

-- `namecmp(name, de.name) == 0`
abbrev pub namecmp : List ℕ → List ℕ → Bool
namecmp name field = same_name (take dirsiz name) field

-- `dirlookup`: the inode number and the offset. The inode itself is then `iget` of the number.
unfoldable pub lookup_from : ℕ → List ℕ → List Dirent → Option (ℕ × ℕ)
unfolding same_name
lookup_from off name [] = none
lookup_from off name (de ∷ des) =
    let rest = lookup_from (off + 16) name des in
    if de.inum == 0 then rest else if namecmp name de.name then some (de.inum, off) else rest

abbrev pub dirlookup : List ℕ → List Dirent → Option (ℕ × ℕ)
dirlookup = lookup_from 0

-- The loop of `dirlink`: the offset of the first empty entry, or the size.
pub empty_from : ℕ → List Dirent → ℕ
empty_from off [] = off
empty_from off (de ∷ des) =
    let rest = empty_from (off + 16) des in if de.inum == 0 then off else rest

-- `writei` of one entry at this offset, which is that of an entry or the end, on a disk with room for
-- it; the panic on a full disk is in Fs/Dirs/Bytes.antt.
pub put_entry : ℕ → ℕ → Dirent → List Dirent → List Dirent
put_entry off at de [] = de ∷ []
put_entry off at de (e ∷ des) =
    let rest = put_entry (off + 16) at de des in if off == at then de ∷ des else e ∷ rest

-- -1, 0 with the new content, or the panic.
pub data Linked : Type 0 where
  exists_already : Linked
  linked : List Dirent → Linked
  panics : Linked

pub dirlink : List ℕ → ℕ → List Dirent → Linked
unfolding lookup_from empty_from put_entry
dirlink name inum des =
    let off = empty_from 0 des in
    let de : Dirent = record { inum = inum % 65536; name = take dirsiz name } in
    elim (dirlookup name des) [
      | some found ↦ exists_already
      | none ↦ if ltb max_bytes (off + 16) then panics else linked (put_entry 0 off de des)
    ]
