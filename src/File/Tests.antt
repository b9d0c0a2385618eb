-- ===== src/File/Tests.antt =====
-- Runs of the file table and of filewrite, and the theorems at them.
use cs.Prelude.{
  false, ℕ, zero, suc, ◌≡◌, ◌+◌, ◌==◌, ltb, if◌then◌else◌, refl, true, some, arith, update,
}
use cs.File.{
  Ftable, File, fd_inode, filealloc, find_file, fileclose, closing, nothing, Wrote, wrote, failed,
  returns, move_off, write_from, filewrite,
}
use cs.File.Table.{System, Reach, boot, start, after, allocs, Reach-closing}
use cs.File.Write.{Ends, blocks, filewrite-Ends}

abbrev one_open : Ftable
one_open = update boot.table 0 (record (boot.table 0) { ref = 1 })

opens : filealloc boot.table ≡ some (one_open, 0)
unfolding filealloc find_file
opens = refl

abbrev opened : System
opened = record { table = one_open; holders = update boot.holders 0 1 }

opened_reach : Reach opened
opened_reach = after (start refl) (allocs 0 opens)

Reach-closing_example :
    (t : Ftable) × (fileclose 0 one_open
      ≡ some (t, if opened.holders 0 == 1 then closing (one_open 0) else nothing))
Reach-closing_example = Reach-closing 0 opened_reach (omega arith)

-- A disk with room for so many more calls, and the offset of the file.
abbrev Disk : Type 0
Disk = ℕ × ℕ

abbrev file_off : Disk → ℕ
file_off d = d.1

abbrev set_file_off : ℕ → Disk → Disk
set_file_off x d = (d.0, x)

-- Another process has moved the offset by one before the round at the place 6656.
abbrev enter : ℕ → Disk → Disk
enter i d = if i == 6656 then (d.0, d.1 + 1) else d

abbrev leave : ℕ → Disk → Disk
leave i d = d

abbrev roomy : ℕ → ℕ → ℕ → ℕ → Disk → Disk × Wrote
roomy ip i off k (zero, o) = ((0, o), failed)
roomy ip i off k (suc s, o) = ((s, o), wrote k)

-- A `writei` that refuses to write more than MAXOPBLOCKS blocks.
abbrev careful : ℕ → ℕ → ℕ → ℕ → Disk → Disk × Wrote
careful ip i off k d = (d, if ltb 10 (blocks off k) then failed else wrote k)

abbrev no_pipe : ℕ → ℕ → Disk → Disk × Wrote
no_pipe p n s = (s, failed)

abbrev writable : File
writable = record { kind = fd_inode 7; ref = 1; readable = false; writable = true; off = 5 }

-- 10000 bytes are two chunks.
two_chunks :
    filewrite file_off set_file_off enter leave no_pipe roomy writable 10000 (3, 5)
    ≡ ((1, 10006), returns (wrote 10000))
unfolding filewrite write_from move_off
two_chunks = refl

no_room :
    filewrite file_off set_file_off enter leave no_pipe roomy writable 10000 (1, 5)
    ≡ ((0, 6662), returns failed)
unfolding filewrite write_from move_off
no_room = refl

not_writable :
    filewrite file_off set_file_off enter leave no_pipe roomy
      (record writable { writable = false })
      10000
      (3, 5)
    ≡ ((3, 5), returns failed)
unfolding filewrite
not_writable = refl

filewrite-Ends_example :
    Ends file_off set_file_off enter leave
      (roomy 7)
      0
      10000
      (3, 5)
      (filewrite file_off set_file_off enter leave no_pipe roomy writable 10000 (3, 5))
filewrite-Ends_example =
    filewrite-Ends file_off set_file_off enter leave no_pipe roomy writable 7 10000 (3, 5) refl refl
