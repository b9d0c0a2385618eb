-- ===== src/Fs.antt =====
-- fs.c: the file system on top of the log. `Disk` is what `bread` finds for each block and
-- `log_write` changes: the buffer cache and the log below it are in Bcache.antt and Log.antt.
pub mod Blocks
pub mod Files
pub mod Icache
pub mod Dirs
pub mod Names
use cs.Prelude.{ℕ}

-- A block's 512 bytes.
abbrev pub Block : Type 0
Block = ℕ → ℕ

abbrev pub Disk : Type 0
Disk = ℕ → Block

-- `struct superblock`, as far as fs.c uses it.
pub record Superblock : Type 0 where
  pub size : ℕ
  pub ninodes : ℕ
  pub inodestart : ℕ
  pub bmapstart : ℕ
