-- ===== src/Fs/Icache.antt =====
-- The inode cache of fs.c. A pointer to an inode is its index in `icache.inode`. The functions that
-- take and drop references are the critical sections under `icache.lock`.
pub mod Get
pub mod System
mod Tests
use cs.Prelude.{
  ℕ, zero, suc, ◌+◌, ◌-◌, ◌<◌, ◌==◌, ltb, if◌then◌else◌, Bool, true, false, not, ◌&&◌, Option, some,
  none, update,
}

-- NINODE
abbrev pub ninode : ℕ
ninode = 50

-- `struct inode`, less what it copies from disk but `nlink`; `ref` is an int, and never below 0
-- where `iput` is called with a reference. `valid` is I_VALID.
pub record Inode : Type 0 where
  pub dev : ℕ
  pub inum : ℕ
  pub ref : ℕ
  pub valid : Bool
  pub locked : Bool
  pub nlink : ℕ

abbrev pub Icache : Type 0
Icache = ℕ → Inode

abbrev pub is_for : ℕ → ℕ → Inode → Bool
is_for dev inum ip = ltb 0 ip.ref && (ip.dev == dev && ip.inum == inum)

-- What the loop of `iget` ends with: the inode, or the first empty slot.
pub data Found : Type 0 where
  cached : ℕ → Found
  empty : Option ℕ → Found

-- `if(empty == 0 && ip->ref == 0) empty = ip`
abbrev pub remember : Option ℕ → ℕ → Inode → Option ℕ
remember (some e) i ip = some e
remember none i ip = if ip.ref == 0 then some i else none

-- The loop of `iget`: `n` slots are left, from `i` on, and `slot` is `empty`.
pub find_inode : ℕ → ℕ → ℕ → ℕ → Option ℕ → Icache → Found
find_inode zero i dev inum slot c = empty slot
find_inode (suc n) i dev inum slot c =
    let ip = c i in
    let rest = find_inode n (i + 1) dev inum (remember slot i ip) c in
    if is_for dev inum ip then cached i else rest

-- `none` is the panic.
pub iget : ℕ → ℕ → Icache → Option (Icache × ℕ)
unfolding find_inode
iget dev inum c = elim (find_inode ninode 0 dev inum none c) [
  | cached i ↦ some (update c i (record (c i) { ref = (c i).ref + 1 }), i)
  | empty (some i) ↦
      some (update c i (record (c i) { dev = dev; inum = inum; ref = 1; valid = false }), i)
  | empty none ↦ none
]

pub idup : ℕ → Icache → Icache
idup i c = update c i (record (c i) { ref = (c i).ref + 1 })

-- The test of `iput`; if it holds, `iput` frees the inode on disk before it goes on.
pub must_free : Inode → Bool
must_free ip = ip.ref == 1 && (ip.valid && ip.nlink == 0)

-- The last stretch of `iput`, after `ip->flags = 0` if the inode was freed.
pub drop_ref : ℕ → Bool → Icache → Icache
drop_ref i freed c =
    let ip = c i in
    update c i (record ip { ref = ip.ref - 1; valid = if freed then false else ip.valid })

-- `ilock`: the panic, or the locked inode; `dinode` gives what the inode's place on disk holds, its
-- type and its link count. A caller waits while the inode is locked.
pub ilock : ℕ → (ℕ → ℕ → ℕ × ℕ) → Icache → Option Icache
ilock i dinode c =
    let ip = c i in
    let on_disk = dinode ip.dev ip.inum in
    if ltb ip.ref 1
    then none
    else if ip.valid
    then some (update c i (record ip { locked = true }))
    else if on_disk.0 == 0
    then none
    else some (update c i (record ip { locked = true; valid = true; nlink = on_disk.1 }))

pub iunlock : ℕ → Icache → Option Icache
iunlock i c =
    if not (c i).locked
    then none
    else if ltb (c i).ref 1
    then none
    else some (update c i (record (c i) { locked = false }))
