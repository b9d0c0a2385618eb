-- ===== src/Kalloc.antt =====
-- kalloc.c: the allocator of physical pages. Memory is read and written by 32-bit words, at
-- addresses that are multiples of 4. `kernel_end` is the address of `end[]`, which the linker sets.
-- Each function runs under `kmem.lock`, or before there are other processors.
pub mod Chain
pub mod Ownership
pub mod Freerange
mod Tests
use cs.Prelude.{
  ℕ, zero, suc, ◌+◌, ◌-◌, ◌*◌, ◌/◌, ◌%◌, ◌==◌, ltb, leb, if◌then◌else◌, Bool, true, false, not,
  ◌||◌, Option, some, none, update,
}

-- PGSIZE of mmu.h, KERNBASE and PHYSTOP of memlayout.h.
abbrev pub pgsize : ℕ
pgsize = 4096

abbrev pub kernbase : ℕ
kernbase = 0x80000000

abbrev pub phystop : ℕ
phystop = 0xE000000

-- `kmem`, less its lock, with the memory that the list runs through: `r->next` is the word at `r`.
pub record Kmem : Type 0 where
  pub mem : ℕ → ℕ
  pub freelist : ℕ

-- `memset(v, 1, PGSIZE)`, with `n` words left from `a` on.
pub fill : ℕ → ℕ → (ℕ → ℕ) → ℕ → ℕ
fill zero a mem = mem
fill (suc n) a mem = fill n (a + 4) (update mem a 0x01010101)

-- The test of `kfree` that panics; `V2P(v)` is `v - KERNBASE` as a `uint`, and `v` is not below
-- `end` here, which is above KERNBASE.
abbrev pub is_page : ℕ → ℕ → Bool
is_page kernel_end v = elim (v % pgsize == 0) [
  | true ↦ if ltb v kernel_end then false else ltb (v - kernbase) phystop
  | false ↦ false
]

pub kfree : ℕ → ℕ → Kmem → Option Kmem
kfree kernel_end v k =
    if is_page kernel_end v
    then some (record { mem = update (fill 1024 v k.mem) v k.freelist; freelist = v })
    else none

-- The result is the page, or 0.
pub kalloc : Kmem → Kmem × ℕ
kalloc k = let r = k.freelist in if r == 0 then (k, r) else (record k { freelist = k.mem r }, r)

-- The loop of `freerange` from `p` on; fuel `n` is spent on a page each.
pub freerange_from : ℕ → ℕ → ℕ → ℕ → Kmem → Option Kmem
freerange_from zero kernel_end p vend k = some k
freerange_from (suc n) kernel_end p vend k =
    if leb (p + pgsize) vend
    then elim (kfree kernel_end p k) [
      | none ↦ none
      | some k' ↦ freerange_from n kernel_end (p + pgsize) vend k'
    ]
    else some k

-- `PGROUNDUP`
abbrev pub round_up : ℕ → ℕ
round_up a = (a + pgsize - 1) / pgsize * pgsize

pub freerange : ℕ → ℕ → ℕ → Kmem → Option Kmem
freerange kernel_end vstart vend k =
    freerange_from (vend / pgsize) kernel_end (round_up vstart) vend k
