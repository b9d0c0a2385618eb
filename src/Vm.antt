-- ===== src/Vm.antt =====
-- vm.c: user page tables. A page directory is a tree: for each directory index, none or a page table
-- with its page. Since kalloc hands a page out to one owner only (Kalloc/Ownership.antt), the tables
-- do not overlap, and their words are not modelled as memory. `free` is the list of pages that
-- kalloc takes from and kfree puts back to, by physical address; that kfree panics at what is not a
-- page is modelled in Kalloc.antt. Sizes are at most KERNBASE here, so that addresses do not wrap.
pub mod Pages
pub mod Grow
pub mod Shrink
pub mod Copy
mod Tests
use cs.Prelude.{
  ℕ, zero, suc, ◌+◌, ◌-◌, ◌*◌, ◌/◌, ◌%◌, ◌==◌, ltb, leb, if◌then◌else◌, Bool, true, false, not,
  List, [], ◌∷◌, Option, some, none, update,
}
use cs.Kalloc.{pgsize, kernbase, round_up}

-- A page table entry: PTE_P is clear and the word is 0, or the physical address with PTE_W and PTE_U.
pub data Pte : Type 0 where
  absent : Pte
  maps : ℕ → Bool → Bool → Pte

pub record Table : Type 0 where
  pub page : ℕ
  pub ptes : ℕ → Pte

abbrev pub Pgdir : Type 0
Pgdir = ℕ → Option Table

pub record Vm : Type 0 where
  pub pgdir : Pgdir
  pub free : List ℕ

-- PDX and PTX
abbrev pub pdx : ℕ → ℕ
pdx va = va / 0x400000 % 1024

abbrev pub ptx : ℕ → ℕ
ptx va = va / pgsize % 1024

-- The entry that the processor finds for an address.
abbrev pub entry : Pgdir → ℕ → Pte
entry d va = elim (d (pdx va)) [ none ↦ absent | some t ↦ t.ptes (ptx va) ]

-- `walkpgdir` with `alloc`: the page table for `va` is there, or is made of a page from kalloc.
pub walkpgdir : ℕ → Vm → Option Vm
walkpgdir va vm = elim (vm.pgdir (pdx va)) [
  | some t ↦ some vm
  | none ↦ elim vm.free [
    | [] ↦ none
    | page ∷ rest ↦ some (record {
      pgdir = update vm.pgdir (pdx va) (some (record { page = page; ptes = λ i. absent }));
      free = rest;
    })
  ]
]

-- `*pte = e`, where the page table for `va` is there.
pub set_entry : ℕ → Pte → Pgdir → Pgdir
set_entry va e d = elim (d (pdx va)) [
  | none ↦ d
  | some t ↦ update d (pdx va) (some (record t { ptes = update t.ptes (ptx va) e }))
]

-- The result of `mappages`: 0, -1 or the panic.
pub data Mapped : Type 0 where
  mapped : Vm → Mapped
  no_table : Vm → Mapped
  remap : Mapped

-- A round of the loop of `mappages`.
pub map_page : ℕ → ℕ → Bool → Bool → Vm → Mapped
unfolding walkpgdir set_entry
map_page a pa w u vm = elim (walkpgdir a vm) [
  | none ↦ no_table vm
  | some vm' ↦ elim (entry vm'.pgdir a) [
    | maps pa' w' u' ↦ remap
    | absent ↦ mapped (record vm' { pgdir = set_entry a (maps pa w u) vm'.pgdir })
  ]
]

-- The loop of `mappages`; `n` pages are left after that at `a`.
pub map_from : ℕ → ℕ → ℕ → Bool → Bool → Vm → Mapped
unfolding map_page
map_from zero a pa w u vm = map_page a pa w u vm
map_from (suc n) a pa w u vm = elim (map_page a pa w u vm) [
  | mapped vm' ↦ map_from n (a + pgsize) (pa + pgsize) w u vm'
  | no_table vm' ↦ no_table vm'
  | remap ↦ remap
]

-- PGROUNDDOWN
abbrev pub round_down : ℕ → ℕ
round_down a = a / pgsize * pgsize

-- `size` is positive.
pub mappages : ℕ → ℕ → ℕ → Bool → Bool → Vm → Mapped
unfolding map_from
mappages va size pa w u vm =
    let a = round_down va in
    let last = round_down (va + size - 1) in map_from ((last - a) / pgsize) a pa w u vm

-- The loop of `deallocuvm`; `none` is a panic. An address with no page table is followed by the
-- first of the next directory entry. Fuel `n` is spent on a round each.
pub dealloc_from : ℕ → ℕ → ℕ → Vm → Option Vm
unfolding set_entry
dealloc_from zero a oldsz vm = some vm
dealloc_from (suc n) a oldsz vm = elim (ltb a oldsz) [
  | false ↦ some vm
  | true ↦ elim (vm.pgdir (pdx a)) [
    | none ↦ dealloc_from n ((pdx a + 1) * 0x400000) oldsz vm
    | some t ↦ elim (t.ptes (ptx a)) [
      | absent ↦ dealloc_from n (a + pgsize) oldsz vm
      | maps zero w u ↦ none
      | maps (suc pa) w u ↦
          dealloc_from n (a + pgsize) oldsz
            (record { pgdir = set_entry a absent vm.pgdir; free = suc pa ∷ vm.free })
    ]
  ]
]

pub deallocuvm : ℕ → ℕ → Vm → Option (Vm × ℕ)
unfolding dealloc_from
deallocuvm oldsz newsz vm =
    if leb oldsz newsz
    then some (vm, oldsz)
    else elim (dealloc_from (oldsz / pgsize + 1) (round_up newsz) oldsz vm) [
      | none ↦ none
      | some vm' ↦ some (vm', newsz)
    ]

-- Both error paths of `allocuvm`, with the page that `mappages` could not map, if there is one.
pub undo : ℕ → ℕ → Vm → Option ℕ → Option (Vm × ℕ)
unfolding deallocuvm
undo oldsz newsz vm mem = elim (deallocuvm newsz oldsz vm) [
  | none ↦ none
  | some (vm', sz) ↦ elim mem [
    | none ↦ some (vm', 0)
    | some page ↦ some (record vm' { free = page ∷ vm'.free }, 0)
  ]
]

-- The loop of `allocuvm`, less the `memset` of the new page; `none` is a panic. Fuel `n` is spent on a page each.
pub alloc_from : ℕ → ℕ → ℕ → ℕ → Vm → Option (Vm × ℕ)
unfolding undo mappages
alloc_from zero a oldsz newsz vm = some (vm, newsz)
alloc_from (suc n) a oldsz newsz vm = elim (ltb a newsz) [
  | false ↦ some (vm, newsz)
  | true ↦ elim vm.free [
    | [] ↦ undo oldsz newsz vm none
    | mem ∷ rest ↦ elim (mappages a pgsize mem true true (record vm { free = rest })) [
      | mapped vm' ↦ alloc_from n (a + pgsize) oldsz newsz vm'
      | no_table vm' ↦ undo oldsz newsz vm' (some mem)
      | remap ↦ none
    ]
  ]
]

pub allocuvm : ℕ → ℕ → Vm → Option (Vm × ℕ)
unfolding alloc_from
allocuvm oldsz newsz vm =
    if leb kernbase newsz
    then some (vm, 0)
    else if ltb newsz oldsz
    then some (vm, oldsz)
    else alloc_from (newsz / pgsize + 1) (round_up oldsz) oldsz newsz vm
