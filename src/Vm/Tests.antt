-- ===== src/Vm/Tests.antt =====
-- Runs of allocuvm and deallocuvm, and the theorems at them.
use cs.Prelude.{
  ◌+◌, subst, ◌%◌, Bool-cases, inl, inr, ◌==◌, ℕ, ◌≡◌, ◌≢◌, refl, sym, Bool, true, List, [], ◌∷◌,
  Option, some, none, arith, update,
}
use cs.Kalloc.{round_up}
use cs.Vm.{round_down, pdx, ptx, Pte, absent, maps, Pgdir, Vm, entry, deallocuvm, allocuvm}
use cs.Vm.Copy.{
  copied, unmapped, null_table, uva2ka, copy_from, copyout, IsWritable, Filled, copyout-Filled,
}
use cs.Vm.Shrink.{absent-ne-maps, NonZero}
use cs.Vm.Grow.{Ends, allocuvm-Ends}

abbrev empty : Pgdir
empty i = none

-- Six pages are free, at 0x400000 and above.
abbrev six : List ℕ
six = 0x400000 ∷ 0x401000 ∷ 0x402000 ∷ 0x403000 ∷ 0x404000 ∷ 0x405000 ∷ []

abbrev fresh : Vm
fresh = record { pgdir = empty; free = six }

-- What the tests look at: the entries of three pages, the free pages and the result.
abbrev seen : Option (Vm × ℕ) → Option (Pte × Pte × Pte × List ℕ × ℕ)
seen none = none
seen (some (vm, sz)) =
    some (entry vm.pgdir 0, entry vm.pgdir 0x1000, entry vm.pgdir 0x2000, vm.free, sz)

-- The page table takes the second free page.
two_pages :
    seen (allocuvm 0 5000 fresh)
    ≡ some (
      maps 0x400000 true true,
      maps 0x402000 true true,
      absent,
      0x403000 ∷ 0x404000 ∷ 0x405000 ∷ [],
      5000,
    )
unfolding allocuvm
two_pages = refl

-- With three pages there is no room for the third page of the process.
out_of_memory :
    seen (allocuvm 0 9000 (record { pgdir = empty; free = 0x400000 ∷ 0x401000 ∷ 0x402000 ∷ [] }))
    ≡ some (absent, absent, absent, 0x402000 ∷ 0x400000 ∷ [], 0)
unfolding allocuvm
out_of_memory = refl

allocuvm-Ends_example : Ends (round_up 0) (round_up 5000) 5000 fresh (allocuvm 0 5000 fresh)
allocuvm-Ends_example =
    allocuvm-Ends 0 5000 fresh (omega arith) (omega arith)
      (omega arith, (omega arith, (omega arith, (omega arith, (omega arith, (omega arith, tt))))))
      (λ va l h. refl)

-- One page, at the address 0x1000.
abbrev with_page : Vm
with_page = record {
  pgdir =
      update empty 0 (
        some (record { page = 0x400000; ptes = update (λ i. absent) 1 (maps 0x401000 true true) }));
  free = [];
}

shrinks :
    (vm : Vm) × (deallocuvm 0x3000 0x800 with_page ≡ some (vm, 0x800)) × (vm.free ≡ 0x401000 ∷ [])
unfolding deallocuvm
shrinks = (_, refl, refl)

not_zero : {w u v x : Bool} → maps 0 w u ≢ maps 0x401000 v x
not_zero e = cc

with_page_NonZero : NonZero with_page.pgdir (round_up 0x800) (round_up 0x3000)
with_page_NonZero va w u l h e = elim (Bool-cases (0 == pdx va)) [
  | inl in_table ↦ elim (Bool-cases (1 == ptx va)) [
    | inl this ↦ absurd (not_zero (sym (rw (in_table, this, entry) at e)))
    | inr other ↦ absurd (absent-ne-maps (rw (in_table, other, entry) at e))
  ]
  | inr no_table ↦ absurd (absent-ne-maps (rw (no_table, entry) at e))
]

-- Three bytes from the address 9 of the kernel to 0x1100 of the process.
abbrev page_of : ℕ → ℕ
page_of va = 0x80401000

with_page_IsWritable : IsWritable with_page.pgdir page_of 0x1100 9 3
unfolding uva2ka
with_page_IsWritable = record {
  user = λ i l.
      let e : 0x1000 ≡ round_down (0x1100 + i) = omega arith in
      subst (λ x. uva2ka with_page.pgdir x ≡ some (some (page_of x))) e refl;
  distinct = λ i j l k ne e. ne (omega arith);
  apart = λ i j l k e. omega arith;
}

abbrev bytes : ℕ → ℕ
bytes k = k % 256

copyout-Filled_example :
    (m : ℕ → ℕ) × (copyout with_page.pgdir 0x1100 9 3 bytes ≡ copied m)
    × Filled page_of 0x1100 9 3 bytes m
copyout-Filled_example =
    copyout-Filled with_page.pgdir page_of 0x1100 9 3 bytes with_page_IsWritable

-- A page that is not mapped, and one that has no page table.
not_mapped : copyout with_page.pgdir 0x3000 9 3 bytes ≡ unmapped bytes
unfolding copyout copy_from uva2ka
not_mapped = refl

no_page_table : copyout with_page.pgdir 0x400000 9 3 bytes ≡ null_table
unfolding copyout copy_from uva2ka
no_page_table = refl
