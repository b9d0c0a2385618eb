-- ===== src/Kalloc/Freerange.antt =====
-- The loop of `freerange` ends with the fuel it is given.
use cs.Prelude.{
  ℕ, zero, suc, ◌+◌, ◌*◌, ◌<◌, ◌≡◌, refl, sym, ◌/◌, false, leb, arith, some, inl, inr, Option-cases,
}
use cs.Kalloc.{Kmem, round_up, pgsize, kfree, freerange_from}

stop :
    (n kernel_end p vend : ℕ) (k : Kmem)
    → vend < p + pgsize
    → freerange_from n kernel_end p vend k ≡ some k
unfolding freerange_from
stop zero kernel_end p vend k h = refl
stop (suc n) kernel_end p vend k h =
    let over : leb (p + pgsize) vend ≡ false = ground arith in rw over

-- Any two amounts of fuel of at least a unit for each page between `p` and `vend` give the same
-- result of `freerange`'s loop.
pub freerange_enough :
    (n m kernel_end p vend : ℕ) (k : Kmem)
    → vend < p + (n + 1) * pgsize
    → vend < p + (m + 1) * pgsize
    → freerange_from n kernel_end p vend k ≡ freerange_from m kernel_end p vend k
unfolding freerange_from
freerange_enough zero m kernel_end p vend k h h' = sym (stop m kernel_end p vend k (omega arith))
freerange_enough (suc n) zero kernel_end p vend k h h' =
    stop (suc n) kernel_end p vend k (omega arith)
freerange_enough (suc n) (suc m) kernel_end p vend k h h' =
    elim (Option-cases (kfree kernel_end p k)) [
      | inl e ↦ rw e
      | inr (k', e) ↦
          let next : freerange_from n kernel_end (p + pgsize) vend k'
              ≡ freerange_from m kernel_end (p + pgsize) vend k' =
            freerange_enough n m kernel_end (p + pgsize) vend k' (omega arith) (omega arith) in
          rw (e, next)
    ]

-- The fuel that `freerange` starts with is enough.
pub freerange_fuel : (vstart vend : ℕ) → vend < round_up vstart + (vend / pgsize + 1) * pgsize
freerange_fuel vstart vend = omega arith
