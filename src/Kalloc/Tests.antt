-- ===== src/Kalloc/Tests.antt =====
-- Runs of the allocator, and its theorems at them.
use cs.Prelude.{ℕ, Bool, ◌≡◌, ◌≢◌, refl, sym, ◌∙◌, true, false, some, ◌==◌, update, subst, arith}
use cs.Kalloc.{Kmem, kfree, kalloc, fill}
use cs.Kalloc.Chain.{IsPage}
use cs.Kalloc.Ownership.{System, Reach, Owned, start, after, frees, Reach-Owned}

-- The kernel ends in the page before `page`.
abbrev kernel_end : ℕ
kernel_end = 0x80100800

abbrev page : ℕ
page = 0x80101000

abbrev boot_used : ℕ → Bool
boot_used v = v == page

boot_pages : (v : ℕ) → boot_used v ≡ true → IsPage kernel_end v
boot_pages v h =
    let e : page ≡ v = ground arith in
    subst (IsPage kernel_end) e
      (record { aligned = refl; above = omega arith; below = omega arith })

abbrev boot : System
boot = record { kmem = record { mem = λ a. 7; freelist = 0 }; used = boot_used }

abbrev freed_boot : Kmem
freed_boot = record { mem = update (fill 1024 page (λ a. 7)) page 0; freelist = page }

page_freed : kfree kernel_end page boot.kmem ≡ some freed_boot
unfolding kfree
page_freed = refl

abbrev with_page : System
with_page = record { kmem = freed_boot; used = update boot_used page false }

boot_reach : Reach kernel_end with_page
boot_reach = after (start (λ a. 7) boot_used boot_pages) (frees page refl page_freed)

page_out : (kalloc freed_boot).1 ≡ page
unfolding kalloc
page_out = refl

page_nonzero : (kalloc freed_boot).1 ≢ 0
page_nonzero z = let e : page ≡ 0 = sym page_out ∙ z in omega arith

pages-Owned_example : Owned kernel_end with_page
pages-Owned_example = Reach-Owned kernel_end boot_reach
