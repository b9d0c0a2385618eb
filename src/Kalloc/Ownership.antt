-- ===== src/Kalloc/Ownership.antt =====
-- Who owns which page, however the kernel allocates, frees and uses pages.
use cs.Prelude.{
  All, Apart, All-map, All-both, ℕ, ◌+◌, ◌*◌, ◌≤◌, ◌<◌, ◌≡◌, ◌≢◌, ◌⊎◌, subst, inl, inr, refl, sym,
  ◌∙◌, ap, Bool, true, false, ◌==◌, arith, List, [], ◌∷◌, some, none, update, update_self,
  update_ne, Bool-cases,
}
use mathlib.Core.Option.{some-injective}
use cs.Kalloc.{Kmem, pgsize, fill, is_page, kfree, kalloc}
use cs.Kalloc.Chain.{IsPage, Chain, freed, freed_apart, Chain-agree, pages_apart}

-- The allocator, and which pages are in the hands of the rest of the kernel.
pub record System : Type 0 where
  pub kmem : Kmem
  pub used : ℕ → Bool

-- `stores` is a write of the owner of a page into it.
pub data Step (kernel_end : ℕ) (s : System) : System → Type 0 where
  allocates :
      (kalloc s.kmem).1 ≢ 0
      → Step kernel_end s
          (record { kmem = (kalloc s.kmem).0; used = update s.used (kalloc s.kmem).1 true })
  runs_out : (kalloc s.kmem).1 ≡ 0 → Step kernel_end s (record s { kmem = (kalloc s.kmem).0 })
  frees :
      (v : ℕ) {k : Kmem}
      → s.used v ≡ true
      → kfree kernel_end v s.kmem ≡ some k
      → Step kernel_end s (record { kmem = k; used = update s.used v false })
  stores :
      (v a w : ℕ)
      → s.used v ≡ true
      → v ≤ a
      → a < v + pgsize
      → Step kernel_end s (record s { kmem = record s.kmem { mem = update s.kmem.mem a w } })

-- The free list is empty at first, and the code that starts the kernel holds all pages.
pub data Reach (kernel_end : ℕ) : System → Type 0 where
  start :
      (mem : ℕ → ℕ) (used : ℕ → Bool)
      → ((v : ℕ) → used v ≡ true → IsPage kernel_end v)
      → Reach kernel_end (record { kmem = record { mem = mem; freelist = 0 }; used = used })
  after : {s t : System} → Reach kernel_end s → Step kernel_end s t → Reach kernel_end t

-- The free list runs through different pages to 0, none of them is in use, and what is in use is
-- a page.
pub record Owned (kernel_end : ℕ) (s : System) : Type 0 where
  pub pages : List ℕ
  pub chain : Chain s.kmem.mem s.kmem.freelist pages
  pub apart : Apart pages
  pub free_pages : All (λ x. IsPage kernel_end x × (s.used x ≡ false)) pages
  pub used_pages : (v : ℕ) → s.used v ≡ true → IsPage kernel_end v

is_page-IsPage : (kernel_end v : ℕ) → is_page kernel_end v ≡ true → IsPage kernel_end v
is_page-IsPage kernel_end v h = record {
  aligned = ground arith;
  above = ground arith;
  below = ground arith;
}

kalloc-zero : (k : Kmem) → k.freelist ≡ 0 → kalloc k ≡ (k, k.freelist)
unfolding kalloc
kalloc-zero k e = let t : (k.freelist == 0) ≡ true = ground arith in rw t

kalloc-nonzero :
    (k : Kmem) → k.freelist ≢ 0 → kalloc k ≡ (record k { freelist = k.mem k.freelist }, k.freelist)
unfolding kalloc
kalloc-nonzero k ne = let t : (k.freelist == 0) ≡ false = ground arith in rw t

kfree-some :
    (kernel_end v : ℕ) (k : Kmem) {k' : Kmem}
    → kfree kernel_end v k ≡ some k'
    → k' ≡ record { mem = freed v k.freelist k.mem; freelist = v }
unfolding kfree
kfree-some kernel_end v k e = elim (Bool-cases (is_page kernel_end v)) [
  | inl yes_page ↦
      let eq : kfree kernel_end v k
          ≡ some (record { mem = freed v k.freelist k.mem; freelist = v }) =
        rw yes_page in
      some-injective _ _ (sym e ∙ eq)
  | inr no_page ↦ let eq : kfree kernel_end v k ≡ none = rw no_page in cc
]

-- The page that `kalloc` hands out is the head of the list.
take-Owned :
    (kernel_end : ℕ) (k : Kmem) (used : ℕ → Bool) (x : ℕ) (xs : List ℕ)
    → Chain k.mem k.freelist (x ∷ xs)
    → Apart (x ∷ xs)
    → All (λ y. IsPage kernel_end y × (used y ≡ false)) (x ∷ xs)
    → ((v : ℕ) → used v ≡ true → IsPage kernel_end v)
    → Owned kernel_end (record {
      kmem = record k { freelist = k.mem k.freelist };
      used = update used k.freelist true;
    })
take-Owned kernel_end k used x xs (e, c) (a, apart) ((x_page, x_free), f) u = record {
  pages = xs;
  chain = subst (λ q. Chain k.mem (k.mem q) xs) (sym e) c;
  apart = apart;
  free_pages =
      All-map xs
        (λ y (ne, (y_page, y_free)).
          (y_page, update_ne used k.freelist true y (λ same. ne (sym e ∙ same)) ∙ y_free))
        (All-both _ _ xs a f);
  used_pages = λ v h. elim (Bool-cases (k.freelist == v)) [
    | inl same ↦ subst (IsPage kernel_end) (sym e ∙ ground arith) x_page
    | inr other ↦ u v (sym (update_ne used k.freelist true v (ground arith)) ∙ h)
  ];
}

kalloc_head : (k : Kmem) → (kalloc k).1 ≡ k.freelist
kalloc_head k = elim (Bool-cases (k.freelist == 0)) [
  | inl zero_head ↦ ap (λ r. r.1) (kalloc-zero k (ground arith))
  | inr nonzero ↦ ap (λ r. r.1) (kalloc-nonzero k (ground arith))
]

kalloc_head-zero : (k : Kmem) → (kalloc k).1 ≡ 0 → k.freelist ≡ 0
kalloc_head-zero k z = sym (kalloc_head k) ∙ z

split-Owned :
    (kernel_end : ℕ) (k : Kmem) (used : ℕ → Bool) (xs : List ℕ)
    → Chain k.mem k.freelist xs
    → Apart xs
    → All (λ y. IsPage kernel_end y × (used y ≡ false)) xs
    → ((v : ℕ) → used v ≡ true → IsPage kernel_end v)
    → k.freelist ≢ 0
    → (IsPage kernel_end k.freelist × (used k.freelist ≡ false))
      × Owned kernel_end (record {
        kmem = record k { freelist = k.mem k.freelist };
        used = update used k.freelist true;
      })
split-Owned kernel_end k used [] c a f u ne = absurd (ne c)
split-Owned kernel_end k used (x ∷ xs) c a f u ne = (
  subst (λ q. IsPage kernel_end q × (used q ≡ false)) (sym c.0) f.0,
  take-Owned kernel_end k used x xs c a f u,
)

-- The page that `kalloc` hands out was free, and the list is one page shorter.
alloc-Owned :
    (kernel_end : ℕ) (s : System)
    → Owned kernel_end s
    → (kalloc s.kmem).1 ≢ 0
    → (IsPage kernel_end (kalloc s.kmem).1 × (s.used (kalloc s.kmem).1 ≡ false))
      × Owned kernel_end
          (record { kmem = (kalloc s.kmem).0; used = update s.used (kalloc s.kmem).1 true })
alloc-Owned kernel_end s o ne =
    let nonzero : s.kmem.freelist ≢ 0 = λ z. ne (kalloc_head s.kmem ∙ z) in
    subst
      (λ r.
        (IsPage kernel_end r.1 × (s.used r.1 ≡ false))
        × Owned kernel_end (record { kmem = r.0; used = update s.used r.1 true }))
      (sym (kalloc-nonzero s.kmem nonzero))
      (split-Owned kernel_end s.kmem s.used o.pages o.chain o.apart o.free_pages o.used_pages
        nonzero)

-- A page that `kfree` takes back is the new head of the list.
put-Owned :
    (kernel_end v : ℕ) (s : System)
    → Owned kernel_end s
    → s.used v ≡ true
    → Owned kernel_end (record {
      kmem = record { mem = freed v s.kmem.freelist s.kmem.mem; freelist = v };
      used = update s.used v false;
    })
put-Owned kernel_end v s o h =
    let v_page = o.used_pages v h in
    let ne : (y : ℕ) → IsPage kernel_end y × (s.used y ≡ false) → v ≢ y = λ y f same. cc in
    record {
      pages = v ∷ o.pages;
      chain = (
        refl,
        subst (λ q. Chain (freed v s.kmem.freelist s.kmem.mem) q o.pages)
            (sym (update_self (fill 1024 v s.kmem.mem) v s.kmem.freelist))
            (Chain-agree s.kmem.mem (freed v s.kmem.freelist s.kmem.mem) s.kmem.freelist o.pages
              (All-map o.pages
                (λ y f.
                  freed_apart v s.kmem.freelist s.kmem.mem y v_page.aligned f.0.aligned (ne y f))
                o.free_pages)
              o.chain),
      );
      apart = (All-map o.pages ne o.free_pages, o.apart);
      free_pages = (
        (v_page, update_self s.used v false),
        All-map o.pages (λ y f. (f.0, update_ne s.used v false y (ne y f) ∙ f.1)) o.free_pages,
      );
      used_pages = λ y e. elim (Bool-cases (v == y)) [
        | inl same ↦ subst (IsPage kernel_end) (ground arith) v_page
        | inr other ↦ o.used_pages y (sym (update_ne s.used v false y (ground arith)) ∙ e)
      ];
    }

-- A write into a page in use leaves the links of the free pages alone.
store-Owned :
    (kernel_end v a w : ℕ) (s : System)
    → Owned kernel_end s
    → s.used v ≡ true
    → v ≤ a
    → a < v + pgsize
    → Owned kernel_end (record s { kmem = record s.kmem { mem = update s.kmem.mem a w } })
store-Owned kernel_end v a w s o h lo hi = record {
  pages = o.pages;
  chain =
      Chain-agree s.kmem.mem (update s.kmem.mem a w) s.kmem.freelist o.pages
        (All-map o.pages (λ y f. update_ne s.kmem.mem a w y (elsewhere y f)) o.free_pages) o.chain;
  apart = o.apart;
  free_pages = o.free_pages;
  used_pages = o.used_pages;
}
  where
    elsewhere : (y : ℕ) → IsPage kernel_end y × (s.used y ≡ false) → a ≢ y
    elsewhere y (y_page, y_free) same =
        let ne : v ≢ y = λ same'. cc in
        let gap : y < v ⊎ v + 4 * 1024 ≤ y =
          pages_apart v y (o.used_pages v h).aligned y_page.aligned ne in
        omega arith

step-Owned :
    (kernel_end : ℕ) {s t : System} → Step kernel_end s t → Owned kernel_end s → Owned kernel_end t
step-Owned kernel_end (allocates ne) o = (alloc-Owned kernel_end _ o ne).1
step-Owned kernel_end {s} (runs_out z) o =
    subst (λ r. Owned kernel_end (record s { kmem = r.0 }))
      (sym (kalloc-zero s.kmem (kalloc_head-zero s.kmem z))) o
step-Owned kernel_end {s} (frees v h e) o =
    subst (λ k. Owned kernel_end (record { kmem = k; used = update s.used v false }))
      (sym (kfree-some kernel_end v s.kmem e)) (put-Owned kernel_end v s o h)
step-Owned kernel_end {s} (stores v a w h lo hi) o = store-Owned kernel_end v a w s o h lo hi

-- After any interleaving of kalloc, kfree of pages in use, and writes into pages in use: the free
-- list runs through different pages to 0, none of them is in use, and all that is in use are
-- whole pages, aligned and between the kernel's end and PHYSTOP.
pub Reach-Owned : (kernel_end : ℕ) {s : System} → Reach kernel_end s → Owned kernel_end s
Reach-Owned kernel_end (start mem used h) = record {
  pages = [];
  chain = refl;
  apart = tt;
  free_pages = tt;
  used_pages = h;
}
Reach-Owned kernel_end (after r step) = step-Owned kernel_end step (Reach-Owned kernel_end r)

-- Whatever the kernel has done with its pages, a page that `kalloc` then hands out is aligned and
-- between the kernel's end and PHYSTOP, and nobody uses it.
pub kalloc-IsPage :
    (kernel_end : ℕ) (s : System)
    → Reach kernel_end s
    → (kalloc s.kmem).1 ≢ 0
    → IsPage kernel_end (kalloc s.kmem).1 × (s.used (kalloc s.kmem).1 ≡ false)
kalloc-IsPage kernel_end s r ne = (alloc-Owned kernel_end s (Reach-Owned kernel_end r) ne).0

-- If `kfree` of the page `v` does not panic, and `v` is not the null pointer, the next `kalloc`
-- returns `v` and restores the free list.
pub kalloc-kfree :
    (kernel_end v : ℕ) (k k' : Kmem)
    → v ≢ 0
    → kfree kernel_end v k ≡ some k'
    → kalloc k' ≡ (record k' { freelist = k.freelist }, v)
kalloc-kfree kernel_end v k k' ne e =
    subst (λ q. kalloc q ≡ (record q { freelist = k.freelist }, v))
      (sym (kfree-some kernel_end v k e))
      (kalloc-nonzero (record { mem = freed v k.freelist k.mem; freelist = v }) ne
        ∙ ap (λ q. (record { mem = freed v k.freelist k.mem; freelist = q }, v))
            (update_self (fill 1024 v k.mem) v k.freelist))
