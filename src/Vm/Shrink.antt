-- ===== src/Vm/Shrink.antt =====
-- What deallocuvm does to the entries and to the free pages.
use cs.Prelude.{
  ℕ, zero, suc, ◌+◌, ◌*◌, ◌/◌, ◌%◌, ◌≤◌, ◌<◌, ◌≡◌, ◌≢◌, ◌⊎◌, inl, inr, refl, sym, ◌∙◌, ap, ltb, leb,
  Bool, false, Bool-cases, ◌∷◌, All-map, All-In, In, Option-cases, some, none, arith, ltb→lt,
}
use cs.Kalloc.{pgsize, kernbase, round_up}
use cs.Vm.{
  Pte, absent, maps, Table, Pgdir, Vm, pdx, ptx, entry, set_entry, dealloc_from, deallocuvm,
}
use cs.Vm.Pages.{
  entry-some, entry-none, entry-set_entry, entry-set_entry_ne, pages_apart, Within, Within-self,
  Within-rest,
}

-- The pages from `lo` to before `hi` are gone, others have stayed; what they were mapped to is free.
pub record Shrunk (lo hi : ℕ) (vm vm' : Vm) : Type 0 where
  pub gone : (va : ℕ) → lo ≤ va → va < hi → entry vm'.pgdir va ≡ absent
  pub kept :
      (va : ℕ) → va < 0x100000000 → (va < lo) ⊎ (hi ≤ va) → entry vm'.pgdir va ≡ entry vm.pgdir va
  pub freed :
      (va pa : ℕ) (w u : Bool)
      → lo ≤ va
      → va < hi
      → entry vm.pgdir va ≡ maps pa w u
      → In pa vm'.free
  pub still_free : Within vm.free vm'.free

-- Nothing is mapped to the physical address 0, which kfree would not take.
abbrev pub NonZero : Pgdir → ℕ → ℕ → Type 0
NonZero d lo hi = (va : ℕ) (w u : Bool) → lo ≤ va → va < hi → entry d va ≢ maps 0 w u

no_pages : (lo hi : ℕ) (vm : Vm) → hi ≤ lo → Shrunk lo hi vm vm
no_pages lo hi vm h = record {
  gone = λ va l m. absurd (omega arith);
  kept = λ va l m. refl;
  freed = λ va pa w u l m e. absurd (omega arith);
  still_free = Within-self vm.free;
}

pub absent-ne-maps : {pa : ℕ} {w u : Bool} → absent ≢ maps pa w u
absent-ne-maps e = cc

-- The pages up to `next`, and then the others.
joined :
    (lo next hi : ℕ) (vm vm1 vm' : Vm)
    → lo < next
    → lo < hi
    → next ≤ 0x100000000
    → ((va : ℕ) → lo ≤ va → va < next → entry vm1.pgdir va ≡ absent)
    → ((va : ℕ)
        → va < 0x100000000
        → (va < lo) ⊎ (next ≤ va)
        → entry vm1.pgdir va ≡ entry vm.pgdir va)
    → ((va pa : ℕ) (w u : Bool)
        → lo ≤ va
        → va < next
        → entry vm.pgdir va ≡ maps pa w u
        → In pa vm1.free)
    → Within vm.free vm1.free
    → hi ≤ kernbase
    → next ≤ hi ⊎ ((va : ℕ) → hi ≤ va → va < next → entry vm.pgdir va ≡ absent)
    → Shrunk next hi vm1 vm'
    → Shrunk lo hi vm vm'
joined lo next hi vm vm1 vm' h some_left top here there out fits low over s = record {
  gone = λ va l m. elim (Bool-cases (ltb va next)) [
    | inl first ↦
        s.kept va (omega arith) (inl (ltb→lt va next first)) ∙ here va l (ltb→lt va next first)
    | inr later ↦ s.gone va (ground arith) m
  ];
  kept = λ va b c. elim c [
    | inl before ↦ s.kept va b (inl (omega arith)) ∙ there va b (inl before)
    | inr beyond ↦ elim (Bool-cases (ltb va next)) [
      | inr later ↦ s.kept va b (inr beyond) ∙ there va b (inr (ground arith))
      | inl first ↦ elim over [
        | inl le ↦ absurd (ground arith)
        | inr empty ↦
            s.kept va b (inr beyond)
            ∙ here va (omega arith) (ltb→lt va next first)
            ∙ sym (empty va beyond (ltb→lt va next first))
      ]
    ]
  ];
  freed = λ va pa w u l m e. elim (Bool-cases (ltb va next)) [
    | inl first ↦ All-In _ vm1.free pa s.still_free (out va pa w u l (ltb→lt va next first) e)
    | inr later ↦
        s.freed va pa w u (ground arith) m (there va (omega arith) (inr (ground arith)) ∙ e)
  ];
  still_free = All-map vm.free (λ p m. All-In _ vm1.free p s.still_free m) fits;
}

Pte-cases : (e : Pte) → (e ≡ absent) ⊎ ((pa : ℕ) × (w : Bool) × (u : Bool) × (e ≡ maps pa w u))
Pte-cases absent = inl refl
Pte-cases (maps pa w u) = inr (pa, w, u, refl)

pub same_page :
    (d : Pgdir) (a va : ℕ) → a % pgsize ≡ 0 → a ≤ va → va < a + pgsize → entry d va ≡ entry d a
same_page d a va h l m =
    let p : pdx va ≡ pdx a = omega arith in
    let q : ptx va ≡ ptx a = omega arith in
    ap (λ i. elim (d i) [ none ↦ absent | some t ↦ t.ptes (ptx va) ]) p
    ∙ ap (λ j. elim (d (pdx a)) [ none ↦ absent | some t ↦ t.ptes j ]) q

-- An address with no page table: the whole directory entry is skipped.
skip_table :
    (a hi : ℕ) (vm vm' : Vm)
    → a < hi
    → hi ≤ kernbase
    → vm.pgdir (pdx a) ≡ none
    → Shrunk ((pdx a + 1) * 0x400000) hi vm vm'
    → Shrunk a hi vm vm'
skip_table a hi vm vm' below fits h s =
    let empty : (va : ℕ) → a ≤ va → va < (pdx a + 1) * 0x400000 → entry vm.pgdir va ≡ absent =
      λ va l m. entry-none vm.pgdir va (ap vm.pgdir (table_of va l m) ∙ h) in
    joined a ((pdx a + 1) * 0x400000) hi vm vm vm' (omega arith) below (omega arith) empty
      (λ va b c. refl) (λ va pa w u l m e. absurd (absent-ne-maps (sym (empty va l m) ∙ e)))
      (Within-self vm.free) fits (inr (λ va l m. empty va (omega arith) m)) s
  where
    table_of : (va : ℕ) → a ≤ va → va < (pdx a + 1) * 0x400000 → pdx va ≡ pdx a
    table_of va l m = omega arith

-- A page that is absent, or that is unmapped and freed.
clear_page :
    (a hi : ℕ) (vm vm1 vm' : Vm)
    → a % pgsize ≡ 0
    → a + pgsize ≤ hi
    → hi ≤ kernbase
    → entry vm1.pgdir a ≡ absent
    → ((va : ℕ) → (pdx a ≢ pdx va) ⊎ (ptx a ≢ ptx va) → entry vm1.pgdir va ≡ entry vm.pgdir va)
    → ((pa : ℕ) (w u : Bool) → entry vm.pgdir a ≡ maps pa w u → In pa vm1.free)
    → Within vm.free vm1.free
    → Shrunk (a + pgsize) hi vm1 vm'
    → Shrunk a hi vm vm'
clear_page a hi vm vm1 vm' aligned inside fits here there out grows s =
    joined a (a + pgsize) hi vm vm1 vm' (omega arith) (omega arith) (omega arith)
      (λ va l m. same_page vm1.pgdir a va aligned l m ∙ here)
      (λ va b c. there va (pages_apart a va (omega arith) b (other_page va c)))
      (λ va pa w u l m e. out pa w u (sym (same_page vm.pgdir a va aligned l m) ∙ e)) grows fits
      (inl inside) s
  where
    other_page : (va : ℕ) → (va < a) ⊎ (a + pgsize ≤ va) → a / pgsize ≢ va / pgsize
    other_page va (inl before) e = absurd (omega arith)
    other_page va (inr beyond) e = absurd (omega arith)

NonZero-later :
    (a hi : ℕ) (d d' : Pgdir) (next : ℕ)
    → a ≤ next
    → hi ≤ kernbase
    → ((va : ℕ) → va < 0x100000000 → next ≤ va → entry d' va ≡ entry d va)
    → NonZero d a hi
    → NonZero d' next hi
NonZero-later a hi d d' next h fits keeps z va w u l m e =
    z va w u (omega arith) m (sym (keeps va (omega arith) l) ∙ e)

others :
    (vm : Vm) (a va : ℕ)
    → a % pgsize ≡ 0
    → a < kernbase
    → va < 0x100000000
    → a + pgsize ≤ va
    → entry (set_entry a absent vm.pgdir) va ≡ entry vm.pgdir va
others vm a va aligned h b c =
    entry-set_entry_ne vm.pgdir a va absent (pages_apart a va (omega arith) b (λ e. omega arith))

freed_page :
    (a hi pa : ℕ) (w u : Bool) (vm vm' : Vm) (t : Table)
    → a % pgsize ≡ 0
    → a + pgsize ≤ hi
    → hi ≤ kernbase
    → vm.pgdir (pdx a) ≡ some t
    → t.ptes (ptx a) ≡ maps (suc pa) w u
    → Shrunk
        (a + pgsize)
        hi
        (record { pgdir = set_entry a absent vm.pgdir; free = suc pa ∷ vm.free })
        vm'
    → Shrunk a hi vm vm'
freed_page a hi pa w u vm vm' t aligned inside fits h here s =
    clear_page a hi vm (record { pgdir = set_entry a absent vm.pgdir; free = suc pa ∷ vm.free }) vm'
      aligned inside fits (entry-set_entry vm.pgdir a absent t h)
      (λ va c. entry-set_entry_ne vm.pgdir a va absent c)
      (λ q v x e. inl (same_address (sym e ∙ entry-some vm.pgdir a t h ∙ here)))
      (Within-rest (suc pa) vm.free vm.free (Within-self vm.free)) s
  where
    same_address : {p q : ℕ} {v x w u : Bool} → maps p v x ≡ maps q w u → p ≡ q
    same_address e = cc

dealloc_from-Shrunk :
    (n a oldsz : ℕ) (vm : Vm)
    → a % pgsize ≡ 0
    → oldsz < a + n * pgsize
    → round_up oldsz ≤ kernbase
    → NonZero vm.pgdir a (round_up oldsz)
    → (vm' : Vm) × (dealloc_from n a oldsz vm ≡ some vm') × Shrunk a (round_up oldsz) vm vm'
unfolding dealloc_from
dealloc_from-Shrunk zero a oldsz vm aligned fuel fits z =
    (vm, refl, no_pages a (round_up oldsz) vm (omega arith))
dealloc_from-Shrunk (suc n) a oldsz vm aligned fuel fits z = elim (Bool-cases (ltb a oldsz)) [
  | inr out ↦
      let le : oldsz ≤ a = ground arith in
      (vm, rw (out, dealloc_from) refl, no_pages a (round_up oldsz) vm (omega arith))
  | inl inside ↦
      let lt : a < oldsz = ltb→lt a oldsz inside in
      let hi : ℕ = round_up oldsz in
      elim (Option-cases (vm.pgdir (pdx a))) [
        | inl h ↦
            let next : ℕ = (pdx a + 1) * 0x400000 in
            let (vm', e, s) =
              dealloc_from-Shrunk n next oldsz vm (omega arith) (omega arith) fits
                (NonZero-later a hi vm.pgdir vm.pgdir next (omega arith) fits (λ va b c. refl) z) in
            (vm', rw (inside, h, dealloc_from) e, skip_table a hi vm vm' (omega arith) fits h s)
        | inr (t, h) ↦ elim (Pte-cases (t.ptes (ptx a))) [
          | inl none_here ↦
              let (vm', e, s) =
                dealloc_from-Shrunk n (a + pgsize) oldsz vm (omega arith) (omega arith) fits (
                  NonZero-later a hi vm.pgdir vm.pgdir (a + pgsize) (omega arith) fits
                    (λ va b c. refl) z) in
              let gone : entry vm.pgdir a ≡ absent = entry-some vm.pgdir a t h ∙ none_here in
              (
                vm',
                rw (inside, h, none_here, dealloc_from) e,
                clear_page a hi vm vm vm' aligned (omega arith) fits gone (λ va c. refl)
                    (λ pa w u f. absurd (absent-ne-maps (sym gone ∙ f))) (Within-self vm.free) s,
              )
          | inr (zero, w, u, here) ↦
              absurd (z a w u (omega arith) (omega arith) (entry-some vm.pgdir a t h ∙ here))
          | inr (suc pa, w, u, here) ↦
              let vm1 : Vm = record {
                pgdir = set_entry a absent vm.pgdir;
                free = suc pa ∷ vm.free;
              } in
              let (vm', e, s) =
                dealloc_from-Shrunk n (a + pgsize) oldsz vm1 (omega arith) (omega arith) fits (
                  NonZero-later a hi vm.pgdir vm1.pgdir (a + pgsize) (omega arith) fits
                    (λ va b c. others vm a va aligned (omega arith) b c) z) in
              (
                vm',
                rw (inside, h, here, dealloc_from) e,
                freed_page a hi pa w u vm vm' t aligned (omega arith) fits h here s,
              )
        ]
      ]
]

-- `deallocuvm` down to a smaller size, of a process below KERNBASE, where no page between is mapped
-- to the physical address 0: it does not panic and returns the new size; the pages between the two
-- sizes, each rounded up, are no longer mapped, the entries of all other addresses are as before,
-- and the memory of the pages is on the free list.
pub deallocuvm-Shrunk :
    (oldsz newsz : ℕ) (vm : Vm)
    → newsz < oldsz
    → oldsz ≤ kernbase
    → NonZero vm.pgdir (round_up newsz) (round_up oldsz)
    → (vm' : Vm) × (deallocuvm oldsz newsz vm ≡ some (vm', newsz))
      × Shrunk (round_up newsz) (round_up oldsz) vm vm'
unfolding deallocuvm
deallocuvm-Shrunk oldsz newsz vm h fits z =
    let (vm', e, s) =
      dealloc_from-Shrunk (oldsz / pgsize + 1) (round_up newsz) oldsz vm (omega arith) (omega arith)
        (omega arith) z in
    let smaller : leb oldsz newsz ≡ false = ground arith in (vm', rw (smaller, e) refl, s)
