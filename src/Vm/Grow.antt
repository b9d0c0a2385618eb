-- ===== src/Vm/Grow.antt =====
-- What allocuvm does to the entries, when it succeeds and when it runs out of memory.
use cs.Prelude.{
  ℕ, zero, suc, ◌+◌, ◌*◌, ◌/◌, ◌%◌, ◌≤◌, ◌<◌, ◌≡◌, ◌≢◌, ◌⊎◌, inl, inr, refl, sym, ◌∙◌, subst, ltb,
  leb, Bool, true, false, Bool-cases, List, [], ◌∷◌, All, All-map, All-In, In, Option, some, none,
  arith, ltb→lt,
}
use cs.Kalloc.{pgsize, kernbase, round_up}
use cs.Vm.{absent, maps, Pgdir, Vm, pdx, ptx, entry, undo, alloc_from, allocuvm}
use cs.Vm.Pages.{pages_apart, Within, Within-self, out_of_pages, has_page, mappages-OnePage}
use cs.Vm.Shrink.{Shrunk, NonZero, same_page, absent-ne-maps, deallocuvm-Shrunk}

-- The pages from `lo` to before `hi` are mapped, writable by the user, to what were free pages.
pub record Grown (lo hi : ℕ) (vm vm' : Vm) : Type 0 where
  pub new :
      (va : ℕ)
      → lo ≤ va
      → va < hi
      → (pa : ℕ) × (entry vm'.pgdir va ≡ maps pa true true) × In pa vm.free
  pub kept :
      (va : ℕ) → va < 0x100000000 → (va < lo) ⊎ (hi ≤ va) → entry vm'.pgdir va ≡ entry vm.pgdir va
  pub from_free : Within vm'.free vm.free

abbrev pub Absent : Pgdir → ℕ → ℕ → Type 0
Absent d lo hi = (va : ℕ) → lo ≤ va → va < hi → entry d va ≡ absent

Grown-none : (lo : ℕ) (vm : Vm) → Grown lo lo vm vm
Grown-none lo vm = record {
  new = λ va l m. absurd (omega arith);
  kept = λ va b c. refl;
  from_free = Within-self vm.free;
}

-- A page more, after `mappages` of one page on the rest of the free pages.
Grown-page :
    (lo a mem : ℕ) (rest : List ℕ) (vm0 vm vm' : Vm)
    → a % pgsize ≡ 0
    → lo ≤ a
    → a < kernbase
    → vm.free ≡ mem ∷ rest
    → Grown lo a vm0 vm
    → entry vm'.pgdir a ≡ maps mem true true
    → ((va : ℕ) → (pdx a ≢ pdx va) ⊎ (ptx a ≢ ptx va) → entry vm'.pgdir va ≡ entry vm.pgdir va)
    → Within vm'.free rest
    → Grown lo (a + pgsize) vm0 vm'
Grown-page lo a mem rest vm0 vm vm' aligned le below e g here there within = record {
  new = λ va l m. elim (Bool-cases (ltb va a)) [
    | inl old ↦
        let (pa, p, q) = g.new va l (ltb→lt va a old) in
        (
          pa,
          there va (pages_apart a va (omega arith) (omega arith) (apart va (inl (ltb→lt va a old))))
              ∙ p,
          q,
        )
    | inr this ↦
        (mem, same_page vm'.pgdir a va aligned (ground arith) m ∙ here, In_rest mem (inl refl))
  ];
  kept = λ va b c.
      there va (pages_apart a va (omega arith) b (apart va (beyond va c)))
      ∙ g.kept va b (wider va c);
  from_free = All-map vm'.free (λ p m. In_rest p (inr m)) within;
}
  where
    apart : (va : ℕ) → (va < a) ⊎ (a + pgsize ≤ va) → a / pgsize ≢ va / pgsize
    apart va (inl before) q = absurd (omega arith)
    apart va (inr beyond) q = absurd (omega arith)

    beyond : (va : ℕ) → (va < lo) ⊎ (a + pgsize ≤ va) → (va < a) ⊎ (a + pgsize ≤ va)
    beyond va (inl before) = inl (omega arith)
    beyond va (inr after) = inr after

    wider : (va : ℕ) → (va < lo) ⊎ (a + pgsize ≤ va) → (va < lo) ⊎ (a ≤ va)
    wider va (inl before) = inl before
    wider va (inr after) = inr (omega arith)

    In_rest : (p : ℕ) → In p (mem ∷ rest) → In p vm0.free
    In_rest p m = All-In _ vm.free p g.from_free (subst (In p) (sym e) m)

-- The two ways in which `allocuvm` ends: the process has grown, or no memory is left and its entries
-- are as before.
pub data Ends (lo hi newsz : ℕ) (vm : Vm) : Option (Vm × ℕ) → Type 0 where
  grows :
      (vm' : Vm) {r : Option (Vm × ℕ)}
      → Grown lo hi vm vm'
      → r ≡ some (vm', newsz)
      → Ends lo hi newsz vm r
  gives_up :
      (vm' : Vm) {r : Option (Vm × ℕ)}
      → ((va : ℕ) → va < 0x100000000 → entry vm'.pgdir va ≡ entry vm.pgdir va)
      → r ≡ some (vm', 0)
      → Ends lo hi newsz vm r

Grown-NonZero :
    (lo a hi : ℕ) (vm0 vm : Vm)
    → hi ≤ kernbase
    → All (λ p. 0 < p) vm0.free
    → Absent vm0.pgdir lo hi
    → Grown lo a vm0 vm
    → NonZero vm.pgdir lo hi
Grown-NonZero lo a hi vm0 vm fits pos empty g va w u l m e = elim (Bool-cases (ltb va a)) [
  | inl first ↦
      let (pa, p, q) = g.new va l (ltb→lt va a first) in
      let zero_page : 0 ≡ pa = same_address (sym e ∙ p) in
      let high : 0 < pa = All-In (λ p. 0 < p) vm0.free pa pos q in omega arith
  | inr later ↦
      absent-ne-maps (sym (empty va l m) ∙ sym (g.kept va (omega arith) (inr (ground arith))) ∙ e)
]
  where
    same_address : {p q : ℕ} {v x w u : Bool} → maps p v x ≡ maps q w u → p ≡ q
    same_address e = cc

undo-Ends :
    (a oldsz newsz : ℕ) (vm0 vm : Vm) (mem : Option ℕ)
    → round_up oldsz ≤ a
    → a < newsz
    → newsz < kernbase
    → All (λ p. 0 < p) vm0.free
    → Absent vm0.pgdir (round_up oldsz) (round_up newsz)
    → Grown (round_up oldsz) a vm0 vm
    → Ends (round_up oldsz) (round_up newsz) newsz vm0 (undo oldsz newsz vm mem)
unfolding undo
undo-Ends a oldsz newsz vm0 vm mem le lt fits pos empty g =
    let (vm', e, s) =
      deallocuvm-Shrunk newsz oldsz vm (omega arith) (omega arith)
        (Grown-NonZero (round_up oldsz) a (round_up newsz) vm0 vm (omega arith) pos empty g) in
    rw (e, undo) (ended vm' s mem)
  where
    as_before :
        (vm' : Vm) (va : ℕ)
        → Shrunk (round_up oldsz) (round_up newsz) vm vm'
        → va < 0x100000000
        → entry vm'.pgdir va ≡ entry vm0.pgdir va
    as_before vm' va s b = elim (Bool-cases (ltb va (round_up oldsz))) [
      | inl below ↦
          let c : va < round_up oldsz = ltb→lt va (round_up oldsz) below in
          s.kept va b (inl c) ∙ g.kept va b (inl c)
      | inr above ↦ elim (Bool-cases (ltb va (round_up newsz))) [
        | inl inside ↦
            let c : va < round_up newsz = ltb→lt va (round_up newsz) inside in
            s.gone va (ground arith) c ∙ sym (empty va (ground arith) c)
        | inr beyond ↦
            let c : round_up newsz ≤ va = ground arith in
            s.kept va b (inr c) ∙ g.kept va b (inr (omega arith))
      ]
    ]

    ended :
        (vm' : Vm)
        → Shrunk (round_up oldsz) (round_up newsz) vm vm'
        → (m : Option ℕ)
        → Ends (round_up oldsz) (round_up newsz) newsz vm0 (elim m [
          | none ↦ some (vm', 0)
          | some page ↦ some (record vm' { free = page ∷ vm'.free }, 0)
        ])
    ended vm' s none = gives_up vm' (λ va b. as_before vm' va s b) refl
    ended vm' s (some page) =
        gives_up (record vm' { free = page ∷ vm'.free }) (λ va b. as_before vm' va s b) refl

free-cases : (pages : List ℕ) → (pages ≡ []) ⊎ ((p : ℕ) × (rest : List ℕ) × (pages ≡ p ∷ rest))
free-cases [] = inl refl
free-cases (p ∷ rest) = inr (p, rest, refl)

alloc_from-Ends :
    (n a oldsz newsz : ℕ) (vm0 vm : Vm)
    → a % pgsize ≡ 0
    → round_up oldsz ≤ a
    → a ≤ round_up newsz
    → newsz < a + n * pgsize
    → newsz < kernbase
    → All (λ p. 0 < p) vm0.free
    → Absent vm0.pgdir (round_up oldsz) (round_up newsz)
    → Grown (round_up oldsz) a vm0 vm
    → Ends (round_up oldsz) (round_up newsz) newsz vm0 (alloc_from n a oldsz newsz vm)
unfolding alloc_from
alloc_from-Ends zero a oldsz newsz vm0 vm aligned le top fuel fits pos empty g =
    let done : a ≡ round_up newsz = omega arith in
    grows vm (subst (λ q. Grown (round_up oldsz) q vm0 vm) done g) refl
alloc_from-Ends (suc n) a oldsz newsz vm0 vm aligned le top fuel fits pos empty g =
    elim (Bool-cases (ltb a newsz)) [
      | inr out ↦
          let past : newsz ≤ a = ground arith in
          let done : a ≡ round_up newsz = omega arith in
          grows vm (subst (λ q. Grown (round_up oldsz) q vm0 vm) done g) (rw (out, alloc_from) refl)
      | inl inside ↦
          let lt : a < newsz = ltb→lt a newsz inside in
          elim (free-cases vm.free) [
            | inl none_left ↦
                rw (inside, none_left, alloc_from)
                  (undo-Ends a oldsz newsz vm0 vm none le lt fits pos empty g)
            | inr (mem, rest, e) ↦
                let here : entry vm.pgdir a ≡ absent =
                  g.kept a (omega arith) (inr (omega arith)) ∙ empty a le (omega arith) in
                elim (mappages-OnePage a mem (record vm { free = rest }) aligned here) [
                  | out_of_pages f ↦
                      rw (inside, e, f, alloc_from)
                        (undo-Ends a oldsz newsz vm0 (record vm { free = rest }) (some mem) le lt
                          fits pos empty
                          (record {
                            new = g.new;
                            kept = g.kept;
                            from_free =
                                All-tail mem rest (subst (λ l. Within l vm0.free) e g.from_free);
                          }))
                  | has_page vm' now there within f ↦
                      rw (inside, e, f, alloc_from)
                        (alloc_from-Ends n (a + pgsize) oldsz newsz vm0 vm' (omega arith)
                          (omega arith) (omega arith) (omega arith) fits pos empty
                          (Grown-page (round_up oldsz) a mem rest vm0 vm vm' aligned le
                            (omega arith) e g now there within))
                ]
          ]
    ]
  where
    All-tail : (p : ℕ) (l : List ℕ) → Within (p ∷ l) vm0.free → Within l vm0.free
    All-tail p l h = h.1

-- `allocuvm` up to a size that is not smaller and below KERNBASE, where the pages between are not
-- mapped and no free page is at the physical address 0: it does not panic. It returns the new size,
-- and the pages between the two sizes, each rounded up, are mapped to pages that were free, for the
-- user to write; or it returns 0, and every entry is as before. The entries of all other addresses
-- stay as they are.
pub allocuvm-Ends :
    (oldsz newsz : ℕ) (vm : Vm)
    → oldsz ≤ newsz
    → newsz < kernbase
    → All (λ p. 0 < p) vm.free
    → Absent vm.pgdir (round_up oldsz) (round_up newsz)
    → Ends (round_up oldsz) (round_up newsz) newsz vm (allocuvm oldsz newsz vm)
unfolding allocuvm
allocuvm-Ends oldsz newsz vm h fits pos empty =
    let below : leb kernbase newsz ≡ false = ground arith in
    let larger : ltb newsz oldsz ≡ false = ground arith in
    rw (below, larger)
      (alloc_from-Ends (newsz / pgsize + 1) (round_up oldsz) oldsz newsz vm vm (omega arith)
        (omega arith) (omega arith) (omega arith) fits pos empty (Grown-none (round_up oldsz) vm))
