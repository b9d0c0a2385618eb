-- ===== src/Vm/Pages.antt =====
-- What walkpgdir, a change of an entry and a round of mappages do to the entry of each address.
use cs.Prelude.{
  ℕ, ◌+◌, ◌/◌, ◌%◌, ◌-◌, ◌<◌, ◌≡◌, ◌≢◌, ◌⊎◌, inl, inr, refl, sym, ◌∙◌, ap, subst, ◌==◌, true,
  Bool-cases, List, [], ◌∷◌, All, All-map, In, Option, Option-cases, some, none, arith, update,
  update_self, update_ne, ==_iff,
}
use cs.Kalloc.{pgsize}
use cs.Vm.{
  Pte, absent, maps, Table, Pgdir, Vm, pdx, ptx, entry, walkpgdir, set_entry, Mapped, mapped,
  no_table, map_page, round_down, mappages, map_from,
}

pub entry-some :
    (d : Pgdir) (va : ℕ) (t : Table) → d (pdx va) ≡ some t → entry d va ≡ t.ptes (ptx va)
entry-some d va t h = rw (h, entry) refl

pub entry-none : (d : Pgdir) (va : ℕ) → d (pdx va) ≡ none → entry d va ≡ absent
entry-none d va h = rw (h, entry) refl

-- The directory in which one table is changed.
entry-update_self :
    (d : Pgdir) (a va : ℕ) (t : Table)
    → pdx va ≡ pdx a
    → entry (update d (pdx a) (some t)) va ≡ t.ptes (ptx va)
entry-update_self d a va t h =
    entry-some (update d (pdx a) (some t)) va t
      (ap (update d (pdx a) (some t)) h ∙ update_self d (pdx a) (some t))

entry-update_ne :
    (d : Pgdir) (a va : ℕ) (t : Table)
    → pdx a ≢ pdx va
    → entry (update d (pdx a) (some t)) va ≡ entry d va
entry-update_ne d a va t h =
    ap (λ (o : Option Table). elim o [ none ↦ absent | some u ↦ u.ptes (ptx va) ])
      (update_ne d (pdx a) (some t) (pdx va) h)

pub entry-set_entry :
    (d : Pgdir) (a : ℕ) (e : Pte) (t : Table) → d (pdx a) ≡ some t → entry (set_entry a e d) a ≡ e
unfolding set_entry
entry-set_entry d a e t h =
    rw (h, set_entry)
      (entry-update_self d a a (record t { ptes = update t.ptes (ptx a) e }) refl
        ∙ update_self t.ptes (ptx a) e)

pub entry-set_entry_ne :
    (d : Pgdir) (a va : ℕ) (e : Pte)
    → (pdx a ≢ pdx va) ⊎ (ptx a ≢ ptx va)
    → entry (set_entry a e d) va ≡ entry d va
unfolding set_entry
entry-set_entry_ne d a va e apart = elim (Option-cases (d (pdx a))) [
  | inl h ↦ rw (h, set_entry) refl
  | inr (t, h) ↦
      let t' : Table = record t { ptes = update t.ptes (ptx a) e } in
      rw (h, set_entry)
        (elim (Bool-cases (pdx a == pdx va)) [
          | inl same ↦
              let eq : pdx a ≡ pdx va = (==_iff (pdx a) (pdx va)).0 same in
              elim apart [
                | inl ne ↦ absurd (ne eq)
                | inr ne ↦
                    entry-update_self d a va t' (sym eq)
                    ∙ update_ne t.ptes (ptx a) e (ptx va) ne
                    ∙ sym (entry-some d va t (ap d (sym eq) ∙ h))
              ]
          | inr other ↦ entry-update_ne d a va t' (λ eq. ground (arith, ==_iff (pdx a) (pdx va)))
        ])
]

-- Addresses of 32 bits on different pages have different indices.
pub pages_apart :
    (a va : ℕ)
    → a < 0x100000000
    → va < 0x100000000
    → a / pgsize ≢ va / pgsize
    → (pdx a ≢ pdx va) ⊎ (ptx a ≢ ptx va)
pages_apart a va ha hv ne = elim (Bool-cases (pdx a == pdx va)) [
  | inr other ↦ inl (λ e. ground (arith, ==_iff (pdx a) (pdx va)))
  | inl same ↦ inr (λ e. ne (omega (arith, (==_iff (pdx a) (pdx va)).0 same)))
]

-- What a call leaves of the free pages.
abbrev pub Within : List ℕ → List ℕ → Type 0
Within pages whole = All (λ p. In p whole) pages

pub Within-self : (pages : List ℕ) → Within pages pages
Within-self [] = tt
Within-self (p ∷ pages) = (inl refl, All-map pages (λ q m. inr m) (Within-self pages))

pub Within-rest : (p : ℕ) (pages whole : List ℕ) → Within pages whole → Within pages (p ∷ whole)
Within-rest p pages whole h = All-map pages (λ q m. inr m) h

-- The result of `walkpgdir`: no page is left for the table, or the table is there and no entry has
-- changed.
pub data Walked (a : ℕ) (vm : Vm) : Option Vm → Type 0 where
  no_memory : {r : Option Vm} → r ≡ none → Walked a vm r
  there :
      (vm' : Vm) (t : Table) {r : Option Vm}
      → vm'.pgdir (pdx a) ≡ some t
      → ((va : ℕ) → entry vm'.pgdir va ≡ entry vm.pgdir va)
      → Within vm'.free vm.free
      → r ≡ some vm'
      → Walked a vm r

abbrev empty_table : ℕ → Table
empty_table page = record { page = page; ptes = λ i. absent }

new_table :
    (a : ℕ) (vm : Vm) (pages : List ℕ)
    → pages ≡ vm.free
    → vm.pgdir (pdx a) ≡ none
    → Walked a vm (walkpgdir a vm)
unfolding walkpgdir
new_table a vm [] e h = no_memory (rw (h, sym e, walkpgdir) refl)
new_table a vm (page ∷ rest) e h =
    there (record { pgdir = update vm.pgdir (pdx a) (some (empty_table page)); free = rest })
      (empty_table page) (update_self vm.pgdir (pdx a) (some (empty_table page)))
      (λ va. elim (Bool-cases (pdx a == pdx va)) [
        | inl same ↦
            let eq : pdx a ≡ pdx va = (==_iff (pdx a) (pdx va)).0 same in
            entry-update_self vm.pgdir a va (empty_table page) (sym eq)
            ∙ sym (entry-none vm.pgdir va (ap vm.pgdir (sym eq) ∙ h))
        | inr other ↦
            entry-update_ne vm.pgdir a va (empty_table page)
              (λ eq. ground (arith, ==_iff (pdx a) (pdx va)))
      ])
      (subst (Within rest) e (Within-rest page rest rest (Within-self rest)))
      (rw (h, sym e, walkpgdir) refl)

pub walkpgdir-Walked : (a : ℕ) (vm : Vm) → Walked a vm (walkpgdir a vm)
unfolding walkpgdir
walkpgdir-Walked a vm = elim (Option-cases (vm.pgdir (pdx a))) [
  | inr (t, h) ↦ there vm t h (λ va. refl) (Within-self vm.free) (rw (h, walkpgdir) refl)
  | inl h ↦ new_table a vm vm.free refl h
]

-- The result of `mappages` of one page whose entry is absent.
pub data OnePage (a pa : ℕ) (vm : Vm) : Mapped → Type 0 where
  out_of_pages : {r : Mapped} → r ≡ no_table vm → OnePage a pa vm r
  has_page :
      (vm' : Vm) {r : Mapped}
      → entry vm'.pgdir a ≡ maps pa true true
      → ((va : ℕ) → (pdx a ≢ pdx va) ⊎ (ptx a ≢ ptx va) → entry vm'.pgdir va ≡ entry vm.pgdir va)
      → Within vm'.free vm.free
      → r ≡ mapped vm'
      → OnePage a pa vm r

map_page-OnePage :
    (a pa : ℕ) (vm : Vm) → entry vm.pgdir a ≡ absent → OnePage a pa vm (map_page a pa true true vm)
unfolding map_page
map_page-OnePage a pa vm h = elim (walkpgdir-Walked a vm) [
  | no_memory e ↦ out_of_pages (rw (e, map_page) refl)
  | there vm' t e keeps free r ↦
      has_page (record vm' { pgdir = set_entry a (maps pa true true) vm'.pgdir })
        (entry-set_entry vm'.pgdir a (maps pa true true) t e)
        (λ va apart. entry-set_entry_ne vm'.pgdir a va (maps pa true true) apart ∙ keeps va) free
        (rw (r, keeps a ∙ h, map_page) refl)
]

one_round : (a : ℕ) → a % pgsize ≡ 0 → (round_down a ≡ a) × (round_down (a + pgsize - 1) ≡ a)
one_round a h = (omega arith, omega arith)

pub mappages-OnePage :
    (a pa : ℕ) (vm : Vm)
    → a % pgsize ≡ 0
    → entry vm.pgdir a ≡ absent
    → OnePage a pa vm (mappages a pgsize pa true true vm)
unfolding mappages map_from
mappages-OnePage a pa vm aligned h =
    let r = one_round a aligned in
    let none_left : (round_down (a + pgsize - 1) - round_down a) / pgsize ≡ 0 = omega (arith, r) in
    rw (none_left, r.0) (map_page-OnePage a pa vm h)
