-- ===== src/Vm/Copy.antt =====
-- uva2ka and copyout: the kernel writes into the pages of a process, in the memory of
-- string.c's memmove. Addresses do not wrap.
use cs.Prelude.{
  ℕ, zero, suc, ◌+◌, ◌-◌, ◌<◌, ◌≤◌, ◌≡◌, ◌≢◌, inl, inr, refl, sym, ◌∙◌, ap, subst, ltb,
  if◌then◌else◌, true, false, Bool-cases, Option, some, none, arith, ltb→lt,
}
use cs.Kalloc.{pgsize, kernbase}
use cs.Text.{Memory, memmove}
use cs.Text.Move.{Moved, memmove-Moved}
use cs.Vm.{absent, maps, Pgdir, pdx, ptx, round_down}

-- `none` where the code reads an entry through the null pointer, for want of a page table.
unfoldable pub uva2ka : Pgdir → ℕ → Option (Option ℕ)
uva2ka d uva = elim (d (pdx uva)) [
  | none ↦ none
  | some t ↦ elim (t.ptes (ptx uva)) [
    | absent ↦ some none
    | maps pa w u ↦ some (if u then some (pa + kernbase) else none)
  ]
]

-- The result of `copyout`: 0, -1 or the read through the null pointer.
pub data Copied : Type 0 where
  copied : Memory → Copied
  unmapped : Memory → Copied
  null_table : Copied

-- `n`, the bytes that a round copies.
abbrev pub count : ℕ → ℕ → ℕ
count va len =
    if ltb len (pgsize - (va - round_down va)) then len else pgsize - (va - round_down va)

-- The loop of `copyout`. Fuel is spent on a round each.
unfoldable pub copy_from : ℕ → Pgdir → ℕ → ℕ → ℕ → Memory → Copied
unfolding uva2ka
copy_from zero d va buf len m = copied m
copy_from (suc fuel) d va buf len m = elim (ltb 0 len) [
  | false ↦ copied m
  | true ↦ elim (uva2ka d (round_down va)) [
    | none ↦ null_table
    | some none ↦ unmapped m
    | some (some pa0) ↦
        let n = count va len in
        copy_from fuel d (round_down va + pgsize) (buf + n) (len - n)
          (memmove (pa0 + (va - round_down va)) buf n m)
  ]
]

unfoldable pub copyout : Pgdir → ℕ → ℕ → ℕ → Memory → Copied
unfolding copy_from
copyout d va p len m = copy_from len d va p len m

-- Where the byte of the user's address is, with `page` the kernel's address of each page.
abbrev pub place : (ℕ → ℕ) → ℕ → ℕ
place page va = page (round_down va) + (va - round_down va)

-- The pages of the `len` bytes from `va` on are the user's, no two share a byte, and the source is
-- apart from them.
pub record IsWritable (d : Pgdir) (page : ℕ → ℕ) (va buf len : ℕ) : Type 0 where
  pub user :
      (i : ℕ) → i < len → uva2ka d (round_down (va + i)) ≡ some (some (page (round_down (va + i))))
  pub distinct : (i j : ℕ) → i < len → j < len → i ≢ j → place page (va + i) ≢ place page (va + j)
  pub apart : (i j : ℕ) → i < len → j < len → place page (va + i) ≢ buf + j

pub record Filled (page : ℕ → ℕ) (va buf len : ℕ) (m m' : Memory) : Type 0 where
  pub bytes : (i : ℕ) → i < len → m' (place page (va + i)) ≡ m (buf + i)
  pub others : (k : ℕ) → ((i : ℕ) → i < len → k ≢ place page (va + i)) → m' k ≡ m k

same_round :
    (va i len : ℕ) → 0 < len → i < count va len → (round_down (va + i) ≡ round_down va) × (i < len)
same_round va i len h l = elim (Bool-cases (ltb len (pgsize - (va - round_down va)))) [
  | inl last ↦
      let small : len < pgsize - (va - round_down va) = ltb→lt len _ last in
      let q : i < len = rw last at l in (omega arith, q)
  | inr more ↦
      let large : pgsize - (va - round_down va) ≤ len = ground arith in
      let q : i < pgsize - (va - round_down va) = rw more at l in (omega arith, omega arith)
]

next_round :
    (va len : ℕ)
    → 0 < len
    → (0 < count va len)
      × (count va len ≤ len)
      × (count va len < len → round_down va + pgsize ≡ va + count va len)
next_round va len h = elim (Bool-cases (ltb len (pgsize - (va - round_down va)))) [
  | inl last ↦ rw last (h, omega arith, λ q. absurd (omega arith))
  | inr more ↦
      let large : pgsize - (va - round_down va) ≤ len = ground arith in
      rw more (omega arith, large, λ q. omega arith)
]

place-round :
    (page : ℕ → ℕ) (va i len : ℕ)
    → 0 < len
    → i < count va len
    → place page (va + i) ≡ place page va + i
place-round page va i len h l =
    let (same, inside) = same_round va i len h l in omega (arith, ap page same, same)

Moved-elsewhere :
    (dst src n : ℕ) (m m' : Memory) (k : ℕ)
    → Moved dst src n m m'
    → ((i : ℕ) → i < n → k ≢ dst + i)
    → m' k ≡ m k
Moved-elsewhere dst src n m m' k moved h = elim (Bool-cases (ltb k dst)) [
  | inl below ↦ moved.outside k (inl (ltb→lt k dst below))
  | inr above ↦ elim (Bool-cases (ltb k (dst + n))) [
    | inl inside ↦
        let lt : k < dst + n = ltb→lt k (dst + n) inside in
        let le : dst ≤ k = ground arith in absurd (h (k - dst) (omega arith) (omega arith))
    | inr beyond ↦ moved.outside k (inr (ground arith))
  ]
]

-- A round, and then the others.
Filled-round :
    (d : Pgdir) (page : ℕ → ℕ) (va buf len : ℕ) (m m1 m' : Memory)
    → 0 < len
    → IsWritable d page va buf len
    → Moved (place page va) buf (count va len) m m1
    → Filled page (round_down va + pgsize) (buf + count va len) (len - count va len) m1 m'
    → Filled page va buf len m m'
Filled-round d page va buf len m m1 m' h w moved rest = record {
  bytes = λ i l. elim (Bool-cases (ltb i (count va len))) [
    | inl first ↦
        let lt : i < count va len = ltb→lt i (count va len) first in
        rest.others (place page (va + i)) (λ j k e.
          w.distinct i (count va len + j) l (omega (arith, r)) (omega arith) (e ∙ later j k))
        ∙ ap m1 (place-round page va i len h lt)
        ∙ moved.inside i lt
    | inr more ↦
        let le : count va len ≤ i = ground arith in
        let j : ℕ = i - count va len in
        let k : j < len - count va len = omega arith in
        let e : count va len + j ≡ i = omega arith in
        let source : buf + count va len + j ≡ buf + i = omega arith in
        ap m' (ap (λ x. place page (va + x)) (sym e) ∙ sym (later j k))
        ∙ rest.bytes j k
        ∙ ap m1 source
        ∙ kept i l
  ];
  others = λ k out.
      rest.others k (λ j l e. out (count va len + j) (omega arith) (e ∙ later j l))
      ∙ Moved-elsewhere (place page va) buf (count va len) m m1 k moved
          (λ i l e. out i (omega (arith, r)) (e ∙ sym (place-round page va i len h l)));
}
  where
    r :
        (0 < count va len)
        × (count va len ≤ len)
        × (count va len < len → round_down va + pgsize ≡ va + count va len)
    r = next_round va len h

    later :
        (j : ℕ)
        → j < len - count va len
        → place page (round_down va + pgsize + j) ≡ place page (va + (count va len + j))
    later j k = ap (place page) (omega (arith, r.2 (omega arith)))

    kept : (i : ℕ) → i < len → m1 (buf + i) ≡ m (buf + i)
    kept i l =
        Moved-elsewhere (place page va) buf (count va len) m m1 (buf + i) moved
          (λ j k e. w.apart j i (omega (arith, r)) l (place-round page va j len h k ∙ sym e))

-- What is left after a round.
later_IsWritable :
    (d : Pgdir) (page : ℕ → ℕ) (va buf len : ℕ)
    → 0 < len
    → IsWritable d page va buf len
    → IsWritable d page (round_down va + pgsize) (buf + count va len) (len - count va len)
later_IsWritable d page va buf len h w = record {
  user = λ i l.
      subst (λ x. uva2ka d (round_down x) ≡ some (some (page (round_down x)))) (sym (later i l))
        (w.user (count va len + i) (omega (arith, r)));
  distinct = λ i j l k ne e.
      w.distinct (count va len + i) (count va len + j) (omega (arith, r)) (omega (arith, r))
        (λ q. ne (omega arith))
        (ap (place page) (sym (later i l)) ∙ e ∙ ap (place page) (later j k));
  apart = λ i j l k e.
      w.apart (count va len + i) (count va len + j) (omega (arith, r)) (omega (arith, r))
        (ap (place page) (sym (later i l)) ∙ e ∙ omega arith);
}
  where
    r :
        (0 < count va len)
        × (count va len ≤ len)
        × (count va len < len → round_down va + pgsize ≡ va + count va len)
    r = next_round va len h

    later : (i : ℕ) → i < len - count va len → round_down va + pgsize + i ≡ va + (count va len + i)
    later i l = omega (arith, r.2 (omega arith))

copy_from-Filled :
    (fuel : ℕ) (d : Pgdir) (page : ℕ → ℕ) (va buf len : ℕ) (m : Memory)
    → len ≤ fuel
    → IsWritable d page va buf len
    → (m' : Memory) × (copy_from fuel d va buf len m ≡ copied m') × Filled page va buf len m m'
unfolding copy_from
copy_from-Filled zero d page va buf len m l w =
    (m, refl, record { bytes = λ i h. absurd (omega arith); others = λ k h. refl })
copy_from-Filled (suc fuel) d page va buf len m l w = elim (Bool-cases (ltb 0 len)) [
  | inr done ↦
      let z : len ≤ 0 = ground arith in
      (
        m,
        rw (done, copy_from) refl,
        record { bytes = λ i h. absurd (omega arith); others = λ k h. refl },
      )
  | inl more ↦
      let h : 0 < len = ltb→lt 0 len more in
      let n : ℕ = count va len in
      let r = next_round va len h in
      let start : va + 0 ≡ va = omega arith in
      let m1 : Memory = memmove (place page va) buf n m in
      let here : uva2ka d (round_down va) ≡ some (some (page (round_down va))) =
        subst (λ x. uva2ka d (round_down x) ≡ some (some (page (round_down x)))) start
          (w.user 0 h) in
      let (m', e, rest) =
        copy_from-Filled fuel d page (round_down va + pgsize) (buf + n) (len - n) m1
          (omega (arith, r)) (later_IsWritable d page va buf len h w) in
      (
        m',
        rw (more, here, copy_from) e,
        Filled-round d page va buf len m m1 m' h w (memmove-Moved (place page va) buf n m) rest,
      )
]

-- `copyout` of `len` bytes to pages that are the user's, none of which shares a byte with another or
-- with the source: it returns 0, the bytes are then found at the user's addresses, and no other
-- byte of the memory changes.
pub copyout-Filled :
    (d : Pgdir) (page : ℕ → ℕ) (va buf len : ℕ) (m : Memory)
    → IsWritable d page va buf len
    → (m' : Memory) × (copyout d va buf len m ≡ copied m') × Filled page va buf len m m'
unfolding copyout
copyout-Filled d page va buf len m w = copy_from-Filled len d page va buf len m (omega arith) w
