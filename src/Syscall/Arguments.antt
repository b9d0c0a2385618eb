-- ===== src/Syscall/Arguments.antt =====
-- The arguments that are ints or pointers: all that is read or handed on lies in the process' memory.
use cs.Prelude.{
  ℕ, ◌+◌, ◌≤◌, ◌<◌, ◌≡◌, ◌⊎◌, ◌||◌, inl, inr, refl, ltb, leb, ltb→lt, true, false, Bool-cases, some,
  none, Option-cases, arith, add32, u32_mod,
}
use cs.Syscall.{Caller, int_at, fetchint, argint, argptr, is_negative}

-- `fetchint` reads the int at `addr` exactly if all its four bytes are in the memory.
pub fetchint-Inside :
    (c : Caller) (addr : ℕ)
    → addr < u32_mod
    → c.sz ≤ 0x80000000
    → ((addr + 4 ≤ c.sz) × (fetchint c addr ≡ some (int_at c.mem addr)))
      ⊎ ((c.sz < addr + 4) × (fetchint c addr ≡ none))
unfolding fetchint
fetchint-Inside c addr word size = elim (Bool-cases (leb c.sz addr || ltb c.sz (add32 addr 4))) [
  | inl out ↦
      let far : c.sz < addr + 4 = elim (Bool-cases (leb c.sz addr)) [
        | inl above ↦ ground arith
        | inr below ↦
            let b : ltb c.sz (add32 addr 4) ≡ true = ground arith in
            let w : c.sz < add32 addr 4 = ltb→lt c.sz (add32 addr 4) b in
            let l : addr < c.sz = ground arith in omega arith
      ] in
      inr (far, rw out refl)
  | inr within ↦
      let l : addr < c.sz = ground arith in
      let e : add32 addr 4 ≡ addr + 4 = omega arith in
      let near : addr + 4 ≤ c.sz = ground (arith, e) in inl (near, rw within refl)
]

-- Whether the block is refused.
block-cases :
    (sz i size : ℕ)
    → sz ≤ 0x80000000
    → (((is_negative size || (leb sz i || ltb sz (add32 i size))) ≡ true)
        × ((0x80000000 ≤ size) ⊎ ((sz ≤ i) ⊎ (sz < i + size))))
      ⊎ (((is_negative size || (leb sz i || ltb sz (add32 i size))) ≡ false)
          × (size < 0x80000000)
          × (i < sz)
          × (i + size ≤ sz))
block-cases sz i size h = elim (Bool-cases (is_negative size)) [
  | inl negative ↦ inl (rw negative refl, inl (ground arith))
  | inr positive ↦ elim (Bool-cases (leb sz i)) [
    | inl above ↦ inl (rw (positive, above) refl, inr (inl (ground arith)))
    | inr below ↦
        let small : size < 0x80000000 = ground arith in
        let l : i < sz = ground arith in
        let e : add32 i size ≡ i + size = omega arith in
        elim (Bool-cases (ltb sz (i + size))) [
          | inl over ↦
              inl (rw (positive, below, e, over) refl, inr (inr (ltb→lt sz (i + size) over)))
          | inr fits ↦ inr (rw (positive, below, e, fits) refl, small, l, ground arith)
        ]
  ]
]

-- `argptr`, in a process whose memory ends below the kernel's half: if it accepts the argument, the
-- pointer is the argument, and the whole block is in the process' memory; it refuses it exactly if
-- there is no argument, the size is negative, the block starts behind the memory's end or it reaches
-- beyond it.
pub argptr-Inside :
    (c : Caller) (n size : ℕ)
    → c.sz ≤ 0x80000000
    → ((p : ℕ) × (argptr c n size ≡ some p)
        × (argint c n ≡ some p)
        × (size < 0x80000000)
        × (p < c.sz)
        × (p + size ≤ c.sz))
      ⊎ ((argptr c n size ≡ none)
          × ((argint c n ≡ none)
              ⊎ ((p : ℕ) × (argint c n ≡ some p)
                  × ((0x80000000 ≤ size) ⊎ ((c.sz ≤ p) ⊎ (c.sz < p + size))))))
unfolding argptr
argptr-Inside c n size h = elim (Option-cases (argint c n)) [
  | inl missing ↦ inr (rw (missing, argptr) refl, inl missing)
  | inr (p, found) ↦ elim (block-cases c.sz p size h) [
    | inl (bad, why) ↦ inr (rw (found, argptr, bad) refl, inr (p, found, why))
    | inr (good, small, start, end) ↦
        inl (p, rw (found, argptr, good) refl, found, small, start, end)
  ]
]
