-- ===== src/Locks/Nesting.antt =====
-- pushcli and popcli are matched.
use cs.Prelude.{
  ℕ, zero, suc, ◌+◌, ◌-◌, ◌<◌, ◌≡◌, refl, sym, ◌∙◌, ◌==◌, false, Bool-cases, inl, inr, Option, some,
  none, arith, ==_iff,
}
use cs.Locks.{Cpu, pushcli, popcli}

abbrev pub pushes : ℕ → Cpu → Cpu
pushes zero c = c
pushes (suc n) c = pushcli (pushes n c)

abbrev pub pops : ℕ → Cpu → Option Cpu
pops zero c = some c
pops (suc n) c = elim (popcli c) [ none ↦ none | some c' ↦ pops n c' ]

-- Interrupts are off as long as something is to be undone.
abbrev pub IsNested : Cpu → Type 0
IsNested c = 0 < c.ncli → c.flag ≡ false

pushcli-popcli_inner : (c : Cpu) → 0 < c.ncli → c.flag ≡ false → popcli (pushcli c) ≡ some c
unfolding pushcli popcli
pushcli-popcli_inner c h off =
    let a : (c.ncli == 0) ≡ false = ground arith in
    let b : (c.ncli + 1 == 0) ≡ false = ground arith in
    let d : c.ncli + 1 - 1 ≡ c.ncli = omega arith in rw (a, b, d, a, sym off) refl

pushcli-popcli_outer :
    (c : Cpu)
    → c.ncli ≡ 0
    → (c' : Cpu) × (popcli (pushcli c) ≡ some c') × (c'.ncli ≡ 0) × (c'.flag ≡ c.flag)
unfolding pushcli popcli
pushcli-popcli_outer c z =
    (record { flag = c.flag; ncli = 0; intena = c.flag }, rw z refl, refl, refl)

pub pushes-off :
    (n : ℕ) (c : Cpu) → (0 < (pushes (suc n) c).ncli) × ((pushes (suc n) c).flag ≡ false)
unfolding pushcli
pushes-off n c = (omega arith, refl)

-- As many calls of `popcli` as there were of `pushcli`, on a CPU whose interrupts are off if calls
-- are already to be undone: none panics, the interrupt flag and the count are as before the first,
-- and between them interrupts are off.
pub pops-pushes :
    (n : ℕ) (c : Cpu)
    → IsNested c
    → ((c' : Cpu) × (pops n (pushes n c) ≡ some c') × (c'.flag ≡ c.flag) × (c'.ncli ≡ c.ncli))
      × (0 < n → (pushes n c).flag ≡ false)
pops-pushes zero c k = ((c, refl, refl, refl), λ h. absurd (omega arith))
pops-pushes (suc zero) c k = elim (Bool-cases (c.ncli == 0)) [
  | inl z ↦
      let zero_now : c.ncli ≡ 0 = (==_iff c.ncli 0).0 z in
      let (c', e, n, f) = pushcli-popcli_outer c zero_now in
      ((c', rw (e, pops) refl, f, n ∙ sym zero_now), λ h. (pushes-off 0 c).1)
  | inr deep ↦
      let off : 0 < c.ncli = ground arith in
      ((c, rw (pushcli-popcli_inner c off (k off), pops) refl, refl, refl), λ h. (pushes-off 0 c).1)
]
pops-pushes (suc (suc n)) c k =
    let (p, f) = pushes-off n c in
    (
      rw (pushcli-popcli_inner (pushes (suc n) c) p f, pops) (pops-pushes (suc n) c k).0,
      λ h. (pushes-off (suc n) c).1,
    )
