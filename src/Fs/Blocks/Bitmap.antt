-- ===== src/Fs/Blocks/Bitmap.antt =====
-- The bitmap as a test on block numbers, and what marking a block does to it.
use Prim.Native.Nat.{bit_and, bit_or}
use cs.Prelude.{
  ℕ, ◌+◌, ◌-◌, ◌/◌, ◌%◌, ◌^◌, ◌<◌, ◌≡◌, ◌≢◌, inl, inr, refl, ◌∙◌, ap, ◌==◌, if◌then◌else◌, Bool,
  true, false, Bool-cases, arith, update, ==_iff, ==_ne,
}
use cs.Fs.{Block, Disk, Superblock}
use cs.Fs.Blocks.{bpb, bblock, is_marked, mark, unmark}
use cs.Fs.Blocks.Bits.{has_bit, set_bit, clear_bit}

abbrev pub IsBytes : Block → Type 0
IsBytes x = (i : ℕ) → x i < 256

-- `b` is marked as in use.
abbrev pub in_use : Superblock → Disk → ℕ → Bool
in_use sb d b = is_marked (d (bblock b sb)) (b % bpb)

-- A change of the bit `bi`, byte-wise.
changed_bit :
    (x : Block) (bi bj v : ℕ) (r : Bool)
    → has_bit v (bj % 8) ≡ (if bi % 8 == bj % 8 then r else has_bit (x (bi / 8)) (bj % 8))
    → has_bit (update x (bi / 8) v (bj / 8)) (bj % 8)
      ≡ (if bi == bj then r else has_bit (x (bj / 8)) (bj % 8))
changed_bit x bi bj v r h = elim (Bool-cases (bi / 8 == bj / 8)) [
  | inl byte ↦
      let one : bi / 8 ≡ bj / 8 = (==_iff (bi / 8) (bj / 8)).0 byte in
      elim (Bool-cases (bi == bj)) [
        | inl bit ↦
            let equal : bi ≡ bj = (==_iff bi bj).0 bit in
            let place : (bi % 8 == bj % 8) ≡ true = (==_iff (bi % 8) (bj % 8)).1 (omega arith) in
            rw (byte, bit) (h ∙ rw place refl)
        | inr other ↦
            let place : (bi % 8 == bj % 8) ≡ false =
              ==_ne (bi % 8) (bj % 8) (λ e. differ other (omega arith)) in
            rw (byte, other) (h ∙ rw place (ap (λ q. has_bit (x q) (bj % 8)) one))
      ]
  | inr elsewhere ↦
      let other : (bi == bj) ≡ false = ground (arith, ==_iff (bi / 8) (bj / 8)) in
      rw (elsewhere, other) refl
]
  where
    differ : (bi == bj) ≡ false → bi ≢ bj
    differ f e = let t : (bi == bj) ≡ true = (==_iff bi bj).1 e in cc

pub is_marked-mark :
    (x : Block) (bi bj : ℕ)
    → IsBytes x
    → is_marked (mark x bi) bj ≡ (if bi == bj then true else is_marked x bj)
unfolding is_marked mark
is_marked-mark x bi bj h =
    changed_bit x bi bj (bit_or (x (bi / 8)) (2 ^ (bi % 8))) true
      (set_bit (x (bi / 8)) (bi % 8) (bj % 8) (h (bi / 8)) (omega arith) (omega arith)).0

pub is_marked-unmark :
    (x : Block) (bi bj : ℕ)
    → IsBytes x
    → is_marked (unmark x bi) bj ≡ (if bi == bj then false else is_marked x bj)
unfolding is_marked unmark
is_marked-unmark x bi bj h =
    changed_bit x bi bj (bit_and (x (bi / 8)) (255 - 2 ^ (bi % 8))) false
      (clear_bit (x (bi / 8)) (bi % 8) (bj % 8) (h (bi / 8)) (omega arith) (omega arith)).0

pub mark-IsBytes : (x : Block) (bi : ℕ) → IsBytes x → IsBytes (mark x bi)
unfolding mark
mark-IsBytes x bi h i = elim (Bool-cases (bi / 8 == i)) [
  | inl here ↦ rw here (set_bit (x (bi / 8)) (bi % 8) 0 (h (bi / 8)) (omega arith) (omega arith)).1
  | inr there ↦ rw there (h i)
]

pub unmark-IsBytes : (x : Block) (bi : ℕ) → IsBytes x → IsBytes (unmark x bi)
unfolding unmark
unmark-IsBytes x bi h i = elim (Bool-cases (bi / 8 == i)) [
  | inl here ↦
      rw here (clear_bit (x (bi / 8)) (bi % 8) 0 (h (bi / 8)) (omega arith) (omega arith)).1
  | inr there ↦ rw there (h i)
]

-- On the whole disk: `x` is the bitmap's block for `b`, in which only the bit of `b` differs.
pub in_use-update :
    (sb : Superblock) (d : Disk) (b b' : ℕ) (x : Block) (r : Bool)
    → ((bj : ℕ) → is_marked x bj ≡ (if b % bpb == bj then r else is_marked (d (bblock b sb)) bj))
    → in_use sb (update d (bblock b sb) x) b' ≡ (if b == b' then r else in_use sb d b')
in_use-update sb d b b' x r h = elim (Bool-cases (bblock b sb == bblock b' sb)) [
  | inl same ↦
      let one : b / bpb ≡ b' / bpb = omega (arith, (==_iff (bblock b sb) (bblock b' sb)).0 same) in
      elim (Bool-cases (b == b')) [
        | inl this ↦
            let equal : b ≡ b' = (==_iff b b').0 this in
            let place : (b % bpb == b' % bpb) ≡ true =
              (==_iff (b % bpb) (b' % bpb)).1 (omega arith) in
            rw (same, this) (h (b' % bpb) ∙ rw place refl)
        | inr other ↦
            let place : (b % bpb == b' % bpb) ≡ false =
              ==_ne (b % bpb) (b' % bpb) (λ e. differ other (omega arith)) in
            rw (same, other)
              (h (b' % bpb) ∙ rw place (ap (λ q. is_marked (d (q + sb.bmapstart)) (b' % bpb)) one))
      ]
  | inr elsewhere ↦
      let other : (b == b') ≡ false =
        ==_ne b b' (λ e. differ_block elsewhere (ap (λ q. bblock q sb) e)) in
      rw (elsewhere, other) refl
]
  where
    differ : (b == b') ≡ false → b ≢ b'
    differ f e = let t : (b == b') ≡ true = (==_iff b b').1 e in cc

    differ_block : (bblock b sb == bblock b' sb) ≡ false → bblock b sb ≢ bblock b' sb
    differ_block f e = let t : (bblock b sb == bblock b' sb) ≡ true = (==_iff _ _).1 e in cc
