-- ===== src/Text/Move.antt =====
-- `memmove` on any two ranges, overlapping or not.
use cs.Prelude.{
  ◌%◌, ◌≤◌, ℕ, zero, suc, ◌+◌, ◌≤◌, ◌<◌, ◌≡◌, ◌⊎◌, inl, inr, refl, ◌∙◌, ◌&&◌, ltb, ◌==◌, arith,
  update, update_self, update_ne, Bool-cases,
}
use native.Mathlib.Decide.{dec_lt}
use cs.Text.{Memory, move_up, move_down, memmove, memset}

down_outside : (n d s : ℕ) (m : Memory) (j : ℕ) → j < d ⊎ d + n ≤ j → move_down n d s m j ≡ m j
unfolding move_down
down_outside zero d s m j h = refl
down_outside (suc n) d s m j h =
    down_outside n d s (update m (d + n) (m (s + n))) j (ground arith)
    ∙ update_ne m (d + n) (m (s + n)) j (ground arith)

down_inside :
    (n d s : ℕ) (m : Memory) (i j k : ℕ)
    → s ≤ d
    → i < n
    → j ≡ d + i
    → k ≡ s + i
    → move_down n d s m j ≡ m k
unfolding move_down
down_inside zero d s m i j k h l ej ek = absurd (omega arith)
down_inside (suc n) d s m i j k h l ej ek = elim (Bool-cases (i == n)) [
  | inl top ↦
      let at_top : j ≡ d + n = ground arith in
      let from_top : k ≡ s + n = ground arith in
      rw (at_top, from_top)
        (down_outside n d s (update m (d + n) (m (s + n))) (d + n) (inr (omega arith))
          ∙ update_self m (d + n) (m (s + n)))
  | inr below ↦
      down_inside n d s (update m (d + n) (m (s + n))) i j k h (ground arith) ej ek
      ∙ update_ne m (d + n) (m (s + n)) k (ground arith)
]

up_outside : (n d s : ℕ) (m : Memory) (j : ℕ) → j < d ⊎ d + n ≤ j → move_up n d s m j ≡ m j
unfolding move_up
up_outside zero d s m j h = refl
up_outside (suc n) d s m j h =
    up_outside n (d + 1) (s + 1) (update m d (m s)) j (ground arith)
    ∙ update_ne m d (m s) j (ground arith)

up_inside :
    (n d s : ℕ) (m : Memory) (i j k : ℕ)
    → d ≤ s ⊎ s + n ≤ d
    → i < n
    → j ≡ d + i
    → k ≡ s + i
    → move_up n d s m j ≡ m k
unfolding move_up
up_inside zero d s m i j k h l ej ek = absurd (omega arith)
up_inside (suc n) d s m zero j k h l ej ek =
    let first : j ≡ d = omega arith in
    let from_first : k ≡ s = omega arith in
    rw (first, from_first)
      (up_outside n (d + 1) (s + 1) (update m d (m s)) d (inl (omega arith))
        ∙ update_self m d (m s))
up_inside (suc n) d s m (suc i) j k h l ej ek =
    up_inside n (d + 1) (s + 1) (update m d (m s)) i j k (ground arith) (omega arith) (omega arith)
      (omega arith)
    ∙ update_ne m d (m s) k (ground arith)

pub record Moved (dst src n : ℕ) (m m' : Memory) : Type 0 where
  pub inside : (i : ℕ) → i < n → m' (dst + i) ≡ m (src + i)
  pub outside : (j : ℕ) → j < dst ⊎ dst + n ≤ j → m' j ≡ m j

-- `memmove` copies the `n` bytes as they were before the call, also where the two ranges overlap,
-- and changes no byte outside the destination.
pub memmove-Moved : (dst src n : ℕ) (m : Memory) → Moved dst src n m (memmove dst src n m)
unfolding memmove
memmove-Moved dst src n m = elim (Bool-cases (ltb src dst && ltb dst (src + n))) [
  | inl down ↦ rw down (record {
    inside = λ i l. down_inside n dst src m i (dst + i) (src + i) (ground arith) l refl refl;
    outside = λ j h. down_outside n dst src m j h;
  })
  | inr up ↦ rw up (record {
    inside = λ i l. up_inside n dst src m i (dst + i) (src + i) (ground arith) l refl refl;
    outside = λ j h. up_outside n dst src m j h;
  })
]

pub record Stored (dst c n : ℕ) (m m' : Memory) : Type 0 where
  pub inside : (j : ℕ) → dst ≤ j → j < dst + n → m' j ≡ c % 256
  pub outside : (j : ℕ) → j < dst ⊎ dst + n ≤ j → m' j ≡ m j

-- `memset` stores the low byte of `c` in the `n` bytes from `dst` on, and changes no other byte.
pub memset-Stored : (n dst c : ℕ) (m : Memory) → Stored dst c n m (memset dst c n m)
unfolding memset
memset-Stored zero dst c m = record {
  inside = λ j lo hi. absurd (omega arith);
  outside = λ j h. refl;
}
memset-Stored (suc n) dst c m =
    let rest = memset-Stored n (dst + 1) c (update m dst (c % 256)) in
    record {
      inside = λ j lo hi. elim (dec_lt dst j) [
        | yes above ↦ rest.inside j (omega arith) (omega arith)
        | no here ↦ rest.outside j (omega arith) ∙ ground arith
      ];
      outside = λ j h. rest.outside j (ground arith) ∙ ground arith;
    }
