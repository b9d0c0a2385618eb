-- ===== src/Text.antt =====
-- string.c: copying and comparing bytes in memory. A pointer is an address below 2 ^ 32, and the
-- objects that it points into do not reach beyond 2 ^ 32, so no address here wraps.
pub mod Move
pub mod Compare
pub mod Copy
mod Tests
use cs.Prelude.{
  ℕ, zero, suc, ◌+◌, ◌-◌, ◌%◌, ◌==◌, ltb, if◌then◌else◌, Bool, true, false, not, ◌&&◌, update, ℤ,
  sub_ℕ, pos,
}

abbrev pub Memory : Type 0
Memory = ℕ → ℕ

-- The loop of `memmove` that runs upwards.
pub move_up : ℕ → ℕ → ℕ → Memory → Memory
move_up zero d s m = m
move_up (suc n) d s m = move_up n (d + 1) (s + 1) (update m d (m s))

-- The loop of `memmove` that runs downwards; `d` and `s` are the starts, and the pointers of the
-- loop stand `n` above them.
pub move_down : ℕ → ℕ → ℕ → Memory → Memory
move_down zero d s m = m
move_down (suc n) d s m = move_down n d s (update m (d + n) (m (s + n)))

pub memmove : ℕ → ℕ → ℕ → Memory → Memory
unfolding move_up move_down
memmove dst src n m =
    if ltb src dst && ltb dst (src + n) then move_down n dst src m else move_up n dst src m

-- `memset`; the bytes that are stored are the low ones of `c`, also on its word-wise path.
pub memset : ℕ → ℕ → ℕ → Memory → Memory
memset dst c zero m = m
memset dst c (suc n) m = memset (dst + 1) c n (update m dst (c % 256))

pub memcmp : ℕ → ℕ → ℕ → Memory → ℤ
memcmp v1 v2 zero m = pos 0
memcmp v1 v2 (suc n) m =
    let rest = memcmp (v1 + 1) (v2 + 1) n m in
    if not (m v1 == m v2) then sub_ℕ (m v1) (m v2) else rest

pub strncmp : ℕ → ℕ → ℕ → Memory → ℤ
strncmp p q zero m = pos 0
strncmp p q (suc n) m =
    let rest = strncmp (p + 1) (q + 1) n m in
    if not (m p == 0) && m p == m q then rest else sub_ℕ (m p) (m q)

-- The second loop of `strncpy`.
pub pad : ℕ → ℕ → Memory → Memory
pad s zero m = m
pad s (suc n) m = pad (s + 1) n (update m s 0)

pub strncpy : ℕ → ℕ → ℕ → Memory → Memory
unfolding pad
strncpy s t zero m = m
strncpy s t (suc n) m =
    let m' = update m s (m t) in
    let rest = strncpy (s + 1) (t + 1) n m' in if m t == 0 then pad (s + 1) n m' else rest

-- The loop of `safestrcpy` and its `*s = 0`; `n` counts the rounds left, one less than the `n` of
-- the loop test.
pub safestrcpy_from : ℕ → ℕ → ℕ → Memory → Memory
safestrcpy_from s t zero m = update m s 0
safestrcpy_from s t (suc n) m =
    let m' = update m s (m t) in
    let rest = safestrcpy_from (s + 1) (t + 1) n m' in
    if m t == 0 then update m' (s + 1) 0 else rest

pub safestrcpy : ℕ → ℕ → ℕ → Memory → Memory
unfolding safestrcpy_from
safestrcpy s t zero m = m
safestrcpy s t (suc n) m = safestrcpy_from s t n m
