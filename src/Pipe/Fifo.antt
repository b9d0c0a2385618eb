-- ===== src/Pipe/Fifo.antt =====
-- The bytes that a pipe holds, as a queue.
use cs.Prelude.{
  ℕ, zero, suc, ◌-◌, ◌%◌, ◌<◌, ◌≡◌, refl, ap₂, false, List, [], ◌∷◌, ◌++◌, arith, update, update_ne,
  add32, length, ap, u32_mod, take, drop,
}
use cs.Pipe.{Pipe, pipe_size, put, is_full}
use cs.Pipe.Bounds.{held, IsValid, held-put}

-- The `k` bytes from counter `r` on.
abbrev pub window : (ℕ → ℕ) → ℕ → ℕ → List ℕ
window b r zero = []
window b r (suc k) = b (r % pipe_size) ∷ window b (add32 r 1) k

-- What the pipe holds, oldest byte first.
abbrev pub contents : Pipe → List ℕ
contents p = window p.buf p.nread (held p)

-- A byte written behind a window extends it.
window-update :
    (b : ℕ → ℕ) (c k r w : ℕ)
    → r < u32_mod
    → k < pipe_size
    → w ≡ add32 r k
    → window (update b (w % pipe_size) c) r (suc k) ≡ window b r k ++ c ∷ []
window-update b c zero r w hr hk e = ground arith
window-update b c (suc k) r w hr hk e =
    ap₂ ◌∷◌ (update_ne b (w % pipe_size) c (r % pipe_size) (omega arith))
      (window-update b c k (add32 r 1) w (omega arith) (omega arith) (omega arith))

pub contents-put :
    {p : Pipe} (c : ℕ) → IsValid p → is_full p ≡ false → contents (put p c) ≡ contents p ++ c ∷ []
contents-put {p} c v h =
    let more : held (put p c) ≡ suc (held p) = omega (arith, held-put c v h) in
    rw more
      (window-update p.buf c (held p) p.nread p.nwrite v.nread_fits (ground arith) (omega arith))

abbrev pub room : Pipe → ℕ
room p = pipe_size - held p

pub take-nil : (n : ℕ) → take {A = ℕ} n [] ≡ []
take-nil zero = refl
take-nil (suc n) = refl

pub drop-nil : (n : ℕ) → drop {A = ℕ} n [] ≡ []
drop-nil zero = refl
drop-nil (suc n) = refl

length-window : (b : ℕ → ℕ) (r k : ℕ) → length (window b r k) ≡ k
length-window b r zero = refl
length-window b r (suc k) = ap suc (length-window b (add32 r 1) k)

pub length-contents : (p : Pipe) → length (contents p) ≡ held p
length-contents p = length-window p.buf p.nread (held p)
