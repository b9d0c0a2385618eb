-- ===== src/Console/Ring.antt =====
-- The ring of the console's input: what is between its indices.
use cs.Prelude.{
  ℕ, zero, suc, ◌+◌, ◌%◌, ◌≤◌, ◌<◌, ◌≡◌, ◌≢◌, refl, sym, ◌∙◌, ap, List, [], ◌∷◌, ◌++◌, length,
  arith, update, update_ne, u32_mod,
}
use cs.Console.{Input, input_buf, newline}
use cs.Console.Lines.{Lines, onto}

-- The `n` characters from the index `r` on, and those from `w` on with the last one first.
abbrev pub ahead : (ℕ → ℕ) → ℕ → ℕ → List ℕ
ahead buf r zero = []
ahead buf r (suc n) = buf (r % input_buf) ∷ ahead buf (r + 1) n

abbrev pub behind : (ℕ → ℕ) → ℕ → ℕ → List ℕ
behind buf w zero = []
behind buf w (suc n) = buf ((w + n) % input_buf) ∷ behind buf w n

pub length-ahead : (buf : ℕ → ℕ) (r n : ℕ) → length (ahead buf r n) ≡ n
length-ahead buf r zero = refl
length-ahead buf r (suc n) = ap suc (length-ahead buf (r + 1) n)

pub length-behind : (buf : ℕ → ℕ) (w n : ℕ) → length (behind buf w n) ≡ n
length-behind buf w zero = refl
length-behind buf w (suc n) = ap suc (length-behind buf w n)

pub ahead-last :
    (buf : ℕ → ℕ) (r n : ℕ)
    → ahead buf r (suc n) ≡ ahead buf r n ++ (buf ((r + n) % input_buf) ∷ [])
ahead-last buf r zero = let e : r + 0 ≡ r = omega arith in rw e refl
ahead-last buf r (suc n) =
    let e : r + suc n ≡ r + 1 + n = omega arith in
    ap (λ l. buf (r % input_buf) ∷ l) (ahead-last buf (r + 1) n) ∙ rw e refl

pub onto-ahead :
    (buf : ℕ → ℕ) (r a b : ℕ) → onto (ahead buf r a) (behind buf (r + a) b) ≡ ahead buf r (a + b)
onto-ahead buf r a zero = let e : a + 0 ≡ a = omega arith in rw e refl
onto-ahead buf r a (suc b) =
    let e : a + suc b ≡ suc (a + b) = omega arith in
    let s : r + a + b ≡ r + (a + b) = omega arith in
    ap (λ l. l ++ (buf ((r + a + b) % input_buf) ∷ [])) (onto-ahead buf r a b)
    ∙ ap (λ k. ahead buf r (a + b) ++ (buf (k % input_buf) ∷ [])) s
    ∙ sym (ahead-last buf r (a + b))
    ∙ ap (ahead buf r) (sym e)

-- Only the indices below the size of the ring matter.
pub ahead-same :
    (buf : ℕ → ℕ) (r s n : ℕ) → r % input_buf ≡ s % input_buf → ahead buf r n ≡ ahead buf s n
ahead-same buf r s zero e = refl
ahead-same buf r s (suc n) e =
    ap (λ k. buf k ∷ ahead buf (r + 1) n) e
    ∙ ap (λ l. buf (s % input_buf) ∷ l) (ahead-same buf (r + 1) (s + 1) n (omega arith))

pub behind-same :
    (buf : ℕ → ℕ) (r s n : ℕ) → r % input_buf ≡ s % input_buf → behind buf r n ≡ behind buf s n
behind-same buf r s zero e = refl
behind-same buf r s (suc n) e =
    let k : (r + n) % input_buf ≡ (s + n) % input_buf = omega arith in
    ap (λ k. buf k ∷ behind buf r n) k
    ∙ ap (λ l. buf ((s + n) % input_buf) ∷ l) (behind-same buf r s n e)

-- A character is stored behind them all.
pub ahead-update :
    (buf : ℕ → ℕ) (r n i c : ℕ)
    → ((k : ℕ) → k < n → i ≢ (r + k) % input_buf)
    → ahead (update buf i c) r n ≡ ahead buf r n
ahead-update buf r zero i c apart = refl
ahead-update buf r (suc n) i c apart =
    let e : r + 0 ≡ r = omega arith in
    ap (λ x. x ∷ ahead (update buf i c) (r + 1) n)
      (update_ne buf i c (r % input_buf)
        (λ q. apart 0 (omega arith) (q ∙ ap (λ k. k % input_buf) (sym e))))
    ∙ ap (λ l. buf (r % input_buf) ∷ l)
        (ahead-update buf (r + 1) n i c (λ k h q.
          let s : r + 1 + k ≡ r + suc k = omega arith in
          apart (suc k) (omega arith) (q ∙ ap (λ k. k % input_buf) s)))

pub behind-update :
    (buf : ℕ → ℕ) (w n i c : ℕ)
    → ((k : ℕ) → k < n → i ≢ (w + k) % input_buf)
    → behind (update buf i c) w n ≡ behind buf w n
behind-update buf w zero i c apart = refl
behind-update buf w (suc n) i c apart =
    ap (λ x. x ∷ behind (update buf i c) w n)
      (update_ne buf i c ((w + n) % input_buf) (apart n (omega arith)))
    ∙ ap (λ l. buf ((w + n) % input_buf) ∷ l)
        (behind-update buf w n i c (λ k h. apart k (omega arith)))

-- The input is the lines: `a` characters are ready, and `b` are in the line.
pub record View (a b : ℕ) (t : Input) (l : Lines) : Type 0 where
  pub word : t.r < u32_mod
  pub w_is : t.w ≡ (t.r + a) % u32_mod
  pub e_is : t.e ≡ (t.r + a + b) % u32_mod
  pub room : a + b ≤ input_buf
  pub ready_is : l.ready ≡ ahead t.buf t.r a
  pub line_is : l.line ≡ behind t.buf (t.r + a) b
  pub plain : (k : ℕ) → k < b → t.buf ((t.r + a + k) % input_buf) ≢ newline
