-- ===== src/Console/Storing.antt =====
-- A character at the end of the line.
use cs.Prelude.{
  ℕ, suc, ◌+◌, ◌%◌, ◌<◌, ◌≡◌, ◌≢◌, ◌⊎◌, ◌||◌, inl, inr, refl, sym, ◌∙◌, ap, ◌==◌, ==_iff, ==_ne,
  ==_self, Bool, true, false, Bool-cases, ◌∷◌, length, arith, update, update_ne, update_self, add32,
  u32_mod,
}
use cs.Console.{Input, input_buf, newline, ends_line, store}
use cs.Console.Lines.{Lines, onto, extend}
use cs.Console.Ring.{
  ahead, behind, View, length-ahead, length-behind, onto-ahead, ahead-update, behind-update,
}

module _ (a b c : ℕ) (t : Input) (l : Lines) (v : View a b t l) (free : a + b < input_buf) where
  stored : ℕ → ℕ
  stored = update t.buf (t.e % input_buf) c

  index : t.e % input_buf ≡ (t.r + a + b) % input_buf
  index = let e = v.e_is in omega arith

  stored_last : stored ((t.r + a + b) % input_buf) ≡ c
  unfolding stored
  stored_last =
      ap (update t.buf (t.e % input_buf) c) (sym index) ∙ update_self t.buf (t.e % input_buf) c

  stored_line : c ∷ l.line ≡ behind stored (t.r + a) (suc b)
  unfolding stored
  stored_line =
      ap (λ x. c ∷ x)
        (v.line_is
          ∙ sym (behind-update t.buf (t.r + a) b (t.e % input_buf) c (λ k h. apart k h index)))
      ∙ ap (λ x. x ∷ behind stored (t.r + a) b) (sym stored_last)
    where
      apart :
          (k : ℕ)
          → k < b
          → t.e % input_buf ≡ (t.r + a + b) % input_buf
          → t.e % input_buf ≢ (t.r + a + k) % input_buf
      apart k h i q =
          let j : (t.r + a + b) % input_buf ≡ (t.r + a + k) % input_buf = sym i ∙ q in omega arith

  stored_ready : l.ready ≡ ahead stored t.r a
  unfolding stored
  stored_ready =
      v.ready_is ∙ sym (ahead-update t.buf t.r a (t.e % input_buf) c (λ k h. apart k h index))
    where
      apart :
          (k : ℕ)
          → k < a
          → t.e % input_buf ≡ (t.r + a + b) % input_buf
          → t.e % input_buf ≢ (t.r + k) % input_buf
      apart k h i q =
          let j : (t.r + a + b) % input_buf ≡ (t.r + k) % input_buf = sym i ∙ q in omega arith

  next_e : add32 t.e 1 ≡ (t.r + (a + b + 1)) % u32_mod
  next_e = let e = v.e_is in omega arith

  -- The source's test of whether the ring is full.
  full_test :
      (add32 t.e 1 == add32 t.r input_buf) ≡ (length l.ready + length l.line + 1 == input_buf)
  full_test =
      let n : length l.ready + length l.line ≡ a + b =
        ap (λ x. length x + length l.line) v.ready_is
        ∙ ap (λ x. length (ahead t.buf t.r a) + length x) v.line_is
        ∙ ap (λ k. k + length (behind t.buf (t.r + a) b)) (length-ahead t.buf t.r a)
        ∙ ap (λ k. a + k) (length-behind t.buf (t.r + a) b) in
      elim (Bool-cases (a + b + 1 == input_buf)) [
        | inl full ↦
            let e : add32 t.e 1 ≡ add32 t.r input_buf =
              next_e ∙ ap (λ k. (t.r + k) % u32_mod) ((==_iff (a + b + 1) input_buf).0 full) in
            let left : (add32 t.e 1 == add32 t.r input_buf) ≡ true =
              ap (λ k. k == add32 t.r input_buf) e ∙ ==_self (add32 t.r input_buf) in
            left ∙ sym (ap (λ k. k + 1 == input_buf) n ∙ full)
        | inr more ↦
            ==_ne (add32 t.e 1) (add32 t.r input_buf)
              (λ q. not_full (λ z. ground (arith, ==_iff (a + b + 1) input_buf)) (sym next_e ∙ q))
            ∙ sym (ap (λ k. k + 1 == input_buf) n ∙ more)
      ]
    where
      not_full : a + b + 1 ≢ input_buf → (t.r + (a + b + 1)) % u32_mod ≢ (t.r + input_buf) % u32_mod
      not_full ne q = ne (omega arith)

  pub store-View : (a' : ℕ) × (b' : ℕ) × View a' b' (store c t) (extend c l)
  unfolding stored
  store-View = elim (Bool-cases (ends_line c || length l.ready + length l.line + 1 == input_buf)) [
    | inl ends ↦ (
      a + b + 1,
      0,
      rw (full_test, ends)
          (record {
            word = v.word;
            w_is = next_e;
            e_is = next_e ∙ ap (λ k. k % u32_mod) (no_more t.r (a + b + 1));
            room = omega arith;
            ready_is =
                ap (λ x. onto x (c ∷ l.line)) stored_ready
                ∙ ap (onto (ahead stored t.r a)) stored_line
                ∙ onto-ahead stored t.r a (suc b)
                ∙ ap (ahead stored t.r) next;
            line_is = refl;
            plain = λ k h. absurd (omega arith);
          }),
    )
    | inr goes_on ↦ (
      a,
      suc b,
      rw (full_test, goes_on)
          (record {
            word = v.word;
            w_is = v.w_is;
            e_is = next_e ∙ ap (λ k. k % u32_mod) place;
            room = omega arith;
            ready_is = stored_ready;
            line_is = stored_line;
            plain = λ k h.
                still_plain k h (Bool-cases (k == b))
                  (no_end (length l.ready + length l.line + 1 == input_buf) goes_on);
          }),
    )
  ]
    where
      no_more : (r n : ℕ) → r + n ≡ r + n + 0
      no_more r n = omega arith

      next : a + suc b ≡ a + b + 1
      next = omega arith

      place : t.r + (a + b + 1) ≡ t.r + a + suc b
      place = omega arith

      no_end : (q : Bool) → (ends_line c || q) ≡ false → c ≢ newline
      no_end q h z = ground (arith, ==_iff c newline)

      still_plain :
          (k : ℕ)
          → k < suc b
          → ((k == b) ≡ true) ⊎ ((k == b) ≡ false)
          → c ≢ newline
          → stored ((t.r + a + k) % input_buf) ≢ newline
      still_plain k h (inl this) ne q = ne (
          sym stored_last
          ∙ ap (λ j. stored ((t.r + a + j) % input_buf)) (sym ((==_iff k b).0 this))
          ∙ q)
      still_plain k h (inr other) ne q =
          let lt : k < b = ground (arith, ==_iff k b) in
          v.plain k lt (
            sym (update_ne t.buf (t.e % input_buf) c ((t.r + a + k) % input_buf) (apart lt index))
            ∙ q)
        where
          apart :
              k < b
              → t.e % input_buf ≡ (t.r + a + b) % input_buf
              → t.e % input_buf ≢ (t.r + a + k) % input_buf
          apart lt i q =
              let j : (t.r + a + b) % input_buf ≡ (t.r + a + k) % input_buf = sym i ∙ q in
              omega arith
