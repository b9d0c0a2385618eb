-- ===== src/Console/Taking.antt =====
-- What a reader gets.
use cs.Prelude.{
  ℕ, zero, suc, ◌+◌, ◌%◌, ◌≤◌, ◌<◌, ◌≡◌, ◌≢◌, inl, inr, refl, ◌∙◌, ap, ◌==◌, ==_ne, ==_self, ltb,
  true, false, Bool-cases, List, [], ◌∷◌, arith, add32, sub32, u32_mod,
}
use cs.Console.{Input, input_buf, newline, control_d, read_from, Pause, sleeps, done}
use cs.Console.Lines.{Lines, take_line}
use cs.Console.Ring.{ahead, View, ahead-same, behind-same}

-- The state without its first ready character.
next :
    (a b : ℕ) (t : Input) (l : Lines)
    → View (suc a) b t l
    → View a b (record t { r = add32 t.r 1 }) (record l { ready = ahead t.buf (t.r + 1) a })
next a b t l v = record {
  word = omega arith;
  w_is = let w = v.w_is in omega arith;
  e_is = let e = v.e_is in omega arith;
  room = let h = v.room in omega arith;
  ready_is = ahead-same t.buf (t.r + 1) (add32 t.r 1) a (omega arith);
  line_is = v.line_is ∙ behind-same t.buf (t.r + suc a) (add32 t.r 1 + a) b (omega arith);
  plain = λ k h q.
      let i : (t.r + suc a + k) % input_buf ≡ (add32 t.r 1 + a + k) % input_buf = omega arith in
      v.plain k h (ap t.buf i ∙ q);
}

none_ready : (b : ℕ) (t : Input) (l : Lines) → View 0 b t l → (t.r == t.w) ≡ true
none_ready b t l v =
    let e : t.r ≡ t.w = let w = v.w_is in let h = v.word in omega arith in
    ap (λ k. k == t.w) e ∙ ==_self t.w

some_ready : (a b : ℕ) (t : Input) (l : Lines) → View (suc a) b t l → (t.r == t.w) ≡ false
some_ready a b t l v =
    ==_ne t.r t.w (λ q. apart t.r t.w v.word v.w_is (let h = v.room in omega arith) q)
  where
    apart : (r w : ℕ) → r < u32_mod → w ≡ (r + suc a) % u32_mod → suc a ≤ input_buf → r ≢ w
    apart r w h e k q = omega arith

put_back : (r : ℕ) → r < u32_mod → sub32 (add32 r 1) 1 ≡ r
put_back r h = omega arith

-- `consoleread` up to where it sleeps or ends, on a ring that holds the lines `l`: it gets the
-- characters that are ready, up to the number it still wants, to a newline, which it gets too, or to
-- C('D'), which it does not, and which stays if a character was read before it; it sleeps exactly if
-- it runs out of characters before that. The line that is being typed stays as it is.
pub read_from-View :
    (n target a b : ℕ) (t : Input) (l : Lines)
    → View a b t l
    → (a' : ℕ) × (t' : Input) × (rest : List ℕ) × (got : List ℕ) × (p : Pause) × (read_from n target
          t
        ≡ (t', got, p))
      × (take_line n target l.ready ≡ (rest, got, p))
      × View a' b t' (record l { ready = rest })
unfolding read_from
read_from-View zero target a b t l v = (a, t, l.ready, [], done, refl, refl, v)
read_from-View (suc n) target zero b t l v = (
  0,
  t,
  [],
  [],
  sleeps (suc n),
  rw (none_ready b t l v, read_from) refl,
  ap (take_line (suc n) target) v.ready_is,
  record {
    word = v.word;
    w_is = v.w_is;
    e_is = v.e_is;
    room = v.room;
    ready_is = refl;
    line_is = v.line_is;
    plain = v.plain;
  },
)
read_from-View (suc n) target (suc a) b t l v =
    elim (Bool-cases (t.buf (t.r % input_buf) == control_d)) [
      | inl eof ↦ elim (Bool-cases (ltb (suc n) target)) [
        | inl later ↦ (
          suc a,
          record t { r = sub32 (add32 t.r 1) 1 },
          ahead t.buf t.r (suc a),
          [],
          done,
          rw (some_ready a b t l v, eof, later, read_from) refl,
          ap (take_line (suc n) target) v.ready_is ∙ rw (eof, later) refl,
          rw (put_back t.r v.word) (record {
            word = v.word;
            w_is = v.w_is;
            e_is = v.e_is;
            room = v.room;
            ready_is = refl;
            line_is = v.line_is;
            plain = v.plain;
          }),
        )
        | inr first ↦ (
          a,
          record t { r = add32 t.r 1 },
          ahead t.buf (t.r + 1) a,
          [],
          done,
          rw (some_ready a b t l v, eof, first, read_from) refl,
          ap (take_line (suc n) target) v.ready_is ∙ rw (eof, first) refl,
          next a b t l v,
        )
      ]
      | inr other ↦ elim (Bool-cases (t.buf (t.r % input_buf) == newline)) [
        | inl ends ↦ (
          a,
          record t { r = add32 t.r 1 },
          ahead t.buf (t.r + 1) a,
          t.buf (t.r % input_buf) ∷ [],
          done,
          rw (some_ready a b t l v, other, ends, read_from) refl,
          ap (take_line (suc n) target) v.ready_is ∙ rw (other, ends) refl,
          next a b t l v,
        )
        | inr goes_on ↦
            let (a', t', rest, got, p, e, q, w) =
              read_from-View n target a b (record t { r = add32 t.r 1 })
                (record l { ready = ahead t.buf (t.r + 1) a }) (next a b t l v) in
            (
              a',
              t',
              rest,
              t.buf (t.r % input_buf) ∷ got,
              p,
              rw (some_ready a b t l v, other, goes_on, e, read_from) refl,
              ap (take_line (suc n) target) v.ready_is ∙ rw (other, goes_on, q) refl,
              w,
            )
      ]
    ]
