-- ===== src/Console/Editing.antt =====
-- What a typed character does to the lines.
use cs.Prelude.{
  ℕ, zero, suc, ◌+◌, ◌%◌, ◌≤◌, ◌<◌, ◌≡◌, ◌≢◌, ◌||◌, inl, inr, refl, sym, ◌∙◌, ap, ◌==◌, ==_ne,
  ==_self, ltb, ltb→lt, if◌then◌else◌, true, false, Bool-cases, List, [], ◌∷◌, length, arith, sub32,
  u32_mod,
}
use cs.Console.{
  Input, input_buf, newline, control_h, control_p, control_u, delete, kill_from, backspace,
  translate, insert, typed, consoleintr,
}
use cs.Console.Lines.{Lines, without_last, extend, edit, edits}
use cs.Console.Storing.{store-View}
use cs.Console.Ring.{ahead, behind, View, length-ahead, length-behind}

-- One index less, for the last character of the line.
shorter :
    (a b : ℕ) (t : Input) (l : Lines)
    → View a (suc b) t l
    → View a b (record t { e = sub32 t.e 1 }) (record l { line = without_last l.line })
shorter a b t l v = record {
  word = v.word;
  w_is = v.w_is;
  e_is = let e = v.e_is in let w = v.word in omega arith;
  room = let h = v.room in omega arith;
  ready_is = v.ready_is;
  line_is = ap without_last v.line_is;
  plain = λ k h. v.plain k (omega arith);
}

empty_line : (a : ℕ) (t : Input) (l : Lines) → View a 0 t l → (t.e == t.w) ≡ true
empty_line a t l v =
    let same : t.e ≡ t.w = v.e_is ∙ ap (λ k. k % u32_mod) (plus_zero (t.r + a)) ∙ sym v.w_is in
    ap (λ k. k == t.w) same ∙ ==_self t.w
  where
    plus_zero : (n : ℕ) → n + 0 ≡ n
    plus_zero n = omega arith

some_line : (a b : ℕ) (t : Input) (l : Lines) → View a (suc b) t l → (t.e == t.w) ≡ false
some_line a b t l v = ==_ne t.e t.w (λ q. apart t.r t.w t.e v.word v.w_is v.e_is v.room q)
  where
    apart :
        (r w e : ℕ)
        → r < u32_mod
        → w ≡ (r + a) % u32_mod
        → e ≡ (r + a + suc b) % u32_mod
        → a + suc b ≤ input_buf
        → e ≢ w
    apart r w e h p q room s = omega arith

-- Where the last character is.
last_index :
    (a b : ℕ) (t : Input) (l : Lines)
    → View a (suc b) t l
    → sub32 t.e 1 % input_buf ≡ (t.r + a + b) % input_buf
last_index a b t l v = let e = v.e_is in let w = v.word in omega arith

pub backspace-View :
    (a b : ℕ) (t : Input) (l : Lines)
    → View a b t l
    → (b' : ℕ) × View a b' (backspace t) (record l { line = without_last l.line })
backspace-View a zero t l v = (
  0,
  rw (empty_line a t l v) (record {
    word = v.word;
    w_is = v.w_is;
    e_is = v.e_is;
    room = v.room;
    ready_is = v.ready_is;
    line_is = ap without_last v.line_is;
    plain = v.plain;
  }),
)
backspace-View a (suc b) t l v = (b, rw (some_line a b t l v) (shorter a b t l v))

pub kill_from-View :
    (fuel a b : ℕ) (t : Input) (l : Lines)
    → b ≤ fuel
    → View a b t l
    → View a 0 (kill_from fuel t) (record l { line = [] })
unfolding kill_from
kill_from-View zero a zero t l h v = record {
  word = v.word;
  w_is = v.w_is;
  e_is = v.e_is;
  room = v.room;
  ready_is = v.ready_is;
  line_is = refl;
  plain = v.plain;
}
kill_from-View zero a (suc b) t l h v = absurd (omega arith)
kill_from-View (suc fuel) a zero t l h v =
    rw (empty_line a t l v, kill_from)
      (record {
        word = v.word;
        w_is = v.w_is;
        e_is = v.e_is;
        room = v.room;
        ready_is = v.ready_is;
        line_is = refl;
        plain = v.plain;
      })
kill_from-View (suc fuel) a (suc b) t l h v =
    let other : (t.buf (sub32 t.e 1 % input_buf) == newline) ≡ false =
      ==_ne (t.buf (sub32 t.e 1 % input_buf)) newline
        (λ q. v.plain b (omega arith) (sym (ap t.buf (last_index a b t l v)) ∙ q)) in
    rw (some_line a b t l v, other, kill_from)
      (kill_from-View fuel a b (record t { e = sub32 t.e 1 })
        (record l { line = without_last l.line }) (omega arith) (shorter a b t l v))

held : (a b : ℕ) (t : Input) (l : Lines) → View a b t l → sub32 t.e t.r ≡ a + b
held a b t l v = let e = v.e_is in let w = v.word in let h = v.room in omega arith

lengths : (a b : ℕ) (t : Input) (l : Lines) → View a b t l → length l.ready + length l.line ≡ a + b
lengths a b t l v =
    ap (λ x. length x + length l.line) v.ready_is
    ∙ ap (λ x. length (ahead t.buf t.r a) + length x) v.line_is
    ∙ ap (λ k. k + length (behind t.buf (t.r + a) b)) (length-ahead t.buf t.r a)
    ∙ ap (λ k. a + k) (length-behind t.buf (t.r + a) b)

insert-View :
    (a b c : ℕ) (t : Input) (l : Lines)
    → View a b t l
    → (a' : ℕ) × (b' : ℕ) × View a' b' (insert c t) (
        if c == 0
        then l
        else if ltb (length l.ready + length l.line) input_buf
        then extend (translate c) l
        else l)
unfolding insert
insert-View a b c t l v = elim (Bool-cases (c == 0)) [
  | inl nul ↦ (a, b, rw (nul, insert) v)
  | inr some_char ↦
      let ring : ltb (sub32 t.e t.r) input_buf ≡ ltb (a + b) input_buf =
        ap (λ k. ltb k input_buf) (held a b t l v) in
      let lists : ltb (length l.ready + length l.line) input_buf ≡ ltb (a + b) input_buf =
        ap (λ k. ltb k input_buf) (lengths a b t l v) in
      elim (Bool-cases (ltb (a + b) input_buf)) [
        | inl free ↦
            let (a', b', w) = store-View a b (translate c) t l v (ltb→lt (a + b) input_buf free) in
            (a', b', rw (some_char, ring ∙ free, lists ∙ free, insert) w)
        | inr full ↦ (a, b, rw (some_char, ring ∙ full, lists ∙ full, insert) v)
      ]
]

typed-View :
    (a b c : ℕ) (t : Input) (l : Lines)
    → View a b t l
    → (a' : ℕ) × (b' : ℕ) × View a' b' (typed c t) (edit c l)
unfolding typed
typed-View a b c t l v = elim (Bool-cases (c == control_p)) [
  | inl lists ↦ (a, b, rw (lists, typed) v)
  | inr p ↦ elim (Bool-cases (c == control_u)) [
    | inl kills ↦ (
      a,
      0,
      rw (p, kills, typed) (kill_from-View input_buf a b t l (let h = v.room in omega arith) v),
    )
    | inr u ↦ elim (Bool-cases (c == control_h || c == delete)) [
      | inl erases ↦ let (b', w) = backspace-View a b t l v in (a, b', rw (p, u, erases, typed) w)
      | inr h ↦ let (a', b', w) = insert-View a b c t l v in (a', b', rw (p, u, h, typed) w)
    ]
  ]
]

-- `consoleintr` with any characters, on a ring that holds the lines `l`: afterwards it holds the
-- lines as they are when the characters have been typed one after the other. C('U') empties the
-- line, C('H') and delete take its last character, and another character is added to it unless 128
-- characters are held; the line becomes ready with a newline, C('D') or the 128th character.
pub consoleintr-View :
    (cs : List ℕ) (a b : ℕ) (t : Input) (l : Lines)
    → View a b t l
    → (a' : ℕ) × (b' : ℕ) × View a' b' (consoleintr cs t) (edits cs l)
unfolding consoleintr
consoleintr-View [] a b t l v = (a, b, v)
consoleintr-View (c ∷ cs) a b t l v =
    let (a', b', w) = typed-View a b c t l v in consoleintr-View cs a' b' (typed c t) (edit c l) w
