-- ===== src/Shell/Loops.antt =====
-- How the loops of the parser read what is printed.
use cs.Prelude.{
  ℕ, zero, suc, ◌+◌, ◌<◌, ◌≡◌, ◌⊎◌, ◌==◌, leb, refl, ◌∙◌, ap, true, false, Bool-cases, inl, inr,
  some, none, List, [], ◌∷◌, ◌++◌, append_assoc, length, length-append, All, arith,
}
use cs.Shell.{
  Chars, Cmd, exec, redir, max_args, skip_space, second, token, gettoken, starts, ok, ◌>>=◌,
  redirect, redirs_from, parseredirs, args_from, o_rdonly, o_create,
}
use cs.Shell.Tokens.{gettoken-shorter, gettoken-le}
use cs.Shell.Printer.{
  close, semi, amp, bar, less, greater, symbol, Rest, chars, Below, words, direction, IsWord,
}
use cs.Shell.Words.{skip_space-chars, Begins, word-Begins, gettoken-word, gettoken-last}

-- A word, and then the end of the redirections.
pub parseredirs-word : (c : Cmd) (s : Chars) → Begins s → parseredirs c s ≡ ok c s
unfolding parseredirs redirs_from
parseredirs-word c s b =
    let e : length s + 1 ≡ suc (length s) = omega arith in
    rw (e, redirs_from, b.stays, b.not_redir) (ap (ok c) b.stays)

no_redir : (o : Rest) → Below 4 o → starts (b'<' ∷ b'>' ∷ []) (chars o) ≡ false
unfolding starts
no_redir none h = refl
no_redir (some (close, s)) h = refl
no_redir (some (semi, s)) h = refl
no_redir (some (amp, s)) h = refl
no_redir (some (bar, s)) h = refl
no_redir (some (less, s)) h = absurd (omega arith)
no_redir (some (greater, s)) h = absurd (omega arith)

-- The same before a symbol that is none of a redirection.
pub parseredirs-chars : (c : Cmd) (o : Rest) → Below 4 o → parseredirs c (chars o) ≡ ok c (chars o)
unfolding parseredirs redirs_from
parseredirs-chars c o h =
    let e : length (chars o) + 1 ≡ suc (length (chars o)) = omega arith in
    rw (e, redirs_from, skip_space-chars o, no_redir o h) (ap (ok c) (skip_space-chars o))

-- More fuel changes nothing.
redirs_from-fuel :
    (f g : ℕ) (c : Cmd) (s : Chars)
    → length s < f
    → length s < g
    → redirs_from f c s ≡ redirs_from g c s
unfolding redirs_from
redirs_from-fuel zero g c s h k = absurd (omega arith)
redirs_from-fuel (suc f) zero c s h k = absurd (omega arith)
redirs_from-fuel (suc f) (suc g) c s h k =
    elim (Bool-cases (starts (b'<' ∷ b'>' ∷ []) (skip_space s))) [
      | inr end ↦ rw (end, redirs_from) refl
      | inl more ↦ elim (Bool-cases ((gettoken (gettoken (skip_space s)).2).0 == b'a')) [
        | inr missing ↦ rw (more, missing, redirs_from) refl
        | inl file ↦
            let a = gettoken-shorter (b'<' ∷ b'>' ∷ []) s more in
            let b = gettoken-le (gettoken (skip_space s)).2 in
            rw (more, file, redirs_from)
              (redirs_from-fuel f g _ (gettoken (gettoken (skip_space s)).2).2 (omega (arith, a, b))
                (omega (arith, a, b)))
      ]
    ]

redirs_from-round :
    (g tok : ℕ) (c : Cmd) (s q s1 w s2 : Chars)
    → skip_space s ≡ s
    → starts (b'<' ∷ b'>' ∷ []) s ≡ true
    → gettoken s ≡ (tok, q, s1)
    → gettoken s1 ≡ (b'a', w, s2)
    → redirs_from (suc g) c s ≡ redirs_from g (redirect tok w c) s2
unfolding redirs_from
redirs_from-round g tok c s q s1 w s2 e m t u = rw (e, m, e, t, u, e, t, u, redirs_from) refl

redirs_from-less :
    (g : ℕ) (c : Cmd) (f : Chars) (o : Rest)
    → IsWord f
    → redirs_from (suc g) c (b'<' ∷ b' ' ∷ (f ++ chars o))
      ≡ redirs_from g (redir c f o_rdonly 0) (chars o)
unfolding gettoken token skip_space starts
redirs_from-less g c f o w =
    redirs_from-round g b'<' c _ (b'<' ∷ []) (f ++ chars o) f (chars o) refl refl
      (rw (word-Begins f (chars o) w).stays refl) (gettoken-last f o w)

redirs_from-greater :
    (g : ℕ) (c : Cmd) (f : Chars) (o : Rest)
    → IsWord f
    → redirs_from (suc g) c (b'>' ∷ b' ' ∷ (f ++ chars o))
      ≡ redirs_from g (redir c f o_create 1) (chars o)
unfolding gettoken token second skip_space starts
redirs_from-greater g c f o w =
    redirs_from-round g b'>' c _ (b'>' ∷ []) (f ++ chars o) f (chars o) refl refl
      (rw (word-Begins f (chars o) w).stays refl) (gettoken-last f o w)

-- A redirection, as it is printed.
pub parseredirs-redir :
    (c : Cmd) (f : Chars) (m d : ℕ) (o : Rest)
    → IsWord f
    → ((m ≡ o_rdonly) × (d ≡ 0)) ⊎ ((m ≡ o_create) × (d ≡ 1))
    → parseredirs c (symbol (direction d) ∷ b' ' ∷ (f ++ chars o))
      ≡ parseredirs (redir c f m d) (chars o)
unfolding parseredirs
parseredirs-redir c f m d o w (inl (em, ed)) =
    let g : ℕ = length (f ++ chars o) + 2 in
    let e : suc (suc (length (f ++ chars o))) + 1 ≡ suc g = omega arith in
    rw (em, ed, e)
      (redirs_from-less g c f o w
        ∙ redirs_from-fuel g (length (chars o) + 1) (redir c f o_rdonly 0) (chars o)
            (omega (arith, length-append {0} f (chars o))) (omega arith))
parseredirs-redir c f m d o w (inr (em, ed)) =
    let g : ℕ = length (f ++ chars o) + 2 in
    let e : suc (suc (length (f ++ chars o))) + 1 ≡ suc g = omega arith in
    rw (em, ed, e)
      (redirs_from-greater g c f o w
        ∙ redirs_from-fuel g (length (chars o) + 1) (redir c f o_create 1) (chars o)
            (omega (arith, length-append {0} f (chars o))) (omega arith))

-- The loop over the arguments, at its end.
pub args_from-chars :
    (g argc : ℕ) (c : Cmd) (o : Rest)
    → Below 4 o
    → args_from (suc g) argc c (chars o) ≡ ok c (chars o)
unfolding args_from starts gettoken token skip_space
args_from-chars g argc c none h = refl
args_from-chars g argc c (some (close, s)) h = refl
args_from-chars g argc c (some (semi, s)) h = refl
args_from-chars g argc c (some (amp, s)) h = refl
args_from-chars g argc c (some (bar, s)) h = refl
args_from-chars g argc c (some (less, s)) h = absurd (omega arith)
args_from-chars g argc c (some (greater, s)) h = absurd (omega arith)

-- A word of the loop.
args_from-word :
    (g argc : ℕ) (done : List Chars) (w : Chars) (ws : List Chars) (o : Rest)
    → IsWord w
    → argc + 1 < max_args
    → args_from (suc g) argc (exec done) (w ++ words ws (chars o)) ≡ (
        parseredirs (exec (done ++ w ∷ [])) (skip_space (words ws (chars o)))
        >>= args_from g (argc + 1))
unfolding args_from
args_from-word g argc done w ws o h few =
    let b = word-Begins w (words ws (chars o)) h in
    let e : leb max_args (argc + 1) ≡ false = ground arith in
    rw
      (
        b.stays,
        b.not_stop,
        b.stays,
        gettoken-word w ws o h,
        b.stays,
        gettoken-word w ws o h,
        e,
        b.stays,
        gettoken-word w ws o h,
        args_from,
      )
      refl

pub args_from-words :
    (ws : List Chars) (g argc : ℕ) (done : List Chars) (w : Chars) (o r : Rest) (c : Cmd)
    → length ws < g
    → argc + length ws + 1 < max_args
    → All IsWord (w ∷ ws)
    → Below 4 r
    → parseredirs (exec (done ++ w ∷ ws)) (chars o) ≡ ok c (chars r)
    → args_from (suc g) argc (exec done) (w ++ words ws (chars o)) ≡ ok c (chars r)
unfolding skip_space
args_from-words [] zero argc done w o r c h few (hw, hs) low e = absurd (omega arith)
args_from-words [] (suc g) argc done w o r c h few (hw, hs) low e =
    args_from-word (suc g) argc done w [] o hw (omega arith)
    ∙ rw (skip_space-chars o, e) (args_from-chars g (argc + 1) c r low)
args_from-words (v ∷ ws) zero argc done w o r c h few (hw, hs) low e = absurd (omega arith)
args_from-words (v ∷ ws) (suc g) argc done w o r c h few (hw, hs) low e =
    let k = words ws (chars o) in
    let b = word-Begins v k hs.0 in
    args_from-word (suc g) argc done w (v ∷ ws) o hw (omega arith)
    ∙ ap (λ s. parseredirs (exec (done ++ w ∷ [])) s >>= args_from (suc g) (argc + 1)) b.stays
    ∙ rw (parseredirs-word (exec (done ++ w ∷ [])) (v ++ k) b) (
        args_from-words ws g (argc + 1) (done ++ w ∷ []) v o r c (omega arith) (omega arith) hs low
          (rw (append_assoc done (w ∷ []) (v ∷ ws)) e))
