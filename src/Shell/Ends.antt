-- ===== src/Shell/Ends.antt =====
-- The parser ends on every text.
use cs.Prelude.{
  ℕ, zero, suc, ◌+◌, ◌*◌, ◌≤◌, ◌<◌, ◌≡◌, ◌⊎◌, ◌==◌, leb, refl, sym, Bool-cases, inl, inr, [], ◌∷◌,
  length, arith,
}
use cs.Shell.{
  Chars, Cmd, exec, back, skip_space, gettoken, starts, Panic, Parsed, ok, panics, spent, ◌>>=◌,
  redirs_from, parseredirs, max_args, args_from, parseblock, parseexec, backs_from, parseline,
  parsepipe, parsecmd, leftovers,
}
use cs.Shell.Tokens.{length-skip_space, gettoken-shorter, gettoken-le, gettoken-shorter_ne}

-- A parse has not run out of fuel and leaves no more than `k` characters.
abbrev pub Within : ℕ → Parsed → Type 0
Within k (ok c s) = length s ≤ k
Within k (panics p) = Unit
Within k spent = ⊥

Within-bind :
    (k m : ℕ) (r : Parsed) (f : Cmd → Chars → Parsed)
    → Within k r
    → ((c : Cmd) (s : Chars) → length s ≤ k → Within m (f c s))
    → Within m (r >>= f)
Within-bind k m (ok c s) f h g = g c s h
Within-bind k m (panics p) f h g = tt
Within-bind k m spent f h g = absurd h

Within-le : (k m : ℕ) (r : Parsed) → k ≤ m → Within k r → Within m r
Within-le k m (ok c s) h w = omega arith
Within-le k m (panics p) h w = tt
Within-le k m spent h w = w

redirs_from-Within :
    (fuel k : ℕ) (c : Cmd) (s : Chars)
    → length s < fuel
    → length s ≤ k
    → Within k (redirs_from fuel c s)
unfolding redirs_from
redirs_from-Within zero k c s h le = absurd (omega arith)
redirs_from-Within (suc fuel) k c s h le =
    elim (Bool-cases (starts (b'<' ∷ b'>' ∷ []) (skip_space s))) [
      | inr none ↦ rw (none, Within, redirs_from) (omega (arith, length-skip_space s))
      | inl some ↦ elim (Bool-cases ((gettoken (gettoken (skip_space s)).2).0 == b'a')) [
        | inr missing ↦ rw (some, missing, Within, redirs_from) tt
        | inl file ↦
            let a = gettoken-shorter (b'<' ∷ b'>' ∷ []) s some in
            let b = gettoken-le (gettoken (skip_space s)).2 in
            rw (some, file, Within, redirs_from)
              (redirs_from-Within fuel k _ _ (omega (arith, a, b)) (omega (arith, a, b)))
      ]
    ]

parseredirs-Within : (k : ℕ) (c : Cmd) (s : Chars) → length s ≤ k → Within k (parseredirs c s)
unfolding parseredirs
parseredirs-Within k c s h = redirs_from-Within (length s + 1) k c s (omega arith) h

abbrev after_args : Chars
after_args = b'|' ∷ b')' ∷ b'&' ∷ b';' ∷ []

args_from-Within :
    (fuel argc k : ℕ) (c : Cmd) (s : Chars)
    → length s < fuel
    → length s ≤ k
    → Within k (args_from fuel argc c s)
unfolding args_from
args_from-Within zero argc k c s h le = absurd (omega arith)
args_from-Within (suc fuel) argc k c s h le = elim (Bool-cases (starts after_args (skip_space s))) [
  | inl stop ↦ rw (stop, Within, args_from) (omega (arith, length-skip_space s))
  | inr go ↦ elim (Bool-cases ((gettoken (skip_space s)).0 == 0)) [
    | inl end ↦
        rw (go, end, Within, args_from)
          (omega (arith, gettoken-le (skip_space s), length-skip_space s))
    | inr more ↦ elim (Bool-cases ((gettoken (skip_space s)).0 == b'a')) [
      | inr symbol ↦ rw (go, more, symbol, Within, args_from) tt
      | inl word ↦ elim (Bool-cases (leb max_args (argc + 1))) [
        | inl many ↦ rw (go, more, word, many, Within, args_from) tt
        | inr few ↦
            let a = gettoken-shorter_ne s more in
            rw (go, more, word, few, Within, args_from)
              (Within-bind (length (gettoken (skip_space s)).2) k _ _
                (parseredirs-Within _ _ (gettoken (skip_space s)).2 (omega arith))
                (λ c' s' l.
                  args_from-Within fuel (argc + 1) k c' s' (omega (arith, a)) (omega (arith, a))))
      ]
    ]
  ]
]

backs_from-Within :
    (fuel k : ℕ) (c : Cmd) (s : Chars)
    → length s < fuel
    → length s ≤ k
    → Within k (backs_from fuel c s)
unfolding backs_from
backs_from-Within zero k c s h le = absurd (omega arith)
backs_from-Within (suc fuel) k c s h le = elim (Bool-cases (starts (b'&' ∷ []) (skip_space s))) [
  | inr none ↦ rw (none, Within, backs_from) (omega (arith, length-skip_space s))
  | inl some ↦
      let a = gettoken-shorter (b'&' ∷ []) s some in
      rw (some, Within, backs_from)
        (backs_from-Within fuel k (back c) _ (omega (arith, a)) (omega (arith, a)))
]

-- What `parseline` gives for shorter texts.
abbrev Shorter : (Chars → Parsed) → Chars → Type 0
Shorter line s = (t : Chars) → length t < length s → Within (length t) (line t)

parseblock-Within :
    (line : Chars → Parsed) (s : Chars) → Shorter line s → Within (length s) (parseblock line s)
unfolding parseblock
parseblock-Within line s h = elim (Bool-cases (starts (b'(' ∷ []) (skip_space s))) [
  | inr none ↦ rw (none, Within, parseblock) tt
  | inl some ↦
      let a = gettoken-shorter (b'(' ∷ []) s some in
      rw (some, Within, parseblock)
        (Within-bind (length (gettoken (skip_space s)).2) (length s) _ _ (h _ (omega (arith, a)))
          (λ c t l. elim (Bool-cases (starts (b')' ∷ []) (skip_space t))) [
            | inr open_end ↦ rw (open_end, Within, parseblock) tt
            | inl closed ↦
                rw (closed, Within, parseblock)
                  (parseredirs-Within (length s) c (gettoken (skip_space t)).2
                    (omega (arith, a, gettoken-shorter (b')' ∷ []) t closed)))
          ]))
]

parseexec-Within :
    (line : Chars → Parsed) (s : Chars) → Shorter line s → Within (length s) (parseexec line s)
unfolding parseexec
parseexec-Within line s h = elim (Bool-cases (starts (b'(' ∷ []) (skip_space s))) [
  | inl block ↦
      let a = length-skip_space s in
      rw (block, Within, parseexec)
        (Within-le (length (skip_space s)) (length s) _ a
          (parseblock-Within line (skip_space s) (λ t l. h t (omega (arith, a)))))
  | inr words ↦
      rw (words, Within, parseexec)
        (Within-bind (length s) (length s) _ _
          (parseredirs-Within (length s) (exec []) _ (length-skip_space s))
          (λ c t l. args_from-Within (length t + 1) 0 (length s) c t (omega arith) l))
]

mutual
  unfolding parseline

  pub parseline-Within :
      (fuel : ℕ) (s : Chars) → 3 * length s + 3 ≤ fuel → Within (length s) (parseline fuel s)
  parseline-Within zero s h = absurd (omega arith)
  parseline-Within (suc fuel) s h =
      Within-bind (length s) (length s) _ _ (parsepipe-Within fuel s (omega arith)) (λ c s1 l1.
        Within-bind (length s) (length s) _ _
          (backs_from-Within (length s1 + 1) (length s) c s1 (omega arith) l1)
          (λ c' s2 l2. elim (Bool-cases (starts (b';' ∷ []) (skip_space s2))) [
            | inr end ↦ rw end (omega (arith, length-skip_space s2))
            | inl more ↦
                let a = gettoken-shorter (b';' ∷ []) s2 more in
                rw more (
                  Within-bind (length (gettoken (skip_space s2)).2) (length s) _ _
                    (parseline-Within fuel (gettoken (skip_space s2)).2 (omega (arith, a)))
                    (λ d s3 l3. omega (arith, a)))
          ]))

  parsepipe-Within :
      (fuel : ℕ) (s : Chars) → 3 * length s + 2 ≤ fuel → Within (length s) (parsepipe fuel s)
  parsepipe-Within zero s h = absurd (omega arith)
  parsepipe-Within (suc fuel) s h =
      Within-bind (length s) (length s) _ _
        (parseexec-Within (parseline fuel) s (λ t l. parseline-Within fuel t (omega arith)))
        (λ c s1 l1. elim (Bool-cases (starts (b'|' ∷ []) (skip_space s1))) [
          | inr end ↦ rw end (omega (arith, length-skip_space s1))
          | inl more ↦
              let a = gettoken-shorter (b'|' ∷ []) s1 more in
              rw more (
                Within-bind (length (gettoken (skip_space s1)).2) (length s) _ _
                  (parsepipe-Within fuel (gettoken (skip_space s1)).2 (omega (arith, a)))
                  (λ d s2 l2. omega (arith, a)))
        ])

parsecmd-Within : (s : Chars) → Within 0 (parsecmd s)
unfolding parsecmd
parsecmd-Within s =
    Within-bind (length s) 0 _ _ (parseline-Within (3 * length s + 3) s (omega arith))
      (λ c t l. at_end c (skip_space t))
  where
    at_end : (c : Cmd) (t : Chars) → Within 0 (elim t [ [] ↦ ok c [] | x ∷ r ↦ panics leftovers ])
    at_end c [] = omega arith
    at_end c (x ∷ r) = tt

-- The shell's parser ends on every line: `parsecmd` panics, or it gives a command and has read all
-- of the line.
pub parsecmd-ends :
    (s : Chars) → ((c : Cmd) × (parsecmd s ≡ ok c [])) ⊎ ((p : Panic) × (parsecmd s ≡ panics p))
parsecmd-ends s = ends (parsecmd s) refl (parsecmd-Within s)
  where
    ends :
        (r : Parsed)
        → r ≡ parsecmd s
        → Within 0 r
        → ((c : Cmd) × (parsecmd s ≡ ok c [])) ⊎ ((p : Panic) × (parsecmd s ≡ panics p))
    ends (ok c []) e w = inl (c, sym e)
    ends (ok c (x ∷ t)) e w = absurd (omega arith)
    ends (panics p) e w = inr (p, sym e)
    ends spent e w = absurd w
