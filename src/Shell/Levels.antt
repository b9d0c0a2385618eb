-- ===== src/Shell/Levels.antt =====
-- What each level of the parser is to make of a printed command, and the level of simple commands.
use cs.Prelude.{
  ℕ, zero, suc, ◌+◌, ◌*◌, ◌≤◌, ◌<◌, ◌≡◌, refl, sym, ◌∙◌, ap, false, Bool-cases, inl, inr, some,
  none, List, [], ◌∷◌, ◌++◌, length, length-append, arith,
}
use cs.Shell.{
  Chars, Cmd, exec, redir, skip_space, starts, Parsed, ok, ◌>>=◌, parseredirs, args_from, parseexec,
  backs_from, parseline, parsepipe,
}
use cs.Shell.Tokens.{skip_space-skip_space}
use cs.Shell.Printer.{
  close, semi, amp, bar, less, greater, Rest, chars, Below, words, direction, IsWord, IsTyped,
  print,
}
use cs.Shell.Words.{skip_space-chars, word-Begins}
use cs.Shell.Loops.{parseredirs-word, parseredirs-redir, args_from-chars, args_from-words}

-- White space before a command does not count.
pub parseexec-skip_space :
    (line : Chars → Parsed) (s : Chars) → parseexec line (skip_space s) ≡ parseexec line s
unfolding parseexec
parseexec-skip_space line s =
    let e = skip_space-skip_space s in
    elim (Bool-cases (starts (b'(' ∷ []) (skip_space s))) [
      | inl block ↦ rw (e, block, e, parseexec) refl
      | inr words ↦ rw (e, words, e, parseexec) refl
    ]

pub parsepipe-skip_space : (n : ℕ) (s : Chars) → parsepipe n (skip_space s) ≡ parsepipe n s
unfolding parsepipe
parsepipe-skip_space zero s = refl
parsepipe-skip_space (suc n) s = rw (parseexec-skip_space (parseline n) s) refl

pub parseline-skip_space : (n : ℕ) (s : Chars) → parseline n (skip_space s) ≡ parseline n s
unfolding parseline
parseline-skip_space zero s = refl
parseline-skip_space (suc n) s = rw (parsepipe-skip_space n s) refl

-- What each level of the parser makes of a command that is printed for it, with `o` behind it.
abbrev pub AtLine : Cmd → Type 0
AtLine c =
    (n : ℕ) (o : Rest)
    → Below 1 o
    → 3 * length (print 0 c (chars o)) + 3 ≤ n
    → parseline n (print 0 c (chars o)) ≡ ok c (chars o)

-- At the level of `&` and of redirections the rest may belong to the command.
abbrev pub AtBack : Cmd → Type 0
AtBack c =
    (n : ℕ) (o : Rest) (d : Cmd) (s : Chars)
    → Below 3 o
    → 3 * length (print 1 c (chars o)) + 2 ≤ n
    → backs_from (length (chars o) + 1) c (chars o) ≡ ok d s
    → (parsepipe n (print 1 c (chars o)) >>= λ e t. backs_from (length t + 1) e t) ≡ ok d s

abbrev pub AtPipe : Cmd → Type 0
AtPipe c =
    (n : ℕ) (o : Rest)
    → Below 3 o
    → 3 * length (print 2 c (chars o)) + 2 ≤ n
    → parsepipe n (print 2 c (chars o)) ≡ ok c (chars o)

abbrev pub AtExec : Cmd → Type 0
AtExec c =
    (n : ℕ) (o r : Rest) (d : Cmd)
    → Below 4 r
    → 3 * length (print 3 c (chars o)) ≤ n
    → parseredirs c (chars o) ≡ ok d (chars r)
    → parseexec (parseline n) (print 3 c (chars o)) ≡ ok d (chars r)

pub no_bar : (o : Rest) → Below 3 o → starts (b'|' ∷ []) (chars o) ≡ false
unfolding starts
no_bar none h = refl
no_bar (some (close, s)) h = refl
no_bar (some (semi, s)) h = refl
no_bar (some (amp, s)) h = refl
no_bar (some (bar, s)) h = absurd (omega arith)
no_bar (some (less, s)) h = absurd (omega arith)
no_bar (some (greater, s)) h = absurd (omega arith)

pub no_block : (o : Rest) → starts (b'(' ∷ []) (chars o) ≡ false
unfolding starts
no_block none = refl
no_block (some (close, s)) = refl
no_block (some (semi, s)) = refl
no_block (some (amp, s)) = refl
no_block (some (bar, s)) = refl
no_block (some (less, s)) = refl
no_block (some (greater, s)) = refl

pub Below-more : (a b : ℕ) (o : Rest) → a ≤ b → Below a o → Below b o
Below-more a b none l h = tt
Below-more a b (some (m, s)) l h = omega arith

pub no_amp : (o : Rest) → Below 2 o → starts (b'&' ∷ []) (chars o) ≡ false
unfolding starts
no_amp none h = refl
no_amp (some (close, s)) h = refl
no_amp (some (semi, s)) h = refl
no_amp (some (amp, s)) h = absurd (omega arith)
no_amp (some (bar, s)) h = absurd (omega arith)
no_amp (some (less, s)) h = absurd (omega arith)
no_amp (some (greater, s)) h = absurd (omega arith)

-- At the end of a line nothing else is read.
pub backs_from-chars :
    (c : Cmd) (o : Rest)
    → Below 2 o
    → backs_from (length (chars o) + 1) c (chars o) ≡ ok c (chars o)
unfolding backs_from
backs_from-chars c o h =
    let e : length (chars o) + 1 ≡ suc (length (chars o)) = omega arith in
    rw (e, skip_space-chars o, no_amp o h, backs_from) (ap (ok c) (skip_space-chars o))

-- A simple command.
pub parseexec-words :
    (line : Chars → Parsed) (s : Chars)
    → skip_space s ≡ s
    → starts (b'(' ∷ []) s ≡ false
    → parseexec line s ≡ (parseredirs (exec []) s >>= λ c t. args_from (length t + 1) 0 c t)
unfolding parseexec
parseexec-words line s e h = rw (e, h, e, parseexec) refl

pub parseexec-blank :
    (line : Chars → Parsed) (s : Chars) → parseexec line (b' ' ∷ s) ≡ parseexec line s
unfolding skip_space
parseexec-blank line s = sym (parseexec-skip_space line (b' ' ∷ s)) ∙ parseexec-skip_space line s

pub length-words_count : (ws : List Chars) (k : Chars) → length ws ≤ length (words ws k)
length-words_count [] k = omega arith
length-words_count (w ∷ ws) k =
    omega (arith, length-append {0} w (words ws k), length-words_count ws k)

pub length-word : (w : Chars) → IsWord w → 0 < length w
length-word [] (ne, h) = absurd (ne refl)
length-word (c ∷ w) h = omega arith

pub exec_level : (args : List Chars) → IsTyped (exec args) → AtExec (exec args)
unfolding print
exec_level [] t n o r d low fuel e =
    let one : length (chars r) + 1 ≡ suc (length (chars r)) = omega arith in
    parseexec-words (parseline n) (chars o) (skip_space-chars o) (no_block o)
    ∙ rw (e, one) (args_from-chars (length (chars r)) 0 d r low)
exec_level (w ∷ ws) (few, (hw, hs)) n o r d low fuel e =
    let s = w ++ words ws (chars o) in
    let b = word-Begins w (words ws (chars o)) hw in
    let one : length s + 1 ≡ suc (length s) = omega arith in
    parseexec-blank (parseline n) s
    ∙ parseexec-words (parseline n) s b.stays b.not_block
    ∙ rw (parseredirs-word (exec []) s b, one)
        (args_from-words ws (length s) 0 [] w o r d
          (omega (
            arith,
            length-append {0} w (words ws (chars o)),
            length-word w hw,
            length-words_count ws (chars o),
          ))
          (omega arith) (hw, hs) low e)

pub redir_level :
    (c : Cmd) (f : Chars) (m d : ℕ) → IsTyped (redir c f m d) → AtExec c → AtExec (redir c f m d)
unfolding print
redir_level c f m d (tc, tf, td) ih n o r e low fuel h =
    ih n (some (direction d, b' ' ∷ (f ++ chars o))) r e low fuel
      (parseredirs-redir c f m d o tf td ∙ h)
