-- ===== src/Shell/Roundtrip.antt =====
-- The parser reads a printed command back.
use cs.Prelude.{
  ℕ, zero, suc, ◌+◌, ◌*◌, ◌≡◌, refl, sym, ◌∙◌, ap, true, false, some, none, [], ◌∷◌, length, arith,
}
use cs.Shell.{
  Chars, Cmd, exec, redir, pipe, list, back, skip_space, token, gettoken, starts, Parsed, ok,
  panics, spent, ◌>>=◌, parseredirs, parseblock, parseexec, backs_from, parseline, parsepipe,
  parsecmd,
}
use cs.Shell.Printer.{
  close, semi, amp, bar, less, greater, Rest, chars, Below, IsTyped, print, length-print,
}
use cs.Shell.Words.{skip_space-chars}
use cs.Shell.Loops.{parseredirs-chars}
use cs.Shell.Levels.{
  parsepipe-skip_space, parseline-skip_space, no_bar, Below-more, backs_from-chars, exec_level,
  redir_level, AtLine, AtBack, AtPipe, AtExec,
}

-- What stands in parentheses.
parseexec-block :
    (line : Chars → Parsed) (s t : Chars) (c : Cmd)
    → line (skip_space s) ≡ ok c (b')' ∷ t)
    → parseexec line (b'(' ∷ s) ≡ parseredirs c (skip_space t)
unfolding parseexec parseblock gettoken token skip_space starts
parseexec-block line s t c h = rw h refl

block_level :
    (c : Cmd) → ((k : Chars) → print 3 c k ≡ b'(' ∷ print 0 c (b')' ∷ k)) → AtLine c → AtExec c
block_level c p ih n o r d low fuel e =
    let s = print 0 c (b')' ∷ chars o) in
    let shorter : length (print 3 c (chars o)) ≡ suc (length s) =
      ap (λ (q : Chars). length q) (p (chars o)) in
    ap (parseexec (parseline n)) (p (chars o))
    ∙ parseexec-block (parseline n) s (chars o) c (
        parseline-skip_space n s
        ∙ ih n (some (close, chars o)) (omega arith) (omega (arith, shorter)))
    ∙ rw (skip_space-chars o) e

parsepipe-plain :
    (n : ℕ) (s : Chars) (c : Cmd) (o : Rest)
    → Below 3 o
    → parseexec (parseline n) s ≡ ok c (chars o)
    → parsepipe (suc n) s ≡ ok c (chars o)
unfolding parsepipe
parsepipe-plain n s c o low h = rw (h, parsepipe) (after_pipe o low)
  where
    after_pipe :
        (o : Rest)
        → Below 3 o
        → elim (starts (b'|' ∷ []) (skip_space (chars o))) [
          | false ↦ ok c (skip_space (chars o))
          | true ↦ parsepipe n (gettoken (skip_space (chars o))).2 >>= λ d s2. ok (pipe c d) s2
        ]
          ≡ ok c (chars o)
    after_pipe o low = rw (skip_space-chars o, no_bar o low) (ap (ok c) (skip_space-chars o))

exec-pipe : (c : Cmd) → ((k : Chars) → print 2 c k ≡ print 3 c k) → AtExec c → AtPipe c
exec-pipe c p ih zero o low fuel = absurd (omega arith)
exec-pipe c p ih (suc n) o low fuel =
    let e = p (chars o) in
    parsepipe-plain n (print 2 c (chars o)) c o low (
      ap (parseexec (parseline n)) e
      ∙ ih n o o c (Below-more 3 4 o (omega arith) low)
          (omega (arith, ap (λ (q : Chars). length q) e))
          (parseredirs-chars c o (Below-more 3 4 o (omega arith) low)))

pipe-back : (c : Cmd) → ((k : Chars) → print 1 c k ≡ print 2 c k) → AtPipe c → AtBack c
pipe-back c p ih n o d s low fuel e =
    let q = p (chars o) in
    let r : parsepipe n (print 1 c (chars o)) ≡ ok c (chars o) =
      ap (parsepipe n) q ∙ ih n o low (omega (arith, ap (λ (q : Chars). length q) q)) in
    rw r e

bind_ok :
    (r : Parsed) (f g : Cmd → Chars → Parsed) (c : Cmd) (t : Chars)
    → (r >>= f) ≡ ok c t
    → (r >>= λ d s. f d s >>= g) ≡ g c t
bind_ok (ok d s) f g c t h = rw h refl
bind_ok (panics p) f g c t h = cc
bind_ok spent f g c t h = cc

no_semi : (o : Rest) → Below 1 o → starts (b';' ∷ []) (chars o) ≡ false
unfolding starts
no_semi none h = refl
no_semi (some (close, s)) h = refl
no_semi (some (semi, s)) h = absurd (omega arith)
no_semi (some (amp, s)) h = absurd (omega arith)
no_semi (some (bar, s)) h = absurd (omega arith)
no_semi (some (less, s)) h = absurd (omega arith)
no_semi (some (greater, s)) h = absurd (omega arith)

-- The end of `parseline`, behind the first command.
second_line : ℕ → Cmd → Chars → Parsed
second_line n c s = elim (starts (b';' ∷ []) (skip_space s)) [
  | false ↦ ok c (skip_space s)
  | true ↦ parseline n (gettoken (skip_space s)).2 >>= λ d t. ok (list c d) t
]

parseline-first :
    (n : ℕ) (s : Chars) (c : Cmd) (t : Chars)
    → (parsepipe n s >>= λ d u. backs_from (length u + 1) d u) ≡ ok c t
    → parseline (suc n) s ≡ second_line n c t
unfolding parseline second_line
parseline-first n s c t h =
    bind_ok (parsepipe n s) (λ d u. backs_from (length u + 1) d u) (second_line n) c t h

back-line : (c : Cmd) → ((k : Chars) → print 0 c k ≡ print 1 c k) → AtBack c → AtLine c
unfolding second_line
back-line c p ih zero o low fuel = absurd (omega arith)
back-line c p ih (suc n) o low fuel =
    let e = p (chars o) in
    parseline-first n (print 0 c (chars o)) c (chars o) (
      ap (λ s. parsepipe n s >>= λ d u. backs_from (length u + 1) d u) e
      ∙ ih n o c (chars o) (Below-more 1 3 o (omega arith) low)
          (omega (arith, ap (λ (q : Chars). length q) e))
          (backs_from-chars c o (Below-more 1 2 o (omega arith) low)))
    ∙ rw (skip_space-chars o, no_semi o low, second_line) (ap (ok c) (skip_space-chars o))

second_line-semi :
    (n : ℕ) (c : Cmd) (s : Chars)
    → second_line n c (b';' ∷ s) ≡ (parseline n (skip_space s) >>= λ d t. ok (list c d) t)
unfolding second_line gettoken token skip_space starts
second_line-semi n c s = refl

list_level : (a b : Cmd) → AtBack a → AtLine b → AtLine (list a b)
unfolding print
list_level a b iha ihb zero o low fuel = absurd (omega arith)
list_level a b iha ihb (suc n) o low fuel =
    let k = print 0 b (chars o) in
    parseline-first n (print 0 (list a b) (chars o)) a (b';' ∷ k) (
      iha n (some (semi, k)) a (b';' ∷ k) (omega arith) (omega arith)
        (backs_from-chars a (some (semi, k)) (omega arith)))
    ∙ second_line-semi n a k
    ∙ rw (parseline-skip_space n k, ihb n o low (omega (arith, length-print 1 a (b';' ∷ k)))) refl

backs_from-amp :
    (c : Cmd) (o : Rest)
    → backs_from (length (b'&' ∷ chars o) + 1) c (b'&' ∷ chars o)
      ≡ backs_from (length (chars o) + 1) (back c) (chars o)
unfolding backs_from gettoken token skip_space starts
backs_from-amp c o =
    let e : suc (length (chars o)) + 1 ≡ suc (length (chars o) + 1) = omega arith in
    rw e (ap (backs_from (length (chars o) + 1) (back c)) (skip_space-chars o))

back_level : (c : Cmd) → AtBack c → AtBack (back c)
unfolding print
back_level c ih n o d s low fuel e =
    ih n (some (amp, chars o)) d s (omega arith) fuel (backs_from-amp c o ∙ e)

parsepipe-bar :
    (n : ℕ) (s k : Chars) (c : Cmd)
    → parseexec (parseline n) s ≡ ok c (b'|' ∷ k)
    → parsepipe (suc n) s ≡ (parsepipe n (skip_space k) >>= λ d t. ok (pipe c d) t)
unfolding parsepipe gettoken token skip_space starts
parsepipe-bar n s k c h = rw h refl

pipe_level : (a b : Cmd) → AtExec a → AtPipe b → AtPipe (pipe a b)
unfolding print
pipe_level a b iha ihb zero o low fuel = absurd (omega arith)
pipe_level a b iha ihb (suc n) o low fuel =
    let k = print 2 b (chars o) in
    parsepipe-bar n (print 3 a (b'|' ∷ k)) k a (
      iha n (some (bar, k)) (some (bar, k)) a (omega arith) (omega arith)
        (parseredirs-chars a (some (bar, k)) (omega arith)))
    ∙ rw (parsepipe-skip_space n k, ihb n o low (omega (arith, length-print 3 a (b'|' ∷ k)))) refl

record Reads (c : Cmd) : Type 0 where
  at_line : AtLine c
  at_back : AtBack c
  at_pipe : AtPipe c
  at_exec : AtExec c

exec-Reads : (c : Cmd) → ((n : ℕ) (k : Chars) → print n c k ≡ print 3 c k) → AtExec c → Reads c
exec-Reads c p e =
    let q = exec-pipe c (p 2) e in
    let b = pipe-back c (λ k. p 1 k ∙ sym (p 2 k)) q in
    record {
      at_line = back-line c (λ k. p 0 k ∙ sym (p 1 k)) b;
      at_back = b;
      at_pipe = q;
      at_exec = e;
    }

Reads-of : (c : Cmd) → IsTyped c → Reads c
unfolding print
Reads-of (exec args) t = exec-Reads (exec args) (λ n k. refl) (exec_level args t)
Reads-of (redir c f m d) t =
    exec-Reads (redir c f m d) (λ n k. refl) (redir_level c f m d t (Reads-of c t.0).at_exec)
Reads-of (pipe c d) t =
    let q = pipe_level c d (Reads-of c t.0).at_exec (Reads-of d t.1).at_pipe in
    let b = pipe-back (pipe c d) (λ k. refl) q in
    let l = back-line (pipe c d) (λ k. refl) b in
    record { at_line = l; at_back = b; at_pipe = q; at_exec = block_level (pipe c d) (λ k. refl) l }
Reads-of (list c d) t =
    let l = list_level c d (Reads-of c t.0).at_back (Reads-of d t.1).at_line in
    let e = block_level (list c d) (λ k. refl) l in
    let q = exec-pipe (list c d) (λ k. refl) e in
    record { at_line = l; at_back = pipe-back (list c d) (λ k. refl) q; at_pipe = q; at_exec = e }
Reads-of (back c) t =
    let b = back_level c (Reads-of c t).at_back in
    let l = back-line (back c) (λ k. refl) b in
    let e = block_level (back c) (λ k. refl) l in
    record { at_line = l; at_back = b; at_pipe = exec-pipe (back c) (λ k. refl) e; at_exec = e }

-- Every command that can be typed at all is what `parsecmd` makes of its text: the text in which
-- `print` writes its words, redirections, pipes, lists and `&`, with parentheses where they are
-- needed.
pub parsecmd-print : (c : Cmd) → IsTyped c → parsecmd (print 0 c []) ≡ ok c []
unfolding parsecmd skip_space
parsecmd-print c t =
    rw ((Reads-of c t).at_line (3 * length (print 0 c []) + 3) none tt (omega arith)) refl
