-- ===== src/Shell/Tests.antt =====
-- Lines as the shell reads them.
use cs.Prelude.{true, ◌≢◌, ◌⊎◌, inl, inr, arith, ℕ, ◌≡◌, refl, [], ◌∷◌}
use cs.Shell.{
  strchr, is_word_char, Panic, Chars, Cmd, exec, redir, pipe, list, back, o_create, o_rdonly, ok,
  panics, missing_file, leftovers, parsecmd,
}
use cs.Shell.Printer.{print, IsWord, IsTyped}
use cs.Shell.Ends.{parsecmd-ends}
use cs.Shell.Roundtrip.{parsecmd-print}

-- `a >f;(b|c)&`
abbrev line : Chars
line = b'a' ∷ b' ' ∷ b'>' ∷ b'f' ∷ b';' ∷ b'(' ∷ b'b' ∷ b'|' ∷ b'c' ∷ b')' ∷ b'&' ∷ []

abbrev word : ℕ → Chars
word c = c ∷ []

line_parses :
    parsecmd line
    ≡ ok
        (list
          (redir (exec (word b'a' ∷ [])) (word b'f') o_create 1)
          (back (pipe (exec (word b'b' ∷ [])) (exec (word b'c' ∷ [])))))
        []
unfolding parsecmd
line_parses = refl

no_file : parsecmd (b'a' ∷ b'>' ∷ []) ≡ panics missing_file
unfolding parsecmd
no_file = refl

too_much : parsecmd (b'a' ∷ b')' ∷ []) ≡ panics leftovers
unfolding parsecmd
too_much = refl

abbrev tree : Cmd
tree = list (redir (exec (word b'a' ∷ word b'b' ∷ [])) (word b'f') o_create 1) (
    back (
      pipe (list (exec (word b'b' ∷ [])) (exec (word b'd' ∷ [])))
        (redir (exec []) (word b'c') o_rdonly 0)))

-- ` a b> f;( b; d)|< c&`
tree_text :
    print 0 tree []
    ≡ b' ' ∷ b'a' ∷ b' ' ∷ b'b' ∷ b'>' ∷ b' ' ∷ b'f' ∷ b';' ∷ b'(' ∷ b' ' ∷ b'b' ∷ b';' ∷ b' '
      ∷ b'd' ∷ b')' ∷ b'|' ∷ b'<' ∷ b' ' ∷ b'c' ∷ b'&' ∷ []
unfolding print
tree_text = refl

word-IsWord : (c : ℕ) → is_word_char c ≡ true → c ≢ 0 → IsWord (word c)
word-IsWord c h z = (λ e. cc, ((h, z), tt))

tree-IsTyped : IsTyped tree
unfolding strchr
tree-IsTyped =
    let a : IsWord (word b'a') = word-IsWord b'a' refl (omega arith) in
    let b : IsWord (word b'b') = word-IsWord b'b' refl (omega arith) in
    let c : IsWord (word b'c') = word-IsWord b'c' refl (omega arith) in
    let d : IsWord (word b'd') = word-IsWord b'd' refl (omega arith) in
    let f : IsWord (word b'f') = word-IsWord b'f' refl (omega arith) in
    (
      ((omega arith, (a, (b, tt))), f, inr (refl, refl)),
      (((omega arith, (b, tt)), (omega arith, (d, tt))), ((omega arith, tt), c, inl (refl, refl))),
    )

parsecmd-print_example : parsecmd (print 0 tree []) ≡ ok tree []
parsecmd-print_example = parsecmd-print tree tree-IsTyped

parsecmd-ends_example :
    ((c : Cmd) × (parsecmd line ≡ ok c [])) ⊎ ((p : Panic) × (parsecmd line ≡ panics p))
parsecmd-ends_example = parsecmd-ends line
