-- ===== src/Shell.antt =====
-- sh.c: the parser of the shell. The text from `*ps` on is the list of its bytes up to `es`, where
-- the 0 that ends the command stands, so that `*s` is 0 where the list is empty and `s < es` where
-- it is not. A word is the list of the bytes from `q` to `eq`, which is the string that nulterminate
-- makes of it. malloc is taken to succeed, as the code takes it.
pub mod Tokens
pub mod Ends
pub mod Printer
pub mod Words
pub mod Loops
pub mod Levels
pub mod Roundtrip
mod Tests
use cs.Prelude.{
  ℕ, zero, suc, ◌+◌, ◌*◌, ◌==◌, leb, if◌then◌else◌, Bool, true, false, not, ◌||◌, List, [], ◌∷◌,
  ◌++◌, length,
}

abbrev pub Chars : Type 0
Chars = List ℕ

-- `strchr` of the library ulib.c, as a test.
pub strchr : Chars → ℕ → Bool
strchr [] c = false
strchr (x ∷ s) c = if x == c then true else strchr s c

abbrev pub whitespace : Chars
whitespace = b' ' ∷ b'\t' ∷ b'\r' ∷ b'\n' ∷ 11 ∷ []

abbrev pub symbols : Chars
symbols = b'<' ∷ b'|' ∷ b'>' ∷ b'&' ∷ b';' ∷ b'(' ∷ b')' ∷ []

-- The commands of the program; REDIR has the mode of the file and the descriptor.
pub data Cmd : Type 0 where
  exec : List Chars → Cmd
  redir : Cmd → Chars → ℕ → ℕ → Cmd
  pipe : Cmd → Cmd → Cmd
  list : Cmd → Cmd → Cmd
  back : Cmd → Cmd

abbrev pub max_args : ℕ
max_args = 10

abbrev pub o_rdonly : ℕ
o_rdonly = 0

-- O_WRONLY|O_CREATE
abbrev pub o_create : ℕ
o_create = 0x201

pub skip_space : Chars → Chars
unfolding strchr
skip_space [] = []
skip_space (c ∷ s) = if strchr whitespace c then skip_space s else c ∷ s

abbrev pub is_word_char : ℕ → Bool
is_word_char c = if strchr whitespace c then false else not (strchr symbols c)

-- The loop of the default case of `gettoken`: the word, and what is behind it.
pub take_word : Chars → Chars × Chars
unfolding strchr
take_word [] = ([], [])
take_word (c ∷ s) = let (w, r) = take_word s in if is_word_char c then (c ∷ w, r) else ([], c ∷ s)

-- The cases of `gettoken` other than `>` that are a single character.
abbrev pub singles : Chars
singles = b'|' ∷ b'(' ∷ b')' ∷ b';' ∷ b'&' ∷ b'<' ∷ []

-- The case of `>`, after it.
pub second : Chars → ℕ × Chars × Chars
unfolding skip_space
second [] = (b'>', b'>' ∷ [], [])
second (c ∷ s) =
    if c == b'>'
    then (b'+', b'>' ∷ b'>' ∷ [], skip_space s)
    else (b'>', b'>' ∷ [], skip_space (c ∷ s))

-- The switch of `gettoken` and what follows it.
pub token : Chars → ℕ × Chars × Chars
unfolding second take_word skip_space
token [] = (0, [], [])
token (c ∷ s) =
    if strchr singles c
    then (c, c ∷ [], skip_space s)
    else if c == b'>'
    then second s
    else let (w, r) = take_word (c ∷ s) in (b'a', w, skip_space r)

-- `gettoken`: its result, the bytes from `*q` to `*eq`, and the text from `*ps` on.
pub gettoken : Chars → ℕ × Chars × Chars
unfolding token skip_space
gettoken s = token (skip_space s)

-- What `peek` returns, for the text that it leaves from `*ps` on, `skip_space s`.
pub starts : Chars → Chars → Bool
unfolding strchr
starts toks [] = false
starts toks (c ∷ s) = strchr toks c

pub data Panic : Type 0 where
  missing_file missing_paren syntax too_many_args no_block leftovers : Panic

-- A command and the text behind it, or a panic; `spent` if the fuel has run out.
pub data Parsed : Type 0 where
  ok : Cmd → Chars → Parsed
  panics : Panic → Parsed
  spent : Parsed

infixl 5 ◌>>=◌
abbrev pub ◌>>=◌ : Parsed → (Cmd → Chars → Parsed) → Parsed
ok c s >>= f = f c s
panics p >>= f = panics p
spent >>= f = spent

-- The switch of `parseredirs`.
abbrev pub redirect : ℕ → Chars → Cmd → Cmd
redirect tok w c =
    if tok == b'<'
    then redir c w o_rdonly 0
    else if tok == b'>'
    then redir c w o_create 1
    else if tok == b'+'
    then redir c w o_create 1
    else c

-- The loop of `parseredirs`; fuel is spent on a round each.
pub redirs_from : ℕ → Cmd → Chars → Parsed
unfolding gettoken starts skip_space
redirs_from zero c s = spent
redirs_from (suc fuel) c s = elim (starts (b'<' ∷ b'>' ∷ []) (skip_space s)) [
  | false ↦ ok c (skip_space s)
  | true ↦
      let (tok, q, s1) = gettoken (skip_space s) in
      let (tok2, w, s2) = gettoken s1 in
      elim (tok2 == b'a') [
        | false ↦ panics missing_file
        | true ↦ redirs_from fuel (redirect tok w c) s2
      ]
]

pub parseredirs : Cmd → Chars → Parsed
unfolding redirs_from
parseredirs c s = redirs_from (length s + 1) c s

-- `cmd->argv[argc] = q`, where the command stands inside the redirections that were read already.
pub add_arg : Chars → Cmd → Cmd
add_arg w (exec args) = exec (args ++ w ∷ [])
add_arg w (redir c f m d) = redir (add_arg w c) f m d
add_arg w c = c

-- The loop of `parseexec`; fuel is spent on a round each.
pub args_from : ℕ → ℕ → Cmd → Chars → Parsed
unfolding parseredirs add_arg
args_from zero argc c s = spent
args_from (suc fuel) argc c s = elim (starts (b'|' ∷ b')' ∷ b'&' ∷ b';' ∷ []) (skip_space s)) [
  | true ↦ ok c (skip_space s)
  | false ↦
      let (tok, w, s1) = gettoken (skip_space s) in
      elim (tok == 0) [
        | true ↦ ok c s1
        | false ↦ elim (tok == b'a') [
          | false ↦ panics syntax
          | true ↦ elim (leb max_args (argc + 1)) [
            | true ↦ panics too_many_args
            | false ↦ parseredirs (add_arg w c) s1 >>= args_from fuel (argc + 1)
          ]
        ]
      ]
]

-- `parseblock`, with `parseline` as an argument.
pub parseblock : (Chars → Parsed) → Chars → Parsed
unfolding parseredirs
parseblock line s = elim (starts (b'(' ∷ []) (skip_space s)) [
  | false ↦ panics no_block
  | true ↦ line (gettoken (skip_space s)).2 >>= λ c s1. elim (starts (b')' ∷ []) (skip_space s1)) [
    | false ↦ panics missing_paren
    | true ↦ parseredirs c (gettoken (skip_space s1)).2
  ]
]

pub parseexec : (Chars → Parsed) → Chars → Parsed
unfolding parseblock args_from
parseexec line s = elim (starts (b'(' ∷ []) (skip_space s)) [
  | true ↦ parseblock line (skip_space s)
  | false ↦ parseredirs (exec []) (skip_space s) >>= λ c s1. args_from (length s1 + 1) 0 c s1
]

-- The loop of `parseline`; fuel is spent on a round each.
pub backs_from : ℕ → Cmd → Chars → Parsed
unfolding gettoken starts
backs_from zero c s = spent
backs_from (suc fuel) c s = elim (starts (b'&' ∷ []) (skip_space s)) [
  | false ↦ ok c (skip_space s)
  | true ↦ backs_from fuel (back c) (gettoken (skip_space s)).2
]

mutual
  unfolding parseexec backs_from

  -- The fuel is spent on the depth of the calls.
  pub parseline : ℕ → Chars → Parsed
  parseline zero s = spent
  parseline (suc fuel) s = parsepipe fuel s >>= λ c s1. backs_from (length s1 + 1) c s1 >>= λ c' s2.
      elim (starts (b';' ∷ []) (skip_space s2)) [
        | false ↦ ok c' (skip_space s2)
        | true ↦ parseline fuel (gettoken (skip_space s2)).2 >>= λ d s3. ok (list c' d) s3
      ]

  pub parsepipe : ℕ → Chars → Parsed
  parsepipe zero s = spent
  parsepipe (suc fuel) s = parseexec (parseline fuel) s >>= λ c s1.
      elim (starts (b'|' ∷ []) (skip_space s1)) [
        | false ↦ ok c (skip_space s1)
        | true ↦ parsepipe fuel (gettoken (skip_space s1)).2 >>= λ d s2. ok (pipe c d) s2
      ]

-- `parsecmd`, less nulterminate.
pub parsecmd : Chars → Parsed
unfolding parseline
parsecmd s = parseline (3 * length s + 3) s >>= λ c s1. elim (skip_space s1) [
  | [] ↦ ok c []
  | x ∷ r ↦ panics leftovers
]
