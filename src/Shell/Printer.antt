-- ===== src/Shell/Printer.antt =====
-- Commands as text: what a user would type for them.
use cs.Prelude.{
  Option, some, none, length-append, ℕ, zero, suc, ◌≤◌, ◌<◌, ◌≡◌, ◌≢◌, ◌⊎◌, ltb, Bool, true, false,
  List, [], ◌∷◌, ◌++◌, length, All, arith,
}
use cs.Shell.{Chars, Cmd, exec, redir, pipe, list, back, max_args, o_rdonly, o_create, is_word_char}

-- The symbols that end a command or a part of it.
pub data Mark : Type 0 where
  close semi amp bar less greater : Mark

abbrev pub symbol : Mark → ℕ
symbol close = b')'
symbol semi = b';'
symbol amp = b'&'
symbol bar = b'|'
symbol less = b'<'
symbol greater = b'>'

-- What stands behind a part: nothing, or a symbol and more.
abbrev pub Rest : Type 0
Rest = Option (Mark × Chars)

abbrev pub chars : Rest → Chars
chars none = []
chars (some (m, s)) = symbol m ∷ s

-- How tightly a symbol binds.
abbrev pub rank : Mark → ℕ
rank close = 0
rank semi = 1
rank amp = 2
rank bar = 3
rank less = 4
rank greater = 4

abbrev pub Below : ℕ → Rest → Type 0
Below n none = Unit
Below n (some (m, s)) = rank m < n

abbrev pub words : List Chars → Chars → Chars
words [] k = k
words (w ∷ ws) k = b' ' ∷ (w ++ words ws k)

abbrev pub direction : ℕ → Mark
direction zero = less
direction (suc d) = greater

-- Parentheses round what `f` prints.
abbrev pub wrap : Bool → (Chars → Chars) → Chars → Chars
wrap true f k = b'(' ∷ f (b')' ∷ k)
wrap false f k = f k

-- A command and then `k`, where the context binds at the level `n`: 0 is a line, 1 what stands
-- before `;`, 2 what stands behind `|`, and 3 what stands before it.
unfoldable pub print : ℕ → Cmd → Chars → Chars
print n (exec args) k = words args k
print n (redir c f m d) k = print 3 c (symbol (direction d) ∷ b' ' ∷ (f ++ k))
print n (pipe c d) k = wrap (ltb 2 n) (λ s. print 3 c (b'|' ∷ print 2 d s)) k
print n (list c d) k = wrap (ltb 0 n) (λ s. print 1 c (b';' ∷ print 0 d s)) k
print n (back c) k = wrap (ltb 1 n) (λ s. print 1 c (b'&' ∷ s)) k

abbrev pub IsWord : Chars → Type 0
IsWord w = (w ≢ []) × All (λ c. (is_word_char c ≡ true) × (c ≢ 0)) w

-- What the shell can make of a text: words are words, few enough in each command, and a file is
-- opened to be read as the descriptor 0 or to be written as 1.
abbrev pub IsTyped : Cmd → Type 0
IsTyped (exec args) = (length args < max_args) × All IsWord args
IsTyped (redir c f m d) =
    IsTyped c × IsWord f × (((m ≡ o_rdonly) × (d ≡ 0)) ⊎ ((m ≡ o_create) × (d ≡ 1)))
IsTyped (pipe c d) = IsTyped c × IsTyped d
IsTyped (list c d) = IsTyped c × IsTyped d
IsTyped (back c) = IsTyped c

-- The text only grows.
length-words : (ws : List Chars) (k : Chars) → length k ≤ length (words ws k)
length-words [] k = omega arith
length-words (w ∷ ws) k = omega (arith, length-append {0} w (words ws k), length-words ws k)

wrap-le :
    (b : Bool) (f : Chars → Chars) (k : Chars)
    → ((s : Chars) → length s ≤ length (f s))
    → length k ≤ length (wrap b f k)
wrap-le true f k h = omega (arith, h (b')' ∷ k))
wrap-le false f k h = h k

pub length-print : (n : ℕ) (c : Cmd) (k : Chars) → length k ≤ length (print n c k)
unfolding print
length-print n (exec args) k = length-words args k
length-print n (redir c f m d) k =
    omega (arith, length-print 3 c (symbol (direction d) ∷ b' ' ∷ (f ++ k)), length-append {0} f k)
length-print n (pipe c d) k =
    wrap-le (ltb 2 n) (λ s. print 3 c (b'|' ∷ print 2 d s)) k
      (λ s. omega (arith, length-print 3 c (b'|' ∷ print 2 d s), length-print 2 d s))
length-print n (list c d) k =
    wrap-le (ltb 0 n) (λ s. print 1 c (b';' ∷ print 0 d s)) k
      (λ s. omega (arith, length-print 1 c (b';' ∷ print 0 d s), length-print 0 d s))
length-print n (back c) k =
    wrap-le (ltb 1 n) (λ s. print 1 c (b'&' ∷ s)) k
      (λ s. omega (arith, length-print 1 c (b'&' ∷ s)))
