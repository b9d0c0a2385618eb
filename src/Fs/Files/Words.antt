-- ===== src/Fs/Files/Words.antt =====
-- Words in a block.
use cs.Prelude.{ℕ, ◌+◌, ◌*◌, ◌/◌, ◌%◌, ◌<◌, ◌≡◌, ◌≢◌, ◌⊎◌, inl, inr, ltb, ltb→lt, Bool-cases, arith}
use cs.Fs.{Block}
use cs.Fs.Blocks.Bitmap.{IsBytes}
use cs.Fs.Files.{word, put_word}

put_word-bytes :
    (x : Block) (j v : ℕ)
    → (put_word x j v j ≡ v % 256)
      × (put_word x j v (j + 1) ≡ v / 256 % 256)
      × (put_word x j v (j + 2) ≡ v / 65536 % 256)
      × (put_word x j v (j + 3) ≡ v / 16777216 % 256)
unfolding put_word
put_word-bytes x j v = (ground arith, ground arith, ground arith, ground arith)

pub word-put_word : (x : Block) (j v : ℕ) → v < 0x100000000 → word (put_word x j v) j ≡ v
unfolding word
word-put_word x j v h = omega (arith, put_word-bytes x j v)

pub put_word_ne : (x : Block) (j v i : ℕ) → (i < j) ⊎ (j + 3 < i) → put_word x j v i ≡ x i
unfolding put_word
put_word_ne x j v i h = ground arith

pub word-put_word_ne :
    (x : Block) (k k' v : ℕ) → k ≢ k' → word (put_word x (4 * k) v) (4 * k') ≡ word x (4 * k')
unfolding word
word-put_word_ne x k k' v ne = elim (apart k k' ne) [
  | inl l ↦ omega (
    arith,
    put_word_ne x (4 * k) v (4 * k') (inr (omega arith)),
    put_word_ne x (4 * k) v (4 * k' + 1) (inr (omega arith)),
    put_word_ne x (4 * k) v (4 * k' + 2) (inr (omega arith)),
    put_word_ne x (4 * k) v (4 * k' + 3) (inr (omega arith)),
  )
  | inr g ↦ omega (
    arith,
    put_word_ne x (4 * k) v (4 * k') (inl (omega arith)),
    put_word_ne x (4 * k) v (4 * k' + 1) (inl (omega arith)),
    put_word_ne x (4 * k) v (4 * k' + 2) (inl (omega arith)),
    put_word_ne x (4 * k) v (4 * k' + 3) (inl (omega arith)),
  )
]
  where
    apart : (k k' : ℕ) → k ≢ k' → (k < k') ⊎ (k' < k)
    apart k k' ne = elim (Bool-cases (ltb k k')) [
      | inl below ↦ inl (ltb→lt k k' below)
      | inr above ↦ inr (ground arith)
    ]

pub put_word-IsBytes : (x : Block) (j v : ℕ) → IsBytes x → IsBytes (put_word x j v)
unfolding put_word
put_word-IsBytes x j v h i = ground (arith, h i)

pub word-zero : (x : Block) (j : ℕ) → ((i : ℕ) → x i ≡ 0) → word x j ≡ 0
unfolding word
word-zero x j h = omega (arith, h j, h (j + 1), h (j + 2), h (j + 3))
