-- ===== src/Log/Header.antt =====
-- The header block: what `write_head` encodes, `read_head` decodes.
use cs.Prelude.{
  ℕ, ◌+◌, ◌<◌, ◌≡◌, refl, ◌∙◌, ap₂, List, [], ◌∷◌, arith, update, update_self, update_ne, length,
}
use cs.Log.{words, put_words, decode, encode}
use cs.Log.Buffers.{Block}

put_words_below : (blk : Block) (hs : List ℕ) (i j : ℕ) → j < i → put_words blk hs i j ≡ blk j
unfolding put_words
put_words_below blk [] i j h = refl
put_words_below blk (x ∷ hs) i j h =
    put_words_below (update blk i x) hs (i + 1) j (omega arith) ∙ update_ne blk i x j (omega arith)

words-put_words :
    (blk : Block) (hs : List ℕ) (i : ℕ) → words (put_words blk hs i) (length hs) i ≡ hs
unfolding words put_words
words-put_words blk [] i = refl
words-put_words blk (x ∷ hs) i =
    ap₂ ◌∷◌ (put_words_below (update blk i x) hs (i + 1) i (omega arith) ∙ update_self blk i x)
      (words-put_words (update blk i x) hs (i + 1))

-- What `write_head` stores in the header block, over whatever the block held, `read_head` reads
-- back as the same list of block numbers.
pub decode-encode : (blk : Block) (hs : List ℕ) → decode (encode blk hs) ≡ hs
unfolding decode encode
decode-encode blk hs =
    rw
      (put_words_below (update blk 0 (length hs)) hs 1 0 (omega arith)
        ∙ update_self blk 0 (length hs))
      (words-put_words (update blk 0 (length hs)) hs 1)

-- The log is empty exactly when word 0 of the header is 0.
pub decode_of_zero : (blk : Block) → blk 0 ≡ 0 → decode blk ≡ []
unfolding decode words
decode_of_zero blk e = rw e

pub encode-nil : (blk : Block) → encode blk [] 0 ≡ 0
unfolding encode put_words
encode-nil blk = refl
