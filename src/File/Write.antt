-- ===== src/File/Write.antt =====
-- The loop of `filewrite`: which calls of `writei` it makes, and how many blocks they can touch.
use cs.Prelude.{
  ℕ, zero, suc, ◌+◌, ◌-◌, ◌/◌, ◌%◌, u32_mod, ◌≤◌, ◌<◌, ◌≡◌, ◌≢◌, ◌⊎◌, inl, inr, refl, sym, ◌∙◌, ap,
  subst, ◌==◌, ltb, if◌then◌else◌, true, Bool-cases, List, [], ◌∷◌, arith, ltb→lt, ==_iff,
}
use cs.File.{
  File, fd_inode, Wrote, wrote, failed, Written, returns, panics, max, chunk, write_from, filewrite,
}

chunk_bounds : (left : ℕ) → 0 < left → (0 < chunk left) × (chunk left ≤ left) × (chunk left ≤ max)
chunk_bounds left h = ground arith

-- The chunks, each by its place and its number of bytes, that the bytes from `i` up to `done` of a
-- buffer of `n` bytes are written in: as many as are left, but no more than `max`.
abbrev pub Chunks : List (ℕ × ℕ) → ℕ → ℕ → ℕ → Type 0
Chunks [] i done n = i ≡ done
Chunks ((p, k) ∷ cs) i done n =
    (p ≡ i) × (0 < k) × (k ≤ max) × ((k ≡ max) ⊎ (i + k ≡ n)) × Chunks cs (i + k) done n

-- The blocks of a file that `k` bytes from `off` on lie in.
abbrev pub blocks : ℕ → ℕ → ℕ
blocks off k = (off + k - 1) / 512 - off / 512 + 1

module _ {S : Type 0} (off : S → ℕ) (set_off : ℕ → S → S) (enter leave : ℕ → S → S) where
  -- The file's offset, a word of 32 bits, is `k` bytes further on, if there are any.
  abbrev pub moved : ℕ → S → S
  moved k s = if ltb 0 k then set_off ((off s + k) % u32_mod) s else s

  module _ (writei : ℕ → ℕ → ℕ → S → S × Wrote) where
    -- The call of `writei` of the round that starts at the place `p`: at the offset that the file has
    -- then.
    abbrev pub call : ℕ → ℕ → S → S × Wrote
    call p k s = writei p (off (enter p s)) k (enter p s)

    -- The state after a round that has written `k` bytes.
    abbrev pub round : ℕ → ℕ → S → S
    round p k s = leave p (moved k (call p k s).0)

    -- The state that rounds lead to each of which writes all its bytes.
    abbrev pub Writes : List (ℕ × ℕ) → S → S → Type 0
    Writes [] s t = s ≡ t
    Writes ((p, k) ∷ cs) s t = ((call p k s).1 ≡ wrote k) × Writes cs (round p k s) t

    -- The three ways in which the loop ends: all is written, chunk by chunk; a call of `writei` fails
    -- after some chunks; or it writes another number of bytes than it was to, which is the panic.
    pub data Ends (i n : ℕ) (s : S) : S × Written → Type 0 where
      all :
          (cs : List (ℕ × ℕ)) {r : S × Written} (t : S)
          → Chunks cs i n n
          → Writes cs s t
          → r ≡ (t, returns (wrote n))
          → Ends i n s r
      stops :
          (cs : List (ℕ × ℕ)) (done : ℕ) {r : S × Written} (t : S)
          → done < n
          → Chunks cs i done n
          → Writes cs s t
          → (call done (chunk (n - done)) t).1 ≡ failed
          → r ≡ (leave done (call done (chunk (n - done)) t).0, returns failed)
          → Ends i n s r
      short :
          (cs : List (ℕ × ℕ)) (done k : ℕ) {r : S × Written} (t : S)
          → done < n
          → Chunks cs i done n
          → Writes cs s t
          → (call done (chunk (n - done)) t).1 ≡ wrote k
          → k ≢ chunk (n - done)
          → r ≡ (leave done (moved k (call done (chunk (n - done)) t).0), panics)
          → Ends i n s r

    one_chunk :
        (cs : List (ℕ × ℕ)) (i done n : ℕ)
        → i < n
        → Chunks cs (i + chunk (n - i)) done n
        → Chunks ((i, chunk (n - i)) ∷ cs) i done n
    one_chunk cs i done n h c =
        let b = chunk_bounds (n - i) (omega arith) in (refl, b.0, b.2, whole_or_last, c)
      where
        whole_or_last : (chunk (n - i) ≡ max) ⊎ (i + chunk (n - i) ≡ n)
        whole_or_last = elim (Bool-cases (ltb max (n - i))) [
          | inl more ↦ inl (rw more refl)
          | inr rest ↦ inr (rw rest (omega arith))
        ]

    -- A chunk that is written, before what follows.
    one_more :
        (i n : ℕ) (s : S) (r : S × Written)
        → i < n
        → (call i (chunk (n - i)) s).1 ≡ wrote (chunk (n - i))
        → Ends (i + chunk (n - i)) n (round i (chunk (n - i)) s) r
        → Ends i n s r
    one_more i n s r h w (all cs t c ws e) =
        all ((i, chunk (n - i)) ∷ cs) t (one_chunk cs i n n h c) (w, ws) e
    one_more i n s r h w (stops cs done t l c ws f e) =
        stops ((i, chunk (n - i)) ∷ cs) done t l (one_chunk cs i done n h c) (w, ws) f e
    one_more i n s r h w (short cs done k t l c ws f ne e) =
        short ((i, chunk (n - i)) ∷ cs) done k t l (one_chunk cs i done n h c) (w, ws) f ne e

    wrote-cases : (w : Wrote) → (w ≡ failed) ⊎ ((k : ℕ) × (w ≡ wrote k))
    wrote-cases failed = inl refl
    wrote-cases (wrote k) = inr (k, refl)

    abbrev loop : ℕ → ℕ → ℕ → S → S × Written
    loop = write_from off set_off enter leave writei

    write_from-Ends : (fuel i n : ℕ) (s : S) → i ≤ n → n < i + fuel → Ends i n s (loop fuel i n s)
    unfolding write_from
    write_from-Ends zero i n s l h = absurd (omega arith)
    write_from-Ends (suc fuel) i n s l h = elim (Bool-cases (ltb i n)) [
      | inr out ↦
          let equal : i ≡ n = ground arith in
          all [] s equal refl (rw (out, (==_iff i n).1 equal, write_from) refl)
      | inl inside ↦
          let lt : i < n = ltb→lt i n inside in
          elim (wrote-cases (call i (chunk (n - i)) s).1) [
            | inl fails ↦ stops [] i s lt refl refl fails (rw (inside, fails, write_from) refl)
            | inr (k, gives) ↦ elim (Bool-cases (k == chunk (n - i))) [
              | inl whole ↦
                  let equal : k ≡ chunk (n - i) = (==_iff k (chunk (n - i))).0 whole in
                  rw (inside, gives, whole, write_from)
                    (subst
                      (λ q.
                        Ends i n s
                          (loop fuel (i + q) n (leave i (moved q (call i (chunk (n - i)) s).0))))
                      (sym equal)
                      (one_more i n s _ lt (gives ∙ ap wrote equal) (
                        write_from-Ends fuel (i + chunk (n - i)) n (round i (chunk (n - i)) s)
                          (omega (arith, chunk_bounds (n - i)))
                          (omega (arith, chunk_bounds (n - i))))))
              | inr part ↦
                  short [] i k s lt refl refl gives (λ e. ground (arith, ==_iff k (chunk (n - i))))
                    (rw (inside, gives, part, write_from) refl)
            ]
          ]
    ]

  module _ (pipewrite : ℕ → ℕ → S → S × Wrote) (writei : ℕ → ℕ → ℕ → ℕ → S → S × Wrote) where
    -- `filewrite` of `n` bytes to an inode that is open for writing, whatever other processes do
    -- between its rounds: it returns `n` after calls of `writei` that write all the bytes in order,
    -- each as many as are left, but no more than `max`, and each at the offset that the open file has
    -- then, which it moves on by its bytes modulo 2 ^ 32; or it returns -1 after a call that fails, or
    -- panics after one that writes another number of bytes than it was to, and what came before is
    -- written. It always ends.
    pub filewrite-Ends :
        (f : File) (ip n : ℕ) (s : S)
        → f.writable ≡ true
        → f.kind ≡ fd_inode ip
        → Ends (writei ip) 0 n s (filewrite off set_off enter leave pipewrite writei f n s)
    unfolding filewrite
    filewrite-Ends f ip n s w k =
        rw (w, k) (write_from-Ends (writei ip) (n + 1) 0 n s (omega arith) (omega arith))

    -- A `writei` that writes all its bytes if they lie in at most `limit` blocks, and fails if not.
    abbrev pub Limited : ℕ → ℕ → Type 0
    Limited limit ip =
        (p o k : ℕ) (s : S)
        → (writei ip p o k s).1 ≡ (if ltb limit (blocks o k) then failed else wrote k)
