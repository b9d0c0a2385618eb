-- ===== src/Fs/Icache/Get.antt =====
-- What `iget` finds in the cache.
use cs.Prelude.{
  ℕ, zero, suc, ◌+◌, ◌<◌, ◌≡◌, ◌≢◌, inl, inr, refl, sym, subst, ◌==◌, true, false, Bool-cases,
  Option, some, none, arith, update, ==_iff,
}
use cs.Fs.Icache.{Icache, ninode, Found, cached, empty, find_inode, is_for, iget, remember}

-- The slot that `iget` remembers: none if no slot so far is empty.
abbrev IsSlot : Icache → ℕ → Option ℕ → Type 0
IsSlot c i none = (j : ℕ) → j < i → (c j).ref ≢ 0
IsSlot c i (some e) = (e < i) × ((c e).ref ≡ 0)

-- What the loop has found.
pub data Searched (dev inum : ℕ) (c : Icache) : Found → Type 0 where
  hit :
      (j : ℕ) {r : Found}
      → j < ninode
      → is_for dev inum (c j) ≡ true
      → r ≡ cached j
      → Searched dev inum c r
  slot :
      (e : ℕ) {r : Found}
      → ((j : ℕ) → j < ninode → is_for dev inum (c j) ≡ false)
      → e < ninode
      → (c e).ref ≡ 0
      → r ≡ empty (some e)
      → Searched dev inum c r
  full :
      {r : Found}
      → ((j : ℕ) → j < ninode → is_for dev inum (c j) ≡ false)
      → ((j : ℕ) → j < ninode → (c j).ref ≢ 0)
      → r ≡ empty none
      → Searched dev inum c r

done :
    (dev inum : ℕ) (c : Icache) (s : Option ℕ)
    → IsSlot c ninode s
    → ((j : ℕ) → j < ninode → is_for dev inum (c j) ≡ false)
    → Searched dev inum c (empty s)
done dev inum c none h u = full u h refl
done dev inum c (some e) h u = slot e u h.0 h.1 refl

next-IsSlot :
    (c : Icache) (i : ℕ) (s : Option ℕ) → IsSlot c i s → IsSlot c (i + 1) (remember s i (c i))
next-IsSlot c i (some e) h = (omega (arith, h.0), h.1)
next-IsSlot c i none h = elim (Bool-cases ((c i).ref == 0)) [
  | inl free ↦ rw free (omega arith, (==_iff _ 0).0 free)
  | inr used ↦ rw used (λ j hj z. elim (Bool-cases (j == i)) [
    | inl this ↦ ground arith
    | inr other ↦ h j (ground arith) z
  ])
]

pub find_inode-Searched :
    (n i dev inum : ℕ) (s : Option ℕ) (c : Icache)
    → n + i ≡ ninode
    → IsSlot c i s
    → ((j : ℕ) → j < i → is_for dev inum (c j) ≡ false)
    → Searched dev inum c (find_inode n i dev inum s c)
unfolding find_inode
find_inode-Searched zero i dev inum s c e h u =
    done dev inum c s (subst (λ k. IsSlot c k s) (omega arith) h) (λ j hj. u j (omega arith))
find_inode-Searched (suc n) i dev inum s c e h u = elim (Bool-cases (is_for dev inum (c i))) [
  | inl this ↦ rw this (hit i (omega arith) this refl)
  | inr other ↦ rw other (
      find_inode-Searched n (i + 1) dev inum (remember s i (c i)) c (omega arith)
        (next-IsSlot c i s h)
        (λ j hj. elim (Bool-cases (j == i)) [
          | inl now ↦ subst (λ k. is_for dev inum (c k) ≡ false) (sym ((==_iff j i).0 now)) other
          | inr before ↦ u j (ground arith)
        ]))
]

-- The inode cache after `iget` has taken the inode `i`.
abbrev pub shared : ℕ → Icache → Icache
shared i c = update c i (record (c i) { ref = (c i).ref + 1 })

abbrev pub renamed : ℕ → ℕ → ℕ → Icache → Icache
renamed dev inum i c = update c i (record (c i) { dev = dev; inum = inum; ref = 1; valid = false })

abbrev pub Uncached : ℕ → ℕ → Icache → Type 0
Uncached dev inum c = (j : ℕ) → j < ninode → is_for dev inum (c j) ≡ false

-- The ways in which `iget` ends.
pub data Got (dev inum : ℕ) (c : Icache) : Option (Icache × ℕ) → Type 0 where
  shares :
      (i : ℕ) {r : Option (Icache × ℕ)}
      → i < ninode
      → is_for dev inum (c i) ≡ true
      → r ≡ some (shared i c, i)
      → Got dev inum c r
  takes :
      (i : ℕ) {r : Option (Icache × ℕ)}
      → Uncached dev inum c
      → i < ninode
      → (c i).ref ≡ 0
      → r ≡ some (renamed dev inum i c, i)
      → Got dev inum c r
  no_inodes :
      {r : Option (Icache × ℕ)}
      → Uncached dev inum c
      → ((j : ℕ) → j < ninode → (c j).ref ≢ 0)
      → r ≡ none
      → Got dev inum c r

-- `iget` shares the entry of the inode if there is a referenced one, takes an unreferenced entry if
-- there is none, and panics if every entry is referenced.
pub iget-Got : (dev inum : ℕ) (c : Icache) → Got dev inum c (iget dev inum c)
unfolding iget
iget-Got dev inum c = from (
    find_inode-Searched ninode 0 dev inum none c refl (λ j h. absurd (omega arith))
      (λ j h. absurd (omega arith)))
  where
    from :
        Searched dev inum c (find_inode ninode 0 dev inum none c) → Got dev inum c (iget dev inum c)
    from (hit i h m e) = shares i h m (rw (e, iget) refl)
    from (slot i u h z e) = takes i u h z (rw (e, iget) refl)
    from (full u n e) = no_inodes u n (rw (e, iget) refl)
