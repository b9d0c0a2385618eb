-- ===== src/Bcache/Disk.antt =====
-- What the calls of `iderw` in `bread` and `bwrite` do, when they do not panic.
use cs.Prelude.{
  ℕ, ◌≡◌, ◌⊎◌, inl, inr, sym, ◌∙◌, ap, subst, true, false, Bool-cases, some, arith, update,
  update_self, update-update, ==_iff,
}
use cs.Bcache.{Bcache, Buf, iderw, bread_locked, bwrite}

-- The buffer is filled from disk.
abbrev pub filled : ℕ → Bcache → Bcache
filled i c = record c {
  buf = update c.buf i (record (c.buf i) { content = c.memdisk (c.buf i).blockno; valid = true });
}

-- The buffer is written to disk.
abbrev pub written : ℕ → Bcache → Bcache
written i c = record c {
  buf = update c.buf i (record (c.buf i) { dirty = false; valid = true });
  memdisk = update c.memdisk (c.buf i).blockno (c.buf i).content;
}

iderw_fills :
    (i : ℕ) (c : Bcache) {c' : Bcache}
    → (c.buf i).dirty ≡ false
    → iderw i c ≡ some c'
    → ((c.buf i).dev ≡ 1) × (c' ≡ filled i c)
unfolding iderw
iderw_fills i c {c'} clean e = ground (arith, ==_iff (c.buf i).dev 1)

iderw_writes :
    (i : ℕ) (c : Bcache) {c' : Bcache}
    → (c.buf i).dirty ≡ true
    → iderw i c ≡ some c'
    → ((c.buf i).dev ≡ 1) × (c' ≡ written i c)
unfolding iderw
iderw_writes i c {c'} dirty e = ground (arith, ==_iff (c.buf i).dev 1)

-- A successful `bread` leaves a valid buffer alone, and fills any other.
pub bread_locked-filled :
    (i : ℕ) (c : Bcache) {c' : Bcache}
    → ((c.buf i).dirty ≡ true → (c.buf i).valid ≡ true)
    → bread_locked i c ≡ some c'
    → (((c.buf i).valid ≡ true) × (c' ≡ c))
      ⊎ (((c.buf i).valid ≡ false) × ((c.buf i).dev ≡ 1) × (c' ≡ filled i c))
unfolding bread_locked
bread_locked-filled i c {c'} dv e = elim (Bool-cases (c.buf i).valid) [
  | inl valid ↦ inl (valid, ground arith)
  | inr invalid ↦ elim (Bool-cases (c.buf i).dirty) [
    | inl dirty ↦ absurd (ground arith)
    | inr clean ↦
        let read : iderw i c ≡ some c' = ground arith in
        let r = iderw_fills i c clean read in inr (invalid, r.0, r.1)
  ]
]

-- B_DIRTY is set only for the call of `iderw`.
written-dirty :
    (i : ℕ) (c : Bcache)
    → written i (record c { buf = update c.buf i (record (c.buf i) { dirty = true }) })
      ≡ written i c
written-dirty i c =
    let b = record (c.buf i) { dirty = true } in
    subst
      (λ (d : Buf).
        record c {
          buf = update (update c.buf i b) i (record d { dirty = false; valid = true });
          memdisk = update c.memdisk d.blockno d.content;
        }
        ≡ written i c)
      (sym (update_self c.buf i b))
      (ap
        (λ f. record c { buf = f; memdisk = update c.memdisk (c.buf i).blockno (c.buf i).content })
        (update-update c.buf i b (record b { dirty = false; valid = true })))

-- A successful `bwrite` leaves the buffer clean, and its data on disk.
pub bwrite-written :
    (i : ℕ) (c : Bcache) {c' : Bcache}
    → bwrite i c ≡ some c'
    → ((c.buf i).locked ≡ true) × ((c.buf i).dev ≡ 1) × (c' ≡ written i c)
unfolding bwrite
bwrite-written i c {c'} e = elim (Bool-cases (c.buf i).locked) [
  | inr free ↦ absurd (ground arith)
  | inl held ↦
      let d = record c { buf = update c.buf i (record (c.buf i) { dirty = true }) } in
      let self : d.buf i ≡ record (c.buf i) { dirty = true } =
        update_self c.buf i (record (c.buf i) { dirty = true }) in
      let sync : iderw i d ≡ some c' = ground arith in
      let r = iderw_writes i d (ap (λ b. b.dirty) self) sync in
      (held, sym (ap (λ b. b.dev) self) ∙ r.0, r.1 ∙ written-dirty i c)
]
