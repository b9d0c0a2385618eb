-- ===== src/Bcache/Reachable.antt =====
-- Every step keeps the order of the buffers, their reference counts and their keys.
use cs.Prelude.{
  ℕ, ◌+◌, ◌-◌, ◌<◌, ◌≡◌, inl, inr, refl, sym, ◌∙◌, subst, if◌then◌else◌, ◌==◌, ◌∷◌, ◌++◌, true,
  false, some, List, arith, add32, u32_mod, update,
}
use mathlib.Core.Option.{some-injective, none-ne-some}
use cs.Bcache.{Bcache, Buf, Block, links, nbuf, binit, recycled, lock_buf, modify, unlock_buf}
use cs.Bcache.Disk.{bread_locked-filled, bwrite-written}
use cs.Bcache.Order.{
  IsOrder, Got, hit, miss, no_buffers, bget-Got, dropped, drop_buf-Dropped, binit-IsOrder,
}
use cs.Bcache.System.{
  System, Step, gets, locks, reads, modifies, pins, writes, unlocks, drops, boot, Reach, start,
  after,
}
use cs.Bcache.Counted.{
  Counted, Keyed, same_key-Keyed, recycled-Keyed, waiting-Counted, leaving-Counted, same-Counted,
  held_inside, used_inside,
}

-- What holds of the cache whenever no process is inside one of its critical sections.
pub record IsCache (s : System) : Type 0 where
  pub order : List ℕ
  pub in_order : IsOrder (links s.cache) order
  pub counted : Counted s.cache.buf s.waiting s.leaving
  pub keyed : Keyed s.cache.buf

boot-IsCache : (disksize : ℕ) (memdisk : ℕ → Block) → IsCache (boot disksize memdisk)
unfolding binit
boot-IsCache disksize memdisk =
    let (order, o) = binit-IsOrder disksize memdisk in
    record {
      order = order;
      in_order = o;
      counted = record {
        counts = λ i. refl;
        bounded = λ i. omega arith;
        outside = λ i h. (refl, refl, refl);
      };
      keyed = record {
        unique = λ i j hi hj ne. absurd (ne refl);
        valid_disk = λ i v. cc;
        dirty_valid = λ i v. cc;
      };
    }

-- A change by the holder of a buffer, of its data, or of the data on disk.
holder-IsCache :
    (s : System) (i : ℕ) (b : Buf) (m : ℕ → Block)
    → (s.cache.buf i).locked ≡ true
    → b.locked ≡ true
    → b.refcnt ≡ (s.cache.buf i).refcnt
    → b.dev ≡ (s.cache.buf i).dev
    → b.blockno ≡ (s.cache.buf i).blockno
    → (b.valid ≡ true → b.dev ≡ 1)
    → (b.dirty ≡ true → b.valid ≡ true)
    → IsCache s
    → IsCache (record s { cache = record s.cache { buf = update s.cache.buf i b; memdisk = m } })
holder-IsCache s i b m held held' r ed eb v d k = record {
  order = k.order;
  in_order = k.in_order;
  counted =
      same-Counted s.cache.buf s.waiting s.leaving i b
        (held_inside s.cache.buf s.waiting s.leaving i k.counted held) r (held' ∙ sym held)
        k.counted;
  keyed = same_key-Keyed s.cache.buf i b ed eb v d k.keyed;
}

Got-IsCache :
    (s : System) (dev blockno : ℕ) (q : Bcache × ℕ)
    → Got dev blockno s.cache (some q)
    → IsCache s
    → s.waiting q.1 + s.leaving q.1 + 2 < u32_mod
    → IsCache (record s { cache = q.0; waiting = update s.waiting q.1 (s.waiting q.1 + 1) })
Got-IsCache s dev blockno q (hit j h m e) k =
    subst
      (λ (q : Bcache × ℕ).
        s.waiting q.1 + s.leaving q.1 + 2 < u32_mod
        → IsCache (record s { cache = q.0; waiting = update s.waiting q.1 (s.waiting q.1 + 1) }))
      (sym (some-injective _ _ e))
      (λ few.
        let b = record (s.cache.buf j) { refcnt = add32 (s.cache.buf j).refcnt 1 } in
        record {
          order = k.order;
          in_order = k.in_order;
          counted =
              waiting-Counted s.cache.buf s.waiting s.leaving j b (s.waiting j + 1) h
                (ground (arith, k.counted.counts j)) (ground (arith, k.counted.counts j)) k.counted;
          keyed =
              same_key-Keyed s.cache.buf j b refl refl (k.keyed.valid_disk j)
                (k.keyed.dirty_valid j) k.keyed;
        })
Got-IsCache s dev blockno q (miss j u h m e) k =
    subst
      (λ (q : Bcache × ℕ).
        s.waiting q.1 + s.leaving q.1 + 2 < u32_mod
        → IsCache (record s { cache = q.0; waiting = update s.waiting q.1 (s.waiting q.1 + 1) }))
      (sym (some-injective _ _ e))
      (λ few. record {
        order = k.order;
        in_order = k.in_order;
        counted =
            waiting-Counted s.cache.buf s.waiting s.leaving j (recycled dev blockno (s.cache.buf j))
              (s.waiting j + 1) h (ground (arith, k.counted.counts j)) (omega arith) k.counted;
        keyed = recycled-Keyed dev blockno j s.cache u k.keyed;
      })
Got-IsCache s dev blockno q (no_buffers u n e) k = absurd (none-ne-some _ (sym e))

-- What the first part of `brelse` leaves.
abbrev pub unlocked : ℕ → Bcache → Bcache
unlocked i c = record c { buf = update c.buf i (record (c.buf i) { locked = false }) }

pub unlock_buf-unlocked :
    (i : ℕ) (c : Bcache) {c' : Bcache}
    → unlock_buf i c ≡ some c'
    → ((c.buf i).locked ≡ true) × (c' ≡ unlocked i c)
unfolding unlock_buf
unlock_buf-unlocked i c {c'} e = ground arith

step-IsCache : {s t : System} → Step s t → IsCache s → IsCache t
unfolding lock_buf modify
step-IsCache {s} (gets dev blockno i e few) k =
    Got-IsCache s dev blockno _
      (subst (Got dev blockno s.cache) e (bget-Got dev blockno s.cache k.order k.in_order)) k few
step-IsCache {s} (locks i w free) k =
    let b = record (s.cache.buf i) { locked = true } in
    record {
      order = k.order;
      in_order = k.in_order;
      counted =
          waiting-Counted s.cache.buf s.waiting s.leaving i b (s.waiting i - 1)
            (used_inside s.cache.buf s.waiting s.leaving i k.counted (omega arith))
            (ground (arith, k.counted.counts i)) (k.counted.bounded i) k.counted;
      keyed =
          same_key-Keyed s.cache.buf i b refl refl (k.keyed.valid_disk i) (k.keyed.dirty_valid i)
            k.keyed;
    }
step-IsCache {s} (reads i held e) k =
    elim (bread_locked-filled i s.cache (k.keyed.dirty_valid i) e) [
      | inl (valid, same) ↦ subst (λ c. IsCache (record s { cache = c })) (sym same) k
      | inr (invalid, disk, same) ↦
          subst (λ c. IsCache (record s { cache = c })) (sym same)
            (holder-IsCache s i
              (record (s.cache.buf i) {
                content = s.cache.memdisk (s.cache.buf i).blockno;
                valid = true;
              })
              s.cache.memdisk held held refl refl refl (λ v. disk) (λ v. refl) k)
    ]
step-IsCache {s} (modifies i x held valid) k =
    holder-IsCache s i (record (s.cache.buf i) { content = x }) s.cache.memdisk held held refl refl
      refl (k.keyed.valid_disk i) (k.keyed.dirty_valid i) k
step-IsCache {s} (pins i held valid) k =
    holder-IsCache s i (record (s.cache.buf i) { dirty = true }) s.cache.memdisk held held refl refl
      refl (k.keyed.valid_disk i) (λ d. valid) k
step-IsCache {s} (writes i valid e) k =
    let (held, disk, same) = bwrite-written i s.cache e in
    subst (λ c. IsCache (record s { cache = c })) (sym same)
      (holder-IsCache s i (record (s.cache.buf i) { dirty = false; valid = true })
        (update s.cache.memdisk (s.cache.buf i).blockno (s.cache.buf i).content) held held refl refl
        refl (λ v. disk) (λ d. refl) k)
step-IsCache {s} (unlocks i {c} settled e) k =
    let (held, same) = unlock_buf-unlocked i s.cache e in
    let b = record (s.cache.buf i) { locked = false } in
    subst (λ c. IsCache (record s { cache = c; leaving = update s.leaving i (s.leaving i + 1) }))
      (sym same)
      (record {
        order = k.order;
        in_order = k.in_order;
        counted =
            leaving-Counted s.cache.buf s.waiting s.leaving i b (s.leaving i + 1)
              (held_inside s.cache.buf s.waiting s.leaving i k.counted held)
              (ground (arith, k.counted.counts i)) (k.counted.bounded i) k.counted;
        keyed =
            same_key-Keyed s.cache.buf i b refl refl (k.keyed.valid_disk i) (k.keyed.dirty_valid i)
              k.keyed;
      })
step-IsCache {s} (drops i l) k =
    let h : i < nbuf = used_inside s.cache.buf s.waiting s.leaving i k.counted (omega arith) in
    let d = drop_buf-Dropped i s.cache k.order h k.in_order in
    let b = dropped i s.cache in
    record {
      order = if b.refcnt == 0 then i ∷ (d.before ++ d.behind) else d.before ++ i ∷ d.behind;
      in_order = d.in_order;
      counted =
          subst (λ f. Counted f s.waiting (update s.leaving i (s.leaving i - 1))) (sym d.buf)
            (leaving-Counted s.cache.buf s.waiting s.leaving i b (s.leaving i - 1) h
              (ground (arith, k.counted.counts i, k.counted.bounded i))
              (ground (arith, k.counted.counts i, k.counted.bounded i)) k.counted);
      keyed = subst Keyed (sym d.buf) (
          same_key-Keyed s.cache.buf i b refl refl (k.keyed.valid_disk i) (k.keyed.dirty_valid i)
            k.keyed);
    }

-- However the processes that use the cache interleave, also between the two parts of `brelse`: the
-- list of buffers holds every buffer once, the reference count of a buffer is the number of the
-- processes that wait for it, hold it, or have unlocked it and not yet dropped their reference, and
-- no two buffers belong to the same block of a device (but device 0, as which all buffers start).
pub Reach-IsCache :
    (disksize : ℕ) (memdisk : ℕ → Block) {s : System} → Reach disksize memdisk s → IsCache s
Reach-IsCache disksize memdisk (start e) = subst IsCache (sym e) (boot-IsCache disksize memdisk)
Reach-IsCache disksize memdisk (after r st) = step-IsCache st (Reach-IsCache disksize memdisk r)
