-- ===== src/Bcache/Refinement.antt =====
-- The buffer cache refines the store of Log/Buffers.antt, step by step.
use cs.Prelude.{
  ℕ, ◌<◌, ◌≡◌, ◌≢◌, inl, inr, refl, sym, ◌∙◌, ap, subst, subst₂, ◌==◌, true, false, Bool-cases,
  some, arith, add32, update, update_self, update_ne, ==_iff,
}
use mathlib.Core.Option.{some-injective, none-ne-some}
use cs.Bcache.{Bcache, Buf, Block, nbuf, is_free, recycled, lock_buf, modify, binit}
use cs.Bcache.Order.{Got, hit, miss, no_buffers, reused, bget-Got, dropped, drop_buf-Dropped}
use cs.Bcache.Disk.{filled, written, bread_locked-filled, bwrite-written}
use cs.Bcache.System.{
  System, Step, gets, locks, reads, modifies, pins, writes, unlocks, drops, boot, Reach, start,
  after,
}
use cs.Bcache.Counted.{held_inside, used_inside}
use cs.Bcache.Reachable.{IsCache, Reach-IsCache, unlock_buf-unlocked}
use cs.Log.Buffers.{Store}
use cs.Log.Buffers
use cs.Bcache.View.{Shows, at_update, update-Shows, unseen, seen}

-- What a step does to the store: the operation of Log/Buffers.antt that belongs to it, on the block
-- of its buffer. All steps but three do nothing to it; after `bread` the buffer is valid, and has the
-- data that the store has for its block.
pub Does : {s t : System} → Step s t → Store → Store → Type 0
Does (gets dev blockno i e few) st st' = st' ≡ st
Does (locks i w free) st st' = st' ≡ st
Does {s} (reads i {c} held e) st st' =
    (st' ≡ st)
    × ((c.buf i).valid ≡ true)
    × ((c.buf i).content ≡ Buffers.bread st (s.cache.buf i).blockno)
Does {s} (modifies i x held valid) st st' = st' ≡ Buffers.modify st (s.cache.buf i).blockno x
Does {s} (pins i held valid) st st' = st' ≡ Buffers.pin st (s.cache.buf i).blockno
Does {s} (writes i valid e) st st' =
    st' ≡ Buffers.bwrite st (s.cache.buf i).blockno (s.cache.buf i).content
Does (unlocks i settled e) st st' = st' ≡ st
Does (drops i l) st st' = st' ≡ st

abbrev pub IsView : System → Store → Type 0
IsView s st = Shows s.cache.buf s.cache.memdisk st

-- A store that the step makes of `st`, and that the cache shows after it.
abbrev Becomes : {s t : System} → Step s t → Store → Type 0
Becomes {s} {t} step st = (st' : Store) × Does step st st' × IsView t st'

-- A free buffer that is given to another block.
reused-Shows :
    (s : System) (st : Store) (dev blockno i : ℕ)
    → i < nbuf
    → is_free (s.cache.buf i) ≡ true
    → IsCache s
    → IsView s st
    → Shows (reused dev blockno i s.cache).buf s.cache.memdisk st
reused-Shows s st dev blockno i h free k v =
    update-Shows buf s.cache.memdisk s.cache.memdisk st st i (recycled dev blockno (buf i))
      v.on_disk (record { cached = λ q. cc; marked = λ q. cc; clean = λ q. cc })
      (λ j hj ne valid. (refl, refl, refl))
      (λ b absent. elim (Bool-cases (buf i).valid) [
        | inl valid ↦ elim (Bool-cases ((buf i).blockno == b)) [
          | inl this ↦
              subst (λ q. (st.mem q ≡ st.disk q) × (st.dirty q ≡ false)) ((==_iff _ b).0 this)
                (own valid)
          | inr another ↦
              v.uncached b (old b absent (λ q e. ground (arith, ==_iff (buf i).blockno b)))
        ]
        | inr invalid ↦ v.uncached b (old b absent (λ q. cc))
      ])
      v
  where
    buf : ℕ → Buf
    buf = s.cache.buf

    idle : ((buf i).dirty ≡ false) × ((buf i).locked ≡ false)
    idle = ground (arith, k.counted.counts i)

    own :
        (buf i).valid ≡ true
        → (st.mem (buf i).blockno ≡ st.disk (buf i).blockno) × (st.dirty (buf i).blockno ≡ false)
    own valid = (
      sym (v.cached i h valid) ∙ v.clean i h valid idle.0 idle.1,
      sym (v.marked i h valid) ∙ idle.0,
    )

    old :
        (b : ℕ)
        → ((j : ℕ)
            → j < nbuf
            → (update buf i (recycled dev blockno (buf i)) j).valid ≡ true
            → (update buf i (recycled dev blockno (buf i)) j).blockno ≢ b)
        → ((buf i).valid ≡ true → (buf i).blockno ≢ b)
        → (j : ℕ) → j < nbuf
        → (buf j).valid ≡ true
        → (buf j).blockno ≢ b
    old b absent not_own j hj =
        at_update buf i (recycled dev blockno (buf i))
          (λ c. (c.valid ≡ true → c.blockno ≢ b) → (buf j).valid ≡ true → (buf j).blockno ≢ b) j
          (λ e q. subst (λ x. (buf x).valid ≡ true → (buf x).blockno ≢ b) e not_own) (λ ne q. q)
          (absent j hj)

-- The buffer that `bget` returns changes nothing that the store sees.
Got-Shows :
    (s : System) (st : Store) (dev blockno : ℕ) (q : Bcache × ℕ)
    → Got dev blockno s.cache (some q)
    → IsCache s
    → IsView s st
    → Shows q.0.buf q.0.memdisk st
Got-Shows s st dev blockno q (hit j h m e) k v =
    subst (λ (r : Bcache × ℕ). Shows r.0.buf r.0.memdisk st) (sym (some-injective _ _ e))
      (unseen s.cache.buf s.cache.memdisk st j
        (record (s.cache.buf j) { refcnt = add32 (s.cache.buf j).refcnt 1 })
        (record { cached = v.cached j h; marked = v.marked j h; clean = v.clean j h }) refl (λ q. q)
        v)
Got-Shows s st dev blockno q (miss j u h m e) k v =
    subst (λ (r : Bcache × ℕ). Shows r.0.buf r.0.memdisk st) (sym (some-injective _ _ e))
      (reused-Shows s st dev blockno j h m k v)
Got-Shows s st dev blockno q (no_buffers u n e) k v = absurd (none-ne-some _ (sym e))

-- A buffer that `bread` fills from disk.
filled-Shows :
    (s : System) (st : Store) (i : ℕ)
    → i < nbuf
    → (s.cache.buf i).valid ≡ false
    → (s.cache.buf i).dev ≡ 1
    → IsCache s
    → IsView s st
    → Shows (filled i s.cache).buf s.cache.memdisk st
filled-Shows s st i h invalid disk k v =
    unseen s.cache.buf s.cache.memdisk st i
      (record b { content = s.cache.memdisk b.blockno; valid = true })
      (record {
        cached = λ q. from_disk ∙ sym same.0;
        marked = λ q. undirty ∙ sym same.1;
        clean = λ q d f. from_disk;
      })
      refl (λ q. refl) v
  where
    b : Buf
    b = s.cache.buf i

    from_disk : s.cache.memdisk b.blockno ≡ st.disk b.blockno
    from_disk = ap (λ m. m b.blockno) v.on_disk

    undirty : b.dirty ≡ false
    undirty = elim (Bool-cases b.dirty) [
      | inl d ↦ let q = k.keyed.dirty_valid i d in cc
      | inr d ↦ d
    ]

    only_one :
        (j : ℕ) → j < nbuf → (s.cache.buf j).valid ≡ true → (s.cache.buf j).blockno ≢ b.blockno
    only_one j hj valid e =
        let dj : (s.cache.buf j).dev ≡ 1 = k.keyed.valid_disk j valid in
        let same : i ≡ j = k.keyed.unique i j h hj (λ z. omega arith) (disk ∙ sym dj) (sym e) in
        let valid_i : (s.cache.buf i).valid ≡ true =
          subst (λ x. (s.cache.buf x).valid ≡ true) (sym same) valid in
        cc

    same : (st.mem b.blockno ≡ st.disk b.blockno) × (st.dirty b.blockno ≡ false)
    same = v.uncached b.blockno only_one

view-step :
    {s t : System} (st : Store) (step : Step s t) → IsCache s → IsView s st → Becomes step st
unfolding Does lock_buf modify
view-step {s} st (gets dev blockno i {c} e few) k v = (
  st,
  refl,
  Got-Shows s st dev blockno (c, i)
      (subst (Got dev blockno s.cache) e (bget-Got dev blockno s.cache k.order k.in_order)) k v,
)
view-step {s} st (locks i w free) k v =
    let b = s.cache.buf i in
    let h = used_inside s.cache.buf s.waiting s.leaving i k.counted (omega arith) in
    (
      st,
      refl,
      unseen s.cache.buf s.cache.memdisk st i (record b { locked = true })
          (record { cached = v.cached i h; marked = v.marked i h; clean = λ q d f. cc }) refl
          (λ q. q) v,
    )
view-step {s} st (reads i held e) k v =
    let h = held_inside s.cache.buf s.waiting s.leaving i k.counted held in
    let old = s.cache.buf i in
    elim (bread_locked-filled i s.cache (k.keyed.dirty_valid i) e) [
      | inl (valid, same) ↦
          subst
            (λ c.
              (st' : Store) × ((st' ≡ st)
                × ((c.buf i).valid ≡ true)
                × ((c.buf i).content ≡ Buffers.bread st old.blockno))
              × Shows c.buf c.memdisk st')
            (sym same) (st, (refl, valid, v.cached i h valid), v)
      | inr (invalid, disk, same) ↦
          let new = record old { content = s.cache.memdisk old.blockno; valid = true } in
          let self : (filled i s.cache).buf i ≡ new = update_self s.cache.buf i new in
          let shown = filled-Shows s st i h invalid disk k v in
          let valid' : ((filled i s.cache).buf i).valid ≡ true = ap (λ b. b.valid) self in
          let same_block : ((filled i s.cache).buf i).blockno ≡ old.blockno =
            ap (λ b. b.blockno) self in
          subst
            (λ c.
              (st' : Store) × ((st' ≡ st)
                × ((c.buf i).valid ≡ true)
                × ((c.buf i).content ≡ Buffers.bread st old.blockno))
              × Shows c.buf c.memdisk st')
            (sym same) (st, (refl, valid', shown.cached i h valid' ∙ ap st.mem same_block), shown)
    ]
view-step {s} st (modifies i x held valid) k v =
    let b = s.cache.buf i in
    let h = held_inside s.cache.buf s.waiting s.leaving i k.counted held in
    (
      Buffers.modify st b.blockno x,
      refl,
      seen s.cache.buf s.cache.memdisk s.cache.memdisk st (Buffers.modify st b.blockno x) i
          (record b { content = x }) h k.keyed valid v.on_disk
          (record {
            cached = λ q. sym (update_self st.mem b.blockno x);
            marked = v.marked i h;
            clean = λ q d f. cc;
          })
          refl valid (λ c ne. (update_ne st.mem b.blockno x c ne, refl, refl)) v,
    )
view-step {s} st (pins i held valid) k v =
    let b = s.cache.buf i in
    let h = held_inside s.cache.buf s.waiting s.leaving i k.counted held in
    (
      Buffers.pin st b.blockno,
      refl,
      seen s.cache.buf s.cache.memdisk s.cache.memdisk st (Buffers.pin st b.blockno) i
          (record b { dirty = true }) h k.keyed valid v.on_disk
          (record {
            cached = v.cached i h;
            marked = λ q. sym (update_self st.dirty b.blockno true);
            clean = λ q d f. cc;
          })
          refl valid (λ c ne. (refl, update_ne st.dirty b.blockno true c ne, refl)) v,
    )
view-step {s} st (writes i valid e) k v =
    let b = s.cache.buf i in
    let (held, disk, same) = bwrite-written i s.cache e in
    let h = held_inside s.cache.buf s.waiting s.leaving i k.counted held in
    let current : b.content ≡ Buffers.bread st b.blockno = v.cached i h valid in
    let st' = Buffers.bwrite st b.blockno (Buffers.bread st b.blockno) in
    (
      st',
      ap (Buffers.bwrite st b.blockno) (sym current),
      subst (λ c. Shows c.buf c.memdisk st') (sym same)
          (seen s.cache.buf s.cache.memdisk (written i s.cache).memdisk st st' i
            (record b { dirty = false; valid = true }) h k.keyed valid
            (ap (λ m. update m b.blockno b.content) v.on_disk
              ∙ ap (update st.disk b.blockno) current)
            (record {
              cached = λ q. current ∙ sym (update_self st.mem b.blockno (st.mem b.blockno));
              marked = λ q. sym (update_self st.dirty b.blockno false);
              clean = λ q d f. current ∙ sym (update_self st.disk b.blockno (st.mem b.blockno));
            })
            refl refl
            (λ c ne. (
              update_ne st.mem b.blockno (st.mem b.blockno) c ne,
              update_ne st.dirty b.blockno false c ne,
              update_ne st.disk b.blockno (st.mem b.blockno) c ne,
            ))
            v),
    )
view-step {s} st (unlocks i {c} settled e) k v =
    let b = s.cache.buf i in
    let (held, same) = unlock_buf-unlocked i s.cache e in
    let h = held_inside s.cache.buf s.waiting s.leaving i k.counted held in
    (
      st,
      refl,
      subst (λ c. Shows c.buf c.memdisk st) (sym same)
          (unseen s.cache.buf s.cache.memdisk st i (record b { locked = false })
            (record {
              cached = v.cached i h;
              marked = v.marked i h;
              clean = λ q d f. settled q d ∙ ap (λ m. m b.blockno) v.on_disk;
            })
            refl (λ q. q) v),
    )
view-step {s} st (drops i l) k v =
    let h : i < nbuf = used_inside s.cache.buf s.waiting s.leaving i k.counted (omega arith) in
    let d = drop_buf-Dropped i s.cache k.order h k.in_order in
    (
      st,
      refl,
      subst₂ (λ f m. Shows f m st) (sym d.buf) (sym d.memdisk)
          (unseen s.cache.buf s.cache.memdisk st i (dropped i s.cache)
            (record { cached = v.cached i h; marked = v.marked i h; clean = v.clean i h }) refl
            (λ q. q) v),
    )

boot-Shows :
    (disksize : ℕ) (memdisk : ℕ → Block) → IsView (boot disksize memdisk) (Buffers.boot memdisk)
unfolding binit
boot-Shows disksize memdisk = record {
  on_disk = refl;
  cached = λ i h q. cc;
  marked = λ i h q. cc;
  uncached = λ b q. (refl, refl);
  clean = λ i h q. cc;
}

-- The store `st` follows the steps that led here, one by one: it began as the disk, and each step
-- did to it what belongs to that step, at a store that the cache showed.
pub Follows :
    {disksize : ℕ} {memdisk : ℕ → Block} {s : System} → Reach disksize memdisk s → Store → Type 0
Follows {disksize} {memdisk} (start e) st = st ≡ Buffers.boot memdisk
Follows (after {s} r step) st =
    (before : Store) × Follows r before × IsView s before × Does step before st

-- However the processes that use the buffer cache interleave, if a holder unlocks a valid buffer
-- only with data that are on disk or pinned: the cache behaves as the store of Log/Buffers.antt. A
-- store that starts as the disk and follows the steps one by one (a change, a pin or a write of a
-- buffer does that operation to its block, every other step nothing, and a read finds the data that
-- the store has) is at each step such that every valid buffer holds the content that the store has
-- for its block and is dirty as the store says, a block with no valid buffer is clean and its
-- content is on disk, and the disks are the same.
pub Reach-IsView :
    (disksize : ℕ) (memdisk : ℕ → Block) {s : System} (r : Reach disksize memdisk s)
    → (st : Store) × Follows r st × IsView s st
unfolding Follows
Reach-IsView disksize memdisk (start e) = (
  Buffers.boot memdisk,
  refl,
  subst (λ s. IsView s (Buffers.boot memdisk)) (sym e) (boot-Shows disksize memdisk),
)
Reach-IsView disksize memdisk (after r step) =
    let (st, follows, v) = Reach-IsView disksize memdisk r in
    let (st', does, v') = view-step st step (Reach-IsCache disksize memdisk r) v in
    (st', (st, follows, v, does), v')
