-- ===== src/Bcache/Order.antt =====
-- The order of the buffers, most recently used first: what `bget` finds on it, and how `binit`
-- and `drop_buf` make it.
use cs.Prelude.{
  ℕ, zero, suc, ◌+◌, ◌<◌, ◌≡◌, ◌≢◌, inl, inr, refl, sym, ◌∙◌, subst, ◌==◌, if◌then◌else◌, Bool,
  true, false, Bool-cases, Option-cases, Option, some, none, List, [], ◌∷◌, ◌++◌, arith, length,
  length-append, All, In, In-append, In-append_left, In-append_right, In-split, Apart, Apart-split,
  All-append, All-left, All-right, All-map, All-of, All-In, add32, update,
}
use cs.Bcache.{
  Bcache, Buf, Links, links, nbuf, head, binit, link_from, push_front, unlink, scan, is_for,
  is_free, recycled, bget, drop_buf,
}
use cs.Bcache.Ring.{Ring, push_front-Ring, unlink-Ring}
use cs.Bcache.Scan.{find, scan-find, find-some, find-none, forward, backward}

-- The list holds every buffer once.
pub record IsOrder (l : Links) (order : List ℕ) : Type 0 where
  pub ring : Ring l order
  pub size : length order ≡ nbuf
  pub inside : All (λ i. i < nbuf) order
  pub full : (i : ℕ) → i < nbuf → In i order

record Linking (l : Links) (b : ℕ) : Type 0 where
  order : List ℕ
  ring : Ring l order
  size : length order ≡ b
  inside : All (λ i. i < b) order
  full : (i : ℕ) → i < b → In i order

link_one : (l : Links) (b : ℕ) → b < nbuf → Linking l b → Linking (push_front b l) (b + 1)
link_one l b h k = record {
  order = b ∷ k.order;
  ring =
      push_front-Ring l b k.order
        ((λ e. omega arith), All-map k.order (λ y q e. omega arith) k.inside) k.ring;
  size = omega (arith, k.size);
  inside = (omega arith, All-map k.order (λ y q. omega arith) k.inside);
  full = λ i q. elim (Bool-cases (i == b)) [
    | inl here ↦ inl (ground arith)
    | inr other ↦ inr (k.full i (ground arith))
  ];
}

link_all : (n b : ℕ) (l : Links) → n + b ≡ nbuf → Linking l b → Linking (link_from n b l) nbuf
unfolding link_from
link_all zero b l h k = subst (Linking l) (omega arith) k
link_all (suc n) b l h k =
    link_all n (b + 1) (push_front b l) (omega arith) (link_one l b (omega arith) k)

-- `binit` links all buffers.
pub binit-IsOrder :
    (disksize : ℕ) (memdisk : ℕ → ℕ → ℕ)
    → (order : List ℕ) × IsOrder (links (binit disksize memdisk)) order
unfolding binit
binit-IsOrder disksize memdisk =
    let l : Links = record { next = λ i. head; prev = λ i. head } in
    let k : Linking (link_from nbuf 0 l) nbuf = link_all nbuf 0 l refl (record {
      order = [];
      ring = record { linked = (refl, refl); apart = (tt, tt) };
      size = refl;
      inside = tt;
      full = λ i q. absurd (omega arith);
    }) in
    (k.order, record { ring = k.ring; size = k.size; inside = k.inside; full = k.full })

-- The two ways in which `bget` takes the buffer `i`.
abbrev pub shared : ℕ → Bcache → Bcache
shared i c = record c {
  buf = update c.buf i (record (c.buf i) { refcnt = add32 (c.buf i).refcnt 1 });
}

abbrev pub reused : ℕ → ℕ → ℕ → Bcache → Bcache
reused dev blockno i c = record c { buf = update c.buf i (recycled dev blockno (c.buf i)) }

abbrev pub Uncached : ℕ → ℕ → Bcache → Type 0
Uncached dev blockno c = (j : ℕ) → j < nbuf → is_for dev blockno (c.buf j) ≡ false

-- The three ways in which `bget` ends, and when: it takes a buffer of the block if there is one,
-- if not it gives a free buffer to the block, and panics if no buffer is free.
pub data Got (dev blockno : ℕ) (c : Bcache) : Option (Bcache × ℕ) → Type 0 where
  hit :
      (i : ℕ) {r : Option (Bcache × ℕ)}
      → i < nbuf
      → is_for dev blockno (c.buf i) ≡ true
      → r ≡ some (shared i c, i)
      → Got dev blockno c r
  miss :
      (i : ℕ) {r : Option (Bcache × ℕ)}
      → Uncached dev blockno c
      → i < nbuf
      → is_free (c.buf i) ≡ true
      → r ≡ some (reused dev blockno i c, i)
      → Got dev blockno c r
  no_buffers :
      {r : Option (Bcache × ℕ)}
      → Uncached dev blockno c
      → ((j : ℕ) → j < nbuf → is_free (c.buf j) ≡ false)
      → r ≡ none
      → Got dev blockno c r

-- What either loop finds.
pub scan_forward :
    (l : Links) (order : List ℕ) (test : ℕ → Bool)
    → IsOrder l order
    → scan l.next test nbuf (l.next head) ≡ find test order
scan_forward l order test o =
    scan-find l.next test nbuf head order
      (forward l.next l.prev head order o.ring.apart.0 o.ring.linked) (omega (arith, o.size))

pub scan_backward :
    (l : Links) (order : List ℕ) (test : ℕ → Bool)
    → IsOrder l order
    → (found : List ℕ) × (scan l.prev test nbuf (l.prev head) ≡ find test found)
      × ((i : ℕ) → In i found → In i order)
      × ((i : ℕ) → In i order → In i found)
scan_backward l order test o =
    let r = backward l.next l.prev head order head o.ring.linked in
    (
      r.nodes,
      scan-find l.prev test nbuf head r.nodes
          (forward l.prev l.next head r.nodes
            (All-of r.nodes
              (λ y m. All-In (λ z. head ≢ z) order y o.ring.apart.0 (r.from_path y m)))
            r.linked)
          (omega (arith, o.size, r.same_length)),
      r.from_path,
      r.on_path,
    )

-- If the list holds every buffer once, `bget` takes a buffer of the block if there is one, with one
-- reference more; if there is none, it gives the block, as not valid, a buffer that is neither
-- referenced nor dirty; and it panics if every buffer is of another block and in use.
pub bget-Got :
    (dev blockno : ℕ) (c : Bcache) (order : List ℕ)
    → IsOrder (links c) order
    → Got dev blockno c (bget dev blockno c)
unfolding bget
bget-Got dev blockno c order o =
    let found : scan c.next for_block nbuf (c.next head) ≡ find for_block order =
      scan_forward (links c) order for_block o in
    elim (Option-cases (find for_block order)) [
      | inr (i, e) ↦
          let (m, pass) = find-some for_block order i e in
          hit i (All-In (λ j. j < nbuf) order i o.inside m) pass (rw (found ∙ e, bget) refl)
      | inl e ↦
          let uncached : Uncached dev blockno c = λ j h.
            All-In (λ j. for_block j ≡ false) order j (find-none for_block order e) (o.full j h) in
          let (nodes, found', from, on) = scan_backward (links c) order free o in
          elim (Option-cases (find free nodes)) [
            | inr (i, e') ↦
                let (m, pass) = find-some free nodes i e' in
                miss i uncached (All-In (λ j. j < nbuf) order i o.inside (from i m)) pass
                  (rw (found ∙ e, found' ∙ e', bget) refl)
            | inl e' ↦
                no_buffers uncached
                  (λ j h.
                    All-In (λ j. free j ≡ false) nodes j (find-none free nodes e')
                      (on j (o.full j h)))
                  (rw (found ∙ e, found' ∙ e', bget) refl)
          ]
    ]
  where
    for_block : ℕ → Bool
    for_block i = is_for dev blockno (c.buf i)

    free : ℕ → Bool
    free i = is_free (c.buf i)

-- Moving a buffer to the front.
moved-IsOrder :
    (l : Links) (us : List ℕ) (i : ℕ) (vs : List ℕ)
    → IsOrder l (us ++ i ∷ vs)
    → IsOrder (push_front i (unlink i l)) (i ∷ (us ++ vs))
moved-IsOrder l us i vs o = record {
  ring =
      push_front-Ring (unlink i l) i (us ++ vs) (not_head, others) (unlink-Ring l us i vs o.ring);
  size = omega (arith, o.size, length-append us (i ∷ vs), length-append us vs);
  inside = (
    i_in,
    All-append (λ j. j < nbuf) us vs (All-left (λ j. j < nbuf) us (i ∷ vs) o.inside) vs_in,
  );
  full = λ j h. elim (In-append j us (i ∷ vs) (o.full j h)) [
    | inl m ↦ inr (In-append_left j us vs m)
    | inr m ↦ behind j m
  ];
}
  where
    rest_in : All (λ j. j < nbuf) (i ∷ vs)
    rest_in = All-right (λ j. j < nbuf) us (i ∷ vs) o.inside

    i_in : i < nbuf
    i_in = rest_in.0

    vs_in : All (λ j. j < nbuf) vs
    vs_in = rest_in.1

    not_head : i ≢ head
    not_head e = omega (arith, i_in)

    apart : Apart us × Apart (i ∷ vs) × All (λ u. All (λ w. u ≢ w) (i ∷ vs)) us
    apart = Apart-split us (i ∷ vs) o.ring.apart.1

    others : All (λ y. i ≢ y) (us ++ vs)
    others = All-append (λ y. i ≢ y) us vs (All-map us (λ u q e. q.0 (sym e)) apart.2) apart.1.0

    behind : (j : ℕ) → In j (i ∷ vs) → In j (i ∷ (us ++ vs))
    behind j (inl e) = inl e
    behind j (inr m) = inr (In-append_right j us vs m)

-- A reference less.
abbrev pub dropped : ℕ → Bcache → Buf
dropped i c = record (c.buf i) { refcnt = add32 (c.buf i).refcnt 0xFFFFFFFF }

abbrev let_go : ℕ → Bcache → Bcache
let_go i c = record c { buf = update c.buf i (dropped i c) }

-- The last reference is gone.
abbrev pub put_first : ℕ → Bcache → Bcache
put_first i c =
    let l = push_front i (unlink i (links c)) in
    record c { buf = update c.buf i (dropped i c); next = l.next; prev = l.prev }

-- `drop_buf` of one of the buffers changes its count alone, and no data on disk; the buffer goes to
-- the front of the order if nobody refers to it any more.
pub record Dropped (i : ℕ) (c : Bcache) (order : List ℕ) (c' : Bcache) : Type 0 where
  pub buf : c'.buf ≡ update c.buf i (dropped i c)
  pub memdisk : c'.memdisk ≡ c.memdisk
  pub before : List ℕ
  pub behind : List ℕ
  pub split : order ≡ before ++ i ∷ behind
  pub in_order :
      IsOrder
        (links c')
        (if (dropped i c).refcnt == 0 then i ∷ (before ++ behind) else before ++ i ∷ behind)

pub drop_buf-Dropped :
    (i : ℕ) (c : Bcache) (order : List ℕ)
    → i < nbuf
    → IsOrder (links c) order
    → Dropped i c order (drop_buf i c)
unfolding drop_buf
drop_buf-Dropped i c order h o =
    let (us, vs, split) = In-split i order (o.full i h) in
    let o' : IsOrder (links c) (us ++ i ∷ vs) = subst (IsOrder (links c)) split o in
    elim (Bool-cases ((dropped i c).refcnt == 0)) [
      | inl last ↦
          subst (Dropped i c order) {x = put_first i c} (rw (last, drop_buf) refl) (record {
            buf = refl;
            memdisk = refl;
            before = us;
            behind = vs;
            split = split;
            in_order = rw last (moved-IsOrder (links c) us i vs o');
          })
      | inr more ↦ subst (Dropped i c order) {x = let_go i c} (rw (more, drop_buf) refl) (record {
        buf = refl;
        memdisk = refl;
        before = us;
        behind = vs;
        split = split;
        in_order = rw more o';
      })
    ]
