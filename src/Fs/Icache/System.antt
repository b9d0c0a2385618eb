-- ===== src/Fs/Icache/System.antt =====
-- The inode cache under every interleaving of the processes that use it.
use cs.Prelude.{
  ℕ, ◌+◌, ◌-◌, ◌≤◌, ◌<◌, ◌≡◌, inl, inr, refl, sym, ◌∙◌, subst, fun_ext, ◌==◌, ltb, true, false,
  Bool-cases, some, arith, update, ==_iff,
}
use mathlib.Core.Option.{some-injective, none-ne-some}
use native.Mathlib.Decide.{dec_lt}
use cs.Fs.Icache.{Inode, Icache, ninode, iget, idup, must_free, drop_ref, ilock, iunlock}
use cs.Fs.Icache.Get.{Got, shares, takes, no_inodes, renamed, Uncached, iget-Got}

-- `users i` counts the pointers to the inode `i` that processes hold.
pub record System : Type 0 where
  pub cache : Icache
  pub users : ℕ → ℕ

-- What `dinode` gives for an inode on disk may differ at each read. `frees` is the end of an `iput`
-- that has freed the inode on disk, `drops` that of any other.
pub data Step (s : System) : System → Type 0 where
  gets :
      (dev inum i : ℕ) {c : Icache}
      → iget dev inum s.cache ≡ some (c, i)
      → Step s (record { cache = c; users = update s.users i (s.users i + 1) })
  dups :
      (i : ℕ)
      → 0 < s.users i
      → Step s (record { cache = idup i s.cache; users = update s.users i (s.users i + 1) })
  locks :
      (i : ℕ) (dinode : ℕ → ℕ → ℕ × ℕ) {c : Icache}
      → 0 < s.users i
      → (s.cache i).locked ≡ false
      → ilock i dinode s.cache ≡ some c
      → Step s (record s { cache = c })
  unlocks :
      (i : ℕ) {c : Icache}
      → 0 < s.users i
      → iunlock i s.cache ≡ some c
      → Step s (record s { cache = c })
  links :
      (i nlink : ℕ)
      → 0 < s.users i
      → Step s (record s { cache = update s.cache i (record (s.cache i) { nlink = nlink }) })
  drops :
      (i : ℕ)
      → 0 < s.users i
      → must_free (s.cache i) ≡ false
      → Step s
          (record { cache = drop_ref i false s.cache; users = update s.users i (s.users i - 1) })
  frees :
      (i : ℕ)
      → 0 < s.users i
      → Step s
          (record { cache = drop_ref i true s.cache; users = update s.users i (s.users i - 1) })

-- The cache that the kernel starts with is all zero.
abbrev pub boot : System
boot = record {
  cache = λ i. record { dev = 0; inum = 0; ref = 0; valid = false; locked = false; nlink = 0 };
  users = λ i. 0;
}

pub data Reach : System → Type 0 where
  start : {s : System} → s ≡ boot → Reach s
  after : {s t : System} → Reach s → Step s t → Reach t

-- The reference count of an entry is the number of its users, only entries of the cache have
-- users, and no two entries in use stand for the same inode.
pub record Tracks (c : Icache) (users : ℕ → ℕ) : Type 0 where
  pub counts : (i : ℕ) → (c i).ref ≡ users i
  pub outside : (i : ℕ) → ninode ≤ i → users i ≡ 0
  pub unique :
      (i j : ℕ)
      → 0 < (c i).ref
      → 0 < (c j).ref
      → (c i).dev ≡ (c j).dev
      → (c i).inum ≡ (c j).inum
      → i ≡ j

-- A change of one entry, which had a user and stands for the same inode as before.
same_inode-Tracks :
    (c : Icache) (users : ℕ → ℕ) (i : ℕ) (ip : Inode) (u : ℕ)
    → i < ninode
    → 0 < (c i).ref
    → ip.ref ≡ u
    → ip.dev ≡ (c i).dev
    → ip.inum ≡ (c i).inum
    → Tracks c users
    → Tracks (update c i ip) (update users i u)
same_inode-Tracks c users i ip u h live er ed ei t = record {
  counts = λ j. ground (arith, t.counts j);
  outside = λ j hj. ground (arith, t.outside j);
  unique = λ j k rj rk e e'.
      t.unique j k (was j rj) (was k rk) (sym (dev_of j) ∙ e ∙ dev_of k)
        (sym (inum_of j) ∙ e' ∙ inum_of k);
}
  where
    dev_of : (j : ℕ) → (update c i ip j).dev ≡ (c j).dev
    dev_of j = ground (arith, ==_iff i j)

    inum_of : (j : ℕ) → (update c i ip j).inum ≡ (c j).inum
    inum_of j = ground (arith, ==_iff i j)

    was : (j : ℕ) → 0 < (update c i ip j).ref → 0 < (c j).ref
    was j r = elim (Bool-cases (i == j)) [
      | inl this ↦ subst (λ k. 0 < (c k).ref) ((==_iff i j).0 this) live
      | inr other ↦ ground arith
    ]

-- An unused entry that is taken for an inode which no entry in use stands for.
renamed-Tracks :
    (c : Icache) (users : ℕ → ℕ) (dev inum i : ℕ)
    → i < ninode
    → (c i).ref ≡ 0
    → Uncached dev inum c
    → Tracks c users
    → Tracks (renamed dev inum i c) (update users i (users i + 1))
renamed-Tracks c users dev inum i h free u t = record {
  counts = λ j. ground (arith, t.counts j, t.counts i);
  outside = λ j hj. ground (arith, t.outside j);
  unique = λ j k rj rk e e'. elim (Bool-cases (i == j)) [
    | inl ij ↦ elim (Bool-cases (i == k)) [
      | inl ik ↦ ground arith
      | inr not_k ↦ absurd (clash k (ground arith) (ground arith) (ground arith))
    ]
    | inr not_j ↦ elim (Bool-cases (i == k)) [
      | inl ik ↦ absurd (clash j (ground arith) (ground arith) (ground arith))
      | inr not_k ↦ t.unique j k (ground arith) (ground arith) (ground arith) (ground arith)
    ]
  ];
}
  where
    inside : (k : ℕ) → 0 < (c k).ref → k < ninode
    inside k r = elim (dec_lt k ninode) [
      | yes q ↦ q
      | no q ↦ absurd (omega (arith, t.outside k (omega arith), t.counts k))
    ]

    clash : (k : ℕ) → 0 < (c k).ref → (c k).dev ≡ dev → (c k).inum ≡ inum → ⊥
    clash k r e e' = let none_for = u k (inside k r) in ground arith

user_inside : (c : Icache) (users : ℕ → ℕ) (i : ℕ) → Tracks c users → 0 < users i → i < ninode
user_inside c users i t h = elim (dec_lt i ninode) [
  | yes q ↦ q
  | no q ↦ absurd (omega (arith, t.outside i (omega arith)))
]

-- A change of one entry by one of its users.
user-Tracks :
    (s : System) (i : ℕ) (ip : Inode)
    → 0 < s.users i
    → ip.ref ≡ (s.cache i).ref
    → ip.dev ≡ (s.cache i).dev
    → ip.inum ≡ (s.cache i).inum
    → Tracks s.cache s.users
    → Tracks (update s.cache i ip) s.users
user-Tracks s i ip h er ed ei t =
    subst (Tracks (update s.cache i ip)) (fun_ext (λ j. ground arith)) (
      same_inode-Tracks s.cache s.users i ip (s.users i) (user_inside s.cache s.users i t h)
        (omega (arith, t.counts i)) (er ∙ t.counts i) ed ei t)

Got-Tracks :
    (s : System) (dev inum : ℕ) (q : Icache × ℕ)
    → Got dev inum s.cache (some q)
    → Tracks s.cache s.users
    → Tracks q.0 (update s.users q.1 (s.users q.1 + 1))
Got-Tracks s dev inum q (shares i h m e) t =
    subst (λ (r : Icache × ℕ). Tracks r.0 (update s.users r.1 (s.users r.1 + 1)))
      (sym (some-injective _ _ e))
      (same_inode-Tracks s.cache s.users i (record (s.cache i) { ref = (s.cache i).ref + 1 })
        (s.users i + 1) h (ground arith) (omega (arith, t.counts i)) refl refl t)
Got-Tracks s dev inum q (takes i u h z e) t =
    subst (λ (r : Icache × ℕ). Tracks r.0 (update s.users r.1 (s.users r.1 + 1)))
      (sym (some-injective _ _ e)) (renamed-Tracks s.cache s.users dev inum i h z u t)
Got-Tracks s dev inum q (no_inodes u n e) t = absurd (none-ne-some _ (sym e))

-- What a successful `ilock` and `iunlock` change.
ilock-same :
    (i : ℕ) (dinode : ℕ → ℕ → ℕ × ℕ) (c c' : Icache)
    → ilock i dinode c ≡ some c'
    → (ip : Inode) × (c' ≡ update c i ip)
      × (ip.ref ≡ (c i).ref)
      × (ip.dev ≡ (c i).dev)
      × (ip.inum ≡ (c i).inum)
unfolding ilock
ilock-same i dinode c c' e = elim (Bool-cases (ltb (c i).ref 1)) [
  | inl unused ↦ absurd (ground arith)
  | inr live ↦ elim (Bool-cases (c i).valid) [
    | inl valid ↦ (
      record (c i) { locked = true },
      some-injective _ _ (sym e ∙ rw (live, valid) refl),
      refl,
      refl,
      refl,
    )
    | inr invalid ↦ elim (Bool-cases ((dinode (c i).dev (c i).inum).0 == 0)) [
      | inl no_type ↦ absurd (ground arith)
      | inr typed ↦ (
        record (c i) { locked = true; valid = true; nlink = (dinode (c i).dev (c i).inum).1 },
        some-injective _ _ (sym e ∙ rw (live, invalid, typed) refl),
        refl,
        refl,
        refl,
      )
    ]
  ]
]

iunlock-same :
    (i : ℕ) (c c' : Icache)
    → iunlock i c ≡ some c'
    → c' ≡ update c i (record (c i) { locked = false })
unfolding iunlock
iunlock-same i c c' e = ground arith

Step-Tracks : {s t : System} → Step s t → Tracks s.cache s.users → Tracks t.cache t.users
unfolding idup drop_ref
Step-Tracks {s} (gets dev inum i {c} e) t =
    Got-Tracks s dev inum (c, i) (subst (Got dev inum s.cache) e (iget-Got dev inum s.cache)) t
Step-Tracks {s} (dups i h) t =
    same_inode-Tracks s.cache s.users i (record (s.cache i) { ref = (s.cache i).ref + 1 })
      (s.users i + 1) (user_inside s.cache s.users i t h) (omega (arith, t.counts i))
      (omega (arith, t.counts i)) refl refl t
Step-Tracks {s} (locks i dinode {c} h free e) t =
    let (ip, same, er, ed, ei) = ilock-same i dinode s.cache c e in
    subst (λ q. Tracks q s.users) (sym same) (user-Tracks s i ip h er ed ei t)
Step-Tracks {s} (unlocks i {c} h e) t =
    subst (λ q. Tracks q s.users) (sym (iunlock-same i s.cache c e))
      (user-Tracks s i (record (s.cache i) { locked = false }) h refl refl refl t)
Step-Tracks {s} (links i nlink h) t =
    user-Tracks s i (record (s.cache i) { nlink = nlink }) h refl refl refl t
Step-Tracks {s} (drops i h keep) t =
    same_inode-Tracks s.cache s.users i
      (record (s.cache i) { ref = (s.cache i).ref - 1; valid = (s.cache i).valid }) (s.users i - 1)
      (user_inside s.cache s.users i t h) (omega (arith, t.counts i)) (omega (arith, t.counts i))
      refl refl t
Step-Tracks {s} (frees i h) t =
    same_inode-Tracks s.cache s.users i
      (record (s.cache i) { ref = (s.cache i).ref - 1; valid = false }) (s.users i - 1)
      (user_inside s.cache s.users i t h) (omega (arith, t.counts i)) (omega (arith, t.counts i))
      refl refl t

-- However the processes that use the inode cache interleave: the reference count of an entry is
-- the number of its users, and no two entries in use stand for the same inode.
pub Reach-Tracks : {s : System} → Reach s → Tracks s.cache s.users
Reach-Tracks (start e) =
    subst (λ s. Tracks s.cache s.users) (sym e)
      (record { counts = λ i. refl; outside = λ i h. refl; unique = λ i j h. absurd (omega arith) })
Reach-Tracks (after r step) = Step-Tracks step (Reach-Tracks r)
