-- ===== src/Log/Install.antt =====
-- The loops of `install_trans` and `write_log`, and the disks that they pass through.
use cs.Prelude.{
  All, ℕ, ◌+◌, ◌≤◌, ◌<◌, ◌≡◌, ◌⊎◌, inl, inr, refl, sym, ◌∙◌, subst, Bool, true, false, ◌==◌, ◌||◌,
  if◌then◌else◌, List, [], ◌∷◌, arith, update, update_self, update_ne, length, Bool-cases,
}
use cs.Log.{install_from, write_log_from}
use cs.Log.Buffers.{Block, Disk, Store, bwrite}

abbrev pub mem? : List ℕ → ℕ → Bool
mem? [] b = false
mem? (h ∷ hs) b = h == b || mem? hs b

or_true : (b : Bool) → (b || true) ≡ true
or_true true = refl
or_true false = refl

-- The blocks of `m` where `hs` names them, and of `d` elsewhere.
abbrev pub overlay : List ℕ → Disk → Disk → Disk
overlay hs m d b = if mem? hs b then m b else d b

overlay-update :
    (y : ℕ) (hs : List ℕ) (m d : Disk) (b : ℕ)
    → overlay hs m (update d y (m y)) b ≡ overlay (y ∷ hs) m d b
overlay-update y hs m d b = elim (Bool-cases (y == b)) [
  | inl here ↦ let e : y ≡ b = ground arith in rw e (ground arith)
  | inr there ↦ rw there
]

module _ (start size : ℕ) where
  -- A block outside the log area.
  abbrev pub IsHome : ℕ → Type 0
  IsHome b = (b < start) ⊎ (start + size ≤ b)

  -- From slot `i` on, the log blocks on `d` are copies of the blocks `hs` of `m`.
  abbrev pub Holds : Disk → Disk → List ℕ → ℕ → Type 0
  Holds d m [] i = Unit
  Holds d m (h ∷ hs) i = (d (start + i + 1) ≡ m h) × Holds d m hs (i + 1)

  -- A write outside the slots from `i` on.
  pub Holds-update :
      (d m : Disk) (hs : List ℕ) (i b : ℕ) (x : Block)
      → b ≤ start + i ⊎ start + i + length hs < b
      → Holds d m hs i
      → Holds (update d b x) m hs i
  Holds-update d m [] i b x o h = tt
  Holds-update d m (y ∷ hs) i b x o h = (
    update_ne d b x (start + i + 1) (ground arith) ∙ h.0,
    Holds-update d m hs (i + 1) b x (ground arith) h.1,
  )

  pub Holds-update_home :
      (d m : Disk) (hs : List ℕ) (i b : ℕ) (x : Block)
      → IsHome b
      → i + length hs < size
      → Holds d m hs i
      → Holds (update d b x) m hs i
  Holds-update_home d m hs i b x o l h = Holds-update d m hs i b x (ground arith) h

  -- The loop of `write_log` copies the blocks into the slots, on disk too, and touches no other.
  pub record Copied (hs : List ℕ) (i : ℕ) (s t : Store) : Type 0 where
    pub on_disk : Holds t.disk s.mem hs i
    pub in_mem : Holds t.mem s.mem hs i
    pub disk_still : (b : ℕ) → b ≤ start + i ⊎ start + i + length hs < b → t.disk b ≡ s.disk b
    pub mem_still : (b : ℕ) → b ≤ start + i ⊎ start + i + length hs < b → t.mem b ≡ s.mem b

  Holds-ext :
      (d d' m m' : Disk) (hs : List ℕ) (i : ℕ)
      → ((b : ℕ) → start + i < b → b ≤ start + i + length hs → d' b ≡ d b)
      → All IsHome hs
      → ((b : ℕ) → IsHome b → m' b ≡ m b)
      → Holds d m hs i
      → Holds d' m' hs i
  Holds-ext d d' m m' [] i e o f h = tt
  Holds-ext d d' m m' (y ∷ hs) i e o f h = (
    e (start + i + 1) (omega arith) (omega arith) ∙ h.0 ∙ sym (f y o.0),
    Holds-ext d d' m m' hs (i + 1) (λ b p q. e b (omega arith) (omega arith)) o.1 f h.1,
  )

  copied_more :
      (y : ℕ) (hs : List ℕ) (i : ℕ) (s t : Store)
      → All IsHome (y ∷ hs)
      → i + length (y ∷ hs) < size
      → Copied hs (i + 1) (bwrite s (start + i + 1) (s.mem y)) t
      → Copied (y ∷ hs) i s t
  copied_more y hs i s t o l c = record {
    on_disk = (
      c.disk_still (start + i + 1) (inl (omega arith))
          ∙ update_self s.disk (start + i + 1) (s.mem y),
      Holds-ext t.disk t.disk (update s.mem (start + i + 1) (s.mem y)) s.mem hs (i + 1)
          (λ b p q. refl) o.1 other c.on_disk,
    );
    in_mem = (
      c.mem_still (start + i + 1) (inl (omega arith)) ∙ update_self s.mem (start + i + 1) (s.mem y),
      Holds-ext t.mem t.mem (update s.mem (start + i + 1) (s.mem y)) s.mem hs (i + 1)
          (λ b p q. refl) o.1 other c.in_mem,
    );
    disk_still = λ b h.
        c.disk_still b (ground arith) ∙ update_ne s.disk (start + i + 1) (s.mem y) b (ground arith);
    mem_still = λ b h.
        c.mem_still b (ground arith) ∙ update_ne s.mem (start + i + 1) (s.mem y) b (ground arith);
  }
    where
      other : (b : ℕ) → IsHome b → s.mem b ≡ update s.mem (start + i + 1) (s.mem y) b
      other b h = sym (update_ne s.mem (start + i + 1) (s.mem y) b (ground arith))

  pub write_log-Copied :
      (hs : List ℕ) (i : ℕ) (s : Store)
      → All IsHome hs
      → i + length hs < size
      → Copied hs i s (write_log_from start hs i s)
  unfolding write_log_from
  write_log-Copied [] i s o l = record {
    on_disk = tt;
    in_mem = tt;
    disk_still = λ b h. refl;
    mem_still = λ b h. refl;
  }
  write_log-Copied (y ∷ hs) i s o l =
      copied_more y hs i s _ o l
        (write_log-Copied hs (i + 1) (bwrite s (start + i + 1) (s.mem y)) o.1 (omega arith))

  -- If `P` survives every write to a slot, all the disks of the loop of `write_log` satisfy it.
  pub write_log-past {ℓ κ} :
      (P : Disk → Type ℓ) (Q : Disk → Type κ) (hs : List ℕ) (i : ℕ) (s : Store)
      → ((d : Disk) → P d → Q d)
      → ((d : Disk) (b : ℕ) (x : Block) → start < b → b < start + size → P d → P (update d b x))
      → i + length hs < size
      → All Q s.past
      → P s.disk
      → All Q (write_log_from start hs i s).past × P (write_log_from start hs i s).disk
  unfolding write_log_from
  write_log-past P Q [] i s weak keep l past now = (past, now)
  write_log-past P Q (y ∷ hs) i s weak keep l past now =
      write_log-past P Q hs (i + 1) (bwrite s (start + i + 1) (s.mem y)) weak keep (omega arith)
        (weak s.disk now, past)
        (keep s.disk (start + i + 1) (s.mem y) (omega arith) (omega arith) now)

  -- The loop of `install_trans` brings the logged data home, in the cache and on disk.
  pub install_lem :
      (m : Disk) (hs : List ℕ) (i : ℕ) (s : Store)
      → All IsHome hs
      → i + length hs < size
      → Holds s.mem m hs i
      → (b : ℕ)
      → ((install_from start hs i s).disk b ≡ overlay hs m s.disk b)
        × ((install_from start hs i s).mem b ≡ overlay hs m s.mem b)
  unfolding install_from
  install_lem m [] i s o l h b = (refl, refl)
  install_lem m (y ∷ hs) i s o l h b =
      subst
        (λ x.
          ((install_from start hs (i + 1) (bwrite s y x)).disk b ≡ overlay (y ∷ hs) m s.disk b)
          × ((install_from start hs (i + 1) (bwrite s y x)).mem b ≡ overlay (y ∷ hs) m s.mem b))
        (sym h.0)
        (let ih =
            install_lem m hs (i + 1) (bwrite s y (m y)) o.1 (omega arith)
              (Holds-update_home s.mem m hs (i + 1) y (m y) o.0 (omega arith) h.1) b in
          (ih.0 ∙ overlay-update y hs m s.disk b, ih.1 ∙ overlay-update y hs m s.mem b))

  -- If `P` survives every write of a logged block home, so do the disks of `install_trans`.
  pub install-past {ℓ κ} :
      (P : Disk → Type ℓ) (Q : Disk → Type κ) (m : Disk) (hs : List ℕ) (i : ℕ) (s : Store)
      → ((d : Disk) → P d → Q d)
      → ((d : Disk) (b : ℕ) → mem? hs b ≡ true → P d → P (update d b (m b)))
      → All IsHome hs
      → i + length hs < size
      → Holds s.mem m hs i
      → All Q s.past
      → P s.disk
      → All Q (install_from start hs i s).past × P (install_from start hs i s).disk
  unfolding install_from
  install-past P Q m [] i s weak keep o l h past now = (past, now)
  install-past P Q m (y ∷ hs) i s weak keep o l h past now =
      subst
        (λ x.
          All Q (install_from start hs (i + 1) (bwrite s y x)).past
          × P (install_from start hs (i + 1) (bwrite s y x)).disk)
        (sym h.0)
        (install-past P Q m hs (i + 1) (bwrite s y (m y)) weak
          (λ d b e p. keep d b (rw e (or_true (y == b))) p) o.1 (omega arith)
          (Holds-update_home s.mem m hs (i + 1) y (m y) o.0 (omega arith) h.1)
          (weak s.disk now, past) (keep s.disk y (ground arith) now))
