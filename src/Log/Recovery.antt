-- ===== src/Log/Recovery.antt =====
-- `recover_from_log`: what the disk holds after a restart, and after restarts that are cut short.
use cs.Prelude.{
  All, ℕ, zero, suc, ◌<◌, ◌≡◌, inl, inr, ◌≢◌, sym, ◌∙◌, ap, subst, true, ◌==◌, List, [], ◌∷◌, some,
  arith, update, update_self, update_ne, length, get_elem?, Bool-cases,
}
use cs.Log.{decode, encode, install_from, initlog}
use cs.Log.Buffers.{Block, Disk, Store, bwrite, boot}
use mathlib.Core.Option.{some-injective}
use cs.Log.Header.{decode-encode}
use cs.Log.Install.{mem?, IsHome, Holds, Holds-update_home, overlay, install_lem, install-past}

pub All-get {ℓ κ} :
    {A : Type ℓ} (P : A → Type κ) (xs : List A) (k : ℕ) {x : A}
    → All P xs
    → get_elem? xs k ≡ some x
    → P x
All-get P [] k h e = cc
All-get P (y ∷ xs) zero h e = subst P (some-injective _ _ e) h.0
All-get P (y ∷ xs) (suc k) h e = All-get P xs k h.1 e

module _ (start size : ℕ) where
  -- What `initlog` makes of a disk.
  abbrev pub recover_disk : Disk → Disk
  recover_disk d = (initlog start size d).store.disk

  -- The blocks outside the log area are those of `target`.
  abbrev pub IsView : Disk → Disk → Type 0
  IsView d target = (b : ℕ) → IsHome start size b → d b ≡ target b

  -- A disk on which a crash may have left the transaction `logged`: its log holds those blocks of
  -- `m`, and with them brought home the disk is `target`.
  pub record Leads (m target : Disk) (logged : List ℕ) (d : Disk) : Type 0 where
    pub header : decode (d start) ≡ logged
    pub homes : All (IsHome start size) logged
    pub fits : length logged < size
    pub copies : Holds start size d m logged 0
    pub view : (b : ℕ) → IsHome start size b → overlay logged m d b ≡ target b

  home-ne-start : {b : ℕ} → IsHome start size b → 0 < size → b ≢ start
  home-ne-start o l = ground arith

  mem?-IsHome :
      (hs : List ℕ) (b : ℕ) → All (IsHome start size) hs → mem? hs b ≡ true → IsHome start size b
  mem?-IsHome [] b o e = cc
  mem?-IsHome (h ∷ hs) b o e = elim (Bool-cases (h == b)) [
    | inl here ↦ subst (IsHome start size) (ground arith) o.0
    | inr there ↦ mem?-IsHome hs b o.1 (rw there at e)
  ]

  overlay-mem :
      (hs : List ℕ) (m d : Disk) (b c : ℕ)
      → mem? hs b ≡ true
      → overlay hs m (update d b (m b)) c ≡ overlay hs m d c
  overlay-mem hs m d b c e = elim (Bool-cases (b == c)) [
    | inl here ↦
        let same : b ≡ c = ground arith in let e' : mem? hs c ≡ true = rw (← same) e in rw e'
    | inr there ↦ rw there
  ]

  -- One more block brought home leads to the same disk.
  pub Leads-install :
      (m target : Disk) (hs : List ℕ) (d : Disk) (b : ℕ)
      → mem? hs b ≡ true
      → Leads m target hs d
      → Leads m target hs (update d b (m b))
  Leads-install m target hs d b e l = record {
    header =
        ap decode (update_ne d b (m b) start (home-ne-start home (omega (arith, l.fits))))
        ∙ l.header;
    homes = l.homes;
    fits = l.fits;
    copies = Holds-update_home start size d m hs 0 b (m b) home (omega (arith, l.fits)) l.copies;
    view = λ c o. overlay-mem hs m d b c e ∙ l.view c o;
  }
    where
      home : IsHome start size b
      home = mem?-IsHome hs b l.homes e

  -- With all blocks home, the cleared header leads to the same disk too.
  pub Leads-clear :
      (m target d : Disk) (x : Block)
      → 0 < size
      → IsView d target
      → Leads m target [] (update d start (encode x []))
  Leads-clear m target d x pos v = record {
    header = ap decode (update_self d start (encode x [])) ∙ decode-encode x [];
    homes = tt;
    fits = pos;
    copies = tt;
    view = λ c o. update_ne d start (encode x []) c (ground arith) ∙ v c o;
  }

  abbrev pub LeadsTo : Disk → Disk → Disk → Type 0
  LeadsTo m target d = (hs : List ℕ) × Leads m target hs d

  -- The store after `install_trans`, started where the log holds the blocks of `m`.
  abbrev pub installed : List ℕ → Store → Store
  installed hs s = install_from start hs 0 s

  installed-IsView :
      (m target : Disk) (hs : List ℕ) (s : Store)
      → Holds start size s.mem m hs 0
      → Leads m target hs s.disk
      → IsView (installed hs s).disk target
  installed-IsView m target hs s h l b o =
      (install_lem start size m hs 0 s l.homes (omega (arith, l.fits)) h b).0 ∙ l.view b o

  -- `install_trans`, `log.lh.n = 0`, `write_head`.
  pub record Finished (Q : Disk → Type 0) (m target : Disk) (t : Store) : Type 0 where
    pub past : All Q t.past
    pub now : Leads m target [] t.disk
    pub view : IsView t.disk target

  abbrev pub finish : List ℕ → Store → Store
  finish hs s = let t = installed hs s in bwrite t start (encode (t.mem start) [])

  pub finish-Finished :
      (Q : Disk → Type 0) (m target : Disk) (hs : List ℕ) (s : Store)
      → ((d : Disk) → LeadsTo m target d → Q d)
      → All Q s.past
      → Holds start size s.mem m hs 0
      → Leads m target hs s.disk
      → Finished Q m target (finish hs s)
  finish-Finished Q m target hs s weak past h l = record {
    past = (weak _ (hs, walk.1), walk.0);
    now = Leads-clear m target t.disk (t.mem start) (omega (arith, l.fits)) v;
    view =
        λ b o. update_ne t.disk start (encode (t.mem start) []) b (ground (arith, l.fits)) ∙ v b o;
  }
    where
      t : Store
      t = installed hs s

      v : IsView t.disk target
      v = installed-IsView m target hs s h l

      walk : All Q t.past × Leads m target hs t.disk
      walk =
          install-past start size (Leads m target hs) Q m hs 0 s (λ d l'. weak d (hs, l'))
            (Leads-install m target hs) l.homes (omega (arith, l.fits)) h past l

  -- On a disk that a crash has left, recovery makes the disk that it leads to, and so does a
  -- recovery of any disk that it passes through.
  pub recover-Finished :
      (m target : Disk) (hs : List ℕ) (d : Disk)
      → Leads m target hs d
      → Finished (LeadsTo m target) m target (initlog start size d).store
  unfolding initlog
  recover-Finished m target hs d l =
      subst (λ x. Finished (LeadsTo m target) m target (finish x (boot d))) (sym l.header)
        (finish-Finished (LeadsTo m target) m target hs (boot d) (λ e l'. l') tt l.copies l)
