-- ===== src/Log/Crash.antt =====
-- `commit` is atomic: after a crash at any moment, recovery gives the old blocks or the new ones.
use cs.Prelude.{
  All, ℕ, ◌+◌, ◌<◌, ◌≡◌, ◌⊎◌, inl, inr, refl, sym, ◌∙◌, ap, subst, false, List, [], ◌∷◌, some,
  arith, update, update_self, update_ne, length, get_elem?, Bool-cases, ltb,
}
use cs.Log.{Fs, decode, encode, initlog, commit, write_log_from}
use cs.Log.Buffers.{Block, Disk, Store, bwrite}
use cs.Log.Header.{decode-encode}
use cs.Log.Install.{
  mem?, IsHome, Holds, Holds-update, overlay, Copied, write_log-Copied, write_log-past,
}
use cs.Log.Recovery.{
  All-get, IsView, Leads, LeadsTo, Finished, finish, finish-Finished, recover-Finished,
  recover_disk,
}

-- A log with a transaction to commit: its blocks lie outside the log and fit in it, no other
-- buffer differs from its block on disk, and the log on disk is empty.
pub record Ready (g : Fs) : Type 0 where
  pub homes : All (IsHome g.log.start g.log.size) g.log.lh
  pub fits : length g.log.lh < g.log.size
  pub clean :
      (b : ℕ)
      → IsHome g.log.start g.log.size b
      → mem? g.log.lh b ≡ false
      → g.store.mem b ≡ g.store.disk b
  pub empty : decode (g.store.disk g.log.start) ≡ []

-- The restarts after a crash: each may be cut short after some of the writes of its recovery.
pub data Restarts (start size : ℕ) (d : Disk) : Disk → Type 0 where
  none_yet : Restarts start size d d
  cut_short :
      {e f : Disk} (k : ℕ)
      → Restarts start size d e
      → get_elem? (initlog start size e).store.past k ≡ some f
      → Restarts start size d f

pub Restarts-LeadsTo :
    {start size : ℕ} {m target d e : Disk}
    → Restarts start size d e
    → LeadsTo start size m target d
    → LeadsTo start size m target e
Restarts-LeadsTo none_yet l = l
Restarts-LeadsTo {start} {size} {m} {target} (cut_short {e = e} k r c) l =
    let (hs, l') = Restarts-LeadsTo r l in
    All-get (LeadsTo start size m target) _ k (recover-Finished start size m target hs e l').past c

module _ (start size : ℕ) (hs : List ℕ) (s : Store) where
  abbrev logged : Store
  logged = write_log_from start hs 0 s

  -- `write_head` on the logged blocks.
  abbrev committed : Store
  committed = bwrite logged start (encode (logged.mem start) hs)

  -- A disk that recovery takes to the old blocks, or to the new ones.
  abbrev pub Either : Disk → Type 0
  Either d = LeadsTo start size s.mem s.disk d ⊎ LeadsTo start size s.mem s.mem d

  abbrev Old : Disk → Type 0
  Old d = Leads start size s.mem s.disk [] d

  module _ (homes : All (IsHome start size) hs) (fits : length hs < size)
      (clean : (b : ℕ) → IsHome start size b → mem? hs b ≡ false → s.mem b ≡ s.disk b)
      (empty : decode (s.disk start) ≡ []) (now : s.past ≡ []) where
    Old-now : Old s.disk
    Old-now = record {
      header = empty;
      homes = tt;
      fits = omega arith;
      copies = tt;
      view = λ b o. refl;
    }

    Old-kept :
        (d : Disk) (b : ℕ) (x : Block) → start < b → b < start + size → Old d → Old (update d b x)
    Old-kept d b x p q l = record {
      header = ap decode (update_ne d b x start (omega arith)) ∙ l.header;
      homes = tt;
      fits = l.fits;
      copies = tt;
      view = λ c o. update_ne d b x c (ground arith) ∙ l.view c o;
    }

    logged-Old : All Either logged.past × Old logged.disk
    logged-Old =
        write_log-past start size Old Either hs 0 s (λ d l. inl ([], l)) Old-kept (omega arith)
          (subst (All Either) (sym now) tt) Old-now

    c : Copied start size hs 0 s logged
    c = write_log-Copied start size hs 0 s homes (omega arith)

    new_view : (b : ℕ) → IsHome start size b → overlay hs s.mem committed.disk b ≡ s.mem b
    new_view b o = elim (Bool-cases (mem? hs b)) [
      | inl in_log ↦ rw in_log
      | inr not_in ↦ rw not_in (
          update_ne logged.disk start _ b (ground arith)
          ∙ c.disk_still b (ground arith)
          ∙ sym (clean b o not_in))
    ]

    new_now : Leads start size s.mem s.mem hs committed.disk
    new_now = record {
      header = ap decode (update_self logged.disk start _) ∙ decode-encode (logged.mem start) hs;
      homes = homes;
      fits = fits;
      copies = Holds-update start size logged.disk s.mem hs 0 start _ (inl (omega arith)) c.on_disk;
      view = new_view;
    }

    new_copies : Holds start size committed.mem s.mem hs 0
    new_copies = Holds-update start size logged.mem s.mem hs 0 start _ (inl (omega arith)) c.in_mem

    commit-Finished : Finished start size Either s.mem s.mem (finish start size hs committed)
    commit-Finished =
        finish-Finished start size Either s.mem s.mem hs committed (λ d l. inr l)
          (inl ([], logged-Old.1), logged-Old.0) new_copies new_now

mem?-nil : (hs : List ℕ) (b : ℕ) → length hs ≡ 0 → mem? hs b ≡ false
mem?-nil [] b e = refl
mem?-nil (h ∷ hs) b e = absurd (omega arith)

lh_nil : (hs : List ℕ) → ltb 0 (length hs) ≡ false → hs ≡ []
lh_nil [] e = refl
lh_nil (h ∷ hs) e = ground arith

-- What `commit` does, whether or not there is anything to commit.
record Committed (g g' : Fs) : Type 0 where
  past : All (Either g.log.start g.log.size g.log.lh g.store) g'.store.past
  view : IsView g.log.start g.log.size g'.store.disk g.store.mem
  empty : g'.log.lh ≡ []
  header : decode (g'.store.disk g.log.start) ≡ []

commit-Committed : (g : Fs) → Ready g → g.store.past ≡ [] → Committed g (commit g)
unfolding commit
commit-Committed g r now = elim (Bool-cases (ltb 0 (length g.log.lh))) [
  | inl some_logged ↦ rw some_logged (
      let f =
        commit-Finished g.log.start g.log.size g.log.lh g.store r.homes r.fits r.clean r.empty
          now in
      record { past = f.past; view = f.view; empty = refl; header = f.now.header })
  | inr none_logged ↦ rw none_logged (record {
    past = subst (All _) (sym now) tt;
    view = λ b o. sym (r.clean b o (mem?-nil g.log.lh b (ground arith)));
    empty = lh_nil g.log.lh none_logged;
    header = r.empty;
  })
]

-- A crash after any number of the writes of `commit`, and then any number of restarts that are cut
-- short in their recovery: the recovery that completes leaves outside the log either the old
-- contents of every block, or the new contents of every block.
pub commit_atomic :
    (g : Fs) (k : ℕ) {d e : Disk}
    → Ready g
    → g.store.past ≡ []
    → get_elem? (commit g).store.past k ≡ some d
    → Restarts g.log.start g.log.size d e
    → IsView g.log.start g.log.size (recover_disk g.log.start g.log.size e) g.store.disk
      ⊎ IsView g.log.start g.log.size (recover_disk g.log.start g.log.size e) g.store.mem
commit_atomic g k {d} {e} r now at_k restarts =
    elim (All-get (Either start size g.log.lh g.store) _ k (commit-Committed g r now).past at_k) [
      | inl old ↦
          let (hs, l) = Restarts-LeadsTo restarts old in
          inl (recover-Finished start size g.store.mem g.store.disk hs e l).view
      | inr new ↦
          let (hs, l) = Restarts-LeadsTo restarts new in
          inr (recover-Finished start size g.store.mem g.store.mem hs e l).view
    ]
  where
    open g.log use {start, size}

-- `commit` brings the new contents of every block home, and leaves an empty log.
pub commit_done :
    (g : Fs)
    → Ready g
    → g.store.past ≡ []
    → IsView g.log.start g.log.size (commit g).store.disk g.store.mem
      × ((commit g).log.lh ≡ [])
      × (decode ((commit g).store.disk g.log.start) ≡ [])
commit_done g r now = let c = commit-Committed g r now in (c.view, c.empty, c.header)
