-- ===== src/Fs/Dirs/Bytes/Linking.antt =====
-- dirlookup and dirlink on the bytes implement those on the list of entries.
use cs.Prelude.{
  ℕ, zero, suc, max, ◌+◌, ◌-◌, ◌*◌, ◌/◌, ◌%◌, ◌≤◌, ◌<◌, ◌≡◌, ◌≢◌, inl, inr, refl, sym, ◌∙◌, ap,
  subst, ◌==◌, ==_iff, ltb, lt→ltb, ltb→lt, if◌then◌else◌, Bool, true, false, Bool-cases, List, [],
  ◌∷◌, All, take, Option-cases, some, none, arith,
}
use cs.Fs.{Block, Disk, Superblock}
use cs.Fs.Blocks.Bitmap.{IsBytes}
use cs.Fs.Files.{Inode, bsize, max_blocks, half_byte, writei, refused, moved}
use cs.Fs.Files.Slots.{data_slot, content, free_blocks}
use cs.Fs.Files.Contents.{overlay, blocks_of}
use cs.Fs.Files.Saving.{Saved, writei-Saved}
use cs.Fs.Dirs.{
  Dirent, dirsiz, max_bytes, dirlookup, empty_from, put_entry, Linked, exists_already, linked,
  panics, dirlink,
}
use cs.Fs.Dirs.Bytes.{t_dir, entry_of, name_byte, entry_byte, find_entry, empty_bytes, link_bytes}
use cs.Fs.Dirs.Bytes.Entries.{entries, entries-same, entry_of-entry_byte, grown, put_entry-entries}
use cs.Fs.Dirs.Bytes.Reading.{
  IsDirectory, listing, lookup_bytes-entries, empty_bytes-entries, empty_from-place,
}

-- `dirlookup` of a directory: what it finds is what is found in the list of its entries, and inode and
-- disk stay as they are.
pub find_entry-dirlookup :
    (sb : Superblock) (n : ℕ) (name : List ℕ) (ip : Inode) (d : Disk)
    → IsDirectory sb n ip d
    → find_entry sb name ip d ≡ some (ip, d, dirlookup name (listing n ip d))
unfolding find_entry
find_entry-dirlookup sb n name ip d v =
    let is_dir : (ip.kind == t_dir) ≡ true = rw v.kind refl in
    rw is_dir (
      lookup_bytes-entries ip.size n 0 0 n sb name ip d v (omega arith) (omega (arith, v.size))
        (omega arith))

name_byte-bound : (name : List ℕ) (i : ℕ) → All (λ c. c < 256) name → name_byte name i < 256
unfolding name_byte
name_byte-bound [] i h = omega arith
name_byte-bound (c ∷ s) zero (h, hs) = h
name_byte-bound (c ∷ s) (suc i) (h, hs) = name_byte-bound s i hs

entry_byte-IsBytes :
    (name : List ℕ) (inum : ℕ) → All (λ c. c < 256) name → IsBytes (entry_byte name inum)
unfolding entry_byte
entry_byte-IsBytes name inum h i = elim (Bool-cases (ltb i 2)) [
  | inl number ↦ rw number (half_bound (inum % 65536) i)
  | inr text ↦ rw text (name_byte-bound name (i - 2) h)
]
  where
    half_bound : (v i : ℕ) → half_byte v i < 256
    half_bound v i = ground arith

-- What dirlink does on the bytes, when on the list of entries it does `r`.
abbrev pub Implements : Superblock → List ℕ → ℕ → Inode → Disk → Linked → Type 0
Implements sb name inum ip d exists_already = link_bytes sb name inum ip d ≡ some (ip, d, false)
Implements sb name inum ip d (linked des) =
    (n' : ℕ) × (ip' : Inode) × (d' : Disk) × (link_bytes sb name inum ip d ≡ some (ip', d', true))
    × IsDirectory sb n' ip' d'
    × (listing n' ip' d' ≡ des)
Implements sb name inum ip d panics = link_bytes sb name inum ip d ≡ none

link_bytes-found :
    (sb : Superblock) (name : List ℕ) (inum : ℕ) (ip : Inode) (d : Disk) (f : ℕ × ℕ)
    → find_entry sb name ip d ≡ some (ip, d, some f)
    → link_bytes sb name inum ip d ≡ some (ip, d, false)
unfolding link_bytes
link_bytes-found sb name inum ip d f e = rw (e, link_bytes) refl

link_bytes-refused :
    (sb : Superblock) (name : List ℕ) (inum off : ℕ) (ip : Inode) (d : Disk)
    → find_entry sb name ip d ≡ some (ip, d, none)
    → empty_bytes ip.size 0 sb ip d ≡ some (ip, d, off)
    → writei sb off 16 ip d (entry_byte name inum) ≡ some (ip, d, refused)
    → link_bytes sb name inum ip d ≡ none
unfolding link_bytes
link_bytes-refused sb name inum off ip d e f w = rw (e, f, w, link_bytes) refl

link_bytes-moved :
    (sb : Superblock) (name : List ℕ) (inum off : ℕ) (ip ip' : Inode) (d d' : Disk)
    → find_entry sb name ip d ≡ some (ip, d, none)
    → empty_bytes ip.size 0 sb ip d ≡ some (ip, d, off)
    → writei sb off 16 ip d (entry_byte name inum) ≡ some (ip', d', moved 16)
    → link_bytes sb name inum ip d ≡ some (ip', d', true)
unfolding link_bytes
link_bytes-moved sb name inum off ip ip' d d' e f w = rw (e, f, w, link_bytes) refl

put_at_start :
    (c : ℕ → ℕ) (src : Block) (n i : ℕ)
    → i ≤ n
    → put_entry 0 (16 * i) (entry_of src) (entries c n 0)
      ≡ entries (overlay c (16 * i) 16 src) (grown n i) 0
put_at_start c src n i le =
    let e : 0 + i ≡ i = omega arith in
    subst
      (λ q.
        put_entry 0 (16 * q) (entry_of src) (entries c n 0)
        ≡ entries (overlay c (16 * q) 16 src) (grown n i) 0)
      e (put_entry-entries c src n 0 i le)

dirlink-found :
    (name : List ℕ) (inum : ℕ) (des : List Dirent) (f : ℕ × ℕ)
    → dirlookup name des ≡ some f
    → dirlink name inum des ≡ exists_already
unfolding dirlink
dirlink-found name inum des f e = rw (e, dirlink) refl

dirlink-full :
    (name : List ℕ) (inum off : ℕ) (des : List Dirent)
    → dirlookup name des ≡ none
    → empty_from 0 des ≡ off
    → ltb max_bytes (off + 16) ≡ true
    → dirlink name inum des ≡ panics
unfolding dirlink
dirlink-full name inum off des e f h = rw (e, f, h, dirlink) refl

dirlink-put :
    (name : List ℕ) (inum off : ℕ) (des : List Dirent)
    → dirlookup name des ≡ none
    → empty_from 0 des ≡ off
    → ltb max_bytes (off + 16) ≡ false
    → dirlink name inum des
      ≡ linked (put_entry 0 off (record { inum = inum % 65536; name = take dirsiz name }) des)
unfolding dirlink
dirlink-put name inum off des e f h = rw (e, f, h, dirlink) refl

-- The directory with an entry written.
written-IsDirectory :
    (sb : Superblock) (n i : ℕ) (src : Block) (ip ip' : Inode) (d d' : Disk)
    → IsDirectory sb n ip d
    → i ≤ n
    → 16 * i + 16 ≤ max_blocks * bsize
    → Saved sb (16 * i) 16 src ip d ip' d'
    → IsDirectory sb (grown n i) ip' d'
      × (listing (grown n i) ip' d' ≡ put_entry 0 (16 * i) (entry_of src) (listing n ip d))
written-IsDirectory sb n i src ip ip' d d' v le small s = (
  record {
    file = s.valid;
    kind = s.same_kind ∙ v.kind;
    size = s.new_size ∙ ap (λ q. max q (16 * i + 16)) v.size ∙ larger n i le;
    fits = bounded n i v.fits small;
    held = λ k lo hi. elim (Bool-cases (ltb k (16 * n))) [
      | inl before ↦
          let ne = v.held k lo (ltb→lt k (16 * n) before) in
          λ z. ne (sym (s.stays (data_slot (k / bsize)) ne) ∙ z)
      | inr new ↦ let r = at_end n i k le (ground arith) hi in s.held k r.0 r.1
    ];
  },
  entries-same (content ip' d') (overlay (content ip d) (16 * i) 16 src) (grown n i) 0
        (λ j lo hi. s.holds j)
      ∙ sym (put_at_start (content ip d) src n i le),
)
  where
    larger : (n i : ℕ) → i ≤ n → max (16 * n) (16 * i + 16) ≡ 16 * grown n i
    larger n i le = elim (Bool-cases (i == n)) [
      | inl end ↦ let e : i ≡ n = (==_iff i n).0 end in rw end (omega arith)
      | inr inside ↦
          let ne : i ≢ n = λ q. ground (arith, ==_iff i n) in rw inside (omega (arith, ne))
    ]

    bounded :
        (n i : ℕ)
        → 16 * n ≤ max_blocks * bsize
        → 16 * i + 16 ≤ max_blocks * bsize
        → 16 * grown n i ≤ max_blocks * bsize
    bounded n i a b = elim (Bool-cases (i == n)) [
      | inl end ↦ let e : i ≡ n = (==_iff i n).0 end in rw end (omega arith)
      | inr inside ↦ rw inside a
    ]

    at_end :
        (n i k : ℕ) → i ≤ n → 16 * n ≤ k → k < 16 * grown n i → (16 * i ≤ k) × (k < 16 * i + 16)
    at_end n i k le lo hi = elim (Bool-cases (i == n)) [
      | inl end ↦
          let e : i ≡ n = (==_iff i n).0 end in
          let h : k < 16 * (n + 1) = ap_lt end hi in (omega arith, omega arith)
      | inr inside ↦ let h : k < 16 * n = ap_lt inside hi in absurd (omega arith)
    ]
      where
        ap_lt : {b : Bool} → (i == n) ≡ b → k < 16 * grown n i → k < 16 * (if b then n + 1 else n)
        ap_lt e h = subst (λ b. k < 16 * (if b then n + 1 else n)) e h

-- `dirlink` of a name without a 0 in a directory, with two free blocks, implements the `dirlink` of
-- lists of entries: it returns -1 and changes nothing if the name is there, panics if there is no
-- room, and otherwise returns 0 and leaves a directory whose entries are those that the function on
-- lists gives.
pub link_bytes-Implements :
    (sb : Superblock) (n : ℕ) (name : List ℕ) (inum : ℕ) (ip : Inode) (d : Disk)
    → IsDirectory sb n ip d
    → All (λ c. c ≢ 0) name
    → All (λ c. c < 256) name
    → 2 ≤ free_blocks sb d
    → Implements sb name inum ip d (dirlink name inum (listing n ip d))
link_bytes-Implements sb n name inum ip d v full bytes room =
    let (i, le, e) = empty_from-place n 0 (content ip d) in
    let place : empty_from 0 (listing n ip d) ≡ 16 * i = e ∙ plus i in
    let looked = find_entry-dirlookup sb n name ip d v in
    let empty : empty_bytes ip.size 0 sb ip d ≡ some (ip, d, 16 * i) =
      empty_bytes-entries ip.size n 0 0 n sb ip d v (omega arith) (omega (arith, v.size))
        (omega arith)
      ∙ ap (λ q. some (ip, d, q)) place in
    elim (Option-cases (dirlookup name (listing n ip d))) [
      | inr (f, found) ↦
          subst (Implements sb name inum ip d)
            (sym (dirlink-found name inum (listing n ip d) f found))
            (link_bytes-found sb name inum ip d f (looked ∙ ap (λ q. some (ip, d, q)) found))
      | inl missing ↦
          let looked' = looked ∙ ap (λ q. some (ip, d, q)) missing in
          elim (writei-Saved sb (16 * i) 16 ip d (entry_byte name inum) (omega (arith, v.fits))
            (omega arith) v.file (entry_byte-IsBytes name inum bytes) (λ h. one_block i room)) [
              | inl (inl far, w) ↦ absurd (omega (arith, v.size))
              | inl (inr large, w) ↦
                  subst (Implements sb name inum ip d)
                    (sym (
                      dirlink-full name inum (16 * i) (listing n ip d) missing place
                        (lt→ltb max_bytes (16 * i + 16) large)))
                    (link_bytes-refused sb name inum (16 * i) ip d looked' empty w)
              | inr (near, fits, (ip', d', w, s)) ↦
                  let (is_dir, same) =
                    written-IsDirectory sb n i (entry_byte name inum) ip ip' d d' v le fits s in
                  subst (Implements sb name inum ip d)
                    (sym (
                      dirlink-put name inum (16 * i) (listing n ip d) missing place
                        (not_above (16 * i + 16) fits)))
                    (
                      grown n i,
                      ip',
                      d',
                      link_bytes-moved sb name inum (16 * i) ip ip' d d' looked' empty w,
                      is_dir,
                      same
                          ∙ ap (λ de. put_entry 0 (16 * i) de (listing n ip d))
                              (entry_of-entry_byte name inum full),
                    )
            ]
    ]
  where
    plus : (i : ℕ) → 16 * (0 + i) ≡ 16 * i
    plus i = omega arith

    one_block : (i : ℕ) → 2 ≤ free_blocks sb d → 2 * blocks_of (16 * i) 16 ≤ free_blocks sb d
    one_block i room = omega arith

    not_above : (k : ℕ) → k ≤ max_blocks * bsize → ltb max_bytes k ≡ false
    not_above k h = ground arith
