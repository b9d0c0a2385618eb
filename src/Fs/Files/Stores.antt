-- ===== src/Fs/Files/Stores.antt =====
-- New bytes in a block of a file: the file stays sound, and holds them.
use cs.Prelude.{
  ℕ, ◌-◌, ◌*◌, ◌/◌, ◌%◌, ◌<◌, ◌≡◌, ◌≢◌, inl, inr, refl, sym, ◌∙◌, ap, subst, ◌==◌, ltb,
  if◌then◌else◌, Bool, Bool-cases, arith, ==_iff, ==_ne, total-same, update, update_self, update_ne,
}
use cs.Fs.{Block, Disk, Superblock}
use cs.Fs.Blocks.{bblock, bpb, is_marked}
use cs.Fs.Blocks.Bitmap.{IsBytes, in_use}
use cs.Fs.Files.{word, Inode, iblock, bsize}
use cs.Fs.Files.Slots.{
  byte_of, slot, data_slot, content, IsOutside, IsFs, IsOwned, IsFile, free_blocks,
}

not_12 : (n : ℕ) → data_slot n ≢ 12
not_12 n e = absurd (ground arith)

data_slot-injective : (n m : ℕ) → data_slot n ≡ data_slot m → n ≡ m
data_slot-injective n m e = ground arith

-- The disk with new bytes in a block outside the bitmap.
module _ (sb : Superblock) (d : Disk) (a : ℕ) (x : Block) (out : IsOutside sb a) where
  pub same_bits : (b : ℕ) → b < sb.size → in_use sb (update d a x) b ≡ in_use sb d b
  same_bits b h =
      ap (λ y. is_marked y (b % bpb)) (update_ne d a x (bblock b sb) (λ e. out b h (sym e)))

  pub same_free : free_blocks sb (update d a x) ≡ free_blocks sb d
  same_free = total-same sb.size _ _ (λ b h. ap (λ (q : Bool). if q then 0 else 1) (same_bits b h))

  stored-IsOwned : (b : ℕ) → IsOwned sb d b → IsOwned sb (update d a x) b
  stored-IsOwned b o = record {
    inside = o.inside;
    taken = same_bits b o.inside ∙ o.taken;
    outside = o.outside;
  }

  pub stored-IsFs : IsBytes x → IsFs sb d → IsFs sb (update d a x)
  stored-IsFs h f = record {
    bytes =
        λ b. elim (Bool-cases (a == b)) [ inl this ↦ rw this h | inr other ↦ rw other (f.bytes b) ];
    used = λ b l. same_bits (bblock b sb) (f.map_inside b l) ∙ f.used b l;
    map_inside = f.map_inside;
    small = f.small;
    boot_inside = f.boot_inside;
    boot_used = same_bits 0 f.boot_inside ∙ f.boot_used;
  }

  -- A file whose slots all stay.
  pub stored-IsFile :
      (ip ip' : Inode)
      → IsBytes x
      → ip'.inum ≡ ip.inum
      → ((n : ℕ) → slot ip' (update d a x) n ≡ slot ip d n)
      → IsFile sb ip d
      → IsFile sb ip' (update d a x)
  stored-IsFile ip ip' h num same f = record {
    fs = stored-IsFs h f.fs;
    inode =
        subst (λ q. IsOwned sb (update d a x) (iblock q sb)) (sym num)
          (stored-IsOwned (iblock ip.inum sb) f.inode);
    owned = λ n ne.
        subst (IsOwned sb (update d a x)) (sym (same n))
          (stored-IsOwned (slot ip d n) (f.owned n (λ z. ne (same n ∙ z))));
    no_inode = λ n e. f.no_inode n (sym (same n) ∙ e ∙ ap (λ q. iblock q sb) num);
    distinct = λ n m ne e. f.distinct n m (λ z. ne (same n ∙ z)) (sym (same n) ∙ e ∙ same m);
  }

  -- The slots stay unless it is the indirect block that is written.
  pub same_slot : (ip : Inode) → a ≢ ip.addrs 12 → (n : ℕ) → slot ip (update d a x) n ≡ slot ip d n
  same_slot ip ne n =
      ap
        (λ (y : Block).
          if ltb n 13
          then ip.addrs n
          else if ltb n 141
          then (if ip.addrs 12 == 0 then 0 else word y (4 * (n - 13)))
          else 0)
        (update_ne d a x (ip.addrs 12) ne)

-- New bytes in the block `bn` of a file.
module _ (sb : Superblock) (ip : Inode) (d : Disk) (bn a : ℕ) (x : Block) (f : IsFile sb ip d)
    (here : slot ip d (data_slot bn) ≡ a) (nonzero : a ≢ 0) (bytes : IsBytes x) where
  pub own-IsOutside : IsOutside sb a
  own-IsOutside =
      subst (IsOutside sb) here (f.owned (data_slot bn) (λ z. nonzero (sym here ∙ z))).outside

  not_indirect : a ≢ ip.addrs 12
  not_indirect e = not_12 bn (f.distinct (data_slot bn) 12 (λ z. nonzero (sym here ∙ z)) (here ∙ e))

  -- No block of the file moves.
  pub data-slot : (n : ℕ) → slot ip (update d a x) n ≡ slot ip d n
  data-slot = same_slot sb d a x own-IsOutside ip not_indirect

  pub data-IsFile : IsFile sb ip (update d a x)
  data-IsFile =
      stored-IsFile sb d a x own-IsOutside ip ip bytes refl
        (same_slot sb d a x own-IsOutside ip not_indirect) f

  pub data-content :
      (k : ℕ)
      → content ip (update d a x) k ≡ (if k / bsize == bn then x (k % bsize) else content ip d k)
  data-content k = elim (Bool-cases (k / bsize == bn)) [
    | inl this ↦
        let e : k / bsize ≡ bn = (==_iff (k / bsize) bn).0 this in
        rw this (
          ap (λ b. byte_of b (update d a x) k)
            (same_slot sb d a x own-IsOutside ip not_indirect (data_slot (k / bsize))
              ∙ ap (λ q. slot ip d (data_slot q)) e
              ∙ here)
          ∙ at_a)
    | inr other ↦ rw other (
        ap (λ b. byte_of b (update d a x) k)
          (same_slot sb d a x own-IsOutside ip not_indirect (data_slot (k / bsize)))
        ∙ elsewhere (slot ip d (data_slot (k / bsize))) refl
            (λ e. ground (arith, ==_iff (k / bsize) bn)))
  ]
    where
      at_a : byte_of a (update d a x) k ≡ x (k % bsize)
      at_a = rw (==_ne a 0 nonzero) (ap (λ (y : Block). y (k % bsize)) (update_self d a x))

      elsewhere :
          (b : ℕ)
          → b ≡ slot ip d (data_slot (k / bsize))
          → k / bsize ≢ bn
          → byte_of b (update d a x) k ≡ byte_of b d k
      elsewhere b e ne = elim (Bool-cases (b == 0)) [
        | inl z ↦ rw z refl
        | inr full ↦ rw full (
            ap (λ (y : Block). y (k % bsize))
              (update_ne d a x b (λ q. ne (
                sym (
                  data_slot-injective bn (k / bsize) (
                    f.distinct (data_slot bn) (data_slot (k / bsize)) (λ z. nonzero (sym here ∙ z))
                      (here ∙ q ∙ e)))))))
      ]
