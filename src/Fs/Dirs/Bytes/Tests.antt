-- ===== src/Fs/Dirs/Bytes/Tests.antt =====
-- A directory of six entries on a small disk.
use cs.Prelude.{◌/◌, ◌≡◌, sym, ◌∙◌, ap, refl, [], ◌∷◌, arith}
use cs.Fs.Files.{Inode}
use cs.Fs.Files.Slots.{slot, data_slot, IsHeld}
use cs.Fs.Files.Sample.{small, disk, sample, sample-IsFile, five_free}
use cs.Fs.Dirs.{dirlink}
use cs.Fs.Dirs.Bytes.Reading.{IsDirectory, listing}
use cs.Fs.Dirs.Bytes.Linking.{Implements, link_bytes-Implements}

-- Each entry has the inode number 7 * 257 and a name of fourteen bytes 7.
abbrev dir : Inode
dir = sample 1 96

dir-IsHeld : IsHeld dir disk 0 96
dir-IsHeld k lo hi z =
    let e : k / 512 ≡ 0 = omega arith in
    absurd (ground (arith, sym (ap (λ q. slot dir disk (data_slot q)) e) ∙ z))

dir-IsDirectory : IsDirectory small 6 dir disk
dir-IsDirectory = record {
  file = sample-IsFile 1 96;
  kind = refl;
  size = refl;
  fits = omega arith;
  held = dir-IsHeld;
}

link_bytes-Implements_example :
    Implements small (98 ∷ []) 3 dir disk (dirlink (98 ∷ []) 3 (listing 6 dir disk))
link_bytes-Implements_example =
    link_bytes-Implements small 6 (98 ∷ []) 3 dir disk dir-IsDirectory ((λ e. omega arith), tt)
      (omega arith, tt) (omega (arith, five_free))
