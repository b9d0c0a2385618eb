-- ===== src/Fs/Files/Tests.antt =====
-- Reads and writes of a small file on a small disk.
use cs.Prelude.{ℕ, ◌≤◌, ◌<◌, ◌≡◌, ◌⊎◌, refl, ◌==◌, if◌then◌else◌, Option, some, none, arith}
use cs.Fs.{Block, Disk}
use cs.Fs.Blocks.Bitmap.{IsBytes}
use cs.Fs.Files.{Inode, readi, writei, Moved, refused, moved}
use cs.Fs.Files.Saving.{Saved, writei-Saved}
use cs.Fs.Files.Held.{readi-writei}
use cs.Fs.Files.Truncate.{itrunc}
use cs.Fs.Files.Truncate.Whole.{Truncated, itrunc-Truncated}
use cs.Fs.Files.Sample.{small, disk, sample, sample-IsFile, five_free}

abbrev notes : Inode
notes = sample 2 100

abbrev text : Block
text i = if i == 0 then 72 else 105

text-IsBytes : IsBytes text
text-IsBytes i = ground arith

abbrev result : Option (Inode × Disk × Moved) → Moved
result (some (ip, d, m)) = m
result none = refused

appends : result (writei small 100 20 notes disk text) ≡ moved 20
unfolding writei
appends = refl

behind_the_end : result (writei small 101 20 notes disk text) ≡ refused
unfolding writei
behind_the_end = refl

writei-Saved_example :
    (((100 < 90) ⊎ (71680 < 110))
      × (writei small 90 20 notes disk text ≡ some (notes, disk, refused)))
    ⊎ ((90 ≤ 100)
        × (110 ≤ 71680)
        × ((ip' : Inode) × (d' : Disk) × (writei small 90 20 notes disk text
              ≡ some (ip', d', moved 20))
            × Saved small 90 20 text notes disk ip' d'))
writei-Saved_example =
    writei-Saved small 90 20 notes disk text (omega arith) (omega arith) (sample-IsFile 2 100)
      text-IsBytes (λ h. omega (arith, five_free))

readi-writei_example :
    (ip' : Inode) × (d' : Disk) × (dst' : Block) × (writei small 90 20 notes disk text
      ≡ some (ip', d', moved 20))
    × (readi small 90 20 ip' d' (λ i. 0) ≡ some (ip', d', dst', moved 20))
    × ((i : ℕ) → i < 20 → dst' i ≡ text i)
    × ((k : ℕ) → 20 ≤ k → dst' k ≡ 0)
readi-writei_example =
    readi-writei small 90 20 notes disk text (λ i. 0) (sample-IsFile 2 100) text-IsBytes
      (omega arith) (omega arith) (omega arith) (omega (arith, five_free))

itrunc-Truncated_example :
    (ip' : Inode) × (d' : Disk) × (itrunc small notes disk ≡ some (ip', d'))
    × Truncated small notes disk ip' d'
itrunc-Truncated_example = itrunc-Truncated small notes disk (sample-IsFile 2 100)
