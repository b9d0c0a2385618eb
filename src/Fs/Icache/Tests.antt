-- ===== src/Fs/Icache/Tests.antt =====
-- Runs of the inode cache, and its theorems at them.
use cs.Prelude.{◌≡◌, refl, some, update}
use cs.Fs.Icache.{iget}
use cs.Fs.Icache.Get.{renamed, shared}
use cs.Fs.Icache.System.{System, Reach, Tracks, boot, start, after, gets, Reach-Tracks}

first : iget 1 1 boot.cache ≡ some (renamed 1 1 0 boot.cache, 0)
unfolding iget
first = refl

abbrev with_root : System
with_root = record { cache = renamed 1 1 0 boot.cache; users = update boot.users 0 1 }

again : iget 1 1 with_root.cache ≡ some (shared 0 with_root.cache, 0)
unfolding iget
again = refl

root_reach : Reach with_root
root_reach = after (start refl) (gets 1 1 0 first)

Tracks-reached_example : Tracks with_root.cache with_root.users
Tracks-reached_example = Reach-Tracks root_reach
