-- ===== src/Yfs/Locked.antt =====
-- The operations of yfs_client.cc that others call: each takes the lock of one inode, runs the
-- operation, and releases the lock. `s` is the state of the extents when `acquire` has returned.
use lab_cse.Prelude.{ℕ, Bool, Option, none, some, List}
use lab_cse.Prelude.Text.{Text}
use lab_cse.Yfs.Format.{Dirent}
use lab_cse.Yfs.Extents.{Extents, Locks}
use lab_cse.Yfs.Operations
use lab_cse.Yfs.Operations.{Fileinfo, Dirinfo}

module _ {S L : Type 0} (e : Extents S) (lc : Locks L) where
  unfoldable pub finish : {A : Type 0} → L → ℕ → Option (S × A) → Option (L × S × A)
  finish l inum none = none
  finish l inum (some (s, a)) = some (lc.release l inum, s, a)

  -- The same for an operation with one more output.
  unfoldable pub finish_two : {A B : Type 0} → L → ℕ → Option (S × A × B) → Option (L × S × A × B)
  finish_two l inum none = none
  finish_two l inum (some (s, a, b)) = some (lc.release l inum, s, a, b)

  unfoldable pub isfile : L → S → ℕ → Option (L × S × Bool)
  unfolding finish
  isfile l s inum = finish (lc.acquire l inum) inum (some (Operations.isfile e s inum))

  unfoldable pub isdir : L → S → ℕ → Option (L × S × Bool)
  unfolding finish
  isdir l s inum = finish (lc.acquire l inum) inum (some (Operations.isdir e s inum))

  unfoldable pub getfile : L → S → ℕ → Fileinfo → Option (L × S × ℕ × Fileinfo)
  unfolding finish_two
  getfile l s inum fin =
      finish_two (lc.acquire l inum) inum (some (Operations.getfile e s inum fin))

  unfoldable pub getdir : L → S → ℕ → Dirinfo → Option (L × S × ℕ × Dirinfo)
  unfolding finish_two
  getdir l s inum din = finish_two (lc.acquire l inum) inum (some (Operations.getdir e s inum din))

  unfoldable pub setattr : L → S → ℕ → ℕ → Option (L × S × ℕ)
  unfolding finish
  setattr l s ino size = finish (lc.acquire l ino) ino (some (Operations.setattr e s ino size))

  unfoldable pub create : L → S → ℕ → ℕ → Text → Option (L × S × ℕ × ℕ)
  unfolding finish_two
  create l s junk parent name =
      finish_two (lc.acquire l parent) parent (Operations.create e s junk parent name)

  unfoldable pub mkdir : L → S → ℕ → ℕ → Text → Option (L × S × ℕ × ℕ)
  unfolding finish_two
  mkdir l s junk parent name =
      finish_two (lc.acquire l parent) parent (Operations.mkdir e s junk parent name)

  unfoldable pub lookup : L → S → ℕ → ℕ → Text → Option (L × S × ℕ × Option ℕ)
  unfolding finish_two
  lookup l s junk parent name =
      finish_two (lc.acquire l parent) parent (Operations.lookup e s junk parent name)

  unfoldable pub readdir : L → S → ℕ → ℕ → Option (L × S × ℕ × List Dirent)
  unfolding finish_two
  readdir l s junk dir = finish_two (lc.acquire l dir) dir (Operations.readdir e s junk dir)

  unfoldable pub read : L → S → ℕ → ℕ → ℕ → Text → Option (L × S × ℕ × Text)
  unfolding finish_two
  read l s ino size off old =
      finish_two (lc.acquire l ino) ino (some (Operations.read e s ino size off old))

  unfoldable pub write : L → S → ℕ → ℕ → Text → ℕ → Option (L × S × ℕ × ℕ)
  unfolding finish_two
  write l s ino off bytes bytes_written =
      finish_two (lc.acquire l ino) ino (some (Operations.write e s ino off bytes bytes_written))

  unfoldable pub unlink : L → S → ℕ → ℕ → Text → Option (L × S × ℕ)
  unfolding finish
  unlink l s junk parent name =
      finish (lc.acquire l parent) parent (Operations.unlink e s junk parent name)

  unfoldable pub symlink : L → S → ℕ → ℕ → Text → Text → Option (L × S × ℕ × ℕ)
  unfolding finish_two
  symlink l s junk parent name target =
      finish_two (lc.acquire l parent) parent (Operations.symlink e s junk parent name target)

  unfoldable pub readlink : L → S → ℕ → Option (L × S × ℕ × Text)
  unfolding finish_two
  readlink l s ino = finish_two (lc.acquire l ino) ino (some (Operations.readlink e s ino))
