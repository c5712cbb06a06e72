-- ===== src/Fuse/Files.antt =====
-- The handlers of fuse.cc for attributes and content, each with what it replies. `none` is a loop of `_readdir` that never ends,
-- or an exception of the string library.
use lab_cse.Prelude.{ℕ, Bool, true, false, [], length, ◌==◌, if◌then◌else◌}
use lab_cse.Prelude.Text.{Text}
use lab_cse.Yfs.Extents.{Extents, Locks}
use lab_cse.Yfs.Operations.{ok, Fileinfo, Dirinfo}
use lab_cse.Yfs.Locked
use lab_cse.Fuse.{
  s_ifreg, s_iflnk, Stat, enoent, enosys, Reply, reply_err, reply_attr, reply_buf, reply_write,
  ToSet, with_file, with_dir, any_set,
}
use lab_cse.Fuse.Steps.{World, Run, pure, ◌>>=◌, called, called_two}

-- Where `getfile` and `getdir` fail these are not read.
abbrev no_fileinfo : Fileinfo
no_fileinfo = record { size = 0; atime = 0; mtime = 0; ctime = 0 }

abbrev no_dirinfo : Dirinfo
no_dirinfo = record { atime = 0; mtime = 0; ctime = 0 }

module _ {S L : Type 0} (e : Extents S) (lc : Locks L) where
  unfoldable pub isfile : ℕ → Run (World L S) Bool
  isfile inum w = called (Locked.isfile e lc w.0 w.1 inum)

  unfoldable pub isdir : ℕ → Run (World L S) Bool
  isdir inum w = called (Locked.isdir e lc w.0 w.1 inum)

  unfoldable pub getfile : ℕ → Run (World L S) (ℕ × Fileinfo)
  getfile inum w = called_two (Locked.getfile e lc w.0 w.1 inum no_fileinfo)

  unfoldable pub getdir : ℕ → Run (World L S) (ℕ × Dirinfo)
  getdir inum w = called_two (Locked.getdir e lc w.0 w.1 inum no_dirinfo)

  -- The branches of `getattr`.
  unfoldable pub getattr_dir : ℕ → Bool → Run (World L S) (ℕ × Stat)
  getattr_dir inum true = do info ← getdir inum; pure (with_dir inum info)
  getattr_dir inum false = do info ← getfile inum; pure (with_file (s_iflnk 511) inum info)

  unfoldable pub getattr_file : ℕ → Bool → Run (World L S) (ℕ × Stat)
  unfolding getattr_dir
  getattr_file inum true = do info ← getfile inum; pure (with_file (s_ifreg 438) inum info)
  getattr_file inum false = do d ← isdir inum; getattr_dir inum d

  -- The first call of `isfile` is for a line that is printed.
  unfoldable pub getattr : ℕ → Run (World L S) (ℕ × Stat)
  unfolding getattr_file
  getattr inum = do printed ← isfile inum; f ← isfile inum; getattr_file inum f

  unfoldable pub fuseserver_getattr : ℕ → Run (World L S) Reply
  unfolding getattr
  fuseserver_getattr ino = do
    r ← getattr ino
    pure (if r.0 == ok then reply_attr r.1 0 else reply_err enoent)

  unfoldable pub setattr : ℕ → ℕ → Run (World L S) ℕ
  setattr ino size w = called (Locked.setattr e lc w.0 w.1 ino size)

  unfoldable pub setattr_if : ℕ → ℕ → Bool → Run (World L S) Reply
  unfolding setattr getattr
  setattr_if ino size true = do
    ignored ← setattr ino size
    st ← getattr ino
    pure (reply_attr st.1 0)
  setattr_if ino size false = pure (reply_err enosys)

  -- `size` is `attr->st_size`.
  unfoldable pub fuseserver_setattr : ℕ → ℕ → ToSet → Run (World L S) Reply
  unfolding setattr_if
  fuseserver_setattr ino size to_set = setattr_if ino size (any_set to_set)

  unfoldable pub read : ℕ → ℕ → ℕ → Run (World L S) (ℕ × Text)
  read ino size off w = called_two (Locked.read e lc w.0 w.1 ino size off [])

  unfoldable pub fuseserver_read : ℕ → ℕ → ℕ → Run (World L S) Reply
  unfolding read
  fuseserver_read ino size off = do
    r ← read ino size off
    pure (if r.0 == ok then reply_buf r.1 else reply_err enoent)

  -- The same `size` goes in as the number of bytes and comes back as `bytes_written`.
  unfoldable pub write : ℕ → Text → ℕ → Run (World L S) (ℕ × ℕ)
  write ino buf off w = called_two (Locked.write e lc w.0 w.1 ino off buf (length buf))

  unfoldable pub fuseserver_write : ℕ → Text → ℕ → Run (World L S) Reply
  unfolding write
  fuseserver_write ino buf off = do
    r ← write ino buf off
    pure (if r.0 == ok then reply_write r.1 else reply_err enoent)
