-- ===== src/Fuse/Handlers.antt =====
-- The handlers of fuse.cc for names and directories, each with what it replies. `none` is a loop of `_readdir` that never ends,
-- or an exception of the string library. `junk` is what a number that is not set holds. The
-- names that FUSE passes have no zero byte.
use lab_cse.Prelude.{ℕ, Bool, true, false, Option, none, some, List, ◌==◌, if◌then◌else◌}
use lab_cse.Prelude.Text.{Text}
use lab_cse.Yfs.Format.{Dirent}
use lab_cse.Yfs.Extents.{Extents, Locks, t_file, t_dir}
use lab_cse.Yfs.Operations.{ok, exist}
use lab_cse.Yfs.Locked
use lab_cse.Fuse.{
  EntryParam, enoent, eexist, enotdir, Reply, reply_err, reply_buf, reply_create, reply_entry,
  reply_open, reply_statfs, reply_readlink, zero_stat, entry_param, made, unlinked, c_str,
}
use lab_cse.Fuse.Steps.{World, Run, pure, ◌>>=◌, called, called_two}
use lab_cse.Fuse.Listing.{empty_buf, Dirents, add_all, limited}
use lab_cse.Fuse.Files.{isdir, getattr}

module _ {S L : Type 0} (e : Extents S) (lc : Locks L) where
  unfoldable pub create : ℕ → ℕ → Text → Run (World L S) (ℕ × ℕ)
  create junk parent name w = called_two (Locked.create e lc w.0 w.1 junk parent name)

  unfoldable pub mkdir : ℕ → ℕ → Text → Run (World L S) (ℕ × ℕ)
  mkdir junk parent name w = called_two (Locked.mkdir e lc w.0 w.1 junk parent name)

  unfoldable pub created : ℕ × ℕ → Run (World L S) (ℕ × EntryParam)
  unfolding getattr
  created (r, inum) = do st ← getattr e lc inum; pure (st.0, entry_param inum st.1)

  -- Where `create` or `mkdir` fails the entry is not read.
  unfoldable pub created_if : ℕ × ℕ → Bool → Run (World L S) (ℕ × EntryParam)
  unfolding created
  created_if r true = created r
  created_if r false = pure (r.0, entry_param r.1 (zero_stat r.1))

  unfoldable pub create_or_mkdir : ℕ → ℕ → Text → Bool → Run (World L S) (ℕ × ℕ)
  unfolding create mkdir
  create_or_mkdir junk parent name true = create junk parent name
  create_or_mkdir junk parent name false = mkdir junk parent name

  unfoldable pub fuseserver_createhelper : ℕ → ℕ → Text → ℕ → Run (World L S) (ℕ × EntryParam)
  unfolding create_or_mkdir created_if
  fuseserver_createhelper junk parent name kind = do
    r ← create_or_mkdir junk parent name (kind == t_file)
    created_if r (r.0 == ok)

  unfoldable pub fuseserver_create : ℕ → ℕ → Text → Run (World L S) Reply
  unfolding fuseserver_createhelper
  fuseserver_create junk parent name = do
    r ← fuseserver_createhelper junk parent name t_file
    pure (made reply_create r)

  unfoldable pub fuseserver_mknod : ℕ → ℕ → Text → Run (World L S) Reply
  unfolding fuseserver_createhelper
  fuseserver_mknod junk parent name = do
    r ← fuseserver_createhelper junk parent name t_file
    pure (made reply_entry r)

  unfoldable pub fuseserver_mkdir : ℕ → ℕ → Text → Run (World L S) Reply
  unfolding fuseserver_createhelper
  fuseserver_mkdir junk parent name = do
    r ← fuseserver_createhelper junk parent name t_dir
    pure (made reply_entry r)

  unfoldable pub lookup : ℕ → ℕ → Text → Run (World L S) (ℕ × Option ℕ)
  lookup junk parent name w = called_two (Locked.lookup e lc w.0 w.1 junk parent name)

  unfoldable pub looked_up : Option ℕ → Run (World L S) Reply
  unfolding getattr
  looked_up none = pure (reply_err enoent)
  looked_up (some ino) = do st ← getattr e lc ino; pure (reply_entry (entry_param ino st.1))

  unfoldable pub fuseserver_lookup : ℕ → ℕ → Text → Run (World L S) Reply
  unfolding lookup looked_up
  fuseserver_lookup junk parent name = do r ← lookup junk parent name; looked_up r.1

  unfoldable pub readdir : ℕ → ℕ → Run (World L S) (ℕ × List Dirent)
  readdir junk dir w = called_two (Locked.readdir e lc w.0 w.1 junk dir)

  unfoldable pub readdir_if : Dirents → ℕ → ℕ → ℕ → ℕ → Bool → Run (World L S) Reply
  unfolding readdir add_all limited
  readdir_if fuse junk ino size off true = do
    r ← readdir junk ino
    let b = add_all fuse empty_buf r.1
    pure (reply_buf (limited b.p b.size off size))
  readdir_if fuse junk ino size off false = pure (reply_err enotdir)

  unfoldable pub fuseserver_readdir : Dirents → ℕ → ℕ → ℕ → ℕ → Run (World L S) Reply
  unfolding readdir_if isdir
  fuseserver_readdir fuse junk ino size off = do
    d ← isdir e lc ino
    readdir_if fuse junk ino size off d

  unfoldable pub fuseserver_open : ℕ → Run (World L S) Reply
  fuseserver_open ino = pure reply_open

  unfoldable pub unlink : ℕ → ℕ → Text → Run (World L S) ℕ
  unlink junk parent name w = called (Locked.unlink e lc w.0 w.1 junk parent name)

  unfoldable pub fuseserver_unlink : ℕ → ℕ → Text → Run (World L S) Reply
  unfolding unlink
  fuseserver_unlink junk parent name = do r ← unlink junk parent name; pure (unlinked r)

  -- `f_namemax` and `f_bsize`; the other fields are 0.
  unfoldable pub fuseserver_statfs : Run (World L S) Reply
  fuseserver_statfs = pure (reply_statfs 255 512)

  unfoldable pub symlink : ℕ → ℕ → Text → Text → Run (World L S) (ℕ × ℕ)
  symlink junk parent name link w = called_two (Locked.symlink e lc w.0 w.1 junk parent name link)

  unfoldable pub linked : ℕ × ℕ → Bool → Run (World L S) Reply
  unfolding getattr
  linked r true = do st ← getattr e lc r.1; pure (reply_entry (entry_param r.1 st.1))
  linked r false = pure (reply_err (if r.0 == exist then eexist else enoent))

  unfoldable pub fuseserver_symlink : ℕ → Text → ℕ → Text → Run (World L S) Reply
  unfolding symlink linked
  fuseserver_symlink junk link parent name = do
    r ← symlink junk parent name link
    linked r (r.0 == ok)

  unfoldable pub readlink : ℕ → Run (World L S) (ℕ × Text)
  readlink ino w = called_two (Locked.readlink e lc w.0 w.1 ino)

  unfoldable pub fuseserver_readlink : ℕ → Run (World L S) Reply
  unfolding readlink
  fuseserver_readlink ino = do
    r ← readlink ino
    pure (if r.0 == ok then reply_readlink (c_str r.1) else reply_err enoent)
