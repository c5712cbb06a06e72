-- ===== src/Yfs/Operations.antt =====
-- The operations of yfs_client.cc that hold the lock already, `_isfile` to `_readlink`. `none` is a
-- loop of `_readdir` that never ends, or an exception of the string library. `junk` is what a
-- number that is not set holds.
use mathlib.Core.Option
use lab_cse.Prelude.{
  ℕ, ◌+◌, Bool, true, false, ◌&&◌, Option, none, some, List, [], ◌∷◌, ◌++◌, ◌==◌, if◌then◌else◌,
  length, drop,
}
use lab_cse.Prelude.Text.{Text}
use lab_cse.Yfs.Format.{Dirent, entry, read_entries, find_entry}
use lab_cse.Yfs.Bytes.{resize, read_at, write_at}
use lab_cse.Yfs.Extents.{Extents, t_dir, t_file, t_symlink}

-- The `xxstatus` of yfs_client.h.
abbrev pub ok : ℕ
ok = 0

abbrev pub noent : ℕ
noent = 2

abbrev pub ioerr : ℕ
ioerr = 3

abbrev pub exist : ℕ
exist = 4

pub record Fileinfo : Type 0 where
  pub size : ℕ
  pub atime : ℕ
  pub mtime : ℕ
  pub ctime : ℕ

pub record Dirinfo : Type 0 where
  pub atime : ℕ
  pub mtime : ℕ
  pub ctime : ℕ

-- `text` stands at the front of `buf`.
unfoldable pub is_front : Text → Text → Bool
is_front [] buf = true
is_front (c ∷ cs) [] = false
is_front (c ∷ cs) (b ∷ bs) = (c == b) && is_front cs bs

-- `buf.replace(buf.find(ent), ent.size(), "")`: the first place where `ent` stands goes; where there
-- is none, `replace` throws.
unfoldable pub cut : Text → Text → Option Text
unfolding is_front
cut ent [] = if is_front ent [] then some [] else none
cut ent (c ∷ cs) =
    let rest = cut ent cs in
    if is_front ent (c ∷ cs)
    then some (drop (length ent) (c ∷ cs))
    else Option.map (λ t. c ∷ t) rest

module _ {S : Type 0} (e : Extents S) where
  -- The constructor of yfs_client.
  unfoldable pub init_root : S → S
  init_root s = (e.put s 1 []).0

  unfoldable pub has_kind : ℕ → S → ℕ → S × Bool
  has_kind kind s inum =
      let (s1, r, a) = e.getattr s inum in (s1, if r == ok then a.kind == kind else false)

  unfoldable pub isfile : S → ℕ → S × Bool
  unfolding has_kind
  isfile s inum = has_kind t_file s inum

  unfoldable pub isdir : S → ℕ → S × Bool
  unfolding has_kind
  isdir s inum = has_kind t_dir s inum

  unfoldable pub getfile : S → ℕ → Fileinfo → S × ℕ × Fileinfo
  getfile s inum fin =
      let (s1, r, a) = e.getattr s inum in
      if r == ok
      then (s1, ok, record { size = a.size; atime = a.atime; mtime = a.mtime; ctime = a.ctime })
      else (s1, ioerr, fin)

  unfoldable pub getdir : S → ℕ → Dirinfo → S × ℕ × Dirinfo
  getdir s inum din =
      let (s1, r, a) = e.getattr s inum in
      if r == ok
      then (s1, ok, record { atime = a.atime; mtime = a.mtime; ctime = a.ctime })
      else (s1, ioerr, din)

  unfoldable pub setattr : S → ℕ → ℕ → S × ℕ
  setattr s ino size =
      let (s1, r, buf) = e.get s ino in if r == ok then e.put s1 ino (resize size buf) else (s1, r)

  unfoldable pub listed : S → Option (List Dirent) → Option (S × ℕ × List Dirent)
  listed s none = none
  listed s (some es) = some (s, ok, es)

  -- One round more than the content has bytes is enough, if any number is.
  unfoldable pub readdir : S → ℕ → ℕ → Option (S × ℕ × List Dirent)
  unfolding listed
  readdir s junk dir =
      let (s1, r, buf) = e.get s dir in
      if r == ok then listed s1 (read_entries (length buf + 1) junk buf) else some (s1, r, [])

  unfoldable pub found_in : S → Option ℕ → S × ℕ × Option ℕ
  found_in s none = (s, ok, none)
  found_in s (some inum) = (s, exist, some inum)

  unfoldable pub find_in : Text → Option (S × ℕ × List Dirent) → Option (S × ℕ × Option ℕ)
  unfolding found_in
  find_in name none = none
  find_in name (some (s, r, es)) =
      some (if r == ok then found_in s (find_entry es name) else (s, r, none))

  -- The number is there where `found` is set.
  unfoldable pub lookup : S → ℕ → ℕ → Text → Option (S × ℕ × Option ℕ)
  unfolding find_in
  lookup s junk parent name =
      let (s1, d) = isdir s parent in
      if d then find_in name (readdir s1 junk parent) else some (s1, ok, none)

  -- The end of `_create`, `_mkdir` and `_symlink`: the entry is put behind the content of the parent.
  unfoldable pub link : S → ℕ → Text → ℕ → S × ℕ × ℕ
  link s parent name ino =
      let (s1, r, buf) = e.get s parent in
      let (s2, r2) = e.put s1 parent (buf ++ entry (record { name = name; inum = ino })) in
      if r == ok then (s2, r2, ino) else (s1, r, ino)

  unfoldable pub make : ℕ → S → ℕ → Text → S × ℕ × ℕ
  unfolding link
  make kind s parent name = let (s1, _, ino) = e.create s kind in link s1 parent name ino

  unfoldable pub unless_found : ℕ → ℕ → Text → Option (S × ℕ × Option ℕ) → Option (S × ℕ × ℕ)
  unfolding make
  unless_found kind parent name none = none
  unless_found kind parent name (some (s, r, some ino)) = some (s, r, ino)
  unless_found kind parent name (some (s, r, none)) = some (make kind s parent name)

  unfoldable pub create : S → ℕ → ℕ → Text → Option (S × ℕ × ℕ)
  unfolding unless_found
  create s junk parent name = unless_found t_file parent name (lookup s junk parent name)

  unfoldable pub mkdir : S → ℕ → ℕ → Text → Option (S × ℕ × ℕ)
  unfolding unless_found
  mkdir s junk parent name = unless_found t_dir parent name (lookup s junk parent name)

  unfoldable pub make_link : ℕ → Text → Text → Option (S × ℕ × Option ℕ) → Option (S × ℕ × ℕ)
  unfolding link
  make_link parent name target none = none
  make_link parent name target (some (s, r, some ino)) = some (s, exist, ino)
  make_link parent name target (some (s, r, none)) =
      let (s1, _, ino) = e.create s t_symlink in some (link (e.put s1 ino target).0 parent name ino)

  unfoldable pub symlink : S → ℕ → ℕ → Text → Text → Option (S × ℕ × ℕ)
  unfolding make_link
  symlink s junk parent name target = make_link parent name target (lookup s junk parent name)

  unfoldable pub put_back : S → ℕ → Option Text → Option (S × ℕ)
  put_back s parent none = none
  put_back s parent (some buf) = some (e.put s parent buf)

  -- The end of `_unlink`, for the number that was found.
  unfoldable pub unlink_entry : ℕ → Text → Option (S × ℕ × Option ℕ) → Option (S × ℕ)
  unfolding put_back
  unlink_entry parent name none = none
  unlink_entry parent name (some (s, r, none)) = some (s, noent)
  unlink_entry parent name (some (s, r, some ino)) =
      let s1 = (e.remove s ino).0 in
      let (s2, r2, buf) = e.get s1 parent in
      if r2 == ok
      then put_back s2 parent (cut (entry (record { name = name; inum = ino })) buf)
      else some (s2, r2)

  unfoldable pub unlink : S → ℕ → ℕ → Text → Option (S × ℕ)
  unfolding unlink_entry
  unlink s junk parent name = unlink_entry parent name (lookup s junk parent name)

  unfoldable pub read : S → ℕ → ℕ → ℕ → Text → S × ℕ × Text
  read s ino size off old =
      let (s1, r, buf) = e.get s ino in (s1, r, if r == ok then read_at size off buf else old)

  -- `bytes` are the `size` bytes at `data`; the last output is `bytes_written`.
  unfoldable pub write : S → ℕ → ℕ → Text → ℕ → S × ℕ × ℕ
  write s ino off bytes bytes_written =
      let (s1, r, buf) = e.get s ino in
      let (s2, r2) = e.put s1 ino (write_at off bytes buf) in
      if r == ok then (s2, r2, length bytes) else (s1, r, bytes_written)

  unfoldable pub readlink : S → ℕ → S × ℕ × Text
  readlink s ino = e.get s ino
