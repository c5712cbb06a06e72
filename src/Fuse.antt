-- ===== src/Fuse.antt =====
-- fuse.cc: what the handlers for the requests of the FUSE library reply. The handlers are in
-- Files.antt and Handlers.antt.
pub mod Steps
pub mod Listing
pub mod Files
pub mod Handlers
pub mod Rules
pub mod Creation
pub mod Contents
pub mod Readdir
mod Tests
use lab_cse.Prelude.{
  ℕ, ◌+◌, ◌-◌, Bool, true, false, ◌||◌, Option, none, some, List, [], ◌∷◌, ◌++◌, length, take, drop,
  ltb, ◌==◌, if◌then◌else◌,
}
use lab_cse.Prelude.Text.{Text}
use lab_cse.Yfs.Operations.{ok, noent, exist, Fileinfo, Dirinfo}

-- `st_mode` after `bzero`, or a type with the bits of the permissions.
pub data Mode : Type 0 where
  unset : Mode
  s_ifreg s_ifdir s_iflnk : ℕ → Mode

pub record Stat : Type 0 where
  pub st_ino : ℕ
  pub st_mode : Mode
  pub st_nlink : ℕ
  pub st_atime : ℕ
  pub st_mtime : ℕ
  pub st_ctime : ℕ
  pub st_size : ℕ

-- `fuse_entry_param`; a timeout of 0.0 is 0.
pub record EntryParam : Type 0 where
  pub ino : ℕ
  pub generation : ℕ
  pub attr : Stat
  pub attr_timeout : ℕ
  pub entry_timeout : ℕ

pub data Errno : Type 0 where
  success enoent eexist enosys enotdir enotempty : Errno

-- The call of the FUSE library that ends a handler.
pub data Reply : Type 0 where
  reply_err : Errno → Reply
  reply_attr : Stat → ℕ → Reply
  reply_buf : Text → Reply
  reply_write : ℕ → Reply
  reply_create reply_entry : EntryParam → Reply
  reply_open : Reply
  reply_statfs : ℕ → ℕ → Reply
  reply_readlink : Text → Reply

-- The bits of `to_set` that the code looks at.
pub record ToSet : Type 0 where
  pub set_size : Bool
  pub set_atime : Bool
  pub set_mtime : Bool

abbrev pub zero_stat : ℕ → Stat
zero_stat inum = record {
  st_ino = inum;
  st_mode = unset;
  st_nlink = 0;
  st_atime = 0;
  st_mtime = 0;
  st_ctime = 0;
  st_size = 0;
}

-- The first and the last branch of `getattr`, behind `getfile`.
abbrev pub with_file : Mode → ℕ → ℕ × Fileinfo → ℕ × Stat
with_file mode inum (r, info) =
    if r == ok
    then (
      ok,
      record (zero_stat inum) {
        st_mode = mode;
        st_nlink = 1;
        st_atime = info.atime;
        st_mtime = info.mtime;
        st_ctime = info.ctime;
        st_size = info.size;
      },
    )
    else (r, zero_stat inum)

-- The branch of a directory, behind `getdir`.
abbrev pub with_dir : ℕ → ℕ × Dirinfo → ℕ × Stat
with_dir inum (r, info) =
    if r == ok
    then (
      ok,
      record (zero_stat inum) {
        st_mode = s_ifdir 511;
        st_nlink = 2;
        st_atime = info.atime;
        st_mtime = info.mtime;
        st_ctime = info.ctime;
      },
    )
    else (r, zero_stat inum)

abbrev pub entry_param : ℕ → Stat → EntryParam
entry_param ino attr = record {
  ino = ino;
  generation = 0;
  attr = attr;
  attr_timeout = 0;
  entry_timeout = 0;
}

-- What `create`, `mknod` and `mkdir` reply, where `done` is the reply for OK.
abbrev pub made : (EntryParam → Reply) → ℕ × EntryParam → Reply
made done (r, e) = if r == ok then done e else reply_err (if r == exist then eexist else enoent)

abbrev pub unlinked : ℕ → Reply
unlinked r = reply_err (if r == ok then success else if r == noent then enoent else enotempty)

abbrev pub any_set : ToSet → Bool
any_set t = t.set_size || t.set_atime || t.set_mtime

-- `c_str`: up to the first zero byte.
unfoldable pub c_str : Text → Text
c_str [] = []
c_str (c ∷ cs) = let rest = c_str cs in if c == 0 then [] else c ∷ rest
