-- ===== src/Fuse/Listing.antt =====
-- `dirbuf`, `dirbuf_add` and `reply_buf_limited` of fuse.cc.
use lab_cse.Prelude.{ℕ, ◌+◌, List, [], ◌∷◌, ◌++◌, length, take, drop, ltb, ◌-◌, if◌then◌else◌}
use lab_cse.Prelude.Text.{Text}
use lab_cse.Yfs.Format.{Dirent}
use lab_cse.Fuse.{c_str}

-- The bytes at `p`, of which there are `size`.
pub record Dirbuf : Type 0 where
  pub p : Text
  pub size : ℕ

abbrev pub empty_buf : Dirbuf
empty_buf = record { p = []; size = 0 }

-- What FUSE brings: `fuse_dirent_size` of the length of a name, and the bytes that
-- `fuse_add_dirent` writes for a name, an inode number and an offset.
pub record Dirents : Type 0 where
  pub dirent_size : ℕ → ℕ
  pub dirent : Text → ℕ → ℕ → Text

-- `dirbuf_add`; the entry is written behind the old content, in the room that `realloc` has made.
unfoldable pub dirbuf_add : Dirents → Dirbuf → Text → ℕ → Dirbuf
dirbuf_add fuse b name ino =
    let size = b.size + fuse.dirent_size (length name) in
    record { p = take b.size b.p ++ fuse.dirent name ino size; size = size }

-- The loop of `fuseserver_readdir` over the entries; names are passed as C strings.
unfoldable pub add_all : Dirents → Dirbuf → List Dirent → Dirbuf
unfolding dirbuf_add c_str
add_all fuse b [] = b
add_all fuse b (d ∷ es) = add_all fuse (dirbuf_add fuse b (c_str d.name) d.inum) es

abbrev pub min : ℕ → ℕ → ℕ
min x y = if ltb x y then x else y

-- `reply_buf_limited`: the bytes that are replied.
unfoldable pub limited : Text → ℕ → ℕ → ℕ → Text
limited buf bufsize off maxsize =
    if ltb off bufsize then take (min (bufsize - off) maxsize) (drop off buf) else []
