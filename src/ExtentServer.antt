-- ===== src/ExtentServer.antt =====
-- The handlers of extent_server.h and extent_server.cc. The state is that of the inode manager, and
-- `none` a run into undefined behaviour of it; every handler returns the status OK. The result is
-- the output argument. Local arrays, the memory of `malloc` and the time are arguments.
pub mod RoundTrip
pub mod Sample
pub mod Files
mod Tests
use lab_cse.Prelude.{ℕ, ◌%◌, ◌^◌, Option, none, some, List, []}
use lab_cse.Disk.{Block}
use lab_cse.BlockManager.{BlockManager}
use lab_cse.InodeManager.Table
use lab_cse.InodeManager.Table.{Attr, alloc_inode}
use lab_cse.InodeManager.Files.{write_file, read_file, remove_file}

-- `id & 0x7fffffff`
abbrev pub mask : ℕ → ℕ
mask id = id % 2 ^ 31

unfoldable pub create : BlockManager → ℕ → ℕ → BlockManager × ℕ
create im kind now = alloc_inode im kind now

unfoldable pub put : BlockManager → ℕ → Block → Block → Block → ℕ → Option BlockManager
put im id buf block indnum now = write_file im (mask id) buf block indnum now

-- Where `read_file` returns nothing, the size stays 0.
unfoldable pub get : BlockManager → ℕ → Block → Block → Block → ℕ → BlockManager × Block
get im id res buf indnum now =
    let r = read_file im (mask id) res buf indnum now in
    (r.0, elim r.1 [ none ↦ [] | some cbuf ↦ cbuf ])

unfoldable pub getattr : BlockManager → ℕ → Attr
getattr im id =
    Table.getattr im (mask id) (record { kind = 0; atime = 0; mtime = 0; ctime = 0; size = 0 })

unfoldable pub remove : BlockManager → ℕ → Block → Option BlockManager
remove im id indnum = remove_file im (mask id) indnum
