-- ===== src/InodeManager/Table.antt =====
-- The table of inodes: `alloc_inode`, `free_inode`, `get_inode`, `put_inode` and `getattr` of
-- inode_manager.cc. `IPB` is 1, so that an inode is alone in its block.
use lab_cse.Prelude.{
  ℕ, zero, suc, ◌+◌, ◌-◌, ◌%◌, ◌^◌, Option, none, some, ltb, leb, ◌==◌, if◌then◌else◌,
}
use lab_cse.Disk.{zero_block}
use lab_cse.BlockManager.{BlockManager, inode_num, iblock, read_block, write_block, format}
use lab_cse.Inode.{Inode, zero_inode, load, store}

-- Block of inode `inum`.
abbrev pub inode_block : BlockManager → ℕ → ℕ
inode_block bm inum = iblock inum bm.sb.nblocks

-- `n` inodes are left to try, from `inum` on.
unfoldable pub alloc_inode_from : ℕ → ℕ → BlockManager → ℕ → ℕ → BlockManager × ℕ
alloc_inode_from zero inum bm kind now = (bm, 1)
alloc_inode_from (suc n) inum bm kind now =
    let buf = read_block bm (inode_block bm inum) zero_block in
    let rest = alloc_inode_from n (inum + 1) bm kind now in
    if (load buf).kind == 0
    then (
      write_block bm (inode_block bm inum)
          (store buf (record (load buf) { kind = kind % 2 ^ 16; ctime = now })),
      inum,
    )
    else rest

-- The new state and the number of the inode.
unfoldable pub alloc_inode : BlockManager → ℕ → ℕ → BlockManager × ℕ
unfolding alloc_inode_from
alloc_inode bm kind now = alloc_inode_from (bm.sb.ninodes - 1) 1 bm kind now

unfoldable pub get_inode : BlockManager → ℕ → Option Inode
get_inode bm inum =
    if leb inode_num inum
    then none
    else (let ino = load (read_block bm (inode_block bm inum) zero_block) in
        if ino.kind == 0 then none else some ino)

unfoldable pub put_inode : BlockManager → ℕ → Option Inode → BlockManager
put_inode bm inum none = bm
put_inode bm inum (some ino) =
    write_block bm (inode_block bm inum)
      (store (read_block bm (inode_block bm inum) zero_block) ino)

-- A freed inode, or a number out of range, is dereferenced all the same.
unfoldable pub free_inode : BlockManager → ℕ → Option BlockManager
free_inode bm inum = elim (get_inode bm inum) [
  | none ↦ none
  | some ino ↦ some (put_inode bm inum (some zero_inode))
]

-- `extent_protocol::T_DIR`
abbrev pub t_dir : ℕ
t_dir = 1

-- The constructor; `none` where the program exits.
unfoldable pub start : ℕ → Option BlockManager
start now =
    let (bm, root_dir) = alloc_inode format t_dir now in if root_dir == 1 then some bm else none

-- `extent_protocol::attr`
pub record Attr : Type 0 where
  pub kind : ℕ
  pub atime : ℕ
  pub mtime : ℕ
  pub ctime : ℕ
  pub size : ℕ

-- `(uint) inode->type` of a `short`.
abbrev pub sign_extend : ℕ → ℕ
sign_extend n = if ltb n (2 ^ 15) then n else n + (2 ^ 32 - 2 ^ 16)

-- The attributes afterwards: where there is no inode, those that the caller passed.
unfoldable pub getattr : BlockManager → ℕ → Attr → Attr
getattr bm inum a = elim (get_inode bm inum) [
  | none ↦ a
  | some ino ↦ record {
    kind = sign_extend ino.kind;
    atime = ino.atime;
    mtime = ino.mtime;
    ctime = ino.ctime;
    size = ino.size;
  }
]
