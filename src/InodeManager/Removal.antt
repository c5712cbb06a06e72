-- ===== src/InodeManager/Removal.antt =====
-- `remove_file` gives back the blocks and the inode of a file.
use Prim.Native.Nat.{min}
use lab_cse.Prelude.{ℕ, ◌-◌, ◌≡◌, ltb, ltb→lt, Bool-cases, inl, inr, take}
use lab_cse.Disk.{Block}
use lab_cse.BlockManager.{BlockManager, read_block}
use lab_cse.BlockManager.Bitmap.{read_whole}
use lab_cse.Inode.{Inode, ndirect, nindirect, words}
use lab_cse.InodeManager.Files.{indirect_of, remove_blocks}
use lab_cse.InodeManager.Space.{
  Sound, Released, Released-trans, free_each-Released, free_block-Released,
}
use lab_cse.InodeManager.Placement.{Owns}

pub remove_blocks-Released :
    (ino : Inode) (n : ℕ) (indnum : Block) (bm : BlockManager)
    → Sound bm
    → Owns bm ino n
    → Released bm (remove_blocks ino n indnum bm)
unfolding remove_blocks
remove_blocks-Released ino n indnum bm s o = elim (Bool-cases (ltb ndirect n)) [
  | inr few ↦ rw few (free_each-Released (take (min n ndirect) ino.blocks) bm s o.direct)
  | inl many ↦
      let (lo, hi, entries) = o.indirect (ltb→lt ndirect n many) in
      let same : read_block bm (indirect_of ino) indnum ≡ bm.d.blocks (indirect_of ino) =
        read_whole bm (indirect_of ino) indnum hi in
      let g =
        free_each-Released (take (n - ndirect) (words nindirect (bm.d.blocks (indirect_of ino)))) bm
          s entries in
      let h = free_block-Released _ (indirect_of ino) g.sound lo hi in
      rw (many, same)
        (Released-trans g (
          Released-trans h
            (free_each-Released (take (min n ndirect) ino.blocks) _ h.sound o.direct)))
]
