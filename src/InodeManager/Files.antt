-- ===== src/InodeManager/Files.antt =====
-- The content of files: `read_file`, `write_file` and `remove_file` of inode_manager.cc.
use Prim.Native.Nat.{min}
use lab_cse.Prelude.{
  ℕ, zero, suc, ◌+◌, ◌-◌, ◌*◌, ◌/◌, ◌%◌, ◌^◌, Option, none, some, List, [], ◌∷◌, ◌++◌, ltb, leb,
  ◌&&◌, if◌then◌else◌, length, get_or, set, take, drop, replicate,
}
use lab_cse.Disk.{Block, block_size}
use lab_cse.BlockManager.{BlockManager, read_block, write_block, alloc_block, free_block}
use lab_cse.Inode.{Inode, ndirect, nindirect, words, word_bytes}
use lab_cse.InodeManager.Table.{get_inode, put_inode, free_inode}

-- `BLOCKS`: blocks needed to contain `b` bytes, with `b` unsigned.
abbrev pub blocks_of : ℕ → ℕ
blocks_of b = (b + block_size - 1) % 2 ^ 32 / block_size

abbrev pub max_blocks : ℕ
max_blocks = ndirect + nindirect

-- The entry for the indirect block.
abbrev pub indirect_of : Inode → ℕ
indirect_of ino = get_or ino.blocks ndirect 0

unfoldable pub free_each : List ℕ → BlockManager → BlockManager
free_each [] bm = bm
free_each (b ∷ bs) bm = free_each bs (free_block bm b)

-- The blocks of the `n` entries that are allocated in turn.
unfoldable pub alloc_each : ℕ → BlockManager → BlockManager × List ℕ
alloc_each zero bm = (bm, [])
alloc_each (suc n) bm =
    let (bm1, b) = alloc_block bm in let (bm2, bs) = alloc_each n bm1 in (bm2, b ∷ bs)

-- A copy of file content to the blocks `ts` in turn, from byte `rsize` on; `block` is the local
-- array, of which a write of a last part sends all.
unfoldable pub write_loop : List ℕ → Block → ℕ → Block → BlockManager → BlockManager × ℕ × Block
write_loop [] buf rsize block bm = (bm, rsize, block)
write_loop (t ∷ ts) buf rsize block bm =
    let size = length buf in
    let part = take (size - rsize) (drop rsize buf) ++ drop (size - rsize) block in
    let towrite = min block_size (size - rsize) in
    let full =
      write_loop ts buf (rsize + towrite) block
        (write_block bm t (take block_size (drop rsize buf))) in
    let last = write_loop ts buf (rsize + towrite) part (write_block bm t part) in
    if ltb rsize size
    then (if ltb block_size (size - rsize) then full else last)
    else (bm, rsize, block)

-- `res` as far as it is filled, the rest of its memory, and the local array.
pub record Reading : Type 0 where
  pub rsize : ℕ
  pub filled : Block
  pub rest : Block
  pub buf : Block

abbrev pub read_full : BlockManager → ℕ → ℕ → Reading → Reading
read_full bm t fsize r = record r {
  rsize = r.rsize + min block_size (fsize - r.rsize);
  filled = r.filled ++ read_block bm t (take block_size r.rest);
  rest = drop block_size r.rest;
}

abbrev pub read_part : BlockManager → ℕ → ℕ → Reading → Reading
read_part bm t fsize r =
    let buf = read_block bm t r.buf in
    record {
      rsize = r.rsize + min block_size (fsize - r.rsize);
      filled = r.filled ++ take (fsize - r.rsize) buf;
      rest = drop (fsize - r.rsize) r.rest;
      buf = buf;
    }

-- A copy of the blocks `ts` in turn to `res`. Sizes are unsigned.
unfoldable pub read_loop : BlockManager → List ℕ → ℕ → Reading → Reading
read_loop bm [] fsize r = r
read_loop bm (t ∷ ts) fsize r =
    let full = read_loop bm ts fsize (read_full bm t fsize r) in
    let part = read_loop bm ts fsize (read_part bm t fsize r) in
    if ltb r.rsize fsize
    then (if ltb ((r.rsize + block_size) % 2 ^ 32) fsize then full else part)
    else r

-- `free_block` of all the blocks of a file of `n` blocks, as `write_file` does it.
unfoldable pub free_file : Inode → ℕ → Block → BlockManager → BlockManager
free_file ino n indnum bm =
    let bm1 = free_each (take (min n ndirect) ino.blocks) bm in
    if ltb ndirect n
    then (let ind = words nindirect (read_block bm1 (indirect_of ino) indnum) in
        free_block (free_each (take (n - ndirect) ind) bm1) (indirect_of ino))
    else bm1

-- The new blocks of a file of `n` blocks, and its inode with them.
unfoldable pub alloc_file : Inode → ℕ → BlockManager → BlockManager × Inode
alloc_file ino n bm =
    let (bm1, direct) = alloc_each (min n ndirect) bm in
    let blocks1 = direct ++ drop (min n ndirect) ino.blocks in
    let (bm2, b) = alloc_block bm1 in
    let (bm3, ind) = alloc_each (n - ndirect) bm2 in
    if ltb ndirect n
    then (
      write_block bm3 b (word_bytes ind ++ replicate (block_size - 4 * (n - ndirect)) 0),
      record ino { blocks = set blocks1 ndirect b },
    )
    else (bm1, record ino { blocks = blocks1 })

-- The two loops of `write_file` that copy the content.
unfoldable pub copy_in : Inode → Block → Block → Block → BlockManager → BlockManager
copy_in ino buf block indnum bm =
    let (bm1, rsize, block1) = write_loop (take ndirect ino.blocks) buf 0 block bm in
    let ind = words nindirect (read_block bm1 (indirect_of ino) indnum) in
    if ltb rsize (length buf) then (write_loop ind buf rsize block1 bm1).0 else bm1

-- `block` and `indnum` are the local arrays. More blocks than an inode can name overrun `indnum`.
unfoldable pub write_file : BlockManager → ℕ → Block → Block → Block → ℕ → Option BlockManager
write_file bm inum buf block indnum now =
    let nsize = blocks_of (length buf) in
    elim (get_inode bm inum) [
      | none ↦ none
      | some ino ↦
          let osize = blocks_of ino.size in
          let bm1 = free_file ino osize indnum bm in
          let (bm2, ino2) = alloc_file ino nsize bm1 in
          let bm3 = copy_in ino2 buf block indnum bm2 in
          let done =
            put_inode bm3 inum
              (some (record ino2 { size = length buf; mtime = now; ctime = now })) in
          if leb osize max_blocks && leb nsize max_blocks then some done else none
    ]

-- The two loops of `read_file`; `res` is the memory of `malloc`, `buf` and `indnum` are local arrays.
unfoldable pub copy_out : BlockManager → Inode → Block → Block → Block → Block
copy_out bm ino res buf indnum =
    let start : Reading = record { rsize = 0; filled = []; rest = res; buf = buf } in
    let r = read_loop bm (take ndirect ino.blocks) ino.size start in
    let ind = words nindirect (read_block bm (indirect_of ino) indnum) in
    let s = if ltb r.rsize ino.size then read_loop bm ind ino.size r else r in s.filled ++ s.rest

-- The content, or `none` where nothing is returned. `res` has the size of the file.
unfoldable pub read_file :
    BlockManager → ℕ → Block → Block → Block → ℕ → BlockManager × Option Block
read_file bm inum res buf indnum now = elim (get_inode bm inum) [
  | none ↦ (bm, none)
  | some ino ↦ (
    put_inode bm inum (some (record ino { atime = now; ctime = now })),
    some (copy_out bm ino res buf indnum),
  )
]

-- The indirect blocks go first here, then the direct ones.
unfoldable pub remove_blocks : Inode → ℕ → Block → BlockManager → BlockManager
remove_blocks ino n indnum bm =
    let ind = words nindirect (read_block bm (indirect_of ino) indnum) in
    let bm1 =
      if ltb ndirect n
      then free_block (free_each (take (n - ndirect) ind) bm) (indirect_of ino)
      else bm in
    free_each (take (min n ndirect) ino.blocks) bm1

unfoldable pub remove_file : BlockManager → ℕ → Block → Option BlockManager
remove_file bm inum indnum = elim (get_inode bm inum) [
  | none ↦ some bm
  | some ino ↦
      let n = blocks_of ino.size in
      if leb n max_blocks then free_inode (remove_blocks ino n indnum bm) inum else none
]
