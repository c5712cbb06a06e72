-- ===== src/BlockManager.antt =====
-- The block layer of inode_manager.h and inode_manager.cc: the bitmap of blocks in use, eight
-- blocks of the disk from number 2 on. `using_blocks` is never used by the code and left out.
-- Buffers are arrays, never null; one that a read leaves alone keeps what it held.
pub mod Bits
pub mod Bitmap
pub mod Alloc
pub mod Free
pub mod Format
mod Tests
use lab_cse.Prelude.{
  ℕ, zero, suc, ◌+◌, ◌*◌, ◌/◌, ◌%◌, ◌≡◌, Bool, true, false, Option, none, some, List, [], ◌∷◌, ltb,
  leb, if◌then◌else◌, get_or, set, not,
}
use lab_cse.Disk.{Disk, Block, block_size, block_num, zero_disk, zero_block}
use lab_cse.Disk
use mathlib.Core.Option
use Bits.{test_bit, set_bit, clear_bit}

-- Bitmap bits per block.
abbrev pub bpb : ℕ
bpb = 4096

abbrev pub inode_num : ℕ
inode_num = 1024

-- Inodes per block.
abbrev pub ipb : ℕ
ipb = 1

-- Block containing bit for block `b`: `BBLOCK`.
abbrev pub bblock : ℕ → ℕ
bblock b = b / bpb + 2

-- Block containing inode `i`: `IBLOCK`.
abbrev pub iblock : ℕ → ℕ → ℕ
iblock i nblocks = nblocks / bpb + i / ipb + 3

pub record Superblock : Type 0 where
  pub size : ℕ
  pub nblocks : ℕ
  pub ninodes : ℕ

pub record BlockManager : Type 0 where
  pub d : Disk
  pub sb : Superblock

pub read_block : BlockManager → ℕ → Block → Block
unfolding Disk.read_block
read_block bm bnum buf = Option.get_or (Disk.read_block bm.d bnum (some buf)) buf

pub write_block : BlockManager → ℕ → Block → BlockManager
unfolding Disk.write_block
write_block bm bnum buf = record bm { d = Disk.write_block bm.d bnum (some buf) }

-- `buf[off / 8] & (1 << off % 8)`
pub bit_of : Block → ℕ → Bool
bit_of buf off = test_bit (get_or buf (off / 8) 0) (off % 8)

pub mark : Block → ℕ → Block
mark buf off = set buf (off / 8) (set_bit (get_or buf (off / 8) 0) (off % 8))

pub unmark : Block → ℕ → Block
unmark buf off = set buf (off / 8) (clear_bit (get_or buf (off / 8) 0) (off % 8))

-- The inner loop of `alloc_block`, with `n` offsets left: the first offset whose bit is clear.
pub scan : ℕ → ℕ → Block → Option ℕ
scan zero off buf = none
scan (suc n) off buf = elim (bit_of buf off) [ true ↦ scan n (off + 1) buf | false ↦ some off ]

-- The body of the outer loop: `rest` is what the loop gives from the next bitmap block on.
pub alloc_in : BlockManager → ℕ → Block → BlockManager × ℕ → Option ℕ → BlockManager × ℕ
alloc_in bm bnum buf rest none = rest
alloc_in bm bnum buf rest (some off) = (write_block bm (bblock bnum) (mark buf off), bnum + off)

-- The outer loop, with `n` bitmap blocks left.
pub alloc_from : ℕ → ℕ → BlockManager → Block → BlockManager × ℕ
unfolding alloc_in
alloc_from zero bnum bm buf = (bm, 0)
alloc_from (suc n) bnum bm buf =
    let buf' = read_block bm (bblock bnum) buf in
    let rest = alloc_from n (bnum + bpb) bm buf' in alloc_in bm bnum buf' rest (scan bpb 0 buf')

-- `buf` is a local array with no initial value; the loop reads it only after a block was read
-- into it. The blocks 0, 4096, … 28672 are `block_num / bpb` rounds.
pub alloc_block : BlockManager → BlockManager × ℕ
unfolding alloc_from
alloc_block bm = alloc_from (block_num / bpb) 0 bm zero_block

pub free_block : BlockManager → ℕ → BlockManager
free_block bm bnum =
    if leb bnum (bblock block_num)
    then bm
    else write_block bm (bblock bnum) (unmark (read_block bm (bblock bnum) zero_block) (bnum % bpb))

-- `n` calls of `alloc_block`, with the results dropped.
unfoldable pub alloc_times : ℕ → BlockManager → BlockManager
alloc_times zero bm = bm
alloc_times (suc n) bm = alloc_times n (alloc_block bm).0

-- The constructor.
unfoldable pub format : BlockManager
format = alloc_times (block_num / bpb + inode_num / ipb + 2) (record {
  d = zero_disk;
  sb = record { size = block_size * block_num; nblocks = block_num; ninodes = inode_num };
})
