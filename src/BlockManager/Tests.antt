-- ===== src/BlockManager/Tests.antt =====
-- The theorems on the disk and on blocks, at blocks of a formatted disk.
use lab_cse.Prelude.{◌≡◌, ◌<◌, ◌-◌, ◌⊎◌, true, some, arith, ℕ, inl, ltb}
use lab_cse.Disk
use lab_cse.Disk.{block_num, zero_disk, zero_block, read_block-write_block, write_block_refused}
use lab_cse.BlockManager.{iblock, inode_num, alloc_block, free_block, format}
use lab_cse.BlockManager.Bitmap.{used}
use lab_cse.BlockManager.Alloc.{Allocated, alloc_block-Allocated}
use lab_cse.BlockManager.Free.{Freed, free_block-Freed}
use lab_cse.BlockManager.Format.{format-Filled, format_inode_blocks}

write_block_refused_example : Disk.write_block zero_disk 32768 (some zero_block) ≡ zero_disk
write_block_refused_example =
    write_block_refused zero_disk 32768 (some zero_block) (inl (omega arith))

alloc_block-Allocated_example :
    (((c : ℕ) → c < block_num → used format c ≡ true) × (alloc_block format ≡ (format, 0)))
    ⊎ Allocated format (alloc_block format).0 (alloc_block format).1
alloc_block-Allocated_example = alloc_block-Allocated format format-Filled.disk

free_block-Freed_example : Freed format (free_block format 100) 100
free_block-Freed_example =
    free_block-Freed format 100 format-Filled.disk (omega arith) (omega arith)

format_inode_blocks_example : used format (iblock 1023 block_num) ≡ ltb 1023 (inode_num - 1)
format_inode_blocks_example = format_inode_blocks 1023 (omega arith)
