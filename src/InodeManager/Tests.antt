-- ===== src/InodeManager/Tests.antt =====
-- The theorems on inodes and files, at an empty file on a formatted disk.
use lab_cse.Prelude.{
  ℕ, zero, suc, ◌<◌, ◌≤◌, ◌≡◌, ◌≢◌, refl, sym, ◌∙◌, ◌⊎◌, none, some, arith, length, replicate,
  length-replicate,
}
use lab_cse.Disk.{Block, block_num, zero_block}
use lab_cse.BlockManager.{BlockManager, inode_num, format}
use lab_cse.BlockManager.Bitmap.{AllBytes}
use lab_cse.BlockManager.Format.{zero_block-IsBlock}
use lab_cse.Inode.{Inode, zero_inode}
use lab_cse.Inode.Layout.{Fits, AllWords}
use lab_cse.InodeManager.Table.{get_inode, put_inode, alloc_inode, start, t_dir}
use lab_cse.InodeManager.Files.{write_file, read_file}
use lab_cse.InodeManager.Space.{Sound, unused}
use lab_cse.InodeManager.Placement.{Owns}
use lab_cse.InodeManager.Inodes.{get_inode-put_inode}
use lab_cse.InodeManager.Boot.{format-Sound, unused-format, unused_kept}
use lab_cse.InodeManager.Creation.{Created, alloc_inode-Created, start-Sound}
use lab_cse.InodeManager.RoundTrip.{read_file-write_file, get_inode-write_file}

-- An empty file.
abbrev empty : Inode
empty = record zero_inode { kind = 2 }

empty_words : AllWords empty.blocks
empty_words = ground arith

empty-Fits : Fits empty
empty-Fits = record {
  kind = omega arith;
  size = omega arith;
  atime = omega arith;
  mtime = omega arith;
  ctime = omega arith;
  blocks = empty_words;
  count = refl;
}

-- A disk with the file at number 2.
abbrev disk : BlockManager
disk = put_inode format 2 (some empty)

disk_lem :
    Sound disk
    × (get_inode disk 2 ≡ some empty)
    × ((i : ℕ) → i ≢ 13 → disk.d.blocks i ≡ format.d.blocks i)
disk_lem = get_inode-put_inode format 2 empty format-Sound (omega arith) empty-Fits refl

room : unused block_num disk ≡ 31734
room = unused_kept format disk 13 (omega arith) disk_lem.2 ∙ unused-format

empty-Owns : Owns disk empty 0
empty-Owns = record { direct = tt; indirect = λ h. absurd (omega arith) }

sevens_bytes : (n : ℕ) → AllBytes (replicate n 7)
sevens_bytes zero = tt
sevens_bytes (suc n) = (omega arith, sevens_bytes n)

-- 17000 bytes take 34 blocks, two of them behind the indirect block.
abbrev sevens : Block
sevens = replicate 17000 7

-- Memory for them.
abbrev memory : Block
memory = replicate 17000 0

length-sevens : length sevens ≡ 17000
length-sevens = length-replicate {A = ℕ} 17000 7

length-memory : length memory ≡ length sevens
length-memory = length-replicate {A = ℕ} 17000 0 ∙ sym length-sevens

read_file-write_file_example :
    (bm' : BlockManager) × (write_file disk 2 sevens zero_block zero_block 9 ≡ some bm')
    × Sound bm'
    × ((read_file bm' 2 memory zero_block zero_block 10).1 ≡ some sevens)
read_file-write_file_example =
    read_file-write_file disk disk_lem.0 2 (omega arith) empty disk_lem.1 (omega arith) empty-Owns
      sevens zero_block zero_block 9 (sevens_bytes 17000) zero_block-IsBlock
      (omega (arith, length-sevens)) (omega arith) (ground (arith, room, length-sevens)) memory
      zero_block zero_block 10 length-memory

get_inode-write_file_example :
    (bm' : BlockManager) × (write_file disk 2 sevens zero_block zero_block 9 ≡ some bm')
    × (get_inode bm' 1 ≡ get_inode disk 1)
get_inode-write_file_example =
    get_inode-write_file disk disk_lem.0 2 (omega arith) empty disk_lem.1 (omega arith) empty-Owns
      sevens zero_block zero_block 9 (sevens_bytes 17000) zero_block-IsBlock
      (omega (arith, length-sevens)) (omega arith) (ground (arith, room, length-sevens)) 1
      (omega arith) (omega arith)

alloc_inode-Created_example :
    (((i : ℕ) → 1 ≤ i → i < inode_num → get_inode disk i ≢ none)
      × (alloc_inode disk 2 5 ≡ (disk, 1)))
    ⊎ Created disk (alloc_inode disk 2 5).0 1 (alloc_inode disk 2 5).1 2 5
alloc_inode-Created_example = alloc_inode-Created disk 2 5 disk_lem.0 refl (omega arith)

start-Sound_example :
    (bm : BlockManager) × (start 5 ≡ some bm)
    × Sound bm
    × (get_inode bm 1 ≡ some (record zero_inode { kind = t_dir; ctime = 5 }))
    × ((i : ℕ) → i ≢ 12 → bm.d.blocks i ≡ format.d.blocks i)
start-Sound_example = start-Sound 5 (omega arith)
