-- ===== src/Disk.antt =====
-- The disk layer of inode_manager.h and inode_manager.cc: `BLOCK_NUM` blocks of `BLOCK_SIZE` bytes.
-- A byte is a number below 256. A null buffer is `none`. `bnum` is unsigned, so `bnum < 0` is false.
use lab_cse.Prelude.{
  ℕ, ◌≡◌, refl, ◌≤◌, ◌⊎◌, ◌&&◌, Option, none, some, List, arith, ltb, ◌==◌, if◌then◌else◌,
  replicate,
}

abbrev pub block_size : ℕ
block_size = 512

abbrev pub block_num : ℕ
block_num = 32768

abbrev pub Block : Type 0
Block = List ℕ

pub record Disk : Type 0 where
  pub blocks : ℕ → Block

abbrev pub zero_block : Block
zero_block = replicate block_size 0

abbrev pub zero_disk : Disk
zero_disk = record { blocks = λ _. zero_block }

-- The content of the buffer afterwards.
unfoldable pub read_block : Disk → ℕ → Option Block → Option Block
read_block d bnum none = none
read_block d bnum (some buf) = if ltb bnum block_num then some (d.blocks bnum) else some buf

abbrev pub update : (ℕ → Block) → ℕ → Block → ℕ → Block
update f i b j = if j == i then b else f j

unfoldable pub write_block : Disk → ℕ → Option Block → Disk
write_block d bnum none = d
write_block d bnum (some buf) =
    if ltb bnum block_num then record d { blocks = update d.blocks bnum buf } else d

-- Reading block `j` into a buffer after a write of `new` to block `i` gives `new` where the two
-- are one block of the disk, and in all other cases what it gave before the write.
pub read_block-write_block :
    (d : Disk) (i j : ℕ) (new buf : Block)
    → read_block (write_block d i (some new)) j (some buf)
      ≡ (if (j == i) && ltb i block_num then some new else read_block d j (some buf))
unfolding read_block write_block
read_block-write_block d i j new buf = ground arith

-- A write with a number out of range, or from a null buffer, changes nothing.
pub write_block_refused :
    (d : Disk) (i : ℕ) (new : Option Block)
    → (block_num ≤ i) ⊎ (new ≡ none)
    → write_block d i new ≡ d
unfolding write_block
write_block_refused d i none h = refl
write_block_refused d i (some b) h = ground arith
