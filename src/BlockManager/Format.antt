-- ===== src/BlockManager/Format.antt =====
-- The bitmap after the constructor: which blocks are reserved.
use lab_cse.Prelude.{
  ℕ, zero, suc, ◌+◌, ◌-◌, ◌/◌, ◌%◌, ◌<◌, ◌≤◌, ◌≡◌, refl, false, ltb, arith, inl, inr, replicate,
  get_or, length-replicate,
}
use lab_cse.Disk.{block_size, block_num, zero_block}
use lab_cse.BlockManager.Bits.{test_bit-zero}
use lab_cse.BlockManager.Bitmap.{IsBlock, IsDisk, AllBytes, used}
use lab_cse.BlockManager.Alloc.{alloc_block-Allocated}
use lab_cse.BlockManager.{
  BlockManager, bpb, inode_num, bit_of, alloc_block, alloc_times, format, iblock,
}

get_or-replicate : (n i v : ℕ) → get_or (replicate n v) i v ≡ v
get_or-replicate zero i v = refl
get_or-replicate (suc n) zero v = refl
get_or-replicate (suc n) (suc i) v = get_or-replicate n i v

pub replicate-AllBytes : (n : ℕ) → AllBytes (replicate n 0)
replicate-AllBytes zero = tt
replicate-AllBytes (suc n) = (omega arith, replicate-AllBytes n)

pub zero_block-IsBlock : IsBlock zero_block
zero_block-IsBlock = record {
  size = length-replicate {A = ℕ} block_size 0;
  bytes = replicate-AllBytes block_size;
}

bit_of-zero_block : (o : ℕ) → bit_of zero_block o ≡ false
unfolding bit_of
bit_of-zero_block o =
    rw (get_or-replicate block_size (o / 8) 0) (test_bit-zero (o % 8) (omega arith))

-- The first `m` blocks of the disk are in use, and no other.
pub record Filled (bm : BlockManager) (m : ℕ) : Type 0 where
  pub disk : IsDisk bm.d
  pub bits : (c : ℕ) → c < block_num → used bm c ≡ ltb c m

alloc_block-Filled :
    (bm : BlockManager) (m : ℕ)
    → m < block_num
    → Filled bm m
    → Filled (alloc_block bm).0 (suc m) × ((alloc_block bm).1 ≡ m)
alloc_block-Filled bm m lt f = elim (alloc_block-Allocated bm f.disk) [
  | inl (all, _) ↦ ground (arith, all m lt, f.bits m lt)
  | inr a ↦
      let b = (alloc_block bm).1 in
      let same : b ≡ m =
        ground (arith, a.in_range, a.unused, f.bits b a.in_range, f.bits m lt, a.first m) in
      (record { disk = a.disk; bits = λ c h. ground (arith, a.after c, f.bits c h, same) }, same)
]

alloc_times-Filled :
    (n : ℕ) (bm : BlockManager) (m : ℕ)
    → m + n ≤ block_num
    → Filled bm m
    → Filled (alloc_times n bm) (m + n)
unfolding alloc_times
alloc_times-Filled zero bm m h f = let e : m + 0 ≡ m = omega arith in rw e f
alloc_times-Filled (suc n) bm m h f =
    let e : suc m + n ≡ m + suc n = omega arith in
    rw (← e) (
      alloc_times-Filled n (alloc_block bm).0 (suc m) (omega arith)
        (alloc_block-Filled bm m (omega arith) f).0)

-- The number of blocks that the constructor reserves.
abbrev pub reserved : ℕ
reserved = 1034

-- After the constructor the disk has whole blocks and its first 1034 blocks, and no other, are
-- in use.
pub format-Filled : Filled format reserved
unfolding format
format-Filled = alloc_times-Filled reserved _ 0 (omega arith) (record {
  disk = λ i. zero_block-IsBlock;
  bits = λ c h. ground (arith, bit_of-zero_block (c % bpb));
})

-- Of the blocks that hold the inodes, the constructor reserves all but the last: the block of
-- inode 1023 is not in use after it.
pub format_inode_blocks :
    (i : ℕ) → i < inode_num → used format (iblock i block_num) ≡ ltb i (inode_num - 1)
format_inode_blocks i h = ground (arith, format-Filled.bits (iblock i block_num))

-- The first block that is allocated after the constructor is the block of inode 1023.
pub alloc_block-format : (alloc_block format).1 ≡ iblock (inode_num - 1) block_num
alloc_block-format = (alloc_block-Filled format reserved (omega arith) format-Filled).1
