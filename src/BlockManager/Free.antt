-- ===== src/BlockManager/Free.antt =====
-- `free_block` clears one bit, above the reserved blocks.
use lab_cse.Prelude.{
  ℕ, ◌%◌, ◌<◌, ◌≤◌, ◌≡◌, ◌≢◌, refl, ap, false, not, ◌&&◌, leb, ◌==◌, arith, inl, inr,
}
use lab_cse.Disk.{block_num, zero_block}
use lab_cse.BlockManager.Bitmap.{
  IsDisk, used, unmark-IsBlock, bit_of-unmark, read_bitmap, used-write, blocks-write, write-IsDisk,
}
use lab_cse.BlockManager.Alloc.{alloc_block-Allocated}
use lab_cse.BlockManager.{BlockManager, bblock, bpb, unmark, write_block, free_block, alloc_block}

-- Block `b` is not in use now; nothing else changed.
pub record Freed (bm bm' : BlockManager) (b : ℕ) : Type 0 where
  pub after : (c : ℕ) → used bm' c ≡ (not (c == b) && used bm c)
  pub kept : (i : ℕ) → i ≢ bblock b → bm'.d.blocks i ≡ bm.d.blocks i
  pub disk : IsDisk bm'.d
  pub same_sb : bm'.sb ≡ bm.sb

abbrev dropped : BlockManager → ℕ → BlockManager
dropped bm b = write_block bm (bblock b) (unmark (bm.d.blocks (bblock b)) (b % bpb))

used-dropped :
    (bm : BlockManager) (b c : ℕ)
    → IsDisk bm.d
    → b < block_num
    → used (dropped bm b) c ≡ (not (c == b) && used bm c)
used-dropped bm b c h lt = ground (
  arith,
  used-write bm b c (unmark (bm.d.blocks (bblock b)) (b % bpb)) lt,
  bit_of-unmark (bm.d.blocks (bblock b)) (b % bpb) (c % bpb) (h (bblock b)),
)

dropped-Freed :
    (bm : BlockManager) (b : ℕ) → IsDisk bm.d → b < block_num → Freed bm (dropped bm b) b
unfolding write_block
dropped-Freed bm b h lt = record {
  after = λ c. used-dropped bm b c h lt;
  kept = λ i ne.
      ground (arith, blocks-write bm (bblock b) i (unmark (bm.d.blocks (bblock b)) (b % bpb)));
  disk = write-IsDisk bm (bblock b) _ h (unmark-IsBlock _ (b % bpb) (h (bblock b)));
  same_sb = refl;
}

-- `free_block` of a block of the disk above block 10 clears the bit of that block: the use of
-- all others is as before, and no block of the disk changes but the one with the bit.
pub free_block-Freed :
    (bm : BlockManager) (b : ℕ)
    → IsDisk bm.d
    → bblock block_num < b
    → b < block_num
    → Freed bm (free_block bm b) b
unfolding free_block
free_block-Freed bm b h lo hi =
    let big : leb b (bblock block_num) ≡ false = ground arith in
    rw (big, read_bitmap bm b zero_block hi) (dropped-Freed bm b h hi)

-- The blocks up to the bitmap, number 0 among them, cannot be freed.
pub free_block_reserved : (bm : BlockManager) (b : ℕ) → b ≤ bblock block_num → free_block bm b ≡ bm
unfolding free_block
free_block_reserved bm b h = ground arith

-- Freeing the block that was just allocated gives back the bitmap from before, provided that the
-- block stands above the bitmap.
pub free_block-alloc_block :
    (bm : BlockManager) (c : ℕ)
    → IsDisk bm.d
    → bblock block_num < (alloc_block bm).1
    → used (free_block (alloc_block bm).0 (alloc_block bm).1) c ≡ used bm c
free_block-alloc_block bm c h lo = elim (alloc_block-Allocated bm h) [
  | inl (_, e) ↦ absurd (let z : (alloc_block bm).1 ≡ 0 = ap (λ r. r.1) e in omega arith)
  | inr a ↦
      let b = (alloc_block bm).1 in
      let f = free_block-Freed (alloc_block bm).0 b a.disk lo a.in_range in
      ground (arith, f.after c, a.after c, a.unused)
]
