-- ===== src/InodeManager/Boot.antt =====
-- The disk as the constructors of `block_manager` leave it is sound, and how much room it has.
use lab_cse.Prelude.{ℕ, zero, suc, ◌-◌, ◌<◌, ◌≤◌, ◌≡◌, ◌≢◌, refl, ap, ◌∙◌, arith, inl, inr}
use lab_cse.Disk.{block_num, zero_block}
use lab_cse.BlockManager.{BlockManager, Superblock, bblock, alloc_block, alloc_times, format}
use lab_cse.BlockManager.Bitmap.{IsDisk, used}
use lab_cse.BlockManager.Alloc.{alloc_block-Allocated}
use lab_cse.BlockManager.Format.{reserved, Filled, format-Filled, zero_block-IsBlock}
use lab_cse.InodeManager.Space.{Sound, unused}

-- Blocks above the bitmap and the superblock stay.
record Kept (bm bm' : BlockManager) : Type 0 where
  disk : IsDisk bm'.d
  blocks : (i : ℕ) → bblock block_num ≤ i → bm'.d.blocks i ≡ bm.d.blocks i
  same_sb : bm'.sb ≡ bm.sb

alloc_block-Kept : (bm : BlockManager) → IsDisk bm.d → Kept bm (alloc_block bm).0
alloc_block-Kept bm h = elim (alloc_block-Allocated bm h) [
  | inl (_, e) ↦ rw e (record { disk = h; blocks = λ i _. refl; same_sb = refl })
  | inr a ↦ record {
    disk = a.disk;
    blocks = λ i lo. a.kept i (ground (arith, a.in_range));
    same_sb = a.same_sb;
  }
]

alloc_times-Kept : (n : ℕ) (bm : BlockManager) → IsDisk bm.d → Kept bm (alloc_times n bm)
unfolding alloc_times
alloc_times-Kept zero bm h = record { disk = h; blocks = λ i _. refl; same_sb = refl }
alloc_times-Kept (suc n) bm h =
    let k = alloc_block-Kept bm h in
    let r = alloc_times-Kept n (alloc_block bm).0 k.disk in
    record {
      disk = r.disk;
      blocks = λ i lo. r.blocks i lo ∙ k.blocks i lo;
      same_sb = r.same_sb ∙ k.same_sb;
    }

-- The disk after the constructor has whole blocks, its sizes are those of the header, and every
-- reserved block is in use.
pub format-Sound : Sound format
unfolding format
format-Sound =
    let k = alloc_times-Kept reserved _ (λ i. zero_block-IsBlock) in
    record {
      disk = k.disk;
      nblocks = ap (λ (x : Superblock). x.nblocks) k.same_sb;
      ninodes = ap (λ (x : Superblock). x.ninodes) k.same_sb;
      reserve = λ c h. ground (arith, format-Filled.bits c);
    }

-- Above the bitmap the blocks after the constructor are zero.
pub format_blocks : (i : ℕ) → bblock block_num ≤ i → format.d.blocks i ≡ zero_block
unfolding format
format_blocks i h = (alloc_times-Kept reserved _ (λ i. zero_block-IsBlock)).blocks i h

unused-Filled : (n m : ℕ) (bm : BlockManager) → n ≤ block_num → Filled bm m → unused n bm ≡ n - m
unfolding unused
unused-Filled zero m bm h f = omega arith
unused-Filled (suc n) m bm h f =
    ground (arith, unused-Filled n m bm (omega arith) f, f.bits n (omega arith))

pub unused-format : unused block_num format ≡ block_num - reserved
unused-format = unused-Filled block_num reserved format (omega arith) format-Filled

unused_same :
    (n : ℕ) (bm bm' : BlockManager)
    → ((c : ℕ) → c < n → used bm' c ≡ used bm c)
    → unused n bm' ≡ unused n bm
unfolding unused
unused_same zero bm bm' h = refl
unused_same (suc n) bm bm' h =
    ground (arith, unused_same n bm bm' (λ c lt. h c (omega arith)), h n (omega arith))

-- A change of one block above the bitmap leaves the room as it is.
pub unused_kept :
    (bm bm' : BlockManager) (k : ℕ)
    → bblock block_num < k
    → ((i : ℕ) → i ≢ k → bm'.d.blocks i ≡ bm.d.blocks i)
    → unused block_num bm' ≡ unused block_num bm
unused_kept bm bm' k lo h =
    unused_same block_num bm bm' (λ c lt. rw (h (bblock c) (λ e. absurd (omega arith))) refl)
