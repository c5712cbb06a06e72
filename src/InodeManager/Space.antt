-- ===== src/InodeManager/Space.antt =====
-- Space on the disk: what allocating and freeing a list of blocks does.
use lab_cse.Prelude.{
  ℕ, zero, suc, ◌+◌, ◌<◌, ◌≤◌, ◌≡◌, refl, ap, ◌∙◌, true, false, List, [], ◌∷◌, ltb, if◌then◌else◌,
  arith, Bool-cases, inl, inr, length,
}
use lab_cse.Disk.{block_num}
use lab_cse.BlockManager.{BlockManager, Superblock, bblock, inode_num, alloc_block, free_block}
use lab_cse.BlockManager.Bitmap.{IsDisk, used}
use lab_cse.BlockManager.Alloc.{Allocated, alloc_block-Allocated}
use lab_cse.BlockManager.Free.{Freed, free_block-Freed}
use lab_cse.BlockManager.Format.{reserved}
use lab_cse.InodeManager.Files.{free_each, alloc_each}
use lab_cse.InodeManager.Loops.{elem, Distinct}

-- The block manager as the constructor leaves it and every operation keeps it.
pub record Sound (bm : BlockManager) : Type 0 where
  pub disk : IsDisk bm.d
  pub nblocks : bm.sb.nblocks ≡ block_num
  pub ninodes : bm.sb.ninodes ≡ inode_num
  pub reserve : (c : ℕ) → c < reserved → used bm c ≡ true

-- The number of blocks below `n` that are not in use.
unfoldable pub unused : ℕ → BlockManager → ℕ
unused zero bm = 0
unused (suc n) bm = unused n bm + (if used bm n then 0 else 1)

unused-Allocated :
    (n : ℕ) {bm bm' : BlockManager} {b : ℕ}
    → Allocated bm bm' b
    → unused n bm ≡ unused n bm' + (if ltb b n then 1 else 0)
unfolding unused
unused-Allocated zero {bm} {bm'} {b} a = ground arith
unused-Allocated (suc n) {bm} {bm'} {b} a =
    ground (arith, unused-Allocated n a, a.after n, a.unused)

unused-Freed : (n : ℕ) {bm bm' : BlockManager} {b : ℕ} → Freed bm bm' b → unused n bm ≤ unused n bm'
unfolding unused
unused-Freed zero f = omega arith
unused-Freed (suc n) {bm} {bm'} {b} f = ground (arith, unused-Freed n f, f.after n)

unused_none : (n : ℕ) (bm : BlockManager) → ((c : ℕ) → c < n → used bm c ≡ true) → unused n bm ≡ 0
unfolding unused
unused_none zero bm h = refl
unused_none (suc n) bm h =
    ground (arith, h n (omega arith), unused_none n bm (λ c p. h c (omega arith)))

-- With a block to spare, an allocation succeeds.
alloc_block_succeeds :
    (bm : BlockManager)
    → IsDisk bm.d
    → 0 < unused block_num bm
    → Allocated bm (alloc_block bm).0 (alloc_block bm).1
alloc_block_succeeds bm disk h = elim (alloc_block-Allocated bm disk) [
  | inl (all, _) ↦ absurd (omega (arith, unused_none block_num bm all))
  | inr a ↦ a
]

-- Data blocks: above the reserved ones.
abbrev pub AllData : List ℕ → Type 0
AllData [] = Unit {0}
AllData (t ∷ ts) = (reserved ≤ t) × (t < block_num) × AllData ts

Allocated-Sound : {bm bm' : BlockManager} {b : ℕ} → Allocated bm bm' b → Sound bm → Sound bm'
Allocated-Sound a s = record {
  disk = a.disk;
  nblocks = ap (λ (x : Superblock). x.nblocks) a.same_sb ∙ s.nblocks;
  ninodes = ap (λ (x : Superblock). x.ninodes) a.same_sb ∙ s.ninodes;
  reserve = λ c h. ground (arith, a.after c, s.reserve c h);
}

Freed-Sound : {bm bm' : BlockManager} {b : ℕ} → Freed bm bm' b → reserved ≤ b → Sound bm → Sound bm'
Freed-Sound {b = b} f lo s = record {
  disk = f.disk;
  nblocks = ap (λ (x : Superblock). x.nblocks) f.same_sb ∙ s.nblocks;
  ninodes = ap (λ (x : Superblock). x.ninodes) f.same_sb ∙ s.ninodes;
  reserve = λ c h. ground (arith, f.after c, s.reserve c h);
}

-- A step that frees data blocks only.
pub record Released (bm bm' : BlockManager) : Type 0 where
  pub sound : Sound bm'
  pub more : unused block_num bm ≤ unused block_num bm'
  pub kept : (i : ℕ) → bblock block_num ≤ i → bm'.d.blocks i ≡ bm.d.blocks i

pub free_block-Released :
    (bm : BlockManager) (b : ℕ)
    → Sound bm
    → reserved ≤ b
    → b < block_num
    → Released bm (free_block bm b)
free_block-Released bm b s lo hi =
    let f = free_block-Freed bm b s.disk (omega arith) hi in
    record {
      sound = Freed-Sound f lo s;
      more = unused-Freed block_num f;
      kept = λ i h. f.kept i (omega arith);
    }

pub Released-trans : {a b c : BlockManager} → Released a b → Released b c → Released a c
Released-trans f g = record {
  sound = g.sound;
  more = omega (arith, f.more, g.more);
  kept = λ i h. g.kept i h ∙ f.kept i h;
}

pub Released-refl : {bm : BlockManager} → Sound bm → Released bm bm
Released-refl s = record { sound = s; more = omega arith; kept = λ i h. refl }

pub free_each-Released :
    (ts : List ℕ) (bm : BlockManager) → Sound bm → AllData ts → Released bm (free_each ts bm)
unfolding free_each
free_each-Released [] bm s d = Released-refl s
free_each-Released (t ∷ ts) bm s d =
    let f = free_block-Released bm t s d.0 d.1 in
    Released-trans f (free_each-Released ts (free_block bm t) f.sound d.2)

-- The blocks `ts` were allocated: distinct data blocks that were not in use and now are.
pub record Took (bm : BlockManager) (n : ℕ) (bm' : BlockManager) (ts : List ℕ) : Type 0 where
  pub count : length ts ≡ n
  pub distinct : Distinct ts
  pub data_blocks : AllData ts
  pub was_unused : (i : ℕ) → elem i ts ≡ true → used bm i ≡ false
  pub now_used : (i : ℕ) → elem i ts ≡ true → used bm' i ≡ true
  pub still_used : (i : ℕ) → used bm i ≡ true → used bm' i ≡ true
  pub sound : Sound bm'
  pub left : unused block_num bm ≡ unused block_num bm' + n
  pub kept : (i : ℕ) → bblock block_num ≤ i → bm'.d.blocks i ≡ bm.d.blocks i

used_one : (b n : ℕ) → b < n → (let k : ℕ = if ltb b n then 1 else 0 in k) ≡ 1
used_one b n h = ground arith

pub alloc_each-Took :
    (n : ℕ) (bm : BlockManager)
    → Sound bm
    → n ≤ unused block_num bm
    → Took bm n (alloc_each n bm).0 (alloc_each n bm).1
unfolding alloc_each
alloc_each-Took zero bm s h = record {
  count = refl;
  distinct = tt;
  data_blocks = tt;
  was_unused = λ i e. cc;
  now_used = λ i e. cc;
  still_used = λ i e. e;
  sound = s;
  left = omega arith;
  kept = λ i e. refl;
}
alloc_each-Took (suc n) bm s h =
    let bm1 = (alloc_block bm).0 in
    let b = (alloc_block bm).1 in
    let a = alloc_block_succeeds bm s.disk (omega arith) in
    let cnt = unused-Allocated block_num a in
    let one = used_one b block_num a.in_range in
    let t = alloc_each-Took n bm1 (Allocated-Sound a s) (omega (arith, cnt, one)) in
    record {
      count = ap suc t.count;
      distinct = (
        a.in_range,
        elim (Bool-cases (elem b (alloc_each n bm1).1)) [
          | inl e ↦ ground (arith, t.was_unused b e, a.after b)
          | inr e ↦ e
        ],
        t.distinct,
      );
      data_blocks = (ground (arith, a.unused, s.reserve b), a.in_range, t.data_blocks);
      was_unused = λ i e. ground (arith, a.unused, a.after i, t.was_unused i, e);
      now_used = λ i e. ground (arith, a.after i, t.now_used i, t.still_used i, e);
      still_used = λ i e. t.still_used i (ground (arith, a.after i, e));
      sound = t.sound;
      left = omega (arith, cnt, one, t.left);
      kept = λ i e. t.kept i e ∙ a.kept i (ground (arith, a.in_range));
    }

pub alloc_block-Took :
    (bm : BlockManager)
    → Sound bm
    → 1 ≤ unused block_num bm
    → Took bm 1 (alloc_block bm).0 ((alloc_block bm).1 ∷ [])
unfolding alloc_each
alloc_block-Took bm s h = alloc_each-Took 1 bm s h
