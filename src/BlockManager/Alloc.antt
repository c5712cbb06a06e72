-- ===== src/BlockManager/Alloc.antt =====
-- `alloc_block` finds the first block that is not in use, and marks it.
use lab_cse.Prelude.{
  ℕ, zero, suc, ◌+◌, ◌*◌, ◌%◌, ◌<◌, ◌≤◌, ◌≡◌, ◌≢◌, refl, sym, subst, ◌⊎◌, true, false, ◌||◌, Option,
  none, some, ltb, ◌==◌, arith, Bool-cases, inl, inr,
}
use lab_cse.Disk.{Block, block_num, zero_block}
use lab_cse.BlockManager.Bitmap.{
  IsDisk, used, mark-IsBlock, bit_of-mark, read_bitmap, used-write, blocks-write, write-IsDisk,
}
use lab_cse.BlockManager.{
  BlockManager, bblock, bpb, bit_of, mark, write_block, scan, alloc_in, alloc_from, alloc_block,
}

-- All bits from `lo` up to `hi` are set.
abbrev AllSet : Block → ℕ → ℕ → Type 0
AllSet buf lo hi = (o : ℕ) → lo ≤ o → o < hi → bit_of buf o ≡ true

abbrev Scanned : Block → ℕ → ℕ → Option ℕ → Type 0
Scanned buf lo hi none = AllSet buf lo hi
Scanned buf lo hi (some o) = (lo ≤ o) × (o < hi) × (bit_of buf o ≡ false) × AllSet buf lo o

AllSet-suc :
    (buf : Block) (lo hi : ℕ) → bit_of buf lo ≡ true → AllSet buf (lo + 1) hi → AllSet buf lo hi
AllSet-suc buf lo hi h rest o p q = elim (Bool-cases (lo == o)) [
  | inl e ↦ ground (arith, h, e)
  | inr e ↦ rest o (ground arith) q
]

Scanned-suc :
    (buf : Block) (lo hi : ℕ) (r : Option ℕ)
    → bit_of buf lo ≡ true
    → Scanned buf (lo + 1) hi r
    → Scanned buf lo hi r
Scanned-suc buf lo hi none h s = AllSet-suc buf lo hi h s
Scanned-suc buf lo hi (some o) h s = (omega arith, s.1, s.2, AllSet-suc buf lo o h s.3)

scan-Scanned : (n off hi : ℕ) (buf : Block) → off + n ≡ hi → Scanned buf off hi (scan n off buf)
unfolding scan
scan-Scanned zero off hi buf e = λ o p q. absurd (omega arith)
scan-Scanned (suc n) off hi buf e = elim (Bool-cases (bit_of buf off)) [
  | inl h ↦
      rw (h, scan) (Scanned-suc buf off hi _ h (scan-Scanned n (off + 1) hi buf (omega arith)))
  | inr h ↦ rw (h, scan) (omega arith, omega arith, h, λ o p q. absurd (omega arith))
]

-- The state once block `b` is marked.
abbrev pub taken : BlockManager → ℕ → BlockManager
taken bm b = write_block bm (bblock b) (mark (bm.d.blocks (bblock b)) (b % bpb))

abbrev AllUsed : BlockManager → ℕ → ℕ → Type 0
AllUsed bm lo hi = (c : ℕ) → lo ≤ c → c < hi → used bm c ≡ true

abbrev Found : BlockManager → ℕ → BlockManager × ℕ → Type 0
Found bm lo r =
    (AllUsed bm lo block_num × (r ≡ (bm, 0)))
    ⊎ ((b : ℕ) × (lo ≤ b)
        × (b < block_num)
        × (used bm b ≡ false)
        × AllUsed bm lo b
        × (r ≡ (taken bm b, b)))

-- The offsets of one bitmap block are the blocks from `lo` on.
AllSet-AllUsed :
    (bm : BlockManager) (k off : ℕ)
    → off ≤ bpb
    → AllSet (bm.d.blocks (bblock (k * bpb))) 0 off
    → AllUsed bm (k * bpb) (k * bpb + off)
AllSet-AllUsed bm k off le h c p q =
    let same : bblock (k * bpb) ≡ bblock c = omega arith in
    rw (← same) (h (c % bpb) (omega arith) (omega arith))

module _ (k : ℕ) (bm : BlockManager) (in_range : k * bpb < block_num) where
  abbrev here : Block
  here = bm.d.blocks (bblock (k * bpb))

  alloc_in-Found :
      (rest : BlockManager × ℕ) (r : Option ℕ)
      → Scanned here 0 bpb r
      → Found bm ((k + 1) * bpb) rest
      → Found bm (k * bpb) (alloc_in bm (k * bpb) here rest r)
  unfolding alloc_in
  alloc_in-Found rest none s (inl (all, e)) = inl (
    (λ c p q. elim (Bool-cases (ltb c (k * bpb + bpb))) [
      | inl h ↦ AllSet-AllUsed bm k bpb (omega arith) s c p (ground arith)
      | inr h ↦ all c (ground arith) q
    ]),
    e,
  )
  alloc_in-Found rest none s (inr (b, p, q, u, all, e)) = inr (
    b,
    omega arith,
    q,
    u,
    (λ c p' q'. elim (Bool-cases (ltb c (k * bpb + bpb))) [
      | inl h ↦ AllSet-AllUsed bm k bpb (omega arith) s c p' (ground arith)
      | inr h ↦ all c (ground arith) q'
    ]),
    e,
  )
  alloc_in-Found rest (some off) s f =
      let b : ℕ = k * bpb + off in
      let same : bblock (k * bpb) ≡ bblock b = omega arith in
      let rem : b % bpb ≡ off = omega arith in
      inr (
        b,
        omega arith,
        omega (arith, s.1, in_range),
        rw (← same, rem) s.2,
        AllSet-AllUsed bm k off (omega arith) s.3,
        rw (← same, rem),
      )

alloc_from-Found :
    (n k : ℕ) (bm : BlockManager) (buf : Block)
    → (k + n) * bpb ≡ block_num
    → Found bm (k * bpb) (alloc_from n (k * bpb) bm buf)
unfolding alloc_from
alloc_from-Found zero k bm buf e = inl ((λ c p q. absurd (omega arith)), refl)
alloc_from-Found (suc n) k bm buf e =
    let b = bm.d.blocks (bblock (k * bpb)) in
    let next : k * bpb + bpb ≡ (k + 1) * bpb = omega arith in
    rw (read_bitmap bm (k * bpb) buf (omega arith), alloc_from)
      (alloc_in-Found k bm (omega arith) (alloc_from n (k * bpb + bpb) bm b) (scan bpb 0 b)
        (scan-Scanned bpb 0 bpb b (omega arith))
        (rw next (alloc_from-Found n (k + 1) bm b (omega arith))))

used-taken :
    (bm : BlockManager) (b c : ℕ)
    → IsDisk bm.d
    → b < block_num
    → used (taken bm b) c ≡ ((c == b) || used bm c)
used-taken bm b c h lt = ground (
  arith,
  used-write bm b c (mark (bm.d.blocks (bblock b)) (b % bpb)) lt,
  bit_of-mark (bm.d.blocks (bblock b)) (b % bpb) (c % bpb) (h (bblock b)),
)

-- Block `b` was the first that was not in use, and is in use now; nothing else changed.
pub record Allocated (bm bm' : BlockManager) (b : ℕ) : Type 0 where
  pub in_range : b < block_num
  pub unused : used bm b ≡ false
  pub first : (c : ℕ) → c < b → used bm c ≡ true
  pub after : (c : ℕ) → used bm' c ≡ ((c == b) || used bm c)
  pub kept : (i : ℕ) → i ≢ bblock b → bm'.d.blocks i ≡ bm.d.blocks i
  pub disk : IsDisk bm'.d
  pub same_sb : bm'.sb ≡ bm.sb

taken-Allocated :
    (bm : BlockManager) (b : ℕ)
    → IsDisk bm.d
    → b < block_num
    → used bm b ≡ false
    → ((c : ℕ) → c < b → used bm c ≡ true)
    → Allocated bm (taken bm b) b
unfolding write_block
taken-Allocated bm b h lt u first = record {
  in_range = lt;
  unused = u;
  first = first;
  after = λ c. used-taken bm b c h lt;
  kept = λ i ne.
      ground (arith, blocks-write bm (bblock b) i (mark (bm.d.blocks (bblock b)) (b % bpb)));
  disk = write-IsDisk bm (bblock b) _ h (mark-IsBlock _ (b % bpb) (h (bblock b)));
  same_sb = refl;
}

-- On a disk of whole blocks, `alloc_block` either finds all blocks in use, changes nothing and
-- returns 0, or returns the first block that is not in use: that block is in use afterwards, the
-- use of all others is as before, and no block of the disk changes but the one with its bit.
pub alloc_block-Allocated :
    (bm : BlockManager)
    → IsDisk bm.d
    → (((c : ℕ) → c < block_num → used bm c ≡ true) × (alloc_block bm ≡ (bm, 0)))
      ⊎ Allocated bm (alloc_block bm).0 (alloc_block bm).1
unfolding alloc_block
alloc_block-Allocated bm h = elim (alloc_from-Found 8 0 bm zero_block (omega arith)) [
  | inl (all, e) ↦ inl ((λ c p. all c (omega arith) p), e)
  | inr (b, _, lt, u, first, e) ↦ inr (
      subst (λ r. Allocated bm r.0 r.1) (sym e)
        (taken-Allocated bm b h lt u (λ c p. first c (omega arith) p)))
]
