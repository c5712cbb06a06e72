-- ===== src/InodeManager/Allocation.antt =====
-- The blocks that `write_file` allocates, and the inode that names them.
use Prim.Native.Nat.{min}
use lab_cse.Prelude.{
  ℕ, ◌+◌, ◌-◌, ◌*◌, ◌<◌, ◌≤◌, ◌≡◌, refl, sym, subst, ◌∙◌, true, false, List, [], ◌∷◌, ◌++◌, ltb,
  ltb→lt, ltb_false→le, ◌==◌, if◌then◌else◌, arith, Bool-cases, inl, inr, length, drop, set,
  replicate, length-append, length-drop, length-set, length-replicate, ==_refl,
}
use mathlib.Core.List.{append_assoc}
use lab_cse.Disk.{Block, block_size, block_num}
use lab_cse.BlockManager.{BlockManager, write_block, bblock, alloc_block}
use lab_cse.BlockManager.Bitmap.{IsBlock, blocks-write, blocks-write_ne}
use lab_cse.BlockManager.Format.{reserved, replicate-AllBytes}
use lab_cse.Inode.{Inode, ndirect, nindirect, words, word_bytes}
use lab_cse.Inode.Layout.{
  AllWords, words-append, append-AllBytes, word_bytes-AllBytes, length-word_bytes,
}
use lab_cse.InodeManager.Files.{alloc_each, alloc_file, indirect_of, max_blocks}
use lab_cse.InodeManager.Loops.{elem, Distinct}
use lab_cse.InodeManager.Space.{Sound, AllData, unused, Took, alloc_each-Took, alloc_block-Took}
use lab_cse.InodeManager.Mapping.{Maps}
use lab_cse.InodeManager.Placement.{
  append-Distinct, append-AllData, AllData-AllWords, append-AllWords, drop-AllWords, set-AllWords,
  take-append_some, set_behind, elem-append, write_block-Sound,
}

-- The inode `ino'` names `n` new data blocks `ts`, and apart from that is `ino`; the blocks of
-- inodes are as before.
pub record Placed (ino : Inode) (n : ℕ) (old bm : BlockManager) (ino' : Inode) (ts : List ℕ)
    : Type 0 where
  pub sound : Sound bm
  pub kept : (i : ℕ) → bblock block_num ≤ i → i < reserved → bm.d.blocks i ≡ old.d.blocks i
  pub count : length ts ≡ n
  pub distinct : Distinct ts
  pub data_blocks : AllData ts
  pub maps : Maps bm.d.blocks ino' n ts
  pub apart : ndirect < n → (reserved ≤ indirect_of ino') × (elem (indirect_of ino') ts ≡ false)
  pub same : ino' ≡ record ino { blocks = ino'.blocks }
  pub entries : length ino'.blocks ≡ ndirect + 1
  pub fit : AllWords ino'.blocks

Placed-count :
    {ino ino' : Inode} {j n : ℕ} {old bm : BlockManager} {ts : List ℕ}
    → j ≡ n
    → Placed ino j old bm ino' ts
    → Placed ino n old bm ino' ts
Placed-count {ino} {ino'} {old = old} {bm = bm} {ts = ts} e p =
    subst (λ i. Placed ino i old bm ino' ts) e p

below_ne : (i b r : ℕ) → i < r → r ≤ b → (i == b) ≡ false
below_ne i b r lt le = ground arith

-- The blocks that a file of `n` blocks takes, the indirect block among them.
abbrev pub needed : ℕ → ℕ
needed n = if ltb ndirect n then n + 1 else n

module _ (ino : Inode) (entries : length ino.blocks ≡ ndirect + 1) (fit : AllWords ino.blocks)
    (bm : BlockManager) (s : Sound bm) where
  few-Placed :
      (n : ℕ)
      → n ≤ ndirect
      → n ≤ unused block_num bm
      → Placed ino n bm
          (alloc_each n bm).0
          (record ino { blocks = (alloc_each n bm).1 ++ drop n ino.blocks })
          (alloc_each n bm).1
  few-Placed n few room =
      let t = alloc_each-Took n bm s room in
      let ts = (alloc_each n bm).1 in
      record {
        sound = t.sound;
        kept = λ i h lt. t.kept i h;
        count = t.count;
        distinct = t.distinct;
        data_blocks = t.data_blocks;
        maps = record {
          few = λ h. take-append_some ndirect ts (drop n ino.blocks) (omega (arith, t.count));
          many = λ h. absurd (omega arith);
        };
        apart = λ h. absurd (omega arith);
        same = refl;
        entries = omega (
          arith,
          t.count,
          entries,
          length-append {0} ts (drop n ino.blocks),
          length-drop {0} n ino.blocks,
        );
        fit =
            append-AllWords ts _ (AllData-AllWords ts t.data_blocks)
              (drop-AllWords n ino.blocks fit);
      }

  -- The content of the indirect block.
  abbrev table : List ℕ → ℕ → Block
  table ind k = word_bytes ind ++ replicate (block_size - 4 * k) 0

  table-IsBlock : (ind : List ℕ) (k : ℕ) → length ind ≡ k → k ≤ nindirect → IsBlock (table ind k)
  table-IsBlock ind k e le = record {
    size = omega (
      arith,
      e,
      length-word_bytes ind,
      length-append {0} (word_bytes ind) (replicate (block_size - 4 * k) 0),
      length-replicate {0} {A = ℕ} (block_size - 4 * k) 0,
    );
    bytes = append-AllBytes _ _ (word_bytes-AllBytes ind) (replicate-AllBytes (block_size - 4 * k));
  }

  many-Placed :
      (k : ℕ)
      → 0 < k
      → k ≤ nindirect
      → ndirect + 1 + k ≤ unused block_num bm
      → let (bm1, direct) = alloc_each ndirect bm in
        let (bm2, b) = alloc_block bm1 in
        let (bm3, ind) = alloc_each k bm2 in
        Placed ino
          (ndirect + k)
          bm
          (write_block bm3 b (table ind k))
          (record ino { blocks = set (direct ++ drop ndirect ino.blocks) ndirect b })
          (direct ++ ind)
  many-Placed k pos le room =
      let bm1 = (alloc_each ndirect bm).0 in
      let direct = (alloc_each ndirect bm).1 in
      let t1 = alloc_each-Took ndirect bm s (omega arith) in
      let b = (alloc_block bm1).1 in
      let bm2 = (alloc_block bm1).0 in
      let t2 : Took bm1 1 bm2 (b ∷ []) = alloc_block-Took bm1 t1.sound (omega (arith, t1.left)) in
      let bm3 = (alloc_each k bm2).0 in
      let ind = (alloc_each k bm2).1 in
      let t3 = alloc_each-Took k bm2 t2.sound (omega (arith, t1.left, t2.left)) in
      let behind =
        set_behind ndirect direct (drop ndirect ino.blocks) b t1.count
          (omega (arith, length-drop {0} ndirect ino.blocks, entries)) in
      let b_is : elem b (b ∷ []) ≡ true = ground (arith, ==_refl b) in
      let not_direct : elem b direct ≡ false = elim (Bool-cases (elem b direct)) [
        | inl h ↦ ground (arith, t1.now_used b h, t2.was_unused b b_is)
        | inr h ↦ h
      ] in
      let not_ind : elem b ind ≡ false = elim (Bool-cases (elem b ind)) [
        | inl h ↦ ground (arith, t3.was_unused b h, t2.now_used b b_is)
        | inr h ↦ h
      ] in
      let bm4 = write_block bm3 b (table ind k) in
      let at_b : bm4.d.blocks b ≡ table ind k =
        ground (arith, blocks-write bm3 b b (table ind k) t2.data_blocks.1, ==_refl b) in
      let words_ind =
        words-append nindirect ind (replicate (block_size - 4 * k) 0) (omega (arith, t3.count))
          (AllData-AllWords ind t3.data_blocks) in
      record {
        sound =
            write_block-Sound bm3 b (table ind k) t3.sound (omega (arith, t2.data_blocks.0))
              (table-IsBlock ind k t3.count le);
        kept = λ i h lt.
            blocks-write_ne bm3 b i (table ind k) (below_ne i b reserved lt t2.data_blocks.0)
            ∙ (t3.kept i h ∙ (t2.kept i h ∙ t1.kept i h));
        count = omega (arith, t1.count, t3.count, length-append {0} direct ind);
        distinct = append-Distinct direct ind t1.distinct t3.distinct (λ i e.
            elim (Bool-cases (elem i ind)) [
              | inl h ↦ ground (arith, t3.was_unused i h, t2.still_used i (t1.now_used i e))
              | inr h ↦ h
            ]);
        data_blocks = append-AllData direct ind t1.data_blocks t3.data_blocks;
        maps = record {
          few = λ h. absurd (omega arith);
          many = λ h. (
            words (nindirect - length ind) (replicate (block_size - 4 * k) 0),
            rw (behind.0, behind.1, at_b, words_ind) (sym (append_assoc direct ind _)),
            rw behind.1 t2.data_blocks.1,
            rw (behind.0, behind.1) not_direct,
          );
        };
        apart = λ h. (
          rw behind.1 t2.data_blocks.0,
          rw behind.1 (ground (arith, elem-append b direct ind, not_direct, not_ind)),
        );
        same = refl;
        entries =
            length-set (direct ++ drop ndirect ino.blocks) ndirect b
            ∙ omega (
              arith,
              t1.count,
              entries,
              length-append {0} direct (drop ndirect ino.blocks),
              length-drop {0} ndirect ino.blocks,
            );
        fit = set-AllWords _ ndirect b (omega (arith, t2.data_blocks.1)) (
            append-AllWords direct _ (AllData-AllWords direct t1.data_blocks)
              (drop-AllWords ndirect ino.blocks fit));
      }

  -- On a sound disk, let an inode have 33 entries below 2 ^ 32, let `n` be at most 160, and let
  -- there be as many blocks not in use as `n` data blocks and their indirect block take. Then
  -- `alloc_file` gives `n` distinct data blocks, which the new inode names in order, apart from
  -- its indirect block; else the inode is the same, the disk is sound again, and the blocks from
  -- the bitmap's end to the last reserved one are as before.
  pub alloc_file-Placed :
      (n : ℕ)
      → n ≤ max_blocks
      → needed n ≤ unused block_num bm
      → (ts : List ℕ) × Placed ino n bm (alloc_file ino n bm).0 (alloc_file ino n bm).1 ts
  unfolding alloc_file
  alloc_file-Placed n le room = elim (Bool-cases (ltb ndirect n)) [
    | inr few ↦
        let m : min n ndirect ≡ n = omega (arith, ltb_false→le ndirect n few) in
        (
          (alloc_each n bm).1,
          rw (few, m) (few-Placed n (ltb_false→le ndirect n few) (ground arith)),
        )
    | inl many ↦
        let lt = ltb→lt ndirect n many in
        let m : min n ndirect ≡ ndirect = omega arith in
        let k : ℕ = n - ndirect in
        let e : ndirect + k ≡ n = omega arith in
        let p = many-Placed k (omega arith) (omega arith) (ground arith) in
        let direct = (alloc_each ndirect bm).1 in
        let ind = (alloc_each k (alloc_block (alloc_each ndirect bm).0).0).1 in
        (direct ++ ind, rw (many, m) (Placed-count e p))
  ]
