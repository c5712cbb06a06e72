-- ===== src/InodeManager/Placement.antt =====
-- Where `write_file` puts a file: the blocks that it frees, and the blocks that it allocates.
use Prim.Native.Nat.{min}
use lab_cse.Prelude.{
  ℕ, zero, suc, ◌-◌, ◌^◌, ◌<◌, ◌≤◌, ◌≡◌, refl, ap, ◌∙◌, true, false, ◌||◌, List, [], ◌∷◌, ◌++◌, ltb,
  ltb→lt, arith, Bool-cases, inl, inr, length, take, drop, get_or, set,
}
use lab_cse.Disk.{Block, block_num}
use lab_cse.BlockManager.{BlockManager, read_block, write_block, bblock}
use lab_cse.BlockManager.Bitmap.{IsBlock, read_whole, blocks-write_ne, sb-write, write-IsDisk}
use lab_cse.BlockManager.Format.{reserved}
use lab_cse.Inode.{Inode, ndirect, nindirect, words}
use lab_cse.Inode.Layout.{AllWords}
use lab_cse.InodeManager.Files.{free_each, free_file, indirect_of}
use lab_cse.InodeManager.Loops.{elem, Distinct}
use lab_cse.InodeManager.Space.{
  Sound, AllData, Released, Released-trans, free_each-Released, free_block-Released,
}

-- The blocks that a file of `n` blocks uses are data blocks.
pub record Owns (bm : BlockManager) (ino : Inode) (n : ℕ) : Type 0 where
  pub direct : AllData (take (min n ndirect) ino.blocks)
  pub indirect :
      ndirect < n
      → (reserved ≤ indirect_of ino)
        × (indirect_of ino < block_num)
        × AllData (take (n - ndirect) (words nindirect (bm.d.blocks (indirect_of ino))))

-- On a sound disk, freeing the blocks of a file of `n` blocks, all of them data blocks, leaves the
-- disk sound, with no fewer blocks that are not in use, and all blocks above the bitmap as before.
pub free_file-Released :
    (ino : Inode) (n : ℕ) (indnum : Block) (bm : BlockManager)
    → Sound bm
    → Owns bm ino n
    → Released bm (free_file ino n indnum bm)
unfolding free_file
free_file-Released ino n indnum bm s o =
    let f = free_each-Released (take (min n ndirect) ino.blocks) bm s o.direct in
    elim (Bool-cases (ltb ndirect n)) [
      | inr few ↦ rw few f
      | inl many ↦
          let (lo, hi, entries) = o.indirect (ltb→lt ndirect n many) in
          let bm1 = free_each (take (min n ndirect) ino.blocks) bm in
          let same : read_block bm1 (indirect_of ino) indnum ≡ bm.d.blocks (indirect_of ino) =
            read_whole bm1 (indirect_of ino) indnum hi ∙ f.kept (indirect_of ino) (omega arith) in
          let g =
            free_each-Released
              (take (n - ndirect) (words nindirect (bm.d.blocks (indirect_of ino)))) bm1 f.sound
              entries in
          rw (many, same)
            (Released-trans f
              (Released-trans g (free_block-Released _ (indirect_of ino) g.sound lo hi)))
    ]

pub elem-append : (i : ℕ) (xs ys : List ℕ) → elem i (xs ++ ys) ≡ (elem i xs || elem i ys)
elem-append i [] ys = refl
elem-append i (x ∷ xs) ys = ground (arith, elem-append i xs ys)

pub append-Distinct :
    (xs ys : List ℕ)
    → Distinct xs
    → Distinct ys
    → ((i : ℕ) → elem i xs ≡ true → elem i ys ≡ false)
    → Distinct (xs ++ ys)
append-Distinct [] ys d e apart = e
append-Distinct (x ∷ xs) ys d e apart = (
  d.0,
  ground (arith, elem-append x xs ys, apart x),
  append-Distinct xs ys d.2 e (λ i h. apart i (ground arith)),
)

pub append-AllData : (xs ys : List ℕ) → AllData xs → AllData ys → AllData (xs ++ ys)
append-AllData [] ys h k = k
append-AllData (x ∷ xs) ys h k = (h.0, h.1, append-AllData xs ys h.2 k)

pub AllData-AllWords : (ts : List ℕ) → AllData ts → AllWords ts
AllData-AllWords [] h = tt
AllData-AllWords (t ∷ ts) h = (omega arith, AllData-AllWords ts h.2)

pub append-AllWords : (xs ys : List ℕ) → AllWords xs → AllWords ys → AllWords (xs ++ ys)
append-AllWords [] ys h k = k
append-AllWords (x ∷ xs) ys h k = (h.0, append-AllWords xs ys h.1 k)

pub drop-AllWords : (n : ℕ) (xs : List ℕ) → AllWords xs → AllWords (drop n xs)
drop-AllWords zero xs h = h
drop-AllWords (suc n) [] h = h
drop-AllWords (suc n) (x ∷ xs) h = drop-AllWords n xs h.1

pub set-AllWords : (xs : List ℕ) (i v : ℕ) → v < 2 ^ 32 → AllWords xs → AllWords (set xs i v)
set-AllWords [] i v h k = tt
set-AllWords (x ∷ xs) zero v h k = (h, k.1)
set-AllWords (x ∷ xs) (suc i) v h k = (k.0, set-AllWords xs i v h k.1)

pub take-append_some :
    (n : ℕ) (xs ys : List ℕ) → length xs ≤ n → (zs : List ℕ) × (take n (xs ++ ys) ≡ xs ++ zs)
take-append_some n [] ys h = (take n ys, refl)
take-append_some zero (x ∷ xs) ys h = absurd (omega arith)
take-append_some (suc n) (x ∷ xs) ys h =
    let (zs, e) = take-append_some n xs ys (omega arith) in (zs, ap (◌∷◌ x) e)

-- The entry behind the direct ones.
pub set_behind :
    (n : ℕ) (xs ys : List ℕ) (v : ℕ)
    → length xs ≡ n
    → 0 < length ys
    → (take n (set (xs ++ ys) n v) ≡ xs) × (get_or (set (xs ++ ys) n v) n 0 ≡ v)
set_behind zero [] [] v e h = elim h [ ]
set_behind zero [] (y ∷ ys) v e h = (refl, refl)
set_behind zero (x ∷ xs) ys v e h = absurd (omega arith)
set_behind (suc n) [] ys v e h = absurd (omega arith)
set_behind (suc n) (x ∷ xs) ys v e h =
    let r = set_behind n xs ys v (omega arith) h in (ap (◌∷◌ x) r.0, r.1)

-- Writing a block from the data region keeps the block manager sound.
pub write_block-Sound :
    (bm : BlockManager) (b : ℕ) (buf : Block)
    → Sound bm
    → bblock block_num ≤ b
    → IsBlock buf
    → Sound (write_block bm b buf)
write_block-Sound bm b buf s lo whole = record {
  disk = write-IsDisk bm b buf s.disk whole;
  nblocks = rw (sb-write bm b buf) s.nblocks;
  ninodes = rw (sb-write bm b buf) s.ninodes;
  reserve = λ c h. rw (blocks-write_ne bm b (bblock c) buf (ground arith)) (s.reserve c h);
}
