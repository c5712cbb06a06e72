-- ===== src/BlockManager/Bitmap.antt =====
-- The bitmap seen as a set of block numbers, and what `mark` and `unmark` do to it.
use lab_cse.Prelude.{
  ℕ, zero, suc, ◌/◌, ◌%◌, ◌<◌, ◌≡◌, refl, Bool, false, not, ◌&&◌, ◌||◌, [], ◌∷◌, ltb, ◌==◌,
  if◌then◌else◌, length, length-set, get_or, set, get_or-set_self, get_or-set_ne, arith, Bool-cases,
  inl, inr,
}
use lab_cse.Disk.{Disk, Block, block_size, block_num}
use lab_cse.BlockManager.Bits.{
  set_bit, clear_bit, test_bit-set_bit, test_bit-clear_bit, set_bit-lt, clear_bit-lt,
}
use lab_cse.BlockManager.{BlockManager, bblock, bpb, bit_of, mark, unmark, read_block, write_block}

-- Every byte is below 256.
abbrev pub AllBytes : Block → Type 0
AllBytes [] = Unit {0}
AllBytes (x ∷ xs) = (x < 256) × AllBytes xs

pub record IsBlock (b : Block) : Type 0 where
  pub size : length b ≡ block_size
  pub bytes : AllBytes b

-- Every block of the disk has `block_size` bytes.
abbrev pub IsDisk : Disk → Type 0
IsDisk d = (i : ℕ) → IsBlock (d.blocks i)

-- Block `b` is in use.
abbrev pub used : BlockManager → ℕ → Bool
used bm b = bit_of (bm.d.blocks (bblock b)) (b % bpb)

pub get_or-lt : (xs : Block) (i : ℕ) → AllBytes xs → get_or xs i 0 < 256
get_or-lt [] i h = omega arith
get_or-lt (x ∷ xs) zero h = h.0
get_or-lt (x ∷ xs) (suc i) h = get_or-lt xs i h.1

set-AllBytes : (xs : Block) (i v : ℕ) → v < 256 → AllBytes xs → AllBytes (set xs i v)
set-AllBytes [] i v hv h = tt
set-AllBytes (x ∷ xs) zero v hv h = (hv, h.1)
set-AllBytes (x ∷ xs) (suc i) v hv h = (h.0, set-AllBytes xs i v hv h.1)

pub mark-IsBlock : (buf : Block) (off : ℕ) → IsBlock buf → IsBlock (mark buf off)
unfolding mark
mark-IsBlock buf off h = record {
  size = rw length-set h.size;
  bytes =
      set-AllBytes buf (off / 8) _ (set_bit-lt _ _ (get_or-lt buf (off / 8) h.bytes) (omega arith))
        h.bytes;
}

pub unmark-IsBlock : (buf : Block) (off : ℕ) → IsBlock buf → IsBlock (unmark buf off)
unfolding unmark
unmark-IsBlock buf off h = record {
  size = rw length-set h.size;
  bytes =
      set-AllBytes buf (off / 8) _
        (clear_bit-lt _ _ (get_or-lt buf (off / 8) h.bytes) (omega arith)) h.bytes;
}

get_or-set :
    (xs : Block) (i j v : ℕ)
    → i < length xs
    → get_or (set xs i v) j 0 ≡ (if j == i then v else get_or xs j 0)
get_or-set xs i j v h = elim (Bool-cases (j == i)) [
  | inl e ↦ ground (arith, e, get_or-set_self xs i v 0 h)
  | inr e ↦ ground (arith, e, get_or-set_ne xs i j v 0)
]

pub bit_of-mark :
    (buf : Block) (off o : ℕ)
    → IsBlock buf
    → off < bpb
    → bit_of (mark buf off) o ≡ ((o == off) || bit_of buf o)
unfolding bit_of mark
bit_of-mark buf off o h lt =
    let byte = get_or buf (off / 8) 0 in
    ground (
      arith,
      h.size,
      get_or-set buf (off / 8) (o / 8) (set_bit byte (off % 8)),
      test_bit-set_bit byte (off % 8) (o % 8) (get_or-lt buf (off / 8) h.bytes),
    )

pub bit_of-unmark :
    (buf : Block) (off o : ℕ)
    → IsBlock buf
    → off < bpb
    → bit_of (unmark buf off) o ≡ (not (o == off) && bit_of buf o)
unfolding bit_of unmark
bit_of-unmark buf off o h lt =
    let byte = get_or buf (off / 8) 0 in
    ground (
      arith,
      h.size,
      get_or-set buf (off / 8) (o / 8) (clear_bit byte (off % 8)),
      test_bit-clear_bit byte (off % 8) (o % 8) (get_or-lt buf (off / 8) h.bytes),
    )

-- A bitmap block can be read, whatever the buffer held.
pub read_bitmap :
    (bm : BlockManager) (b : ℕ) (buf : Block)
    → b < block_num
    → read_block bm (bblock b) buf ≡ bm.d.blocks (bblock b)
unfolding read_block
read_bitmap bm b buf h = ground arith

pub used-write :
    (bm : BlockManager) (b c : ℕ) (buf : Block)
    → b < block_num
    → used (write_block bm (bblock b) buf) c
      ≡ (if bblock c == bblock b then bit_of buf (c % bpb) else used bm c)
unfolding write_block
used-write bm b c buf h = ground arith

pub blocks-write :
    (bm : BlockManager) (i j : ℕ) (buf : Block)
    → i < block_num
    → (write_block bm i buf).d.blocks j ≡ (if j == i then buf else bm.d.blocks j)
unfolding write_block
blocks-write bm i j buf h = ground arith

pub write-IsDisk :
    (bm : BlockManager) (i : ℕ) (buf : Block)
    → IsDisk bm.d
    → IsBlock buf
    → IsDisk (write_block bm i buf).d
unfolding write_block
write-IsDisk bm i buf h hb j = elim (Bool-cases (ltb i block_num)) [
  | inl e ↦ elim (Bool-cases (j == i)) [ inl k ↦ rw (e, k) hb | inr k ↦ rw (e, k) (h j) ]
  | inr e ↦ rw e (h j)
]

pub sb-write : (bm : BlockManager) (i : ℕ) (buf : Block) → (write_block bm i buf).sb ≡ bm.sb
unfolding write_block
sb-write bm i buf = refl

-- A block of the disk can be read, whatever the buffer held.
pub read_whole :
    (bm : BlockManager) (i : ℕ) (buf : Block) → i < block_num → read_block bm i buf ≡ bm.d.blocks i
unfolding read_block
read_whole bm i buf h = ground arith

pub blocks-write_ne :
    (bm : BlockManager) (i j : ℕ) (buf : Block)
    → (j == i) ≡ false
    → (write_block bm i buf).d.blocks j ≡ bm.d.blocks j
unfolding write_block
blocks-write_ne bm i j buf h = ground arith
