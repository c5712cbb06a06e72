-- ===== src/Inode/Range.antt =====
-- What is loaded from a block of bytes fits its place.
use lab_cse.Prelude.{ℕ, zero, suc, ◌+◌, ◌^◌, ◌<◌, ◌≡◌, refl, ap, arith, length, drop}
use lab_cse.Disk.{Block}
use lab_cse.BlockManager.Bitmap.{AllBytes, get_or-lt}
use lab_cse.Inode.{ndirect, words, load, le32}
use lab_cse.Inode.Layout.{Fits, AllWords, drop-AllBytes}

le32-lt : (b : Block) → AllBytes b → le32 b < 2 ^ 32
le32-lt b h = omega (arith, get_or-lt b 0 h, get_or-lt b 1 h, get_or-lt b 2 h, get_or-lt b 3 h)

words-AllWords : (n : ℕ) (b : Block) → AllBytes b → AllWords (words n b)
unfolding words
words-AllWords zero b h = tt
words-AllWords (suc n) b h = (le32-lt b h, words-AllWords n (drop 4 b) (drop-AllBytes 4 b h))

length-words : (n : ℕ) (b : Block) → length (words n b) ≡ n
unfolding words
length-words zero b = refl
length-words (suc n) b = ap suc (length-words n (drop 4 b))

pub load-Fits : (b : Block) → AllBytes b → Fits (load b)
unfolding load
load-Fits b h = record {
  kind = omega (arith, get_or-lt b 0 h, get_or-lt b 1 h);
  size = le32-lt (drop 4 b) (drop-AllBytes 4 b h);
  atime = le32-lt (drop 8 b) (drop-AllBytes 8 b h);
  mtime = le32-lt (drop 12 b) (drop-AllBytes 12 b h);
  ctime = le32-lt (drop 16 b) (drop-AllBytes 16 b h);
  blocks = words-AllWords (ndirect + 1) (drop 20 b) (drop-AllBytes 20 b h);
  count = length-words (ndirect + 1) (drop 20 b);
}
