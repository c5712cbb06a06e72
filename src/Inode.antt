-- ===== src/Inode.antt =====
-- `struct inode` of inode_manager.h as it lies in the first bytes of a block: little endian, with
-- `short` of two bytes, two bytes of padding behind it, and the other fields of four bytes.
pub mod Layout
pub mod Range
use lab_cse.Prelude.{
  ℕ, zero, suc, ◌+◌, ◌*◌, ◌/◌, ◌%◌, List, [], ◌∷◌, ◌++◌, get_or, take, drop, replicate,
}
use lab_cse.Disk.{Block}

abbrev pub ndirect : ℕ
ndirect = 32

-- `BLOCK_SIZE / sizeof(uint)`
abbrev pub nindirect : ℕ
nindirect = 128

pub record Inode : Type 0 where
  pub kind : ℕ  -- `type`
  pub size : ℕ
  pub atime : ℕ
  pub mtime : ℕ
  pub ctime : ℕ
  pub blocks : List ℕ  -- `NDIRECT + 1` entries

abbrev pub zero_inode : Inode
zero_inode = record {
  kind = 0;
  size = 0;
  atime = 0;
  mtime = 0;
  ctime = 0;
  blocks = replicate (ndirect + 1) 0;
}

abbrev pub le16 : Block → ℕ
le16 b = get_or b 0 0 + 256 * get_or b 1 0

abbrev pub le32 : Block → ℕ
le32 b = get_or b 0 0 + 256 * get_or b 1 0 + 65536 * get_or b 2 0 + 16777216 * get_or b 3 0

abbrev pub bytes16 : ℕ → Block
bytes16 n = (n % 256) ∷ (n / 256 % 256) ∷ []

abbrev pub bytes32 : ℕ → Block
bytes32 n = (n % 256) ∷ (n / 256 % 256) ∷ (n / 65536 % 256) ∷ (n / 16777216 % 256) ∷ []

-- The first `n` words, as `(uint *) buf` reads them.
unfoldable pub words : ℕ → Block → List ℕ
words zero b = []
words (suc n) b = le32 b ∷ words n (drop 4 b)

unfoldable pub word_bytes : List ℕ → Block
word_bytes [] = []
word_bytes (w ∷ ws) = bytes32 w ++ word_bytes ws

-- `*(struct inode *) buf`
unfoldable pub load : Block → Inode
unfolding words
load b = record {
  kind = le16 b;
  size = le32 (drop 4 b);
  atime = le32 (drop 8 b);
  mtime = le32 (drop 12 b);
  ctime = le32 (drop 16 b);
  blocks = words (ndirect + 1) (drop 20 b);
}

-- `*(struct inode *) buf = i`; the padding stays.
unfoldable pub store : Block → Inode → Block
unfolding word_bytes
store b i =
    bytes16 i.kind
    ++ (take 2 (drop 2 b)
        ++ (bytes32 i.size
            ++ (bytes32 i.atime
                ++ (bytes32 i.mtime ++ (bytes32 i.ctime ++ (word_bytes i.blocks ++ drop 152 b))))))
