-- ===== src/Inode/Layout.antt =====
-- What is stored in a block is loaded from it.
use lab_cse.Prelude.{
  ℕ, zero, suc, ◌+◌, ◌*◌, ◌/◌, ◌%◌, ◌^◌, ◌-◌, ◌<◌, ◌≤◌, ◌≡◌, refl, subst, List, [], ◌∷◌, ◌++◌, take,
  drop, arith, length, length-append, length-drop, length-take,
}
use lab_cse.Disk.{Block}
use lab_cse.BlockManager.Bitmap.{IsBlock, AllBytes}
use lab_cse.Inode.{Inode, ndirect, bytes32, words, word_bytes, load, store}

abbrev pub AllWords : List ℕ → Type 0
AllWords [] = Unit {0}
AllWords (x ∷ xs) = (x < 2 ^ 32) × AllWords xs

-- Every field fits its place.
pub record Fits (i : Inode) : Type 0 where
  pub kind : i.kind < 2 ^ 16
  pub size : i.size < 2 ^ 32
  pub atime : i.atime < 2 ^ 32
  pub mtime : i.mtime < 2 ^ 32
  pub ctime : i.ctime < 2 ^ 32
  pub blocks : AllWords i.blocks
  pub count : length i.blocks ≡ ndirect + 1

le32-bytes32 :
    (n : ℕ)
    → n < 2 ^ 32
    → n % 256 + 256 * (n / 256 % 256) + 65536 * (n / 65536 % 256) + 16777216 * (n / 16777216 % 256)
      ≡ n
le32-bytes32 n h = omega arith

pub words-word_bytes :
    (ws : List ℕ) (rest : Block) → AllWords ws → words (length ws) (word_bytes ws ++ rest) ≡ ws
unfolding words word_bytes
words-word_bytes [] rest h = refl
words-word_bytes (w ∷ ws) rest h = ground (arith, le32-bytes32 w h.0, words-word_bytes ws rest h.1)

pub words-word_bytes_of :
    (n : ℕ) (ws : List ℕ) (rest : Block)
    → length ws ≡ n
    → AllWords ws
    → words n (word_bytes ws ++ rest) ≡ ws
words-word_bytes_of n ws rest e h =
    subst (λ k. words k (word_bytes ws ++ rest) ≡ ws) e (words-word_bytes ws rest h)

le16-bytes16 : (n : ℕ) → n < 2 ^ 16 → n % 256 + 256 * (n / 256 % 256) ≡ n
le16-bytes16 n h = omega arith

-- An inode whose fields fit their places is loaded as it was from the block that it was stored
-- in, if the block had at least four bytes, whatever they were.
pub load-store : (b : Block) (i : Inode) → Fits i → 4 ≤ length b → load (store b i) ≡ i
unfolding load store
load-store (b0 ∷ b1 ∷ b2 ∷ b3 ∷ b) i f h = ground (
  arith,
  le16-bytes16 i.kind f.kind,
  le32-bytes32 i.size f.size,
  le32-bytes32 i.atime f.atime,
  le32-bytes32 i.mtime f.mtime,
  le32-bytes32 i.ctime f.ctime,
  words-word_bytes_of 33 i.blocks (drop 148 b) f.count f.blocks,
)
load-store (b0 ∷ b1 ∷ b2 ∷ []) i f h = absurd (omega arith)
load-store (b0 ∷ b1 ∷ []) i f h = absurd (omega arith)
load-store (b0 ∷ []) i f h = absurd (omega arith)
load-store [] i f h = absurd (omega arith)

pub length-word_bytes : (ws : List ℕ) → length (word_bytes ws) ≡ 4 * length ws
unfolding word_bytes
length-word_bytes [] = refl
length-word_bytes (w ∷ ws) = omega (arith, length-word_bytes ws)

pub word_bytes-AllBytes : (ws : List ℕ) → AllBytes (word_bytes ws)
unfolding word_bytes
word_bytes-AllBytes [] = tt
word_bytes-AllBytes (w ∷ ws) =
    (omega arith, (omega arith, (omega arith, (omega arith, word_bytes-AllBytes ws))))

pub append-AllBytes : (xs ys : Block) → AllBytes xs → AllBytes ys → AllBytes (xs ++ ys)
append-AllBytes [] ys h k = k
append-AllBytes (x ∷ xs) ys h k = (h.0, append-AllBytes xs ys h.1 k)

pub drop-AllBytes : (n : ℕ) (xs : Block) → AllBytes xs → AllBytes (drop n xs)
drop-AllBytes zero xs h = h
drop-AllBytes (suc n) [] h = h
drop-AllBytes (suc n) (x ∷ xs) h = drop-AllBytes n xs h.1

pub take-AllBytes : (n : ℕ) (xs : Block) → AllBytes xs → AllBytes (take n xs)
take-AllBytes zero xs h = tt
take-AllBytes (suc n) [] h = h
take-AllBytes (suc n) (x ∷ xs) h = (h.0, take-AllBytes n xs h.1)

bytes32-AllBytes : (n : ℕ) (xs : Block) → AllBytes xs → AllBytes (bytes32 n ++ xs)
bytes32-AllBytes n xs h = (omega arith, (omega arith, (omega arith, (omega arith, h))))

-- Storing an inode in a block keeps it a block.
pub store-IsBlock :
    (b : Block) (i : Inode) → length i.blocks ≡ ndirect + 1 → IsBlock b → IsBlock (store b i)
unfolding store
store-IsBlock b i count h = record {
  size = omega (
    arith,
    h.size,
    count,
    length-word_bytes i.blocks,
    length-append {0} (take 2 (drop 2 b)) (
        bytes32 i.size
        ++ (bytes32 i.atime
            ++ (bytes32 i.mtime ++ (bytes32 i.ctime ++ (word_bytes i.blocks ++ drop 152 b))))),
    length-append {0} (word_bytes i.blocks) (drop 152 b),
    length-take {0} 2 (drop 2 b),
    length-drop {0} 2 b,
    length-drop {0} 152 b,
  );
  bytes =
      let r0 = word_bytes i.blocks ++ drop 152 b in
      let r1 = bytes32 i.ctime ++ r0 in
      let r2 = bytes32 i.mtime ++ r1 in
      let r3 = bytes32 i.atime ++ r2 in
      let r4 = bytes32 i.size ++ r3 in
      let h0 =
        append-AllBytes (word_bytes i.blocks) (drop 152 b) (word_bytes-AllBytes i.blocks)
          (drop-AllBytes 152 b h.bytes) in
      let h1 = bytes32-AllBytes i.ctime r0 h0 in
      let h2 = bytes32-AllBytes i.mtime r1 h1 in
      let h3 = bytes32-AllBytes i.atime r2 h2 in
      let h4 = bytes32-AllBytes i.size r3 h3 in
      (
        omega arith,
        (
          omega arith,
          append-AllBytes (take 2 (drop 2 b)) r4
              (take-AllBytes 2 (drop 2 b) (drop-AllBytes 2 b h.bytes)) h4,
        ),
      );
}

pub words-append :
    (n : ℕ) (ws : List ℕ) (rest : Block)
    → length ws ≤ n
    → AllWords ws
    → words n (word_bytes ws ++ rest) ≡ ws ++ words (n - length ws) rest
unfolding words word_bytes
words-append n [] rest le h = let e : n - 0 ≡ n = omega arith in rw e
words-append zero (w ∷ ws) rest le h = absurd (omega arith)
words-append (suc n) (w ∷ ws) rest le h =
    let e : suc n - suc (length ws) ≡ n - length ws = omega arith in
    rw e (ground (arith, le32-bytes32 w h.0, words-append n ws rest (omega arith) h.1))
