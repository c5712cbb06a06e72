-- ===== src/InodeManager/Loops.antt =====
-- The loops of `write_file` and `read_file`: what a list of blocks holds after the one, and that
-- the other gives it back.
use Prim.Native.Nat.{min}
use lab_cse.Prelude.{
  ℕ, ◌+◌, ◌-◌, ◌*◌, ◌<◌, ◌≤◌, ◌≡◌, refl, sym, ◌∙◌, Bool, true, false, ◌||◌, List, [], ◌∷◌, ◌++◌,
  ltb, leb→le, ◌==◌, arith, Bool-cases, inl, inr, length, take, drop, length-append, length-take,
  length-drop, take-append_length, take_all, drop_all, drop-drop,
}
use lab_cse.Disk.{Block, block_size, block_num}
use lab_cse.BlockManager.{BlockManager, write_block}
use lab_cse.BlockManager.Bitmap.{blocks-write, sb-write, AllBytes, IsBlock, IsDisk, write-IsDisk}
use lab_cse.Inode.Layout.{append-AllBytes, drop-AllBytes, take-AllBytes}
use lab_cse.InodeManager.Files.{write_loop}

abbrev pub elem : ℕ → List ℕ → Bool
elem i [] = false
elem i (t ∷ ts) = (i == t) || elem i ts

-- Distinct blocks of the disk.
abbrev pub Distinct : List ℕ → Type 0
Distinct [] = Unit {0}
Distinct (t ∷ ts) = (t < block_num) × (elem t ts ≡ false) × Distinct ts

-- The blocks hold the content, block after block; the last may be longer than its part.
abbrev pub Holds : (ℕ → Block) → List ℕ → Block → Type 0
Holds f ts [] = Unit {0}
Holds f [] (x ∷ xs) = ⊥
Holds f (t ∷ ts) (x ∷ xs) =
    (t < block_num)
    × (take (length (take block_size (x ∷ xs))) (f t) ≡ take block_size (x ∷ xs))
    × Holds f ts (drop block_size (x ∷ xs))

-- Holds survives changes of other blocks.
pub Holds-frame :
    (f g : ℕ → Block) (ts : List ℕ) (xs : Block)
    → ((i : ℕ) → elem i ts ≡ true → g i ≡ f i)
    → Holds f ts xs
    → Holds g ts xs
Holds-frame f g ts [] same h = tt
Holds-frame f g [] (x ∷ xs) same h = h
Holds-frame f g (t ∷ ts) (x ∷ xs) same h = (
  h.0,
  rw (same t (ground arith)) h.1,
  Holds-frame f g ts (drop block_size (x ∷ xs)) (λ i e. same i (ground arith)) h.2,
)

-- A loop whose content is exhausted does nothing.
pub write_loop_done :
    (ts : List ℕ) (buf : Block) (rsize : ℕ) (block : Block) (bm : BlockManager)
    → length buf ≤ rsize
    → write_loop ts buf rsize block bm ≡ (bm, rsize, block)
unfolding write_loop
write_loop_done [] buf rsize block bm h = refl
write_loop_done (t ∷ ts) buf rsize block bm h = ground arith

pub Holds-cons :
    (f : ℕ → Block) (t : ℕ) (ts : List ℕ) (xs : Block)
    → t < block_num
    → take (length (take block_size xs)) (f t) ≡ take block_size xs
    → Holds f ts (drop block_size xs)
    → Holds f (t ∷ ts) xs
Holds-cons f t ts [] lt h k = tt
Holds-cons f t ts (x ∷ xs) lt h k = (lt, h, k)

-- What one loop leaves: the content stands in the blocks, and no other block has changed.
pub record Written (ts : List ℕ) (buf : Block) (rsize : ℕ) (bm : BlockManager)
    (r : BlockManager × ℕ × Block) : Type 0 where
  pub holds : Holds r.0.d.blocks ts (drop rsize buf)
  pub all : length buf ≤ r.1
  pub kept : (i : ℕ) → elem i ts ≡ false → r.0.d.blocks i ≡ bm.d.blocks i
  pub same_sb : r.0.sb ≡ bm.sb

Written-done :
    (ts : List ℕ) (buf : Block) (rsize : ℕ) (block : Block) (bm : BlockManager)
    → length buf ≤ rsize
    → Written ts buf rsize bm (bm, rsize, block)
Written-done ts buf rsize block bm h = record {
  holds = rw (drop_all rsize buf h) tt;
  all = h;
  kept = λ i e. refl;
  same_sb = refl;
}

Written-cons :
    (t : ℕ) (ts : List ℕ) (buf : Block) (rsize next : ℕ) (b : Block) (bm : BlockManager)
    (r : BlockManager × ℕ × Block)
    → t < block_num
    → elem t ts ≡ false
    → take (length (take block_size (drop rsize buf))) b ≡ take block_size (drop rsize buf)
    → drop block_size (drop rsize buf) ≡ drop next buf
    → Written ts buf next (write_block bm t b) r
    → Written (t ∷ ts) buf rsize bm r
Written-cons t ts buf rsize next b bm r lt out h e w =
    let at_t : r.0.d.blocks t ≡ b = ground (arith, w.kept t out, blocks-write bm t t b lt) in
    record {
      holds = Holds-cons r.0.d.blocks t ts (drop rsize buf) lt (rw at_t h) (rw e w.holds);
      all = w.all;
      kept = λ i n. ground (arith, w.kept i, blocks-write bm t i b lt);
      same_sb = w.same_sb ∙ sb-write bm t b;
    }

-- Enough blocks for the content from `rsize` on.
abbrev pub Room : List ℕ → Block → ℕ → Type 0
Room ts buf rsize = length buf ≤ rsize + block_size * length ts

-- The last part, with what the array held before behind it.
last_part :
    (xs rest : Block) (n : ℕ)
    → length xs ≡ n
    → n ≤ block_size
    → take (length (take block_size xs)) (take n xs ++ rest) ≡ take block_size xs
last_part xs rest n e h =
    rw (take_all block_size xs (omega arith), take_all n xs (omega arith))
      (take-append_length xs rest)

pub write_loop-Written :
    (ts : List ℕ) (buf : Block) (rsize : ℕ) (block : Block) (bm : BlockManager)
    → Distinct ts
    → Room ts buf rsize
    → Written ts buf rsize bm (write_loop ts buf rsize block bm)
unfolding write_loop
write_loop-Written [] buf rsize block bm d room = Written-done [] buf rsize block bm (omega arith)
write_loop-Written (t ∷ ts) buf rsize block bm d room = elim (Bool-cases (ltb rsize (length buf))) [
  | inr e ↦ rw e (Written-done (t ∷ ts) buf rsize block bm (ground arith))
  | inl e ↦ elim (Bool-cases (ltb block_size (length buf - rsize))) [
    | inl f ↦
        rw (e, f)
          (let size = length buf in
            let next : ℕ = rsize + min block_size (size - rsize) in
            let w =
              write_loop-Written ts buf next block
                (write_block bm t (take block_size (drop rsize buf))) d.2 (ground arith) in
            Written-cons t ts buf rsize next (take block_size (drop rsize buf)) bm _ d.0 d.1
              (take_all _ (take block_size (drop rsize buf)) (omega arith))
              (drop-drop block_size rsize next buf (ground arith)) w)
    | inr f ↦
        rw (e, f)
          (let size = length buf in
            let left : length (drop rsize buf) ≡ size - rsize = length-drop rsize buf in
            let next : ℕ = rsize + min block_size (size - rsize) in
            let part = take (size - rsize) (drop rsize buf) ++ drop (size - rsize) block in
            let w =
              write_loop-Written ts buf next part (write_block bm t part) d.2 (ground arith) in
            Written-cons t ts buf rsize next part bm _ d.0 d.1
              (last_part (drop rsize buf) (drop (size - rsize) block) (size - rsize) left
                (ground arith))
              (drop_all block_size (drop rsize buf) (ground (arith, left))
                ∙ sym (drop_all next buf (ground arith)))
              w)
  ]
]

-- The blocks of the disk stay whole.
pub write_loop-IsDisk :
    (ts : List ℕ) (buf : Block) (rsize : ℕ) (block : Block) (bm : BlockManager)
    → AllBytes buf
    → IsBlock block
    → IsDisk bm.d
    → let r = write_loop ts buf rsize block bm in IsDisk r.0.d × IsBlock r.2
unfolding write_loop
write_loop-IsDisk [] buf rsize block bm bytes whole disk = (disk, whole)
write_loop-IsDisk (t ∷ ts) buf rsize block bm bytes whole disk =
    let size = length buf in
    let next : ℕ = rsize + min block_size (size - rsize) in
    let left : length (drop rsize buf) ≡ size - rsize = length-drop rsize buf in
    let rest_bytes = drop-AllBytes rsize buf bytes in
    elim (Bool-cases (ltb rsize size)) [
      | inr e ↦ rw e (disk, whole)
      | inl e ↦ elim (Bool-cases (ltb block_size (size - rsize))) [
        | inl f ↦
            let full : IsBlock (take block_size (drop rsize buf)) = record {
              size = length-take block_size (drop rsize buf) ∙ ground (arith, left);
              bytes = take-AllBytes block_size (drop rsize buf) rest_bytes;
            } in
            rw (e, f)
              (write_loop-IsDisk ts buf next block _ bytes whole (write-IsDisk bm t _ disk full))
        | inr f ↦
            let part : IsBlock (take (size - rsize) (drop rsize buf) ++ drop (size - rsize) block) =
              record {
                size = omega (
                  arith,
                  left,
                  whole.size,
                  leb→le (size - rsize) block_size (ground arith),
                  length-append {0} (take (size - rsize) (drop rsize buf))
                      (drop (size - rsize) block),
                  length-take {0} (size - rsize) (drop rsize buf),
                  length-drop {0} (size - rsize) block,
                );
                bytes =
                    append-AllBytes _ _ (take-AllBytes (size - rsize) (drop rsize buf) rest_bytes)
                      (drop-AllBytes (size - rsize) block whole.bytes);
              } in
            rw (e, f) (write_loop-IsDisk ts buf next _ _ bytes part (write-IsDisk bm t _ disk part))
      ]
    ]
