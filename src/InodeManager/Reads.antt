-- ===== src/InodeManager/Reads.antt =====
-- The loop of `read_file` gives back what the blocks hold.
use mathlib.Core.List.{append_assoc, append-nil}
use lab_cse.Prelude.{
  ℕ, ◌+◌, ◌-◌, ◌%◌, ◌^◌, ◌<◌, ◌≤◌, ◌≡◌, refl, ap, sym, subst, ◌∙◌, true, List, [], ◌∷◌, ◌++◌, ltb,
  ltb→lt, ltb_false→le, lt→ltb, le→ltb, arith, Bool-cases, inl, inr, length, take, drop,
  length-append, length-take, length-drop, take-append-drop, take_all, drop-drop,
}
use lab_cse.Disk.{Block, block_size, block_num}
use lab_cse.BlockManager.{BlockManager}
use lab_cse.BlockManager.Bitmap.{IsDisk, read_whole}
use lab_cse.InodeManager.Files.{Reading, read_full, read_part, read_loop}
use lab_cse.InodeManager.Loops.{Holds}

-- What one loop adds to the content.
pub record Got (r : Reading) (xs : Block) (out : Reading) : Type 0 where
  pub filled : out.filled ≡ r.filled ++ xs
  pub rsize : out.rsize ≡ r.rsize + length xs
  pub rest : out.rest ≡ drop (length xs) r.rest

pub Got-trans :
    (r s t : Reading) (xs ys zs : Block) → xs ++ ys ≡ zs → Got r xs s → Got s ys t → Got r zs t
Got-trans r s t xs ys zs e g h = record {
  filled = rw (h.filled, g.filled, append_assoc, e);
  rsize = omega (arith, h.rsize, g.rsize, length-append {0} xs ys, ap length e);
  rest =
      h.rest
      ∙ ap (drop (length ys)) g.rest
      ∙ drop-drop (length ys) (length xs) (length zs) r.rest
          (omega (arith, length-append {0} xs ys, ap length e));
}

pub read_loop_done :
    (bm : BlockManager) (ts : List ℕ) (fsize : ℕ) (r : Reading)
    → fsize ≤ r.rsize
    → read_loop bm ts fsize r ≡ r
unfolding read_loop
read_loop_done bm [] fsize r h = refl
read_loop_done bm (t ∷ ts) fsize r h = rw (le→ltb r.rsize fsize h)

Got-done : (r : Reading) → Got r [] r
Got-done r = record { filled = sym (append-nil r.filled); rsize = omega arith; rest = refl }

read_full-Got :
    (bm : BlockManager) (t fsize : ℕ) (r : Reading) (xs : Block)
    → IsDisk bm.d
    → t < block_num
    → take (length (take block_size xs)) (bm.d.blocks t) ≡ take block_size xs
    → block_size ≤ length xs
    → r.rsize + length xs ≡ fsize
    → Got r (take block_size xs) (read_full bm t fsize r)
read_full-Got bm t fsize r xs disk lt h big e =
    let whole : length (take block_size xs) ≡ block_size =
      omega (arith, length-take {0} block_size xs) in
    let same : bm.d.blocks t ≡ take block_size xs =
      sym (
        take_all (length (take block_size xs)) (bm.d.blocks t)
          (omega (arith, whole, (disk t).size)))
      ∙ h in
    record {
      filled = rw (read_whole bm t (take block_size r.rest) lt, same);
      rsize = omega (arith, whole);
      rest = rw whole;
    }

read_part-Got :
    (bm : BlockManager) (t fsize : ℕ) (r : Reading) (xs : Block)
    → t < block_num
    → take (length (take block_size xs)) (bm.d.blocks t) ≡ take block_size xs
    → length xs ≤ block_size
    → r.rsize + length xs ≡ fsize
    → Got r xs (read_part bm t fsize r)
read_part-Got bm t fsize r xs lt h small e =
    let all : take block_size xs ≡ xs = take_all block_size xs small in
    let n : fsize - r.rsize ≡ length xs = omega arith in
    record {
      filled =
          rw (read_whole bm t r.buf lt, n)
            (ap (◌++◌ r.filled) (subst (λ ys. take (length ys) (bm.d.blocks t) ≡ ys) all h));
      rsize = omega arith;
      rest = rw n;
    }

-- A loop over blocks that hold `xs`, with `xs` left to read, adds `xs`.
pub read_loop-Got :
    (bm : BlockManager) (ts : List ℕ) (fsize : ℕ) (r : Reading) (xs : Block)
    → IsDisk bm.d
    → Holds bm.d.blocks ts xs
    → r.rsize + length xs ≡ fsize
    → fsize + block_size < 2 ^ 32
    → Got r xs (read_loop bm ts fsize r)
unfolding read_loop
read_loop-Got bm ts fsize r [] disk h e lim =
    rw (read_loop_done bm ts fsize r (omega arith)) (Got-done r)
read_loop-Got bm [] fsize r (x ∷ xs) disk h e lim = absurd h
read_loop-Got bm (t ∷ ts) fsize r (x ∷ xs) disk h e lim =
    let more : ltb r.rsize fsize ≡ true = lt→ltb r.rsize fsize (omega arith) in
    elim (Bool-cases (ltb ((r.rsize + block_size) % 2 ^ 32) fsize)) [
      | inl f ↦
          rw (more, f)
            (let s = read_full bm t fsize r in
              let big : block_size ≤ length (x ∷ xs) = omega (arith, ltb→lt _ fsize f) in
              let g = read_full-Got bm t fsize r (x ∷ xs) disk h.0 h.1 big e in
              Got-trans r s _ _ (drop block_size (x ∷ xs)) (x ∷ xs)
                (take-append-drop block_size (x ∷ xs)) g
                (read_loop-Got bm ts fsize s (drop block_size (x ∷ xs)) disk h.2
                  (omega (arith, length-drop {0} block_size (x ∷ xs), big, e)) lim))
      | inr f ↦
          rw (more, f)
            (let small : length (x ∷ xs) ≤ block_size =
                omega (arith, ltb_false→le ((r.rsize + block_size) % 2 ^ 32) fsize f, e, lim) in
              let s = read_part bm t fsize r in
              let g = read_part-Got bm t fsize r (x ∷ xs) h.0 h.1 small e in
              rw (read_loop_done bm ts fsize s (omega (arith, g.rsize))) g)
    ]
