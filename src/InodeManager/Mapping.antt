-- ===== src/InodeManager/Mapping.antt =====
-- The blocks that an inode names, direct and indirect, as one list of targets; and the copies of
-- `write_file` and `read_file` as one loop over it.
use Prim.Native.Nat.{min}
use mathlib.Core.List.{append_assoc, append-nil}
use lab_cse.Prelude.{
  ℕ, ◌+◌, ◌-◌, ◌*◌, ◌%◌, ◌^◌, ◌<◌, ◌≤◌, ◌≡◌, refl, ap, sym, ◌∙◌, false, List, [], ◌∷◌, ◌++◌, ltb,
  ltb→lt, ltb_false→le, ◌==◌, if◌then◌else◌, arith, Bool-cases, inl, inr, length, take, drop_all,
}
use lab_cse.Disk.{Block, block_size, block_num}
use lab_cse.BlockManager.{BlockManager, read_block}
use lab_cse.BlockManager.Bitmap.{IsDisk, read_whole, blocks-write_ne}
use lab_cse.Inode.{Inode, ndirect, nindirect, words}
use lab_cse.InodeManager.Files.{Reading, read_loop, write_loop, copy_in, copy_out, indirect_of}
use lab_cse.InodeManager.Loops.{elem, Distinct, Holds, write_loop_done, write_loop-Written}
use lab_cse.InodeManager.Reads.{read_loop-Got, read_loop_done}

-- The first `n` blocks of the inode are `ts`. Behind them may stand others.
pub record Maps (f : ℕ → Block) (ino : Inode) (n : ℕ) (ts : List ℕ) : Type 0 where
  pub few : n ≤ ndirect → (junk : List ℕ) × (take ndirect ino.blocks ≡ ts ++ junk)
  pub many :
      ndirect < n
      → (junk : List ℕ) × (take ndirect ino.blocks ++ words nindirect (f (indirect_of ino))
          ≡ ts ++ junk)
        × (indirect_of ino < block_num)
        × (elem (indirect_of ino) (take ndirect ino.blocks) ≡ false)

write_loop-append :
    (ts us : List ℕ) (buf : Block) (rsize : ℕ) (block : Block) (bm : BlockManager)
    → write_loop (ts ++ us) buf rsize block bm
      ≡ (let r = write_loop ts buf rsize block bm in write_loop us buf r.1 r.2 r.0)
unfolding write_loop
write_loop-append [] us buf rsize block bm = refl
write_loop-append (t ∷ ts) us buf rsize block bm =
    let size = length buf in
    let next : ℕ = rsize + min block_size (size - rsize) in
    elim (Bool-cases (ltb rsize size)) [
      | inr e ↦ rw e (sym (write_loop_done us buf rsize block bm (ltb_false→le rsize size e)))
      | inl e ↦ elim (Bool-cases (ltb block_size (size - rsize))) [
        | inl f ↦ rw (e, f) (write_loop-append ts us buf next _ _)
        | inr f ↦ rw (e, f) (write_loop-append ts us buf next _ _)
      ]
    ]

read_loop-append :
    (bm : BlockManager) (ts us : List ℕ) (fsize : ℕ) (r : Reading)
    → read_loop bm (ts ++ us) fsize r ≡ read_loop bm us fsize (read_loop bm ts fsize r)
unfolding read_loop
read_loop-append bm [] us fsize r = refl
read_loop-append bm (t ∷ ts) us fsize r = elim (Bool-cases (ltb r.rsize fsize)) [
  | inr e ↦ rw e (sym (read_loop_done bm us fsize r (ltb_false→le r.rsize fsize e)))
  | inl e ↦ elim (Bool-cases (ltb ((r.rsize + block_size) % 2 ^ 32) fsize)) [
    | inl f ↦ rw (e, f) (read_loop-append bm ts us fsize _)
    | inr f ↦ rw (e, f) (read_loop-append bm ts us fsize _)
  ]
]

-- The content fits the targets: what stands behind them is not reached.
write_loop-prefix :
    (ts junk : List ℕ) (buf : Block) (rsize : ℕ) (block : Block) (bm : BlockManager)
    → Distinct ts
    → length buf ≤ rsize + block_size * length ts
    → write_loop (ts ++ junk) buf rsize block bm ≡ write_loop ts buf rsize block bm
write_loop-prefix ts junk buf rsize block bm d room =
    write_loop-append ts junk buf rsize block bm
    ∙ write_loop_done junk buf _ _ _ (write_loop-Written ts buf rsize block bm d room).all

read_loop-prefix :
    (bm : BlockManager) (ts junk : List ℕ) (fsize : ℕ) (r : Reading) (xs : Block)
    → IsDisk bm.d
    → Holds bm.d.blocks ts xs
    → r.rsize + length xs ≡ fsize
    → fsize + block_size < 2 ^ 32
    → read_loop bm (ts ++ junk) fsize r ≡ read_loop bm ts fsize r
read_loop-prefix bm ts junk fsize r xs disk h e lim =
    let g = read_loop-Got bm ts fsize r xs disk h e lim in
    read_loop-append bm ts junk fsize r ∙ read_loop_done bm junk fsize _ (omega (arith, g.rsize))

write_loop-kept :
    (ts : List ℕ) (buf : Block) (rsize : ℕ) (block : Block) (bm : BlockManager) (i : ℕ)
    → elem i ts ≡ false
    → (write_loop ts buf rsize block bm).0.d.blocks i ≡ bm.d.blocks i
unfolding write_loop
write_loop-kept [] buf rsize block bm i h = refl
write_loop-kept (t ∷ ts) buf rsize block bm i h =
    let size = length buf in
    let next : ℕ = rsize + min block_size (size - rsize) in
    let ne : (i == t) ≡ false = ground arith in
    let rest : elem i ts ≡ false = ground arith in
    elim (Bool-cases (ltb rsize size)) [
      | inr e ↦ rw e refl
      | inl e ↦ elim (Bool-cases (ltb block_size (size - rsize))) [
        | inl f ↦ rw (e, f) (write_loop-kept ts buf next _ _ i rest ∙ blocks-write_ne bm t i _ ne)
        | inr f ↦ rw (e, f) (write_loop-kept ts buf next _ _ i rest ∙ blocks-write_ne bm t i _ ne)
      ]
    ]

-- The test before a second loop makes no difference: the loop makes it again.
second_write :
    (us : List ℕ) (buf : Block) (w : BlockManager × ℕ × Block)
    → (if ltb w.1 (length buf) then (write_loop us buf w.1 w.2 w.0).0 else w.0)
      ≡ (write_loop us buf w.1 w.2 w.0).0
second_write us buf w = elim (Bool-cases (ltb w.1 (length buf))) [
  | inl e ↦ rw e refl
  | inr e ↦
      rw e
        (sym (ap (λ r. r.0) (write_loop_done us buf w.1 w.2 w.0 (ltb_false→le w.1 (length buf) e))))
]

copy_in_lem :
    (ino : Inode) (buf block indnum : Block) (bm : BlockManager)
    → copy_in ino buf block indnum bm ≡ (
        let w = write_loop (take ndirect ino.blocks) buf 0 block bm in
        let ind = words nindirect (read_block w.0 (indirect_of ino) indnum) in
        (write_loop (take ndirect ino.blocks ++ ind) buf 0 block bm).0)
unfolding copy_in
copy_in_lem ino buf block indnum bm =
    let ts = take ndirect ino.blocks in
    let w = write_loop ts buf 0 block bm in
    let ind = words nindirect (read_block w.0 (indirect_of ino) indnum) in
    second_write ind buf w ∙ sym (ap (λ r. r.0) (write_loop-append ts ind buf 0 block bm))

-- With room for the content, `write_file` copies it to the blocks that the inode maps.
pub copy_in-write_loop :
    (ino : Inode) (n : ℕ) (ts : List ℕ) (buf block indnum : Block) (bm : BlockManager)
    → Maps bm.d.blocks ino n ts
    → Distinct ts
    → length buf ≤ block_size * length ts
    → copy_in ino buf block indnum bm ≡ (write_loop ts buf 0 block bm).0
copy_in-write_loop ino n ts buf block indnum bm m d room =
    let w = write_loop (take ndirect ino.blocks) buf 0 block bm in
    let ind = words nindirect (read_block w.0 (indirect_of ino) indnum) in
    let to = λ (junk : List ℕ). λ (e : take ndirect ino.blocks ++ ind ≡ ts ++ junk).
      copy_in_lem ino buf block indnum bm
      ∙ ap (λ us. (write_loop us buf 0 block bm).0) e
      ∙ ap (λ r. r.0) (write_loop-prefix ts junk buf 0 block bm d (omega arith)) in
    elim (Bool-cases (ltb ndirect n)) [
      | inr few ↦
          let (junk, e) = m.few (ltb_false→le ndirect n few) in
          to (junk ++ ind) (ap (λ us. us ++ ind) e ∙ append_assoc ts junk ind)
      | inl many ↦
          let (junk, e, lt, out) = m.many (ltb→lt ndirect n many) in
          let same : read_block w.0 (indirect_of ino) indnum ≡ bm.d.blocks (indirect_of ino) =
            read_whole w.0 (indirect_of ino) indnum lt
            ∙ write_loop-kept (take ndirect ino.blocks) buf 0 block bm (indirect_of ino) out in
          to junk (ap (λ b. take ndirect ino.blocks ++ words nindirect b) same ∙ e)
    ]

second_read :
    (bm : BlockManager) (us : List ℕ) (fsize : ℕ) (r : Reading)
    → (if ltb r.rsize fsize then read_loop bm us fsize r else r) ≡ read_loop bm us fsize r
second_read bm us fsize r = elim (Bool-cases (ltb r.rsize fsize)) [
  | inl e ↦ rw e refl
  | inr e ↦ rw e (sym (read_loop_done bm us fsize r (ltb_false→le r.rsize fsize e)))
]

abbrev fresh : Block → Block → Reading
fresh res buf = record { rsize = 0; filled = []; rest = res; buf = buf }

copy_out_lem :
    (bm : BlockManager) (ino : Inode) (res buf indnum : Block)
    → copy_out bm ino res buf indnum ≡ (
        let ind = words nindirect (read_block bm (indirect_of ino) indnum) in
        let s = read_loop bm (take ndirect ino.blocks ++ ind) ino.size (fresh res buf) in
        s.filled ++ s.rest)
unfolding copy_out
copy_out_lem bm ino res buf indnum =
    let ts = take ndirect ino.blocks in
    let r = read_loop bm ts ino.size (fresh res buf) in
    let ind = words nindirect (read_block bm (indirect_of ino) indnum) in
    ap (λ (s : Reading). s.filled ++ s.rest)
      (second_read bm ind ino.size r ∙ sym (read_loop-append bm ts ind ino.size (fresh res buf)))

-- `read_file` returns what the blocks that the inode maps hold, if that is as long as the inode
-- says, whatever the memory held before.
pub copy_out-Holds :
    (bm : BlockManager) (ino : Inode) (n : ℕ) (ts : List ℕ) (xs res buf indnum : Block)
    → IsDisk bm.d
    → Maps bm.d.blocks ino n ts
    → Holds bm.d.blocks ts xs
    → ino.size ≡ length xs
    → length res ≡ length xs
    → length xs + block_size < 2 ^ 32
    → copy_out bm ino res buf indnum ≡ xs
copy_out-Holds bm ino n ts xs res buf indnum disk m h e whole lim =
    let r = fresh res buf in
    let ind = words nindirect (read_block bm (indirect_of ino) indnum) in
    let g = read_loop-Got bm ts ino.size r xs disk h (omega arith) (omega arith) in
    let done : (let s = read_loop bm ts ino.size r in s.filled ++ s.rest) ≡ xs =
      rw (g.filled, g.rest, drop_all (length xs) res (omega arith)) (append-nil xs) in
    let from = λ (junk : List ℕ). λ (k : take ndirect ino.blocks ++ ind ≡ ts ++ junk).
      copy_out_lem bm ino res buf indnum
      ∙ ap (λ us. (let s = read_loop bm us ino.size r in s.filled ++ s.rest)) k
      ∙ ap (λ (s : Reading). s.filled ++ s.rest)
          (read_loop-prefix bm ts junk ino.size r xs disk h (omega arith) (omega arith))
      ∙ done in
    elim (Bool-cases (ltb ndirect n)) [
      | inr few ↦
          let (junk, k) = m.few (ltb_false→le ndirect n few) in
          from (junk ++ ind) (ap (λ us. us ++ ind) k ∙ append_assoc ts junk ind)
      | inl many ↦
          let (junk, k, lt, _) = m.many (ltb→lt ndirect n many) in
          from junk (
            ap (λ b. take ndirect ino.blocks ++ words nindirect b)
              (read_whole bm (indirect_of ino) indnum lt)
            ∙ k)
    ]
