-- ===== src/InodeManager/Inodes.antt =====
-- The table of inodes: what is put is got, and what is got fits its place.
use lab_cse.Prelude.{
  ℕ, ◌+◌, ◌<◌, ◌≡◌, ◌≢◌, refl, sym, ◌∙◌, true, false, none, some, leb, ◌==◌, if◌then◌else◌, arith,
  Bool-cases, inl, inr, ==_refl,
}
use lab_cse.Disk.{zero_block}
use lab_cse.BlockManager.{BlockManager, inode_num, write_block}
use lab_cse.BlockManager.Bitmap.{read_whole, blocks-write, blocks-write_ne}
use lab_cse.Inode.{Inode, load, store}
use lab_cse.Inode.Layout.{Fits, load-store, store-IsBlock}
use lab_cse.InodeManager.Table.{inode_block, get_inode, put_inode}
use lab_cse.InodeManager.Space.{Sound}
use lab_cse.InodeManager.Placement.{write_block-Sound}

-- The block of an inode.
pub home : (bm : BlockManager) (inum : ℕ) → Sound bm → inode_block bm inum ≡ inum + 11
home bm inum s = omega (arith, s.nblocks)

out_of_range :
    (bm : BlockManager) (inum : ℕ) (ino : Inode)
    → leb inode_num inum ≡ true
    → get_inode bm inum ≡ some ino
    → ⊥
unfolding get_inode
out_of_range bm inum ino out e = ground (arith, out)

pub get_inode-load :
    (bm : BlockManager) (inum : ℕ)
    → Sound bm
    → inum < inode_num
    → get_inode bm inum
      ≡ (let ino = load (bm.d.blocks (inum + 11)) in if ino.kind == 0 then none else some ino)
unfolding get_inode
get_inode-load bm inum s lt =
    let out : leb inode_num inum ≡ false = ground arith in
    rw (out, home bm inum s, read_whole bm (inum + 11) zero_block (omega arith))

pub get_inode-some :
    (bm : BlockManager) (inum : ℕ) (ino : Inode)
    → Sound bm
    → get_inode bm inum ≡ some ino
    → (inum < inode_num) × (ino ≡ load (bm.d.blocks (inum + 11))) × ((ino.kind == 0) ≡ false)
get_inode-some bm inum ino s e = elim (Bool-cases (leb inode_num inum)) [
  | inl out ↦ absurd (out_of_range bm inum ino out e)
  | inr ok ↦
      let lt : inum < inode_num = ground arith in
      let at = get_inode-load bm inum s lt in (lt, ground (arith, e, at), ground (arith, e, at))
]

-- An inode that fits is loaded from its place after it was put, and no other block changes.
pub load-put_inode :
    (bm : BlockManager) (inum : ℕ) (ino : Inode)
    → Sound bm
    → inum < inode_num
    → Fits ino
    → Sound (put_inode bm inum (some ino))
      × (load ((put_inode bm inum (some ino)).d.blocks (inum + 11)) ≡ ino)
      × ((i : ℕ) → i ≢ inum + 11 → (put_inode bm inum (some ino)).d.blocks i ≡ bm.d.blocks i)
unfolding put_inode
load-put_inode bm inum ino s lt f =
    let i = inum + 11 in
    let old = bm.d.blocks i in
    let new = store old ino in
    let bm' = write_block bm i new in
    let whole = store-IsBlock old ino f.count (s.disk i) in
    let s' = write_block-Sound bm i new s (omega arith) whole in
    let at : bm'.d.blocks i ≡ new =
      ground (arith, blocks-write bm i i new (omega arith), ==_refl i) in
    let back : load new ≡ ino = load-store old ino f (omega (arith, (s.disk i).size)) in
    rw (home bm inum s, read_whole bm i zero_block (omega arith))
      (s', rw at back, λ j ne. blocks-write_ne bm i j new (ground arith))

-- On a sound disk, an inode whose fields fit and whose type is not 0 is got back after it was put
-- at a number of the table; the disk is sound again, and no other block changes.
pub get_inode-put_inode :
    (bm : BlockManager) (inum : ℕ) (ino : Inode)
    → Sound bm
    → inum < inode_num
    → Fits ino
    → (ino.kind == 0) ≡ false
    → Sound (put_inode bm inum (some ino))
      × (get_inode (put_inode bm inum (some ino)) inum ≡ some ino)
      × ((i : ℕ) → i ≢ inum + 11 → (put_inode bm inum (some ino)).d.blocks i ≡ bm.d.blocks i)
get_inode-put_inode bm inum ino s lt f k =
    let (s', at, kept) = load-put_inode bm inum ino s lt f in
    (s', get_inode-load (put_inode bm inum (some ino)) inum s' lt ∙ rw (at, k) refl, kept)

pub get_inode_same :
    (bm bm' : BlockManager) (j : ℕ)
    → Sound bm
    → Sound bm'
    → j < inode_num
    → bm'.d.blocks (j + 11) ≡ bm.d.blocks (j + 11)
    → get_inode bm' j ≡ get_inode bm j
get_inode_same bm bm' j s s' lt e =
    get_inode-load bm' j s' lt ∙ rw e (sym (get_inode-load bm j s lt))
