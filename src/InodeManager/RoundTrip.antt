-- ===== src/InodeManager/RoundTrip.antt =====
-- `read_file` after `write_file`.
use lab_cse.Prelude.{
  ℕ, ◌+◌, ◌*◌, ◌^◌, ◌<◌, ◌≤◌, ◌≡◌, ◌≢◌, refl, ap, ◌∙◌, true, false, some, List, [], ◌∷◌, leb, ◌==◌,
  arith, Bool-cases, inl, inr, length,
}
use lab_cse.Disk.{Block, block_size, block_num}
use lab_cse.BlockManager.{BlockManager, Superblock, bblock}
use lab_cse.BlockManager.Bitmap.{IsBlock, AllBytes}
use lab_cse.BlockManager.Format.{reserved}
use lab_cse.Inode.{Inode, ndirect}
use lab_cse.Inode.Layout.{Fits, AllWords}
use lab_cse.Inode.Range.{load-Fits}
use lab_cse.InodeManager.Table.{get_inode, put_inode}
use lab_cse.InodeManager.Files.{
  blocks_of, max_blocks, indirect_of, free_file, alloc_file, copy_in, copy_out, write_file,
  read_file, write_loop,
}
use lab_cse.InodeManager.Loops.{
  elem, Distinct, Holds, Holds-frame, write_loop-Written, write_loop-IsDisk,
}
use lab_cse.InodeManager.Space.{Sound, AllData, unused, Released}
use lab_cse.InodeManager.Mapping.{Maps, copy_in-write_loop, copy_out-Holds}
use lab_cse.InodeManager.Placement.{Owns, free_file-Released}
use lab_cse.InodeManager.Allocation.{Placed, needed, alloc_file-Placed}
use lab_cse.InodeManager.Inodes.{get_inode-some, get_inode_same, get_inode-put_inode}

pub elem-data :
    (i : ℕ) (ts : List ℕ) → AllData ts → elem i ts ≡ true → (reserved ≤ i) × (i < block_num)
elem-data i [] d e = cc
elem-data i (t ∷ ts) d e = elim (Bool-cases (i == t)) [
  | inl h ↦ (ground arith, ground arith)
  | inr h ↦ elem-data i ts d.2 (ground arith)
]

not_elem : (i : ℕ) (ts : List ℕ) → AllData ts → i < reserved → elem i ts ≡ false
not_elem i ts d lt = elim (Bool-cases (elem i ts)) [
  | inl h ↦ absurd (omega (arith, elem-data i ts d h))
  | inr h ↦ h
]

-- The blocks that an inode names stay the same when only reserved blocks change.
pub Maps-frame :
    (f g : ℕ → Block) (ino ino' : Inode) (n : ℕ) (ts : List ℕ)
    → ino'.blocks ≡ ino.blocks
    → (ndirect < n → reserved ≤ indirect_of ino)
    → ((i : ℕ) → ndirect < n → i ≡ indirect_of ino → g i ≡ f i)
    → Maps f ino n ts
    → Maps g ino' n ts
Maps-frame f g ino ino' n ts e lo same m = record {
  few = λ h. rw e (m.few h);
  many = λ h. rw (e, same (indirect_of ino) h refl) (m.many h);
}

-- The size of a file fits the blocks that are counted for it.
room_for :
    (n : ℕ)
    → n ≤ max_blocks * block_size
    → (n ≤ block_size * blocks_of n) × (blocks_of n ≤ max_blocks)
room_for n h = (omega arith, omega arith)

-- What `write_file` does, once it does not run into undefined behaviour.
pub record Stored (bm : BlockManager) (inum : ℕ) (data_bytes : Block) (bm' : BlockManager)
    (ino' : Inode) (ts : List ℕ) : Type 0 where
  pub sound : Sound bm'
  pub got : get_inode bm' inum ≡ some ino'
  pub size : ino'.size ≡ length data_bytes
  pub maps : Maps bm'.d.blocks ino' (blocks_of (length data_bytes)) ts
  pub holds : Holds bm'.d.blocks ts data_bytes
  pub count : length ts ≡ blocks_of (length data_bytes)
  pub data_blocks : AllData ts
  pub above : ndirect < blocks_of (length data_bytes) → reserved ≤ indirect_of ino'
  pub others :
      (i : ℕ) → bblock block_num ≤ i → i < reserved → i ≢ inum + 11 → bm'.d.blocks i ≡ bm.d.blocks i

copied-Sound :
    (bm : BlockManager) (ts : List ℕ) (data_bytes block : Block)
    → Sound bm
    → Distinct ts
    → AllData ts
    → AllBytes data_bytes
    → IsBlock block
    → length data_bytes ≤ block_size * length ts
    → Sound (write_loop ts data_bytes 0 block bm).0
copied-Sound bm ts data_bytes block s d a bytes whole room =
    let w = write_loop-Written ts data_bytes 0 block bm d (omega arith) in
    let k = write_loop-IsDisk ts data_bytes 0 block bm bytes whole s.disk in
    record {
      disk = k.0;
      nblocks = ap (λ (x : Superblock). x.nblocks) w.same_sb ∙ s.nblocks;
      ninodes = ap (λ (x : Superblock). x.ninodes) w.same_sb ∙ s.ninodes;
      reserve =
          λ c h. rw (w.kept (bblock c) (not_elem (bblock c) ts a (omega arith))) (s.reserve c h);
    }

new_inode-Fits :
    (ino ino2 : Inode) (n now : ℕ)
    → Fits ino
    → ino2 ≡ record ino { blocks = ino2.blocks }
    → length ino2.blocks ≡ ndirect + 1
    → AllWords ino2.blocks
    → n < 2 ^ 32
    → now < 2 ^ 32
    → Fits (record ino2 { size = n; mtime = now; ctime = now })
new_inode-Fits ino ino2 n now f same count fit ln lnow = record {
  kind = omega (arith, f.kind, ap (λ (i : Inode). i.kind) same);
  size = ln;
  atime = omega (arith, f.atime, ap (λ (i : Inode). i.atime) same);
  mtime = lnow;
  ctime = lnow;
  blocks = fit;
  count = count;
}

-- The last steps of `write_file`: the copy to the new blocks, and the inode.
stored :
    (bm bm2 : BlockManager) (inum : ℕ) (ino ino2 : Inode) (data_bytes block indnum : Block)
    (now : ℕ) (ts : List ℕ)
    → inum + 11 < reserved
    → Fits ino
    → (ino.kind == 0) ≡ false
    → Placed ino (blocks_of (length data_bytes)) bm bm2 ino2 ts
    → AllBytes data_bytes
    → IsBlock block
    → length data_bytes ≤ max_blocks * block_size
    → now < 2 ^ 32
    → (let ino3 = record ino2 { size = length data_bytes; mtime = now; ctime = now } in
        Stored bm inum data_bytes
          (put_inode (copy_in ino2 data_bytes block indnum bm2) inum (some ino3))
          ino3
          ts)
stored bm bm2 inum ino ino2 data_bytes block indnum now ts lt f k p bytes whole le lnow =
    let n = length data_bytes in
    let r = room_for n le in
    let room : n ≤ block_size * length ts = omega (arith, p.count, r.0) in
    let bm3 = (write_loop ts data_bytes 0 block bm2).0 in
    let e : copy_in ino2 data_bytes block indnum bm2 ≡ bm3 =
      copy_in-write_loop ino2 (blocks_of n) ts data_bytes block indnum bm2 p.maps p.distinct room in
    let w = write_loop-Written ts data_bytes 0 block bm2 p.distinct (omega arith) in
    let s3 =
      copied-Sound bm2 ts data_bytes block p.sound p.distinct p.data_blocks bytes whole room in
    let ino3 : Inode = record ino2 { size = n; mtime = now; ctime = now } in
    let g =
      get_inode-put_inode bm3 inum ino3 s3 (omega arith)
        (new_inode-Fits ino ino2 n now f p.same p.entries p.fit (omega arith) lnow)
        (rw (ap (λ (i : Inode). i.kind) p.same) k) in
    rw e (record {
      sound = g.0;
      got = g.1;
      size = refl;
      maps =
          Maps-frame bm2.d.blocks _ ino2 ino3 (blocks_of n) ts refl (λ h. (p.apart h).0)
            (λ i h q.
              g.2 i (λ z. absurd (omega (arith, (p.apart h).0))) ∙ w.kept i (rw q (p.apart h).1))
            p.maps;
      holds =
          Holds-frame bm3.d.blocks _ ts data_bytes
            (λ i q. g.2 i (λ z. absurd (omega (arith, elem-data i ts p.data_blocks q)))) w.holds;
      count = p.count;
      data_blocks = p.data_blocks;
      above = λ h. (p.apart h).0;
      others =
          λ i lo hi ne. g.2 i ne ∙ (w.kept i (not_elem i ts p.data_blocks hi) ∙ p.kept i lo hi);
    })

-- What holds after the blocks of the old content were freed holds from the start.
Stored-after :
    {bm bm1 bm' : BlockManager} {inum : ℕ} {data_bytes : Block} {ino' : Inode} {ts : List ℕ}
    → Released bm bm1
    → Stored bm1 inum data_bytes bm' ino' ts
    → Stored bm inum data_bytes bm' ino' ts
Stored-after r t = record {
  sound = t.sound;
  got = t.got;
  size = t.size;
  maps = t.maps;
  holds = t.holds;
  count = t.count;
  data_blocks = t.data_blocks;
  above = t.above;
  others = λ i lo hi ne. t.others i lo hi ne ∙ r.kept i lo;
}

le→leb : (m n : ℕ) → m ≤ n → leb m n ≡ true
le→leb m n h = ground arith

pub read_file-some :
    (bm : BlockManager) (inum : ℕ) (res buf indnum : Block) (now : ℕ) (ino : Inode)
    → get_inode bm inum ≡ some ino
    → (read_file bm inum res buf indnum now).1 ≡ some (copy_out bm ino res buf indnum)
unfolding read_file
read_file-some bm inum res buf indnum now ino e = rw (e, read_file) refl

module _ (bm : BlockManager) (s : Sound bm) (inum : ℕ) (lt : inum + 11 < reserved) (ino : Inode)
    (here : get_inode bm inum ≡ some ino) (old : blocks_of ino.size ≤ max_blocks)
    (o : Owns bm ino (blocks_of ino.size)) (data_bytes block indnum : Block) (now : ℕ)
    (bytes : AllBytes data_bytes) (whole : IsBlock block)
    (le : length data_bytes ≤ max_blocks * block_size) (lnow : now < 2 ^ 32)
    (room : needed (blocks_of (length data_bytes)) ≤ unused block_num bm) where
  pub write_file-Stored :
      (bm' : BlockManager) × (ino' : Inode) × (ts : List ℕ) × (write_file bm inum data_bytes block
          indnum now
        ≡ some bm')
      × Stored bm inum data_bytes bm' ino' ts
      × (ino'.kind ≡ ino.kind)
  unfolding write_file
  write_file-Stored =
      let n = length data_bytes in
      let g = get_inode-some bm inum ino s here in
      let f : Fits ino = rw g.1 (load-Fits (bm.d.blocks (inum + 11)) (s.disk (inum + 11)).bytes) in
      let r = free_file-Released ino (blocks_of ino.size) indnum bm s o in
      let bm1 = free_file ino (blocks_of ino.size) indnum bm in
      let p =
        alloc_file-Placed ino f.count f.blocks bm1 r.sound (blocks_of n) (room_for n le).1
          (omega (arith, room, r.more)) in
      let bm2 = (alloc_file ino (blocks_of n) bm1).0 in
      let ino2 = (alloc_file ino (blocks_of n) bm1).1 in
      let t =
        stored bm1 bm2 inum ino ino2 data_bytes block indnum now p.0 lt f g.2 p.1 bytes whole le
          lnow in
      let a : leb (blocks_of ino.size) max_blocks ≡ true =
        le→leb (blocks_of ino.size) max_blocks old in
      let b : leb (blocks_of n) max_blocks ≡ true =
        le→leb (blocks_of n) max_blocks (room_for n le).1 in
      (
        put_inode (copy_in ino2 data_bytes block indnum bm2) inum
            (some (record ino2 { size = n; mtime = now; ctime = now })),
        record ino2 { size = n; mtime = now; ctime = now },
        p.0,
        rw (here, a, b, write_file) refl,
        Stored-after r t,
        ap (λ (i : Inode). i.kind) p.1.same,
      )

  -- On a sound disk, let `inum` be an inode in use below 1023 whose old blocks are data blocks
  -- and at most 160, let the new content have at most 160 blocks, all bytes, and let there be as
  -- many blocks not in use as it needs. Then `write_file` succeeds, the disk is sound again, and
  -- `read_file` with memory of the content's length returns the content.
  pub read_file-write_file :
      (res buf indnum2 : Block) (now2 : ℕ)
      → length res ≡ length data_bytes
      → (bm' : BlockManager) × (write_file bm inum data_bytes block indnum now ≡ some bm')
        × Sound bm'
        × ((read_file bm' inum res buf indnum2 now2).1 ≡ some data_bytes)
  read_file-write_file res buf indnum2 now2 e =
      let (bm', ino', ts, w, t, _) = write_file-Stored in
      (
        bm',
        w,
        t.sound,
        read_file-some bm' inum res buf indnum2 now2 ino' t.got
            ∙ (ap some (
                copy_out-Holds bm' ino' (blocks_of (length data_bytes)) ts data_bytes res buf
                  indnum2 t.sound.disk t.maps t.holds t.size e (omega arith))),
      )

  -- On a sound disk, let `inum` be an inode in use below 1023 whose old blocks are data blocks
  -- and at most 160, let the new content have at most 160 blocks, all bytes, and let there be as
  -- many blocks not in use as it needs. Then `write_file` succeeds and leaves every other inode
  -- below 1023 as it was.
  pub get_inode-write_file :
      (j : ℕ)
      → j + 11 < reserved
      → j ≢ inum
      → (bm' : BlockManager) × (write_file bm inum data_bytes block indnum now ≡ some bm')
        × (get_inode bm' j ≡ get_inode bm j)
  get_inode-write_file j jlt ne =
      let (bm', ino', ts, w, t, _) = write_file-Stored in
      (
        bm',
        w,
        get_inode_same bm bm' j s t.sound (omega arith)
            (t.others (j + 11) (omega arith) jlt (λ z. ne (omega arith))),
      )
