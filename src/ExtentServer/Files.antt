-- ===== src/ExtentServer/Files.antt =====
-- What the handlers of the extent server do to the files of the disk.
use lab_cse.Prelude.{
  ℕ, ◌+◌, ◌*◌, ◌%◌, ◌^◌, ◌<◌, ◌≤◌, ◌≡◌, ◌≢◌, refl, ap, sym, subst, ◌∙◌, true, false, none, some, [],
  ◌==◌, arith, length, Bool-cases, inl, inr, ltb,
}
use lab_cse.Disk.{Block, block_size, block_num}
use lab_cse.BlockManager.{BlockManager}
use lab_cse.BlockManager.Bitmap.{IsBlock, AllBytes}
use lab_cse.BlockManager.Format.{reserved}
use lab_cse.Inode.{Inode, load}
use lab_cse.Inode.Layout.{Fits}
use lab_cse.Inode.Range.{load-Fits}
use lab_cse.InodeManager.Table
use lab_cse.InodeManager.Table.{Attr, get_inode, put_inode, alloc_inode}
use lab_cse.InodeManager.Files.{blocks_of, max_blocks, read_file, write_file}
use lab_cse.InodeManager.Space.{Sound, unused}
use lab_cse.InodeManager.Allocation.{needed}
use lab_cse.InodeManager.Inodes.{get_inode-some, get_inode_same, get_inode-put_inode}
use lab_cse.InodeManager.Creation.{alloc_inode-Created}
use lab_cse.InodeManager.RoundTrip.{write_file-Stored, read_file-some}
use lab_cse.InodeManager.Contents.{
  IsFile, IsFile-Owns, IsFile-frame, empty-IsFile, Stored-IsFile, copy_out-IsFile,
}
use lab_cse.ExtentServer.{mask, create, put, get, getattr}

mask_same : (i : ℕ) → i + 11 < reserved → mask i ≡ i
mask_same i h = omega arith

file_Fits :
    {bm : BlockManager} {i kind : ℕ} {content : Block} (f : IsFile bm i kind content) → Fits f.ino
file_Fits {bm} {i} f =
    rw (get_inode-some bm i f.ino f.sound f.got).1
      (load-Fits (bm.d.blocks (i + 11)) (f.sound.disk (i + 11)).bytes)

-- The inode with the times that `read_file` sets.
abbrev touched : Inode → ℕ → Inode
touched ino now = record ino { atime = now; ctime = now }

-- `read_file` changes the times only.
touched_parts :
    {bm : BlockManager} {i kind : ℕ} {content : Block} (f : IsFile bm i kind content) (now : ℕ)
    → now < 2 ^ 32
    → (let bm' = put_inode bm i (some (touched f.ino now)) in
        Sound bm'
        × (get_inode bm' i ≡ some (touched f.ino now))
        × ((b : ℕ) → b ≢ i + 11 → bm'.d.blocks b ≡ bm.d.blocks b))
touched_parts {bm} {i} f now small =
    let fit = file_Fits f in
    let g = get_inode-some bm i f.ino f.sound f.got in
    get_inode-put_inode bm i (touched f.ino now) f.sound g.0
      (record {
        kind = fit.kind;
        size = fit.size;
        atime = small;
        mtime = fit.mtime;
        ctime = small;
        blocks = fit.blocks;
        count = fit.count;
      })
      g.2

touched-IsFile :
    {bm : BlockManager} {i kind j kind2 : ℕ} {content content2 : Block}
    (f : IsFile bm i kind content) (now : ℕ)
    → now < 2 ^ 32
    → IsFile bm j kind2 content2
    → IsFile (put_inode bm i (some (touched f.ino now))) j kind2 content2
touched-IsFile {bm} {i} {j = j} f now small g =
    let (s, got, kept) = touched_parts f now small in
    let bm' = put_inode bm i (some (touched f.ino now)) in
    let data_kept : (b : ℕ) → reserved ≤ b → bm'.d.blocks b ≡ bm.d.blocks b =
      λ b h. kept b (λ z. absurd (omega (arith, f.low))) in
    elim (Bool-cases (j == i)) [
      | inl e ↦
          let z : i ≡ j = ground arith in
          let one : f.ino ≡ g.ino = some_same (sym f.got ∙ ap (get_inode bm) z ∙ g.got) in
          IsFile-frame bm' g (touched f.ino now) s (ap (get_inode bm') (sym z) ∙ got)
            (ap (λ (x : Inode). x.kind) one) (ap (λ (x : Inode). x.size) one)
            (ap (λ (x : Inode). x.blocks) one) data_kept
      | inr e ↦
          let same =
            get_inode_same bm bm' j f.sound s (omega (arith, g.low))
              (kept (j + 11) (λ z. absurd (ground arith))) in
          IsFile-frame bm' g g.ino s (same ∙ g.got) refl refl refl data_kept
    ]
  where
    some_same : {x y : Inode} → some x ≡ some y → x ≡ y
    some_same e = cc e

read_file_after :
    (bm : BlockManager) (i : ℕ) (res buf indnum : Block) (now : ℕ) (ino : Inode)
    → get_inode bm i ≡ some ino
    → (read_file bm i res buf indnum now).0 ≡ put_inode bm i (some (touched ino now))
unfolding read_file
read_file_after bm i res buf indnum now ino h = rw (h, read_file) refl

-- `get` of a file replies with its content, every file stays, and only the block of its inode
-- changes.
pub get-IsFile :
    {bm : BlockManager} {i kind : ℕ} {content : Block} (f : IsFile bm i kind content)
    (res buf indnum : Block) (now : ℕ)
    → now < 2 ^ 32
    → length res ≡ length content
    → ((get bm i res buf indnum now).1 ≡ content)
      × ((j kind2 : ℕ) (content2 : Block)
          → IsFile bm j kind2 content2
          → IsFile (get bm i res buf indnum now).0 j kind2 content2)
      × ((b : ℕ) → b ≢ i + 11 → (get bm i res buf indnum now).0.d.blocks b ≡ bm.d.blocks b)
unfolding get
get-IsFile {bm} {i} {content = content} f res buf indnum now small e =
    let m = mask_same i f.low in
    let read : (read_file bm (mask i) res buf indnum now).1 ≡ some content =
      ap (λ k. (read_file bm k res buf indnum now).1) m
      ∙ read_file-some bm i res buf indnum now f.ino f.got
      ∙ ap (λ c. some c) (copy_out-IsFile f res buf indnum e) in
    let after : (read_file bm (mask i) res buf indnum now).0
        ≡ put_inode bm i (some (touched f.ino now)) =
      ap (λ k. (read_file bm k res buf indnum now).0) m
      ∙ read_file_after bm i res buf indnum now f.ino f.got in
    (
      ap (λ o. elim o [ none ↦ [] | some cbuf ↦ cbuf ]) read,
      λ j kind2 content2 g.
          subst (λ x. IsFile x j kind2 content2) (sym after) (touched-IsFile f now small g),
      λ b apart. ap (λ x. x.d.blocks b) after ∙ (touched_parts f now small).2 b apart,
    )

-- `getattr` of a file, for a type below 2 ^ 15.
pub getattr-IsFile :
    {bm : BlockManager} {i kind : ℕ} {content : Block}
    → IsFile bm i kind content
    → kind < 2 ^ 15
    → ((getattr bm i).kind ≡ kind) × ((getattr bm i).size ≡ length content)
unfolding getattr Table.getattr
getattr-IsFile {bm} {i} {kind} f small =
    let m = mask_same i f.low in
    let positive : ltb f.ino.kind (2 ^ 15) ≡ true = ground (arith, f.kind_is) in
    (rw (m, f.got, Table.getattr, positive) f.kind_is, rw (m, f.got, Table.getattr) f.size)

-- `put` of a file, where the disk has room.
pub put-IsFile :
    {bm : BlockManager} {i kind : ℕ} {old : Block} (f : IsFile bm i kind old)
    (content block indnum : Block) (now : ℕ)
    → now < 2 ^ 32
    → IsBlock block
    → AllBytes content
    → length content ≤ max_blocks * block_size
    → needed (blocks_of (length content)) ≤ unused block_num bm
    → (bm' : BlockManager) × (put bm i content block indnum now ≡ some bm')
      × IsFile bm' i kind content
      × ((j kind2 : ℕ) → j ≢ i → IsFile bm j kind2 [] → IsFile bm' j kind2 [])
unfolding put
put-IsFile {bm} {i} {kind} {old} f content block indnum now small whole bytes le room =
    let old_few : blocks_of f.ino.size ≤ max_blocks = omega (arith, f.size, f.le) in
    let (bm', ino', ts, w, t, k) =
      write_file-Stored bm f.sound i f.low f.ino f.got old_few (IsFile-Owns f) content block indnum
        now bytes whole le small room in
    (
      bm',
      ap (λ m. write_file bm m content block indnum now) (mask_same i f.low) ∙ w,
      Stored-IsFile t f.low le (k ∙ f.kind_is),
      λ j kind2 apart g.
          let same =
            get_inode_same bm bm' j f.sound t.sound (omega (arith, g.low))
              (t.others (j + 11) (omega arith) g.low (λ z. apart (omega arith))) in
          subst (λ n. IsFile bm' j n []) g.kind_is
            (empty-IsFile bm' j g.ino t.sound g.low (same ∙ g.got) g.size),
    )

-- The first free inode, below 1023 and of size 0.
pub record CanCreate (bm : BlockManager) (kind now : ℕ) : Type 0 where
  pub sound : Sound bm
  pub small : kind < 2 ^ 15
  pub some_kind : (kind == 0) ≡ false
  pub free : get_inode bm (create bm kind now).1 ≡ none
  pub low : (create bm kind now).1 + 11 < reserved
  pub cleared : (load (bm.d.blocks ((create bm kind now).1 + 11))).size ≡ 0

pub create-IsFile :
    {bm : BlockManager} {kind now : ℕ}
    → CanCreate bm kind now
    → now < 2 ^ 32
    → IsFile (create bm kind now).0 (create bm kind now).1 kind []
      × ((j kind2 : ℕ) (content : Block)
          → IsFile bm j kind2 content
          → IsFile (create bm kind now).0 j kind2 content × ((create bm kind now).1 ≢ j))
unfolding create
create-IsFile {bm} {kind} {now} c small =
    let k : kind % 2 ^ 16 ≡ kind = omega (arith, c.small) in
    let real : (kind % 2 ^ 16 == 0) ≡ false = ap (λ n. n == 0) k ∙ c.some_kind in
    elim (alloc_inode-Created bm kind now c.sound real small) [
      | inl (all, e) ↦
          let one : (alloc_inode bm kind now).1 ≡ 1 = ap (λ r. r.1) e in
          absurd (all 1 (omega arith) (omega arith) (subst (λ i. get_inode bm i ≡ none) one c.free))
      | inr d ↦
          let bm' = (alloc_inode bm kind now).0 in
          let i = (alloc_inode bm kind now).1 in
          let ino : Inode = record (load (bm.d.blocks (i + 11))) {
            kind = kind % 2 ^ 16;
            ctime = now;
          } in
          (
            subst (λ n. IsFile bm' i n []) k
                (empty-IsFile bm' i ino d.sound c.low d.is_now c.cleared),
            λ j kind2 content g.
                let apart : i ≢ j = λ z. cc (d.was_free, ap (get_inode bm) z, g.got) in
                let same =
                  get_inode_same bm bm' j c.sound d.sound (omega (arith, g.low))
                    (d.kept (j + 11) (λ z. apart (omega arith))) in
                (
                  IsFile-frame bm' g g.ino d.sound (same ∙ g.got) refl refl refl
                      (λ b h. d.kept b (λ z. absurd (omega (arith, c.low)))),
                  apart,
                ),
          )
    ]
