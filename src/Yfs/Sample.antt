-- ===== src/Yfs/Sample.antt =====
-- An extent server with an empty root directory, for runs.
use lab_cse.Prelude.{
  ℕ, ◌+◌, ◌<◌, ◌≤◌, ◌^◌, ◌≡◌, ◌≢◌, refl, ap, sym, subst, ◌∙◌, ◌%◌, false, none, some, List, [], ◌∷◌,
  ◌++◌, ◌==◌, length, arith, replicate, length-replicate,
}
use lab_cse.Prelude.Text.{Text}
use lab_cse.Disk.{zero_block, block_num}
use lab_cse.BlockManager.{BlockManager, format}
use lab_cse.BlockManager.Bitmap.{AllBytes}
use lab_cse.InodeManager.Files.{blocks_of}
use lab_cse.InodeManager.Allocation.{needed}
use lab_cse.BlockManager.Format.{zero_block-IsBlock}
use lab_cse.Inode.{Inode, load, zero_inode}
use lab_cse.Inode.Layout.{Fits}
use lab_cse.InodeManager.Table.{get_inode, put_inode}
use lab_cse.InodeManager.Space.{unused}
use lab_cse.InodeManager.Inodes.{get_inode-put_inode}
use lab_cse.InodeManager.Boot.{format-Sound, unused-format, unused_kept}
use lab_cse.InodeManager.Creation.{Created}
use lab_cse.InodeManager.Contents.{IsFile, empty-IsFile}
use lab_cse.ExtentServer
use lab_cse.ExtentServer.Files.{get-IsFile, getattr-IsFile, put-IsFile, CanCreate, create-IsFile}
use lab_cse.ExtentServer.Sample
use lab_cse.ExtentServer.RoundTrip.{created}
use lab_cse.Yfs.Format.{Dirent, entry}
use lab_cse.Yfs.Entries.{content}
use lab_cse.Yfs.Extents.{t_dir}
use lab_cse.Yfs.Directory.{looked}
use lab_cse.Yfs.Server.{
  Surroundings, AreSurroundings, server, HasFile, HasRoom, HasInode, create, get, getattr,
}

abbrev pub around : Surroundings
around = record { block = zero_block; indnum = zero_block; res = λ n. replicate n 0; now = 9 }

pub around-AreSurroundings : AreSurroundings around
around-AreSurroundings = record {
  whole = zero_block-IsBlock;
  length = λ n. length-replicate {0} n 0;
  now = omega arith;
}

abbrev root_inode : Inode
root_inode = record zero_inode { kind = 1 }

abbrev pub disk : BlockManager
disk = put_inode format 1 (some root_inode)

-- The root is empty, and the other blocks are as `format` leaves them.
record IsFresh (im : BlockManager) : Type 0 where
  root : IsFile im 1 t_dir []
  kept : (b : ℕ) → b ≢ 12 → im.d.blocks b ≡ format.d.blocks b

disk-IsFresh : IsFresh disk
disk-IsFresh =
    let fits : Fits root_inode = record {
      kind = omega arith;
      size = omega arith;
      atime = omega arith;
      mtime = omega arith;
      ctime = omega arith;
      blocks = ground arith;
      count = refl;
    } in
    let (s, got, kept) =
      get_inode-put_inode format 1 root_inode format-Sound (omega arith) fits refl in
    record { root = empty-IsFile disk 1 root_inode s (omega arith) got refl; kept = kept }

unused-IsFresh : (im : BlockManager) → IsFresh im → unused block_num im ≡ 31734
unused-IsFresh im f = unused_kept format im 12 (omega arith) f.kept ∙ unused-format

-- The server after the root is read.
abbrev read_root : (im : BlockManager) → BlockManager
read_root im =
    let res = replicate (ExtentServer.getattr im 1).size 0 in
    (ExtentServer.get im 1 res zero_block zero_block 9).0

read_root-IsFresh : (im : BlockManager) → IsFresh im → IsFresh (read_root im)
read_root-IsFresh im f =
    let n = (ExtentServer.getattr im 1).size in
    let long : length {0} (replicate n 0) ≡ 0 =
      length-replicate {0} n 0 ∙ (getattr-IsFile f.root (omega arith)).1 in
    let (_, root, kept) =
      get-IsFile f.root (replicate n 0) zero_block zero_block 9 (omega arith) long in
    record { root = root 1 t_dir [] f.root; kept = λ b apart. kept b apart ∙ f.kept b apart }

-- A new inode is inode 2.
fresh-created :
    (im : BlockManager) (kind : ℕ)
    → IsFresh im
    → (kind % 2 ^ 16 == 0) ≡ false
    → Created im (ExtentServer.create im kind 9).0 1 2 kind 9
      × ((ExtentServer.create im kind 9).1 ≡ 2)
      × (load (im.d.blocks 13) ≡ zero_inode)
fresh-created im kind f k = created im kind 9 f.root.sound f.root.got f.kept k (omega arith)

fresh-CanCreate :
    (im : BlockManager) (kind : ℕ)
    → IsFresh im
    → kind < 2 ^ 15
    → (kind == 0) ≡ false
    → CanCreate im kind 9
fresh-CanCreate im kind f small k =
    let whole : kind % 2 ^ 16 ≡ kind = omega (arith, small) in
    let (c, two, zero) = fresh-created im kind f (ap (λ n. n == 0) whole ∙ k) in
    record {
      sound = f.root.sound;
      small = small;
      some_kind = k;
      free = subst (λ i. get_inode im i ≡ none) (sym two) c.was_free;
      low = omega (arith, two);
      cleared = ap (λ i. (load (im.d.blocks (i + 11))).size) two ∙ ap (λ (x : Inode). x.size) zero;
    }

-- Reading the root changes only the block of its inode.
read_root-kept :
    (im : BlockManager) (f : IsFile im 1 t_dir []) (b : ℕ)
    → b ≢ 12
    → (read_root im).d.blocks b ≡ im.d.blocks b
read_root-kept im f b apart =
    let n = (ExtentServer.getattr im 1).size in
    let long : length {0} (replicate n 0) ≡ 0 =
      length-replicate {0} n 0 ∙ (getattr-IsFile f (omega arith)).1 in
    let (_, _, kept) = get-IsFile f (replicate n 0) zero_block zero_block 9 (omega arith) long in
    kept b apart

unused-after :
    (im : BlockManager) (kind : ℕ)
    → IsFresh im
    → kind < 2 ^ 15
    → (kind == 0) ≡ false
    → unused block_num (read_root (ExtentServer.create im kind 9).0) ≡ 31734
unused-after im kind f small k =
    let whole : kind % 2 ^ 16 ≡ kind = omega (arith, small) in
    let (c, _, _) = fresh-created im kind f (ap (λ n. n == 0) whole ∙ k) in
    let im1 = (ExtentServer.create im kind 9).0 in
    let (root, _) =
      (create-IsFile (fresh-CanCreate im kind f small k) (omega arith)).1 1 t_dir [] f.root in
    unused_kept im1 (read_root im1) 12 (omega arith) (read_root-kept im1 root)
    ∙ unused_kept im im1 13 (omega arith) c.kept
    ∙ unused-IsFresh im f

pub root-HasFile : HasFile (some disk) 1 (record { kind = t_dir; content = content [] })
root-HasFile = (disk-IsFresh.root, omega arith)

pub can-HasInode :
    (kind : ℕ)
    → kind < 2 ^ 15
    → (kind == 0) ≡ false
    → HasInode around (looked (server around) (some disk) 1) kind
unfolding get getattr
can-HasInode kind small k =
    fresh-CanCreate (read_root disk) kind (read_root-IsFresh disk disk-IsFresh) small k

-- There is room for the entry of the new inode.
pub more-HasRoom :
    (kind : ℕ)
    → kind < 2 ^ 15
    → (kind == 0) ≡ false
    → (let (s1, _, ino) = create around (looked (server around) (some disk) 1) kind in
        HasRoom
          (get around s1 1).0
          1
          (content [] ++ entry (record { name = b'c' ∷ []; inum = ino })))
unfolding get getattr create entry
more-HasRoom kind small k =
    let im = read_root disk in
    let fresh = read_root-IsFresh disk disk-IsFresh in
    let whole : kind % 2 ^ 16 ≡ kind = omega (arith, small) in
    let (_, two, _) = fresh-created im kind fresh (ap (λ n. n == 0) whole ∙ k) in
    let free = unused-after im kind fresh small k in
    subst
      (λ i.
        HasRoom (some (read_root (ExtentServer.create im kind 9).0)) 1
          (entry (record { name = b'c' ∷ []; inum = i })))
      (sym two)
      (
        (omega arith, (omega arith, (omega arith, (omega arith, tt)))),
        omega arith,
        ground (arith, free),
      )

-- The disk of the extent server's runs has an empty file at 3.
pub file_at_3 : IsFile Sample.disk 3 2 []
file_at_3 =
    let (s, got, _) = Sample.disk_lem in
    empty-IsFile Sample.disk 3 Sample.file s (omega arith) got refl

pub room_at_3 :
    (t : Text) → AllBytes t → length t ≤ 512 → HasRoom (get around (some Sample.disk) 3).0 3 t
unfolding get
room_at_3 t bytes short =
    let n = (ExtentServer.getattr Sample.disk 3).size in
    let long : length {0} (replicate n 0) ≡ 0 =
      length-replicate {0} n 0 ∙ (getattr-IsFile file_at_3 (omega arith)).1 in
    let im = (ExtentServer.get Sample.disk 3 (replicate n 0) zero_block zero_block 9).0 in
    let (_, _, kept) =
      get-IsFile file_at_3 (replicate n 0) zero_block zero_block 9 (omega arith) long in
    let free : unused block_num im ≡ 31734 =
      unused_kept Sample.disk im 14 (omega arith) kept ∙ Sample.room in
    (bytes, omega (arith, short), few (length t) (unused block_num im) short free)
  where
    few : (n u : ℕ) → n ≤ 512 → u ≡ 31734 → needed (blocks_of n) ≤ u
    few n u h e = ground arith

-- The root holds `ab/12/`.
abbrev pub one : List Dirent
one = record { name = b'a' ∷ b'b' ∷ []; inum = 12 } ∷ []

-- A server whose root holds `ab/12/` two times.
pub filled : (im : BlockManager) × IsFile im 1 t_dir (content (one ++ one))
unfolding entry
filled =
    let (im, _, file, _) =
      put-IsFile disk-IsFresh.root (content (one ++ one)) zero_block zero_block 9 (omega arith)
        zero_block-IsBlock bytes (omega arith) (ground (arith, unused-IsFresh disk disk-IsFresh)) in
    (im, file)
  where
    bytes : AllBytes (content (one ++ one))
    bytes = ground arith
