-- ===== src/Yfs/Server.antt =====
-- The calls of extent_client.cc as yfs_client.cc meets them: a call that comes back has run the
-- handler of extent_server.cc on its disk once, and the server is `none` after undefined behaviour.
use lab_cse.Prelude.{
  ℕ, ◌*◌, ◌^◌, ◌<◌, ◌≤◌, ◌≡◌, ◌≢◌, refl, ap, sym, subst, ◌∙◌, Option, none, some, [], length, arith,
}
use lab_cse.Prelude.Text.{Text}
use lab_cse.Disk.{Block, block_size, block_num}
use lab_cse.BlockManager.{BlockManager}
use lab_cse.BlockManager.Bitmap.{IsBlock, AllBytes}
use lab_cse.InodeManager.Table.{Attr}
use lab_cse.InodeManager.Files.{blocks_of, max_blocks}
use lab_cse.InodeManager.Space.{unused}
use lab_cse.InodeManager.Allocation.{needed}
use lab_cse.InodeManager.Contents.{IsFile}
use lab_cse.ExtentServer
use lab_cse.ExtentServer.Files.{get-IsFile, getattr-IsFile, put-IsFile, CanCreate, create-IsFile}
use lab_cse.Yfs.Extents.{Extents, File, IsStore}

-- What the handlers meet: local arrays, the memory of `malloc` of a size, and the time.
pub record Surroundings : Type 0 where
  pub block : Block
  pub indnum : Block
  pub res : ℕ → Block
  pub now : ℕ

-- `malloc` gives as much as it is asked for, and the time has 32 bits.
pub record AreSurroundings (sc : Surroundings) : Type 0 where
  pub whole : IsBlock sc.block
  pub length : (n : ℕ) → length (sc.res n) ≡ n
  pub now : sc.now < 2 ^ 32

-- The status of a call of a server that is no more.
abbrev pub gone : ℕ
gone = 1

unfoldable pub put_status : Option BlockManager → Option BlockManager × ℕ
put_status none = (none, gone)
put_status (some im) = (some im, 0)

unfoldable pub create : Surroundings → Option BlockManager → ℕ → Option BlockManager × ℕ × ℕ
create sc none kind = (none, gone, 0)
create sc (some im) kind = let (im1, id) = ExtentServer.create im kind sc.now in (some im1, 0, id)

unfoldable pub get : Surroundings → Option BlockManager → ℕ → Option BlockManager × ℕ × Text
get sc none id = (none, gone, [])
get sc (some im) id =
    let res = sc.res (ExtentServer.getattr im id).size in
    let (im1, buf) = ExtentServer.get im id res sc.block sc.indnum sc.now in (some im1, 0, buf)

unfoldable pub getattr : Option BlockManager → ℕ → Option BlockManager × ℕ × Attr
getattr none id = (none, gone, record { kind = 0; atime = 0; mtime = 0; ctime = 0; size = 0 })
getattr (some im) id = (some im, 0, ExtentServer.getattr im id)

unfoldable pub put : Surroundings → Option BlockManager → ℕ → Text → Option BlockManager × ℕ
unfolding put_status
put sc none id buf = (none, gone)
put sc (some im) id buf = put_status (ExtentServer.put im id buf sc.block sc.indnum sc.now)

unfoldable pub remove : Surroundings → Option BlockManager → ℕ → Option BlockManager × ℕ
unfolding put_status
remove sc none id = (none, gone)
remove sc (some im) id = put_status (ExtentServer.remove im id sc.indnum)

abbrev pub server : Surroundings → Extents (Option BlockManager)
server sc = record {
  create = create sc;
  get = get sc;
  getattr = getattr;
  put = put sc;
  remove = remove sc;
}

-- The disk holds the file, and its type has 15 bits.
abbrev pub HasFile : Option BlockManager → ℕ → File → Type 0
HasFile none i f = ⊥
HasFile (some im) i f = IsFile im i f.kind f.content × (f.kind < 2 ^ 15)

-- The text has at most 160 blocks, and the disk as many blocks not in use as it needs.
abbrev pub HasRoom : Option BlockManager → ℕ → Text → Type 0
HasRoom none i t = ⊥
HasRoom (some im) i t =
    AllBytes t
    × (length t ≤ max_blocks * block_size)
    × (needed (blocks_of (length t)) ≤ unused block_num im)

abbrev pub HasInode : Surroundings → Option BlockManager → ℕ → Type 0
HasInode sc none kind = ⊥
HasInode sc (some im) kind = CanCreate im kind sc.now

get_file :
    (sc : Surroundings) (a : AreSurroundings sc) (s : Option BlockManager) (i : ℕ) (f : File)
    → HasFile s i f
    → ((get sc s i).1 ≡ 0)
      × ((get sc s i).2 ≡ f.content)
      × ((j : ℕ) (g : File) → HasFile s j g → HasFile (get sc s i).0 j g)
unfolding get
get_file sc a none i f h = absurd h
get_file sc a (some im) i f (h, small) =
    let res = sc.res (ExtentServer.getattr im i).size in
    let long : length res ≡ length f.content =
      a.length (ExtentServer.getattr im i).size ∙ (getattr-IsFile h small).1 in
    let (read, kept, _) = get-IsFile h res sc.block sc.indnum sc.now a.now long in
    (refl, read, λ j g (k, l). (kept j g.kind g.content k, l))

getattr_file :
    (s : Option BlockManager) (i : ℕ) (f : File)
    → HasFile s i f
    → ((getattr s i).1 ≡ 0)
      × ((getattr s i).2.kind ≡ f.kind)
      × ((getattr s i).2.size ≡ length f.content)
      × ((j : ℕ) (g : File) → HasFile s j g → HasFile (getattr s i).0 j g)
unfolding getattr
getattr_file none i f h = absurd h
getattr_file (some im) i f (h, small) =
    let (kind, size) = getattr-IsFile h small in (refl, kind, size, λ j g k. k)

put_file :
    (sc : Surroundings) (a : AreSurroundings sc) (s : Option BlockManager) (i : ℕ) (f : File)
    (t : Text)
    → HasFile s i f
    → HasRoom s i t
    → ((put sc s i t).1 ≡ 0)
      × HasFile (put sc s i t).0 i (record { kind = f.kind; content = t })
      × ((j kind : ℕ)
          → j ≢ i
          → HasFile s j (record { kind = kind; content = [] })
          → HasFile (put sc s i t).0 j (record { kind = kind; content = [] }))
unfolding put put_status
put_file sc a none i f t h room = absurd h
put_file sc a (some im) i f t (h, small) (bytes, le, room) =
    let (im', w, file, kept) =
      put-IsFile h t sc.block sc.indnum sc.now a.now a.whole bytes le room in
    let done : put sc (some im) i t ≡ (some im', 0) = ap put_status w in
    (
      ap (λ r. r.1) done,
      subst (λ r. HasFile r.0 i (record { kind = f.kind; content = t })) (sym done) (file, small),
      λ j kind apart (g, l).
          subst (λ r. HasFile r.0 j (record { kind = kind; content = [] })) (sym done)
            (kept j kind apart g, l),
    )

create_file :
    (sc : Surroundings) (a : AreSurroundings sc) (s : Option BlockManager) (kind : ℕ)
    → HasInode sc s kind
    → ((create sc s kind).2 < 2 ^ 64)
      × HasFile (create sc s kind).0 (create sc s kind).2 (record { kind = kind; content = [] })
      × ((j : ℕ) (g : File)
          → HasFile s j g
          → HasFile (create sc s kind).0 j g × ((create sc s kind).2 ≢ j))
unfolding create
create_file sc a none kind c = absurd c
create_file sc a (some im) kind c =
    let (file, kept) = create-IsFile c a.now in
    (
      omega (arith, c.low),
      (file, c.small),
      λ j g (h, l). let (k, apart) = kept j g.kind g.content h in ((k, l), apart),
    )

-- Let the local arrays be blocks, `malloc` give as much as it is asked for, and the time have 32
-- bits. Then the extent server keeps the promises of `IsStore`, where it has a file if the disk is
-- sound and holds it below inode 1023 with a type of 15 bits, has room for a text of at most 160
-- blocks if as many blocks as it needs are not in use, and can create a file of a type of 15 bits
-- other than 0 if the first free inode is below 1023 and its size is 0.
pub server-IsStore :
    (sc : Surroundings) → AreSurroundings sc → IsStore (server sc) HasFile HasRoom (HasInode sc)
server-IsStore sc a = record {
  get_file = λ s i f h. let (r, c, _) = get_file sc a s i f h in (r, c);
  get_kept = λ s i f h. (get_file sc a s i f h).2;
  getattr_file = λ s i f h. let (r, k, n, _) = getattr_file s i f h in (r, k, n);
  getattr_kept = λ s i f h. (getattr_file s i f h).3;
  put_file = λ s i f t h room. let (r, file, _) = put_file sc a s i f t h room in (r, file);
  put_kept = λ s i f t h room. (put_file sc a s i f t h room).2;
  create_file = λ s kind c. let (n, file, _) = create_file sc a s kind c in (n, file);
  create_kept = λ s kind c. (create_file sc a s kind c).2;
}
