-- ===== src/Fuse/Tests.antt =====
-- Requests of FUSE on the extent server, and the theorems there.
use lab_cse.Prelude.{ℕ, ◌+◌, ◌≡◌, refl, true, false, Option, some, [], ◌∷◌, arith, length, take}
use lab_cse.Prelude.Text.{Text, text_eq}
use lab_cse.BlockManager.{BlockManager}
use lab_cse.ExtentServer.Sample
use lab_cse.Yfs.Format.{has_slash, find_entry}
use lab_cse.Yfs.Bytes.{resize, write_at}
use lab_cse.Yfs.Extents.{Locks, File, t_dir, t_file}
use lab_cse.Yfs.Directory.{looked}
use lab_cse.Yfs.Server
use lab_cse.Yfs.Server.{server, server-IsStore, HasFile, HasRoom, HasInode}
use lab_cse.Yfs.Sample.{
  around, around-AreSurroundings, disk, root-HasFile, can-HasInode, more-HasRoom, file_at_3,
  room_at_3, one, filled,
}
use lab_cse.Fuse.{Stat, Reply, reply_create, reply_entry, reply_write, reply_buf, reply_attr, ToSet}
use lab_cse.Fuse.Steps.{World}
use lab_cse.Fuse.Listing.{Dirents}
use lab_cse.Fuse.Files.{fuseserver_setattr, fuseserver_write, fuseserver_read}
use lab_cse.Fuse.Handlers.{
  fuseserver_create, fuseserver_mkdir, fuseserver_lookup, fuseserver_readdir,
}
use lab_cse.Fuse.Rules.{Gives, IsStatOf}
use lab_cse.Fuse.Creation.{
  RepliesWith, fuseserver_lookup-fuseserver_create, fuseserver_lookup-fuseserver_mkdir,
}
use lab_cse.Fuse.Contents.{
  resized, written, fuseserver_setattr-resized, fuseserver_read-fuseserver_write,
}
use lab_cse.Fuse.Readdir.{IsDirents, end_of, listing, fuseserver_readdir-listing}

-- Locks that count the calls.
abbrev locks : Locks ℕ
locks = record { acquire = λ l i. l + 1; release = λ l i. l + 1 }

-- The root is empty.
abbrev world : World ℕ (Option BlockManager)
world = (0, some disk)

abbrev name : Text
name = b'c' ∷ []

fuseserver_lookup-fuseserver_create_example :
    (let e = server around in
      let ino = (Server.create around (looked e (some disk) 1) t_file).2 in
      let f : File = record { kind = t_file; content = [] } in
      (r : Reply) × (v : World ℕ (Option BlockManager)) × (fuseserver_create e locks 0 1 name world
        ≡ some (r, v))
      × RepliesWith reply_create ino f r
      × Gives HasFile (fuseserver_lookup e locks 0 1 name) v (RepliesWith reply_entry ino f))
unfolding has_slash find_entry text_eq
fuseserver_lookup-fuseserver_create_example =
    fuseserver_lookup-fuseserver_create (server around) locks HasFile HasRoom (HasInode around)
      (server-IsStore around around-AreSurroundings) 0 0 1 [] name world root-HasFile tt refl refl
      (can-HasInode t_file (omega arith) refl) (more-HasRoom t_file (omega arith) refl)

fuseserver_lookup-fuseserver_mkdir_example :
    (let e = server around in
      let ino = (Server.create around (looked e (some disk) 1) t_dir).2 in
      let f : File = record { kind = t_dir; content = [] } in
      (r : Reply) × (v : World ℕ (Option BlockManager)) × (fuseserver_mkdir e locks 0 1 name world
        ≡ some (r, v))
      × RepliesWith reply_entry ino f r
      × Gives HasFile (fuseserver_lookup e locks 0 1 name) v (RepliesWith reply_entry ino f))
unfolding has_slash find_entry text_eq
fuseserver_lookup-fuseserver_mkdir_example =
    fuseserver_lookup-fuseserver_mkdir (server around) locks HasFile HasRoom (HasInode around)
      (server-IsStore around around-AreSurroundings) 0 0 1 [] name world root-HasFile tt refl refl
      (can-HasInode t_dir (omega arith) refl) (more-HasRoom t_dir (omega arith) refl)

-- A request that sets the size only.
abbrev only_size : ToSet
only_size = record { set_size = true; set_atime = false; set_mtime = false }

abbrev file : File
file = record { kind = t_file; content = [] }

-- A disk with an empty file at 3.
abbrev file_world : World ℕ (Option BlockManager)
file_world = (0, some Sample.disk)

fuseserver_setattr-resized_example :
    (st : Stat) × (v : World ℕ (Option BlockManager)) × (fuseserver_setattr
        (server around)
        locks
        3
        2
        only_size
        file_world
      ≡ some (reply_attr st 0, v))
    × IsStatOf 3 (resized 2 file) st
    × HasFile v.1 3 (resized 2 file)
unfolding resize
fuseserver_setattr-resized_example =
    fuseserver_setattr-resized (server around) locks HasFile HasRoom (HasInode around)
      (server-IsStore around around-AreSurroundings) 3 2 only_size file file_world refl
      (file_at_3, omega arith)
      (room_at_3 (resize 2 []) (omega arith, (omega arith, tt)) (omega arith))

fuseserver_read-fuseserver_write_example :
    (v : World ℕ (Option BlockManager)) × (fuseserver_write
        (server around)
        locks
        3
        name
        2
        file_world
      ≡ some (reply_write (length name), v))
    × HasFile v.1 3 (written 2 name file)
    × Gives HasFile
        (fuseserver_read (server around) locks 3 (length name) 2)
        v
        (λ r. r ≡ reply_buf name)
unfolding write_at
fuseserver_read-fuseserver_write_example =
    fuseserver_read-fuseserver_write (server around) locks HasFile HasRoom (HasInode around)
      (server-IsStore around around-AreSurroundings) 3 2 name file file_world
      (file_at_3, omega arith) (omega arith)
      (room_at_3 (write_at 2 name []) (omega arith, (omega arith, (omega arith, tt))) (omega arith))

-- Entries of as many bytes as the name has and one more.
abbrev dirents : Dirents
dirents = record { dirent_size = λ n. n + 1; dirent = λ n i o. i ∷ n }

dirents-IsDirents : IsDirents dirents
dirents-IsDirents n i o = omega arith

-- The root holds `ab` and `ab`; the request starts behind the first entry.
fuseserver_readdir-listing_example :
    Gives HasFile
      (fuseserver_readdir (server around) locks dirents 0 1 2 (end_of dirents 0 one))
      (0, some filled.0)
      (λ r. r ≡ reply_buf (take 2 (listing dirents (end_of dirents 0 one) one)))
unfolding has_slash
fuseserver_readdir-listing_example =
    fuseserver_readdir-listing dirents dirents-IsDirents (server around) locks HasFile HasRoom
      (HasInode around) (server-IsStore around around-AreSurroundings) 0 1 2 one one
      (0, some filled.0) (filled.1, omega arith) (refl, omega arith, (refl, omega arith, tt))
