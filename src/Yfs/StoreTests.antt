-- ===== src/Yfs/StoreTests.antt =====
-- The theorems on the extent server and on directories at the extent server with an empty root.
use lab_cse.Prelude.{◌≡◌, refl, some, Option, [], ◌∷◌, arith}
use lab_cse.Prelude.Text.{text_eq}
use lab_cse.BlockManager.{BlockManager}
use lab_cse.Yfs.Format.{has_slash, find_entry}
use lab_cse.Yfs.Extents.{t_file, IsStore}
use lab_cse.Yfs.Operations.{ok, exist, create, lookup}
use lab_cse.Yfs.Directory.{looked, lookup-create}
use lab_cse.Yfs.Server
use lab_cse.Yfs.Server.{server, server-IsStore, HasFile, HasRoom, HasInode}
use lab_cse.Yfs.Sample.{
  around, around-AreSurroundings, disk, root-HasFile, can-HasInode, more-HasRoom,
}

lookup-create_example :
    (let e = server around in
      let ino = (Server.create around (looked e (some disk) 1) t_file).2 in
      (s2 : Option BlockManager) × (create e (some disk) 0 1 (b'c' ∷ []) ≡ some (s2, ok, ino))
      × HasFile s2 ino (record { kind = t_file; content = [] })
      × (lookup e s2 0 1 (b'c' ∷ []) ≡ some (looked e s2 1, exist, some ino)))
unfolding has_slash find_entry text_eq
lookup-create_example =
    lookup-create (server around) HasFile HasRoom (HasInode around)
      (server-IsStore around around-AreSurroundings) (some disk) 0 0 1 [] (b'c' ∷ []) (b'c' ∷ [])
      root-HasFile tt refl refl (can-HasInode t_file (omega arith) refl)
      (more-HasRoom t_file (omega arith) refl)

server-IsStore_example : IsStore (server around) HasFile HasRoom (HasInode around)
server-IsStore_example = server-IsStore around around-AreSurroundings
