-- ===== src/ExtentServer/Tests.antt =====
-- The theorems on the extent server, at an empty file and at a new server.
use lab_cse.Prelude.{◌≡◌, refl, some, arith}
use lab_cse.Disk.{zero_block}
use lab_cse.BlockManager.{BlockManager}
use lab_cse.BlockManager.Format.{zero_block-IsBlock}
use lab_cse.InodeManager.Table.{start}
use lab_cse.InodeManager.Space.{Sound}
use lab_cse.ExtentServer.{create, put, get}
use lab_cse.ExtentServer.RoundTrip.{get-put, get-put-create}
use lab_cse.ExtentServer.Sample.{hello, memory, hello_bytes, file, disk, disk_lem, room, file-Owns}

-- The identifier has the upper bit that marks files.
get-put_example :
    (im' : BlockManager) × (put disk 2147483651 hello zero_block zero_block 9 ≡ some im')
    × Sound im'
    × ((get im' 2147483651 memory zero_block zero_block 9).1 ≡ hello)
get-put_example =
    get-put disk 2147483651 file hello zero_block zero_block memory zero_block zero_block 9 9
      disk_lem.0 (omega arith) disk_lem.1 (omega arith) file-Owns hello_bytes zero_block-IsBlock
      (omega arith) (omega arith) (ground (arith, room)) refl

get-put-create_example :
    (im : BlockManager) × (im1 : BlockManager) × (im2 : BlockManager) × (start 9 ≡ some im)
    × (create im 2 9 ≡ (im1, 2))
    × (put im1 2 hello zero_block zero_block 9 ≡ some im2)
    × ((get im2 2 memory zero_block zero_block 9).1 ≡ hello)
get-put-create_example =
    get-put-create 2 9 hello zero_block zero_block memory zero_block zero_block refl (omega arith)
      hello_bytes zero_block-IsBlock (omega arith) refl
