-- ===== src/ExtentServer/Sample.antt =====
-- A disk with one file, for runs of the extent server.
use lab_cse.Prelude.{ℕ, ◌≡◌, ◌≢◌, refl, ◌∙◌, some, [], ◌∷◌, arith}
use lab_cse.Disk.{Block, block_num}
use lab_cse.BlockManager.{BlockManager, format}
use lab_cse.BlockManager.Bitmap.{AllBytes}
use lab_cse.Inode.{Inode, zero_inode}
use lab_cse.Inode.Layout.{Fits}
use lab_cse.InodeManager.Table.{get_inode, put_inode}
use lab_cse.InodeManager.Space.{Sound, unused}
use lab_cse.InodeManager.Placement.{Owns}
use lab_cse.InodeManager.Inodes.{get_inode-put_inode}
use lab_cse.InodeManager.Boot.{format-Sound, unused-format, unused_kept}

abbrev pub hello : Block
hello = b'h' ∷ b'i' ∷ []

abbrev pub memory : Block
memory = 0 ∷ 0 ∷ []

pub hello_bytes : AllBytes hello
hello_bytes = (omega arith, (omega arith, tt))

abbrev pub file : Inode
file = record zero_inode { kind = 2 }

pub file-Fits : Fits file
file-Fits = record {
  kind = omega arith;
  size = omega arith;
  atime = omega arith;
  mtime = omega arith;
  ctime = omega arith;
  blocks = ground arith;
  count = refl;
}

-- A disk with the file at number 3.
abbrev pub disk : BlockManager
disk = put_inode format 3 (some file)

pub disk_lem :
    Sound disk
    × (get_inode disk 3 ≡ some file)
    × ((i : ℕ) → i ≢ 14 → disk.d.blocks i ≡ format.d.blocks i)
disk_lem = get_inode-put_inode format 3 file format-Sound (omega arith) file-Fits refl

pub room : unused block_num disk ≡ 31734
room = unused_kept format disk 14 (omega arith) disk_lem.2 ∙ unused-format

pub file-Owns : Owns disk file 0
file-Owns = record { direct = tt; indirect = λ h. absurd (omega arith) }
