-- ===== src/Disk.antt =====
-- inode_manager.h and inode_manager.cc: the geometry of the disk and `class disk`. A byte is a
-- number below 256. An access outside the array, which is undefined in the source, is `none`.
use cse.Base.{
  ℕ, ◌+◌, ◌*◌, ◌/◌, ◌%◌, ◌<◌, ◌≡◌, Option, none, some, ltb, ◌==◌, if◌then◌else◌, length, take,
  replicate, All,
}
use cse.Base.Bytes.{Bytes}

abbrev pub block_size : ℕ
block_size = 512

-- `DISK_SIZE/BLOCK_SIZE`, which expands to `(1024*1024*16/512)`
abbrev pub block_num : ℕ
block_num = 1024 * 1024 * 16 / block_size

abbrev pub inode_num : ℕ
inode_num = 4096

-- bits of one bitmap block
abbrev pub bpb : ℕ
bpb = block_size * 8

abbrev pub ipb : ℕ
ipb = 1

-- `IBLOCK(i, nblocks)`
abbrev pub iblock : ℕ → ℕ → ℕ
iblock i nblocks = nblocks / bpb + i / ipb + 3

-- `BBLOCK(b)`
abbrev pub bblock : ℕ → ℕ
bblock b = b / bpb + 2

-- `BBLOCK_INDEX(b)`
abbrev pub bblock_index : ℕ → ℕ
bblock_index b = b % bpb

abbrev pub ndirect : ℕ
ndirect = 100

abbrev pub inode_start : ℕ
inode_start = iblock 1 block_num

abbrev pub data_start : ℕ
data_start = inode_start + inode_num

-- `unsigned char blocks[BLOCK_NUM][BLOCK_SIZE]`
abbrev pub Disk : Type 0
Disk = ℕ → Bytes

-- `disk::disk()` clears every block.
abbrev pub blank : Disk
blank id = replicate block_size 0

unfoldable pub read_block : ℕ → Disk → Option Bytes
read_block id d = if ltb id block_num then some (d id) else none

-- The first 512 bytes of the buffer are copied.
unfoldable pub write_block : ℕ → Bytes → Disk → Option Disk
write_block id buf d =
    if ltb id block_num then some (λ j. if j == id then take block_size buf else d j) else none

abbrev pub IsByte : ℕ → Type 0
IsByte b = b < 256

-- Every block has 512 bytes.
abbrev pub IsBlock : Bytes → Type 0
IsBlock s = (length s ≡ block_size) × All IsByte s

abbrev pub IsDisk : Disk → Type 0
IsDisk d = (id : ℕ) → IsBlock (d id)
