-- ===== src/BlockManager.antt =====
-- inode_manager.cc: `class block_manager`, the free-block bitmap over the disk.
pub mod Bits
pub mod Bitmap
pub mod Alloc
pub mod Free
pub mod Spare
use Prim.Native.Nat.{bit_or}
use cse.Base.{
  ℕ, zero, suc, ◌+◌, ◌-◌, ◌/◌, ◌%◌, ◌^◌, ◌≡◌, refl, Bool, true, false, ◌||◌, Option, none, some,
  List, [], arith, ltb, leb, ◌==◌, if◌then◌else◌, get_or, set, ◌*◌,
}
use cse.Base.Bytes.{Bytes}
use cse.Disk.{
  Disk, block_size, block_num, bblock, bblock_index, inode_start, data_start, read_block,
  write_block, blank,
}

-- `struct superblock` and the disk. The constructor formats nothing on the disk itself.
pub record Superblock : Type 0 where
  pub size : ℕ
  pub nblocks : ℕ
  pub ninodes : ℕ

-- `INODE` and `DATA`
pub data BlockType : Type 0 where
  inode data_block : BlockType
  other : ℕ → BlockType

infixl 5 ◌>>=◌
abbrev pub ◌>>=◌ {ℓ κ} : {A : Type ℓ} {B : Type κ} → Option A → (A → Option B) → Option B
none >>= f = none
some a >>= f = f a

-- The shift of a block's bit in its byte: the first block has the highest bit.
abbrev pub shift : ℕ → ℕ
shift i = 8 - bblock_index i % 8 - 1

-- `*(buf + BBLOCK_INDEX(i)/8)`
abbrev pub byte_of : Bytes → ℕ → ℕ
byte_of buf i = get_or buf (bblock_index i / 8) 0

-- `!CHECK(buf, BBLOCK_INDEX(i))`. The macro has no parentheses of its own, so this is
-- `(!(byte >> shift)) & 0x1`: the negation is of the shifted byte and not of its lowest bit. The
-- byte is a signed char: from 128 on it is negative, and shifted to the right it is not 0, as here.
unfoldable pub not_check : Bytes → ℕ → Bool
not_check buf i = byte_of buf i / 2 ^ shift i == 0

-- `*p = *p | (0x1 << shift)`
unfoldable pub mark : Bytes → ℕ → Bytes
mark buf i = set buf (bblock_index i / 8) (bit_or (byte_of buf i) (2 ^ shift i))

-- `~` of a byte, kept in eight bits
abbrev pub complement : ℕ → ℕ
complement b = 255 - b

-- `*p = ~(~(*p) | (0x1 << shift))`
unfoldable pub unmark : Bytes → ℕ → Bytes
unmark buf i =
    set buf (bblock_index i / 8) (complement (bit_or (complement (byte_of buf i)) (2 ^ shift i)))

-- The buffer is read again when the number of its bitmap block changes.
unfoldable pub refresh : ℕ → ℕ → Bytes → Disk → Option Bytes
refresh local i buf d = if local == bblock i then some buf else read_block (bblock i) d

-- The loop of `alloc_block` over the blocks from `i` on, as many as the first argument says.
unfoldable pub alloc_loop : ℕ → ℕ → ℕ → Bytes → Disk → Option (ℕ × Disk)
unfolding refresh
alloc_loop zero i local buf d = some (0, d)
alloc_loop (suc n) i local buf d = elim (refresh local i buf d) [
  | none ↦ none
  | some buf' ↦ elim (not_check buf' i) [
    | true ↦ elim (write_block (bblock i) (mark buf' i) d) [ none ↦ none | some d' ↦ some (i, d') ]
    | false ↦ alloc_loop n (i + 1) (bblock i) buf' d
  ]
]

-- `alloc_block(type)`; 0 is returned where no block is found. The first argument is what the
-- uninitialised buffer holds.
unfoldable pub alloc_block : Bytes → BlockType → Disk → Option (ℕ × Disk)
unfolding alloc_loop
alloc_block junk inode d = alloc_loop (data_start - inode_start) inode_start 0 junk d
alloc_block junk data_block d = alloc_loop (block_num - data_start) data_start 0 junk d
alloc_block junk (other t) d = some (0, d)

unfoldable pub free_block : ℕ → Disk → Option Disk
unfolding unmark
free_block id d =
    if ltb id inode_start || leb block_num id
    then some d
    else (do buf ← read_block (bblock id) d; write_block (bblock id) (unmark buf id) d)

unfoldable pub superblock : Superblock
superblock = record { size = block_size * block_num; nblocks = block_num; ninodes = 4096 }
