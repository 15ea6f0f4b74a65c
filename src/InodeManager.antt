-- ===== src/InodeManager.antt =====
-- inode_manager.cc: `class inode_manager`. An inode lies in a block of its own, with the layout of
-- `struct inode` on a little-endian machine with a 4-byte int: see the child `Layout`. Undefined
-- behaviour (a null pointer, an access outside the disk) and `exit` are `none`.
pub mod Layout
pub mod Files
pub mod Inodes
pub mod Direct
pub mod Progress
pub mod Writing
pub mod Shrinking
pub mod Reading
pub mod Stored
pub mod Closing
pub mod RoundTrip
pub mod Store
pub mod Serving
pub mod Fields
pub mod Creation
pub mod Removal
use cse.Base.{
  ℕ, zero, suc, ◌+◌, ◌-◌, ◌*◌, ◌/◌, ◌%◌, ◌^◌, ◌≡◌, refl, Bool, true, false, Option, none, some,
  List, [], ◌∷◌, ◌++◌, arith, ltb, leb, ◌==◌, if◌then◌else◌, get_or, set, take, drop, replicate,
  length,
}
use cse.Base.Bytes.{Bytes}
use cse.Disk.{
  Disk, block_size, block_num, inode_num, ipb, iblock, ndirect, inode_start, read_block,
  write_block, blank,
}
use cse.BlockManager.{BlockType, inode, data_block, alloc_block, free_block}
use Layout.{Inode, encode, decode, inode_size}

-- What comes from outside: the results of `time(NULL)`, and what memory holds that is read before
-- it is written. Both are told by a running count of such reads.
pub record Env : Type 0 where
  pub time : ℕ → ℕ
  pub junk : ℕ → Bytes

pub record Manager : Type 0 where
  pub disk : Disk
  pub count : ℕ

-- `extent_protocol::attr`
pub record Attr : Type 0 where
  pub type : ℕ
  pub atime : ℕ
  pub mtime : ℕ
  pub ctime : ℕ
  pub size : ℕ

abbrev pub M : Type 0 → Type 0
M A = Manager → Option (A × Manager)

infixl 5 ◌>>=◌ ◌>>◌
abbrev pub ◌>>=◌ : {A B : Type 0} → M A → (A → M B) → M B
◌>>=◌ m f s = elim (m s) [ none ↦ none | some (a, s') ↦ f a s' ]

abbrev pub ◌>>◌ : {B : Type 0} → M (Unit {0}) → M B → M B
m >> k = m >>= λ _. k

abbrev pub return : {A : Type 0} → A → M A
return a s = some (a, s)

abbrev pub fault : {A : Type 0} → M A
fault s = none

abbrev pub u32_mod : ℕ
u32_mod = 2 ^ 32

-- A stored `unsigned int` as the `int` that `free_inode` and `write_file` assign it to: a negative
-- one behaves as 0 in every test of their loops.
abbrev pub as_int : ℕ → ℕ
as_int n = if ltb n (2 ^ 31) then n else 0

unfoldable pub get_block : ℕ → M Bytes
unfolding read_block
get_block id s = elim (read_block id s.disk) [ none ↦ none | some b ↦ some (b, s) ]

unfoldable pub put_block : ℕ → Bytes → M (Unit {0})
unfolding write_block
put_block id buf s = elim (write_block id buf s.disk) [
  | none ↦ none
  | some d ↦ some (tt, record s { disk = d })
]

unfoldable pub free : ℕ → M (Unit {0})
unfolding free_block
free id s = elim (free_block id s.disk) [ none ↦ none | some d ↦ some (tt, record s { disk = d }) ]

abbrev pub deref : Option Inode → M Inode
deref none = fault
deref (some ino) = return ino

-- `inum` is unsigned, so of the range test only the upper bound counts; NULL is `none`.
unfoldable pub get_inode : ℕ → M (Option Inode)
unfolding get_block
get_inode inum =
    if leb inode_num inum
    then return none
    else (do buf ← get_block (iblock inum block_num); return (some (decode buf)))

-- The rest of the block keeps its bytes.
unfoldable pub put_inode : ℕ → Inode → M (Unit {0})
unfolding get_block put_block
put_inode inum ino = do
  buf ← get_block (iblock inum block_num)
  put_block (iblock inum block_num) (encode ino ++ drop inode_size buf)

module _ (env : Env) where
  unfoldable pub now : M ℕ
  now s = some (env.time s.count % u32_mod, record s { count = s.count + 1 })

  unfoldable pub uninitialised : M Bytes
  uninitialised s = some (env.junk s.count, record s { count = s.count + 1 })

  unfoldable pub alloc : BlockType → M ℕ
  unfolding alloc_block uninitialised
  alloc t = do
    buf ← uninitialised
    λ s. elim (alloc_block buf t s.disk) [
      | none ↦ none
      | some (i, d) ↦ some (i, record s { disk = d })
    ]

  -- The fields that the source sets, over a `malloc`ed inode; then the inode over an uninitialised
  -- block.
  unfoldable pub alloc_inode : ℕ → M ℕ
  unfolding alloc now uninitialised put_block
  alloc_inode type = do
    iblock_num ← alloc inode
    bblock_num ← alloc data_block
    now_time ← now
    memory ← uninitialised
    buf ← uninitialised
    let fresh = decode memory
    let tem_inode : Inode = record fresh {
      type = type % 2 ^ 16;
      size = 0;
      atime = now_time;
      mtime = now_time;
      ctime = now_time;
      blocks = set fresh.blocks 0 bblock_num;
    }
    put_block iblock_num (encode tem_inode ++ drop inode_size buf)
    return ((iblock_num + u32_mod - inode_start + 1) % u32_mod)
