-- ===== src/InodeManager/Files.antt =====
-- inode_manager.cc: `free_inode`, `read_file`, `write_file`, `getattr` and `remove_file`. A file's
-- first 100 blocks are named by its inode; the next ones by the inode whose number stands in
-- `blocks[NDIRECT]`, and so on.
use cse.Base.{
  ℕ, zero, suc, ◌+◌, ◌-◌, ◌*◌, ◌/◌, ◌%◌, ◌^◌, true, false, Option, none, some, List, [], ◌∷◌, ◌++◌,
  ltb, leb, ◌==◌, if◌then◌else◌, get_or, set, take, drop, replicate,
}
use cse.Base.Bytes.{Bytes}
use cse.Disk.{block_size, block_num, iblock, ndirect, inode_start, blank}
use cse.BlockManager.{data_block}
use cse.InodeManager.Layout.{Inode, decode}
use cse.InodeManager.{
  Env, Manager, Attr, M, ◌>>=◌, ◌>>◌, return, fault, u32_mod, as_int, get_block, put_block, free,
  deref, get_inode, put_inode, now, alloc, alloc_inode,
}

-- `blocks[k]` of an inode
abbrev pub block_at : Inode → ℕ → ℕ
block_at ino k = get_or ino.blocks k 0

abbrev pub with_block : Inode → ℕ → ℕ → Inode
with_block ino k b = record ino { blocks = set ino.blocks k b }

-- `enum types`
abbrev pub t_dir : ℕ
t_dir = 1

abbrev pub t_file : ℕ
t_file = 2

abbrev pub t_link : ℕ
t_link = 3

-- The rounds of the loop of `free_inode` that free a direct block. The result is the `file_size`
-- that is left when the size or the direct blocks run out.
unfoldable pub free_direct : List ℕ → ℕ → M ℕ
free_direct [] file_size = return file_size
free_direct (b ∷ bs) file_size = elim file_size [
  | zero ↦ return 0
  | suc n ↦ free b >>= λ _. free_direct bs (suc n - block_size)
]

-- The inodes of a chain, each freed with its direct blocks; the fuel bounds the chain's length, and
-- the first argument is what is done where it has run out.
unfoldable pub free_chain : M (Unit {0}) → ℕ → ℕ → M (Unit {0})
unfolding get_inode put_inode free free_direct
free_chain out zero inum = out
free_chain out (suc f) inum = do
  o ← get_inode inum
  ino ← deref o
  put_inode inum (record ino { type = 0 })
  free (iblock inum block_num)
  left ← free_direct (take ndirect ino.blocks) (as_int ino.size)
  elim left [
    | zero ↦ return tt
    | suc n ↦ (do
      o' ← get_inode (block_at ino ndirect)
      next ← deref o'
      put_inode (block_at ino ndirect) (record next { size = suc n })
      free_chain out f (block_at ino ndirect))
  ]

-- Each inode of a chain takes 51200 bytes off a size below 2^31.
abbrev pub chain_bound : ℕ
chain_bound = 2 ^ 31 / (ndirect * block_size) + 2

unfoldable pub free_inode : ℕ → M (Unit {0})
unfolding free_chain
free_inode inum = free_chain fault chain_bound inum

unfoldable pub remove_file : ℕ → M (Unit {0})
unfolding free_inode
remove_file inum = free_inode inum

-- The inode and the index of the next block of a file, in the inode that follows where the direct
-- blocks are used up.
unfoldable pub next_inode : Inode → ℕ → M (Inode × ℕ)
unfolding get_inode
next_inode ino k =
    if ltb (ndirect - 1) k
    then (do o ← get_inode (block_at ino ndirect); next ← deref o; return (next, 0))
    else return (ino, k)

-- A size from 2^31 on is a negative `int`, and the copy of that many bytes is undefined.
abbrev pub read_size : ℕ → M ℕ
read_size n = if ltb n (2 ^ 31) then return n else fault

-- The loop of `read_file`. The arguments are the rounds left, `cur`, the inode, `cur_block_indx`,
-- the bytes copied so far and `file_size`.
unfoldable pub read_loop : ℕ → ℕ → Inode → ℕ → Bytes → ℕ → M Bytes
unfolding next_inode get_block
read_loop zero cur ino k out file_size = fault
read_loop (suc f) cur ino k out file_size = do
  (ino', k') ← next_inode ino k
  block ← get_block (block_at ino' k')
  elim (leb file_size ((cur + 1) * block_size)) [
    | true ↦ return (out ++ take (file_size - cur * block_size) block)
    | false ↦ read_loop f (cur + 1) ino' (k' + 1) (out ++ take block_size block) file_size
  ]

-- The bytes that one round writes: a last block that is not full is filled up with zeros.
unfoldable pub block_to_write : Bytes → ℕ → Bytes
block_to_write cur lost_size =
    if ltb lost_size block_size
    then take lost_size cur ++ replicate (block_size - lost_size) 0
    else take block_size cur

-- The loop that frees what a shorter file no longer needs; each round moves to the next direct
-- block, so there are at most 101.
unfoldable pub shrink_loop : ℕ → ℕ → ℕ → Inode → ℕ → M (Unit {0})
unfolding free_inode free
shrink_loop zero block_no k ino file_size = return tt
shrink_loop (suc f) block_no k ino file_size = elim (ltb (block_no * block_size) file_size) [
  | false ↦ return tt
  | true ↦ elim (ltb (ndirect - 1) k) [
    | true ↦ free_inode (block_at ino ndirect)
    | false ↦ free (block_at ino k) >>= λ _. shrink_loop f (block_no + 1) (k + 1) ino file_size
  ]
]

module _ (env : Env) where
  -- The bytes of the file; their number is the `size` that the source also returns.
  unfoldable pub read_file : ℕ → M Bytes
  unfolding get_inode read_loop now put_inode
  read_file inum = do
    o ← get_inode inum
    file_inode ← deref o
    size ← read_size file_inode.size
    buf ← read_loop (size / block_size + 1) 0 file_inode 0 [] size
    o' ← get_inode inum
    ino ← deref o'
    now_time ← now env
    put_inode inum (record ino { atime = now_time })
    return buf

  -- The variables of the loop of `write_file`.
  unfoldable pub grow_chain : Inode → ℕ → ℕ → M Inode
  unfolding alloc_inode
  grow_chain ino file_size block_no =
      if leb file_size (block_no * block_size)
      then (do new_inum ← alloc_inode env t_file; return (with_block ino ndirect new_inum))
      else return ino

  -- The step to the next inode of the chain, which is allocated where the file grows: the inode,
  -- `real_block_num` and `last_inum` after it.
  unfoldable pub next_to_write : Inode → ℕ → ℕ → ℕ → ℕ → M (Inode × ℕ × ℕ)
  unfolding grow_chain get_inode put_inode
  next_to_write ino k last_inum file_size block_no =
      if ltb (ndirect - 1) k
      then (do
        old ← grow_chain ino file_size block_no
        o ← get_inode (block_at old ndirect)
        put_inode last_inum old
        next ← deref o
        return (next, 0, block_at old ndirect))
      else return (ino, k, last_inum)

  unfoldable pub grow_file : Inode → ℕ → ℕ → ℕ → M Inode
  unfolding alloc
  grow_file ino k file_size block_no =
      if leb file_size (block_no * block_size)
      then (do b ← alloc env data_block; return (with_block ino k b))
      else return ino

  -- The loop of `write_file`. The arguments are the rounds left, `lost_size`, `cur`, `block_num`,
  -- `real_block_num`, `last_inum`, the inode and the size of the file before the call; the result is
  -- what the loop leaves in `block_num`, `real_block_num`, `last_inum` and the inode.
  unfoldable pub write_loop : ℕ → ℕ → Bytes → ℕ → ℕ → ℕ → Inode → ℕ → M (ℕ × ℕ × ℕ × Inode)
  unfolding next_to_write grow_file put_block block_to_write
  write_loop zero lost_size cur block_no k last_inum ino file_size =
      return (block_no, k, last_inum, ino)
  write_loop (suc f) lost_size cur block_no k last_inum ino file_size = elim lost_size [
    | zero ↦ return (block_no, k, last_inum, ino)
    | suc n ↦ (do
      (ino', k', last) ← next_to_write ino k last_inum file_size block_no
      grown ← grow_file ino' k' file_size block_no
      put_block (block_at grown k') (block_to_write cur (suc n))
      write_loop f (suc n - block_size) (drop block_size cur) (block_no + 1) (k' + 1) last grown
          file_size)
  ]

  -- What `write_file` does behind its first loop.
  unfoldable pub close_file : ℕ → ℕ → ℕ → ℕ → ℕ → Inode → ℕ → M (Unit {0})
  unfolding get_inode put_inode shrink_loop now
  close_file inum size block_no k last_inum ino file_size = do
    shrink_loop (ndirect + 1) block_no k ino file_size
    put_inode last_inum ino
    o' ← get_inode inum
    ino' ← deref o'
    ctime ← now env
    mtime ← now env
    put_inode inum (record ino' { size = size; ctime = ctime; mtime = mtime })

  unfoldable pub write_file : ℕ → Bytes → ℕ → M (Unit {0})
  unfolding get_inode write_loop close_file
  write_file inum buf size = do
    o ← get_inode inum
    file_inode ← deref o
    let file_size = as_int file_inode.size
    (block_no, k, last_inum, ino) ←
        write_loop (size / block_size + 1) size buf 0 0 inum file_inode file_size
    close_file inum size block_no k last_inum ino file_size

  -- `getattr` computes the block from the number alone, with unsigned wrap-around. The `short` type is
  -- extended with its sign.
  unfoldable pub getattr : ℕ → M Attr
  unfolding get_block
  getattr inum = do
    buf ← get_block ((inum + u32_mod - 1 + inode_start) % u32_mod)
    let ino = decode buf
    return (record {
      type = if ltb ino.type (2 ^ 15) then ino.type else ino.type + (2 ^ 32 - 2 ^ 16);
      atime = ino.atime;
      mtime = ino.mtime;
      ctime = ino.ctime;
      size = ino.size;
    })

  -- `inode_manager::inode_manager()`: the root directory must get number 1, or the server exits.
  unfoldable pub init : Option Manager
  unfolding alloc_inode
  init = elim (alloc_inode env t_dir (record { disk = blank; count = 0 })) [
    | none ↦ none
    | some (root_dir, s) ↦ if root_dir == 1 then some s else none
  ]
