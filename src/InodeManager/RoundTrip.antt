-- ===== src/InodeManager/RoundTrip.antt =====
-- inode_manager.cc: `read_file` after `write_file`, on files of at most 100 blocks.
use cse.Base.{
  ℕ, ◌+◌, ◌-◌, ◌*◌, ◌/◌, ◌<◌, ◌≤◌, ◌≡◌, ◌≢◌, refl, true, arith, some, drop, length, All, Returns,
  Returns-map, bind-Returns,
}
use cse.Base.Bytes.{Bytes}
use cse.Disk.{
  Disk, block_size, block_num, inode_num, iblock, ndirect, data_start, inode_start, IsByte, IsDisk,
}
use cse.BlockManager.Bitmap.{allocated}
use cse.BlockManager.Spare.{spare}
use cse.InodeManager.{Env, Manager, ◌>>=◌, as_int, get_inode}
use cse.InodeManager.Layout.{Inode, IsInode}
use cse.InodeManager.Inodes.{get_inode-inside}
use cse.InodeManager.Stored.{inode_of, read_file-Returns}
use cse.InodeManager.Files.{block_at, write_loop, close_file, write_file, read_file}
use cse.InodeManager.Direct.{Holds}
use cse.InodeManager.Progress.{blocks_of, leads, Progress, IsKept}
use cse.InodeManager.Writing.{Done, write_loop-Returns}
use cse.InodeManager.Closing.{Written, close_file-Returns}

module _ (env : Env) (g whole inum : ℕ) (buf : Bytes) (K : ℕ → Bytes → Type 0)
    (small : inum < inode_num) (fits : length buf ≤ ndirect * block_size)
    (bytes : All IsByte buf) where
  close_file-Done :
      (size file_size : ℕ) (r : ℕ × ℕ × ℕ × Inode) (t : Manager)
      → file_size ≡ size
      → size ≤ ndirect * block_size
      → Done g whole inum buf K size (r, t)
      → Returns
          (λ w. Written g whole inum buf K w.1)
          (close_file env inum (length buf) r.0 r.1 r.2 r.3 file_size t)
  close_file-Done size file_size r t e old d =
      rw (e, d.0, d.1)
        (close_file-Returns env g whole inum buf K small fits bytes r.1 size r.3 t old d.2 d.3)

  pub write_file-Written :
      (ino : Inode) (s : Manager)
      → get_inode inum s ≡ some (some ino, s)
      → IsInode ino
      → IsDisk s.disk
      → ino.size ≤ ndirect * block_size
      → Holds s.disk ino (blocks_of ino.size)
      → block_at ino 0 < block_num
      → length buf ≤ (blocks_of ino.size + spare g s.disk) * block_size
      → leads g ino (blocks_of ino.size) + spare g s.disk ≡ whole
      → ((b : ℕ) (c : Bytes) → K b c → IsKept s.disk ino (blocks_of ino.size) b c)
      → Returns (λ r. Written g whole inum buf K r.1) (write_file env inum buf (length buf) s)
  unfolding write_file
  write_file-Written ino s e v disk old holds first room account others =
      let signed : as_int ino.size ≡ ino.size = ground arith in
      let n : 0 + (blocks_of ino.size - 0) ≡ blocks_of ino.size = omega arith in
      let begin : Progress g whole buf K s.disk ino (0 + (blocks_of ino.size - 0)) 0 =
        rw n (record {
          disk = disk;
          inode = v;
          holds = holds;
          content = λ i h. absurd (omega (arith, h));
          first = first;
          others = others;
          room = room;
          account = account;
        }) in
      rw (write_file, ◌>>=◌, e, signed)
        (bind-Returns (Done g whole inum buf K ino.size) (λ r. Written g whole inum buf K r.1)
          (write_loop env (length buf / block_size + 1) (length buf) (drop (0 * block_size) buf) 0 0
            inum ino ino.size s)
          _
          (write_loop-Returns env g whole inum buf K ino.size (length buf / block_size + 1)
            (length buf) 0 ino s bytes fits (omega arith) (omega arith) (omega arith) begin)
          (λ r t d. close_file-Done ino.size (as_int ino.size) r t signed old d))

-- The blocks that are neither in the file nor its inode: of other inodes, and allocated data blocks.
abbrev pub IsOther : Disk → Inode → ℕ → ℕ → Type 0
IsOther d ino inum b =
    (inode_start ≤ b)
    × (b < block_num)
    × (b ≢ iblock inum block_num)
    × (data_start ≤ b → allocated d b ≡ true)
    × ((i : ℕ) → i < blocks_of ino.size → block_at ino i ≢ b)

-- On a disk of whole blocks, where an inode's fields fit their widths, its file has at most 51200 bytes,
-- the blocks of the file are different allocated data blocks, and the block that the inode names first is
-- on the disk: `write_file` of a text of at most 51200 bytes returns if the file's blocks, and the free
-- data blocks that are first in their byte of the bitmap, are enough for it. After it `get_inode` has an
-- inode with the size of the text, and `read_file` returns the text. The blocks of other inodes, and the
-- allocated data blocks that are not the file's, are as they were.
pub read_file-write_file :
    (env : Env) (g inum : ℕ) (buf : Bytes) (ino : Inode) (s : Manager)
    → inum < inode_num
    → length buf ≤ ndirect * block_size
    → get_inode inum s ≡ some (some ino, s)
    → IsInode ino
    → IsDisk s.disk
    → ino.size ≤ ndirect * block_size
    → Holds s.disk ino (blocks_of ino.size)
    → block_at ino 0 < block_num
    → All IsByte buf
    → length buf ≤ (blocks_of ino.size + spare g s.disk) * block_size
    → Returns
        (λ w.
          ((ino' : Inode) × (get_inode inum w.1 ≡ some (some ino', w.1)) × (ino'.size ≡ length buf))
          × Returns (λ r. r.0 ≡ buf) (read_file env inum w.1)
          × ((b : ℕ) → IsOther s.disk ino inum b → w.1.disk b ≡ s.disk b))
        (write_file env inum buf (length buf) s)
read_file-write_file env g inum buf ino s small fits e v disk old holds first bytes room =
    let K : ℕ → Bytes → Type 0 = λ b c. IsOther s.disk ino inum b × (s.disk b ≡ c) in
    let whole : ℕ = leads g ino (blocks_of ino.size) + spare g s.disk in
    Returns-map (λ r. Written g whole inum buf K r.1) _ (write_file env inum buf (length buf) s)
      (λ r w. (
        (inode_of r.1.disk inum, get_inode-inside inum r.1 small, w.stored.size),
        Returns-map _ _ (read_file env inum r.1) (λ q x. x.0)
            (read_file-Returns env inum buf r.1 small w.disk w.stored),
        λ b o. (w.others b (s.disk b) (o, refl) o.2).0,
      ))
      (write_file-Written env g whole inum buf K small fits bytes ino s e v disk old holds first
        room refl (λ b c q. (q.0.0, q.0.1, q.0.3, q.0.4, q.1)))
