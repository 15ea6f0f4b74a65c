-- ===== src/InodeManager/Stored.antt =====
-- inode_manager.cc: a file as it lies on the disk, and what leaves it there. `read_file` of such a file.
use cse.Base.{
  ℕ, ◌+◌, ◌*◌, ◌/◌, ◌%◌, ◌^◌, ◌<◌, ◌≤◌, ◌≡◌, ◌≢◌, sym, ◌∙◌, ap, true, arith, ltb, [], length, All,
  Returns, bind-Returns,
}
use mathlib.Core.Path.{subst}
use cse.Base.Bytes.{Bytes}
use cse.Disk.{Disk, block_size, block_num, bblock, inode_num, iblock, ndirect, IsByte, IsDisk}
use cse.BlockManager.Bitmap.{allocated, marked}
use cse.InodeManager.{Env, Manager, ◌>>=◌, put_inode, now, u32_mod}
use cse.InodeManager.Layout.{Inode, IsInode, decode}
use cse.InodeManager.Fields.{decode-IsInode, put_inode-IsDisk}
use cse.InodeManager.Inodes.{get_inode-inside}
use cse.InodeManager.Files.{block_at, read_size, read_loop, read_file}
use cse.InodeManager.Direct.{Holds, Content}
use cse.InodeManager.Reading.{read_loop-Returns}
use cse.InodeManager.Progress.{blocks_of}

-- The inode that the disk has under a number.
abbrev pub inode_of : Disk → ℕ → Inode
inode_of d inum = decode (d (iblock inum block_num))

-- The inode has the size of the text, and its blocks, different allocated data blocks, hold it.
pub record IsStored (d : Disk) (ino : Inode) (buf : Bytes) : Type 0 where
  pub size : ino.size ≡ length buf
  pub bytes : All IsByte buf
  pub fits : length buf ≤ ndirect * block_size
  pub holds : Holds d ino (blocks_of (length buf))
  pub content : Content d ino (blocks_of (length buf)) buf
  pub first : block_at ino 0 < block_num

-- A file stays where its blocks and their bits do.
pub stays-IsStored :
    (d d' : Disk) (ino : Inode) (buf : Bytes)
    → ((i : ℕ)
        → i < blocks_of (length buf)
        → (d' (block_at ino i) ≡ d (block_at ino i))
          × (allocated d' (block_at ino i) ≡ allocated d (block_at ino i)))
    → IsStored d ino buf
    → IsStored d' ino buf
stays-IsStored d d' ino buf same v = record {
  size = v.size;
  bytes = v.bytes;
  fits = v.fits;
  holds = record {
    in_range = v.holds.in_range;
    taken = λ i lt. (same i lt).1 ∙ v.holds.taken i lt;
    apart = v.holds.apart;
  };
  content = λ i lt. (same i lt).0 ∙ v.content i lt;
  first = v.first;
}

-- An inode's block is none of the bitmap's.
pub put-allocated :
    (inum b : ℕ) (d d' : Disk)
    → ((j : ℕ) → j ≢ iblock inum block_num → d' j ≡ d j)
    → b < block_num
    → allocated d' b ≡ allocated d b
unfolding allocated
put-allocated inum b d d' same h = ap (λ s. marked s b) (same (bblock b) (λ e. omega (arith, e, h)))

-- Another access time, and the file is the one it was.
abbrev pub accessed : Env → ℕ → Inode → Inode
accessed env a ino = record ino { atime = env.time a % u32_mod }

accessed-IsInode : (env : Env) (ino : Inode) (a : ℕ) → IsInode ino → IsInode (accessed env a ino)
accessed-IsInode env ino a v = record {
  type_fits = v.type_fits;
  padding_fits = v.padding_fits;
  size_fits = v.size_fits;
  atime_fits = omega arith;
  mtime_fits = v.mtime_fits;
  ctime_fits = v.ctime_fits;
  blocks_fit = v.blocks_fit;
  blocks_count = v.blocks_count;
}

-- What `read_file` leaves: the inode has another access time, and nothing else has changed.
abbrev pub Accessed : Env → ℕ → Manager → Disk → Type 0
Accessed env inum s d =
    IsDisk d
    × (inode_of d inum ≡ accessed env s.count (inode_of s.disk inum))
    × ((b : ℕ) → b ≢ iblock inum block_num → d b ≡ s.disk b)

-- `read_file` of a file on the disk returns its text.
pub read_file-Returns :
    (env : Env) (inum : ℕ) (buf : Bytes) (s : Manager)
    → inum < inode_num
    → IsDisk s.disk
    → IsStored s.disk (inode_of s.disk inum) buf
    → Returns (λ r. (r.0 ≡ buf) × Accessed env inum s r.1.disk) (read_file env inum s)
unfolding read_file now
read_file-Returns env inum buf s small disk v =
    let ino : Inode = inode_of s.disk inum in
    let short : ltb ino.size (2 ^ 31) ≡ true = ground (arith, v.fits, v.size) in
    let loop : Returns (λ r. (r.0 ≡ buf) × (r.1 ≡ s))
        (read_loop (ino.size / block_size + 1) 0 ino 0 [] ino.size s) =
      subst
        (λ n.
          Returns (λ r. (r.0 ≡ buf) × (r.1 ≡ s)) (read_loop (n / block_size + 1) 0 ino 0 [] n s))
        (sym v.size)
        (read_loop-Returns (length buf / block_size + 1) 0 ino buf s v.fits (omega arith)
          (λ z. absurd (omega (arith, z))) (omega arith)
          (λ i lt. ((v.holds.in_range i (omega (arith, lt))).1, v.content i (omega (arith, lt))))
          v.first) in
    rw (read_file, ◌>>=◌, get_inode-inside inum s small, read_size, short)
      (bind-Returns (λ r. (r.0 ≡ buf) × (r.1 ≡ s)) (λ r. (r.0 ≡ buf) × Accessed env inum s r.1.disk)
        (read_loop (ino.size / block_size + 1) 0 ino 0 [] ino.size s) _ loop
        (λ out t h.
          let last : Inode = accessed env s.count ino in
          let ok : IsInode last =
            accessed-IsInode env ino s.count
              (decode-IsInode (s.disk (iblock inum block_num)) (disk (iblock inum block_num)).1) in
          rw (h.1, ◌>>=◌, get_inode-inside inum s small)
            (bind-Returns _ (λ r. (r.0 ≡ buf) × Accessed env inum s r.1.disk)
              (put_inode inum last (record s { count = s.count + 1 })) _
              (put_inode-IsDisk inum last (record s { count = s.count + 1 }) small ok disk)
              (λ a u x. (h.0, (x.0, x.3, x.2))))))
