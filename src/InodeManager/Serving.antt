-- ===== src/InodeManager/Serving.antt =====
-- inode_manager.cc: `read_file`, `write_file` and `getattr` on a disk of files, again and again.
use cse.Base.{
  ℕ, suc, ◌+◌, ◌-◌, ◌*◌, ◌%◌, ◌<◌, ◌≤◌, ◌≡◌, refl, sym, ◌∙◌, ap, inl, inr, arith, ◌==◌,
  if◌then◌else◌, length, All, Bool-cases, ==_iff, Returns, Returns-map,
}
use cse.Base.Bytes.{Bytes}
use cse.Base.Sums.{total, total-same}
use cse.Disk.{Disk, block_size, block_num, inode_num, iblock, ndirect, data_start, IsByte, IsDisk}
use cse.BlockManager.Bitmap.{allocated}
use cse.BlockManager.Spare.{spare, lead, spare-same}
use cse.InodeManager.{Env, Manager, u32_mod, ◌>>=◌}
use cse.InodeManager.Layout.{Inode}
use cse.InodeManager.Fields.{decode-IsInode}
use cse.InodeManager.Inodes.{get_inode-inside, get_block-inside}
use cse.InodeManager.Files.{block_at, read_file, write_file, getattr}
use cse.InodeManager.Progress.{blocks_of}
use cse.InodeManager.Stored.{inode_of, IsStored, stays-IsStored, put-allocated, read_file-Returns}
use cse.InodeManager.RoundTrip.{write_file-Written}
use cse.InodeManager.Store.{
  Files, IsFile, leads_of, IsStore, Elsewhere-IsKept, room_left, Written-IsStore,
}

-- Another inode of the same size with the same blocks.
same-IsStored :
    (d : Disk) (ino ino' : Inode) (buf : Bytes)
    → ((i : ℕ) → block_at ino' i ≡ block_at ino i)
    → ino'.size ≡ ino.size
    → IsStored d ino buf
    → IsStored d ino' buf
same-IsStored d ino ino' buf blocks size v = record {
  size = size ∙ v.size;
  bytes = v.bytes;
  fits = v.fits;
  holds = record {
    in_range = λ i lt. rw (blocks i) (v.holds.in_range i lt);
    taken = λ i lt. rw (blocks i) (v.holds.taken i lt);
    apart = λ i j lt lt' e. v.holds.apart i j lt lt' (sym (blocks i) ∙ e ∙ blocks j);
  };
  content = λ i lt. rw (blocks i) (v.content i lt);
  first = rw (blocks 0) v.first;
}

-- A disk with the same data blocks and bits, where the inodes have the same sizes and blocks.
same-IsStore :
    (g : ℕ) (fs : Files) (texts : ℕ → Bytes) (d d' : Disk)
    → IsDisk d'
    → ((i : ℕ)
        → IsFile fs i
        → ((a : ℕ) → block_at (inode_of d' i) a ≡ block_at (inode_of d i) a)
          × ((inode_of d' i).size ≡ (inode_of d i).size))
    → ((b : ℕ) → data_start ≤ b → d' b ≡ d b)
    → ((b : ℕ) → b < block_num → allocated d' b ≡ allocated d b)
    → IsStore g fs texts d
    → IsStore g fs texts d'
same-IsStore g fs texts d d' disk inodes blocks bits v = record {
  disk = disk;
  stored = λ i h.
      same-IsStored d' (inode_of d i) (inode_of d' i) (texts i) (inodes i h).0 (inodes i h).1 (
        stays-IsStored d d' (inode_of d i) (texts i)
          (λ a lt.
            let (low, high) = (v.stored i h).holds.in_range a lt in
            (blocks (block_at (inode_of d i) a) low, bits (block_at (inode_of d i) a) high))
          (v.stored i h));
  small = v.small;
  apart = λ i j a b h h' ne lt lt' e.
      v.apart i j a b h h' ne lt lt' (sym ((inodes i h).0 a) ∙ e ∙ (inodes j h').0 b);
  capacity =
      let same : total fs.n (λ j. leads_of g texts d' (suc j))
          ≡ total fs.n (λ j. leads_of g texts d (suc j)) =
        total-same fs.n (λ j. leads_of g texts d' (suc j)) (λ j. leads_of g texts d (suc j))
          (λ j lt.
            total-same (blocks_of (length (texts (suc j)))) _ _
              (λ a l. ap (lead g) ((inodes (suc j) (omega arith, omega (arith, lt))).0 a))) in
      omega (arith, v.capacity, same, spare-same g d d' bits);
}

module _ (env : Env) (g : ℕ) (fs : Files) (many : fs.n < inode_num)
    (direct : (i : ℕ) → IsFile fs i → fs.room i ≤ ndirect) where
  -- After `write_file` the disk is one of files again.
  write_file-kept :
      (texts : ℕ → Bytes) (i : ℕ) (buf : Bytes) (s : Manager)
      → IsStore g fs texts s.disk
      → IsFile fs i
      → All IsByte buf
      → length buf ≤ fs.room i * block_size
      → Returns
          (λ r. IsStore g fs (λ j. if j == i then buf else texts j) r.1.disk)
          (write_file env i buf (length buf) s)
  write_file-kept texts i buf s v h bytes le =
      let old = v.stored i h in
      let fits : length buf ≤ ndirect * block_size = omega (arith, le, direct i h) in
      let size : (inode_of s.disk i).size ≡ length (texts i) = old.size in
      let whole : ℕ = leads_of g texts s.disk i + spare g s.disk in
      let blocks : blocks_of (inode_of s.disk i).size ≡ blocks_of (length (texts i)) =
        ap blocks_of size in
      Returns-map _ _ (write_file env i buf (length buf) s)
        (λ r w. Written-IsStore g fs many direct texts s.disk v i buf h le r.1 w)
        (write_file-Written env g whole i buf _ (omega (arith, h, many)) fits bytes
          (inode_of s.disk i) s (get_inode-inside i s (omega (arith, h, many)))
          (decode-IsInode (s.disk (iblock i block_num)) (v.disk (iblock i block_num)).1) v.disk
          (omega (arith, size, old.fits)) (rw blocks old.holds) old.first
          (rw blocks (room_left g fs many direct texts s.disk v i buf h le)) (rw blocks refl)
          (λ b c q. rw blocks (Elsewhere-IsKept g fs many direct texts s.disk v i b c h q)))

  -- On a disk of files `read_file` returns the text of the file, and leaves such a disk with the texts
  -- that it had.
  pub read_file-IsStore :
      (texts : ℕ → Bytes) (i : ℕ) (s : Manager)
      → IsStore g fs texts s.disk
      → IsFile fs i
      → Returns (λ r. (r.0 ≡ texts i) × IsStore g fs texts r.1.disk) (read_file env i s)
  read_file-IsStore texts i s v h =
      Returns-map _ _ (read_file env i s)
        (λ r (text, (disk, at, same)). (
          text,
          same-IsStore g fs texts s.disk r.1.disk disk
              (λ j k. elim (Bool-cases (j == i)) [
                | inl hit ↦ let q : j ≡ i = (==_iff j i).0 hit in rw (q, at) ((λ a. refl), refl)
                | inr miss ↦
                    let e : r.1.disk (iblock j block_num) ≡ s.disk (iblock j block_num) =
                      same (iblock j block_num) (λ z. absurd (ground (arith, z))) in
                    rw e ((λ a. refl), refl)
              ])
              (λ b low. same b (λ z. omega (arith, z, low, h, many)))
              (λ b high. put-allocated i b s.disk r.1.disk same high) v,
        ))
        (read_file-Returns env i (texts i) s (omega (arith, h, many)) v.disk (v.stored i h))

  -- On a disk of whole blocks where the file of each inode from 1 to `n`, fewer than 4096, holds its
  -- text in allocated blocks that are no other file's, and may still grow to the blocks that are its
  -- own, at most 100, `write_file` of bytes that fit these blocks returns. Afterwards `read_file` of
  -- the file returns these bytes and `read_file` of every other file its text, and the disk is such a
  -- disk again, so that each may still grow as before.
  pub write_file-IsStore :
      (texts : ℕ → Bytes) (i : ℕ) (buf : Bytes) (s : Manager)
      → IsStore g fs texts s.disk
      → IsFile fs i
      → All IsByte buf
      → length buf ≤ fs.room i * block_size
      → Returns
          (λ r.
            IsStore g fs (λ j. if j == i then buf else texts j) r.1.disk
            × ((j : ℕ)
                → IsFile fs j
                → Returns (λ q. q.0 ≡ (if j == i then buf else texts j)) (read_file env j r.1)))
          (write_file env i buf (length buf) s)
  write_file-IsStore texts i buf s v h bytes le =
      let after : ℕ → Bytes = λ j. if j == i then buf else texts j in
      Returns-map _ _ (write_file env i buf (length buf) s)
        (λ r u. (
          u,
          λ j k.
              Returns-map _ _ (read_file env j r.1) (λ q w. w.0)
                (read_file-IsStore after j r.1 u k),
        ))
        (write_file-kept texts i buf s v h bytes le)

  -- `getattr` of a file reads its inode only.
  pub getattr-same : (i : ℕ) (s : Manager) → IsFile fs i → Returns (λ r. r.1 ≡ s) (getattr env i s)
  unfolding getattr
  getattr-same i s h =
      let at : (i + u32_mod - 1 + 12) % u32_mod ≡ i + 11 = omega (arith, h, many) in
      rw (getattr, ◌>>=◌, at, get_block-inside (i + 11) s (omega (arith, h, many))) refl
