-- ===== src/InodeManager/Closing.antt =====
-- inode_manager.cc: the end of `write_file`, behind its first loop, on files of direct blocks.
use cse.Base.{
  ℕ, ◌+◌, ◌-◌, ◌*◌, ◌%◌, ◌^◌, ◌<◌, ◌≤◌, ◌≡◌, ◌≢◌, refl, sym, ◌∙◌, true, arith, length, All, Returns,
  Returns-map, bind-Returns,
}
use cse.Base.Bytes.{Bytes}
use cse.Disk.{Disk, block_size, block_num, inode_num, iblock, ndirect, data_start, IsByte, IsDisk}
use cse.BlockManager.Bitmap.{allocated}
use cse.BlockManager.Spare.{spare, spare-same}
use cse.InodeManager.{Env, Manager, ◌>>=◌, put_inode, now, u32_mod}
use cse.InodeManager.Layout.{Inode, IsInode}
use cse.InodeManager.Fields.{put_inode-IsDisk}
use cse.InodeManager.Stored.{inode_of, IsStored, put-allocated}
use cse.InodeManager.Files.{block_at, shrink_loop, close_file}
use cse.InodeManager.Direct.{Holds}
use cse.InodeManager.Shrinking.{Shrunk, shrink_loop-Returns}
use cse.InodeManager.Progress.{blocks_of, leads, Progress}

-- What `write_file` leaves: the file holds the text, and has gained the blocks that are spare no more.
-- `K` tells what blocks of others hold.
pub record Written (g whole inum : ℕ) (buf : Bytes) (K : ℕ → Bytes → Type 0) (s : Manager)
    : Type 0 where
  pub disk : IsDisk s.disk
  pub stored : IsStored s.disk (inode_of s.disk inum) buf
  pub account : leads g (inode_of s.disk inum) (blocks_of (length buf)) + spare g s.disk ≡ whole
  pub others :
      (b : ℕ) (c : Bytes)
      → K b c
      → b ≢ iblock inum block_num
      → (s.disk b ≡ c)
        × (data_start ≤ b → allocated s.disk b ≡ true)
        × ((i : ℕ) → i < blocks_of (length buf) → block_at (inode_of s.disk inum) i ≢ b)

timed-IsInode :
    (env : Env) (ino : Inode) (n a b : ℕ)
    → IsInode ino
    → n < 2 ^ 32
    → IsInode (record ino { size = n; ctime = env.time a % u32_mod; mtime = env.time b % u32_mod })
timed-IsInode env ino n a b v h = record {
  type_fits = v.type_fits;
  padding_fits = v.padding_fits;
  size_fits = h;
  atime_fits = v.atime_fits;
  mtime_fits = omega arith;
  ctime_fits = omega arith;
  blocks_fit = v.blocks_fit;
  blocks_count = v.blocks_count;
}

module _ (env : Env) (g whole inum : ℕ) (buf : Bytes) (K : ℕ → Bytes → Type 0)
    (small : inum < inode_num) (fits : length buf ≤ ndirect * block_size)
    (bytes : All IsByte buf) where
  -- The inode is written with the new size, to a disk that has the blocks.
  last-Written :
      (k n ctime mtime : ℕ) (ino : Inode) (s t : Disk) (r : Manager)
      → k ≡ blocks_of (length buf)
      → k ≤ n
      → Progress g whole buf K s ino n k
      → Shrunk g ino k n s t
      → IsDisk r.disk
      → ((b : ℕ) → b ≢ iblock inum block_num → r.disk b ≡ t b)
      → inode_of r.disk inum ≡ record ino { size = length buf; ctime = ctime; mtime = mtime }
      → Written g whole inum buf K r
  last-Written k n ctime mtime ino s t r ek le v w disk same at = record {
    disk = disk;
    stored = rw at (record {
      size = refl;
      bytes = bytes;
      fits = fits;
      holds = rw (sym ek) kept;
      content = rw (sym ek) (λ i lt.
          let (low, high) = v.holds.in_range i (omega (arith, le, lt)) in
          same (block_at ino i) (λ e. omega (arith, low, e, small))
          ∙ w.same.1 (block_at ino i) (omega (arith, low))
          ∙ v.content i lt);
      first = v.first;
    });
    account =
        rw (at, sym ek)
          (omega (
            arith,
            v.account,
            w.account,
            spare-same g t r.disk (λ j l. put-allocated inum j t r.disk same l),
          ));
    others = λ b c q ne.
        let (lo, hi, taken, apart, e) = v.others b c q in
        (
          same b ne ∙ w.same.1 b lo ∙ e,
          (λ z.
              put-allocated inum b t r.disk same hi ∙ w.bits b hi (λ i l lt. apart i lt) ∙ taken z),
          rw (at, sym ek) (λ i lt. apart i (omega (arith, le, lt))),
        );
  }
    where
      kept : Holds r.disk (record ino { size = length buf; ctime = ctime; mtime = mtime }) k
      kept = record {
        in_range = λ i lt. v.holds.in_range i (omega (arith, le, lt));
        taken = λ i lt.
            let lt' : i < n = omega (arith, le, lt) in
            let high : block_at ino i < block_num = (v.holds.in_range i lt').1 in
            put-allocated inum (block_at ino i) t r.disk same high
            ∙ w.bits (block_at ino i) high
                (λ j l l' e. omega (arith, l, lt, v.holds.apart j i l' lt' e))
            ∙ v.holds.taken i lt';
        apart = λ i j lt lt'. v.holds.apart i j (omega (arith, le, lt)) (omega (arith, le, lt'));
      }

  pub close_file-Returns :
      (k file_size : ℕ) (ino : Inode) (s : Manager)
      → file_size ≤ ndirect * block_size
      → k ≡ blocks_of (length buf)
      → Progress g whole buf K s.disk ino (k + (blocks_of file_size - k)) k
      → Returns
          (λ r. Written g whole inum buf K r.1)
          (close_file env inum (length buf) k k inum ino file_size s)
  unfolding close_file now
  close_file-Returns k file_size ino s old ek v =
      let n : ℕ = k + (blocks_of file_size - k) in
      bind-Returns _ (λ r. Written g whole inum buf K r.1)
        (shrink_loop (ndirect + 1) k k ino file_size s) _
        (shrink_loop-Returns g (ndirect + 1) k n file_size ino s v.disk old refl
          (omega (arith, old)) v.holds.in_range (λ i le lt. v.holds.taken i lt) v.holds.apart)
        (λ a t w.
          bind-Returns _ (λ r. Written g whole inum buf K r.1) (put_inode inum ino t) _
            (put_inode-IsDisk inum ino t small v.inode w.same.0)
            (λ b u x.
              let last : Inode = record ino {
                size = length buf;
                ctime = env.time u.count % u32_mod;
                mtime = env.time (u.count + 1) % u32_mod;
              } in
              let ok : IsInode last =
                timed-IsInode env ino (length buf) u.count (u.count + 1) v.inode
                  (omega (arith, fits)) in
              rw (◌>>=◌, x.1)
                (Returns-map _ _ (put_inode inum last (record u { count = u.count + 1 + 1 }))
                  (λ r y.
                    last-Written k n last.ctime last.mtime ino s.disk t.disk r.1 ek (omega arith) v
                      w y.0 (λ c ne. y.2 c ne ∙ x.2 c ne) y.3)
                  (put_inode-IsDisk inum last (record u { count = u.count + 1 + 1 }) small ok
                    x.0))))
