-- ===== src/InodeManager/Creation.antt =====
-- inode_manager.cc: `alloc_inode`, which makes a new file.
use cse.Base.{
  ℕ, ◌+◌, ◌-◌, ◌*◌, ◌%◌, ◌^◌, ◌<◌, ◌≤◌, ◌≡◌, ◌≢◌, refl, sym, ◌∙◌, ap, inl, inr, false, arith, ◌==◌,
  if◌then◌else◌, none, some, set, drop, length-set, get_or-set_self, All, Bool-cases, ==_iff,
  Returns, bind-Returns,
}
use cse.Base.Bytes.{Bytes}
use cse.Disk.{
  Disk, block_num, inode_num, iblock, bblock, inode_start, data_start, IsByte, IsBlock, IsDisk,
}
use cse.BlockManager.{BlockType, inode, data_block, alloc_block}
use cse.BlockManager.Bitmap.{allocated}
use cse.BlockManager.Alloc.{Fresh, first_of, end_of}
use cse.BlockManager.Spare.{alloc_before-Returns}
use cse.InodeManager.{
  Env, Manager, u32_mod, alloc, alloc_inode, now, uninitialised, get_inode, ◌>>=◌, ◌>>◌,
}
use cse.InodeManager.Layout.{Inode, inode_size, decode, IsInode, decode-encode}
use cse.InodeManager.Inodes.{image, length-image, put_block-inside, get_inode-inside, elsewhere}
use cse.InodeManager.Fields.{decode-IsInode, image-IsBlock}
use cse.InodeManager.Files.{block_at}
use cse.InodeManager.Progress.{All-set}

-- The inode that `alloc_inode` makes of the bytes that `malloc` gave.
abbrev fresh_inode : Bytes → ℕ → ℕ → ℕ → Inode
fresh_inode memory type time b = record (decode memory) {
  type = type % 2 ^ 16;
  size = 0;
  atime = time;
  mtime = time;
  ctime = time;
  blocks = set (decode memory).blocks 0 b;
}

fresh_inode-IsInode :
    (memory : Bytes) (type time b : ℕ)
    → All IsByte memory
    → time < 2 ^ 32
    → b < 2 ^ 32
    → IsInode (fresh_inode memory type time b)
fresh_inode-IsInode memory type time b h k l =
    let v = decode-IsInode memory h in
    record {
      type_fits = omega arith;
      padding_fits = v.padding_fits;
      size_fits = omega arith;
      atime_fits = k;
      mtime_fits = k;
      ctime_fits = k;
      blocks_fit = All-set (decode memory).blocks 0 b (2 ^ 32) v.blocks_fit l;
      blocks_count = length-set (decode memory).blocks 0 b ∙ v.blocks_count;
    }

alloc_type-Returns :
    (env : Env) (t : BlockType) (j : ℕ) (s : Manager)
    → IsDisk s.disk
    → first_of t ≤ 8 * j
    → 8 * j < end_of t
    → 0 < first_of t
    → allocated s.disk (8 * j) ≡ false
    → Returns {A = ℕ × Manager}
        (λ r. Fresh t s.disk (r.0, r.1.disk) × (r.0 ≤ 8 * j))
        (alloc env t s)
unfolding alloc uninitialised
alloc_type-Returns env t j s v lo hi pos e =
    let junk = env.junk s.count in
    elim (alloc_block junk t s.disk)
        as (λ o.
          Returns (λ r. Fresh t s.disk r × (r.0 ≤ 8 * j)) o
          → Returns {A = ℕ × Manager} (λ r. Fresh t s.disk (r.0, r.1.disk) × (r.0 ≤ 8 * j))
              (elim o [
                | none ↦ none
                | some (i, d) ↦ some (i, record (record s { count = s.count + 1 }) { disk = d })
              ])) [ none ↦ λ h. h | some (i, d) ↦ λ h. h ]
      (alloc_before-Returns junk t s.disk j v lo hi pos e)

written-IsDisk :
    (i : ℕ) (buf : Bytes) (d : Disk)
    → IsDisk d
    → IsBlock buf
    → IsDisk (λ x. if x == i then buf else d x)
written-IsDisk i buf d v h x = elim (Bool-cases (x == i)) [ inl e ↦ rw e h | inr e ↦ rw e (v x) ]

-- A new file: its number, which `get_inode` takes, and its empty inode.
abbrev pub IsNewFile : ℕ → Manager → ℕ × Manager → Type 0
IsNewFile type s (inum, s') =
    (0 < inum)
    × (inum < inode_num)
    × (allocated s.disk (iblock inum block_num) ≡ false)
    × ((ino : Inode) × (get_inode inum s' ≡ some (some ino, s'))
        × IsInode ino
        × (ino.type ≡ type % 2 ^ 16)
        × (ino.size ≡ 0)
        × (data_start ≤ block_at ino 0)
        × (block_at ino 0 < block_num)
        × (allocated s.disk (block_at ino 0) ≡ false))
    × IsDisk s'.disk
    × ((b : ℕ)
        → ((j : ℕ) → j < block_num → b ≢ bblock j)
        → b ≢ iblock inum block_num
        → s'.disk b ≡ s.disk b)

-- A block of the inode table that has just been written is read as the inode.
stored :
    (n i : ℕ) (ino : Inode) (buf : Bytes) (s : Manager)
    → n < inode_num
    → iblock n block_num ≡ i
    → IsInode ino
    → s.disk i ≡ image ino buf
    → get_inode n s ≡ some (some ino, s)
stored n i ino buf s small e v q =
    get_inode-inside n s small
    ∙ ap (λ x. some (some x, s))
        (ap (λ b. decode (s.disk b)) e ∙ ap decode q ∙ decode-encode ino (drop inode_size buf) v)

created-IsNewFile :
    (env : Env) (type i b j : ℕ) (s t u : Manager)
    → ((n : ℕ) → IsBlock (env.junk n))
    → Fresh inode s.disk (i, t.disk)
    → i ≤ 8 * j
    → 8 * j < data_start
    → Fresh data_block t.disk (b, u.disk)
    → IsNewFile type s (
      (i + u32_mod - inode_start + 1) % u32_mod,
      record u {
        disk = λ x.
            if x == i
            then image
                (fresh_inode (env.junk (u.count + 1)) type (env.time u.count % u32_mod) b)
                (env.junk (u.count + 1 + 1))
            else u.disk x;
        count = u.count + 1 + 1 + 1;
      },
    )
created-IsNewFile env type i b j s t u junk f le top g =
    let n : ℕ = i - 11 in
    let number : (i + u32_mod - inode_start + 1) % u32_mod ≡ n = omega (arith, f.0, f.1) in
    let e : iblock n block_num ≡ i = omega (arith, f.0) in
    let ino : Inode = fresh_inode (env.junk (u.count + 1)) type (env.time u.count % u32_mod) b in
    let buf : Bytes = env.junk (u.count + 1 + 1) in
    let v : IsInode ino =
      fresh_inode-IsInode (env.junk (u.count + 1)) type (env.time u.count % u32_mod) b
        (junk (u.count + 1)).1 (omega arith) (omega (arith, g.1)) in
    let s' : Manager = record u {
      disk = λ x. if x == i then image ino buf else u.disk x;
      count = u.count + 1 + 1 + 1;
    } in
    let at : block_at ino 0 ≡ b = get_or-set_self (decode (env.junk (u.count + 1))).blocks 0 b 0 (
      omega
        (arith, (decode-IsInode (env.junk (u.count + 1)) (junk (u.count + 1)).1).blocks_count)) in
    rw number (
      omega (arith, f.0),
      omega (arith, le, top),
      rw e f.2,
      (
        ino,
        stored n i ino buf s' (omega (arith, le, top)) e v (rw ((==_iff i i).1 refl) refl),
        v,
        refl,
        refl,
        rw at g.0,
        rw at g.1,
        rw at (ground (arith, f.3 b, g.2)),
      ),
      written-IsDisk i (image ino buf) u.disk g.4
          (image-IsBlock ino buf v (junk (u.count + 1 + 1))),
      λ x lo ne.
          elsewhere i x (image ino buf) u.disk (λ q. ne (q ∙ sym e))
          ∙ g.5 x (lo b g.1)
          ∙ f.5 x (lo i (omega (arith, le, top))),
    )

-- On a disk of whole blocks, with an inode block and a data block that are free and first in their byte of
-- the bitmap, whatever memory holds: `alloc_inode` returns a number from 1 to 4095, of an inode block that
-- was free, and `get_inode` has an inode with the type cut to 16 bits, the size 0 and a first data block
-- that was free. The disk is one of whole blocks again, and except for the blocks of the bitmap no other
-- block has changed.
pub alloc_inode-Returns :
    (env : Env) (type j k : ℕ) (s : Manager)
    → IsDisk s.disk
    → ((n : ℕ) → IsBlock (env.junk n))
    → inode_start ≤ 8 * j
    → 8 * j < data_start
    → allocated s.disk (8 * j) ≡ false
    → data_start ≤ 8 * k
    → 8 * k < block_num
    → allocated s.disk (8 * k) ≡ false
    → Returns (IsNewFile type s) (alloc_inode env type s)
unfolding alloc_inode now uninitialised
alloc_inode-Returns env type j k s v junk lo hi free lo' hi' free' =
    bind-Returns _ (IsNewFile type s) (alloc env inode s) _
      (alloc_type-Returns env inode j s v lo hi (omega arith) free)
      (λ i t f.
        let still : allocated t.disk (8 * k) ≡ false =
          ground (arith, f.0.3 (8 * k), f.1, lo', hi) in
        bind-Returns _ (IsNewFile type s) (alloc env data_block t) _
          (alloc_type-Returns env data_block k t f.0.4 lo' hi' (omega arith) still)
          (λ b u g.
            let ino : Inode =
              fresh_inode (env.junk (u.count + 1)) type (env.time u.count % u32_mod) b in
            let buf : Bytes = env.junk (u.count + 1 + 1) in
            let ok : IsInode ino =
              fresh_inode-IsInode (env.junk (u.count + 1)) type (env.time u.count % u32_mod) b
                (junk (u.count + 1)).1 (omega arith) (omega (arith, g.0.1)) in
            rw
              (
                ◌>>◌,
                ◌>>=◌,
                put_block-inside i (image ino buf) (record u { count = u.count + 1 + 1 + 1 })
                    (omega (arith, f.1, hi)) (length-image ino buf ok (junk (u.count + 1 + 1)).0),
              )
              (created-IsNewFile env type i b j s t u junk f.0 f.1 hi g.0)))
