-- ===== src/InodeManager/Progress.antt =====
-- inode_manager.cc: what holds between two rounds of the loop of `write_file`.
use cse.Base.{
  ℕ, zero, suc, ◌+◌, ◌-◌, ◌*◌, ◌/◌, ◌^◌, ◌<◌, ◌≤◌, ◌≡◌, ◌≢◌, refl, sym, ◌∙◌, inl, inr, true, arith,
  ◌==◌, if◌then◌else◌, none, some, List, [], ◌∷◌, set, length, length-set, get_or-set_self,
  get_or-set_ne, All, Bool-cases, ==_iff, Returns, ap,
}
use cse.Base.Bytes.{Bytes}
use cse.Base.Sums.{total, total-same}
use cse.Disk.{Disk, block_size, block_num, bblock, ndirect, data_start, inode_start, IsByte, IsDisk}
use cse.BlockManager.{data_block, alloc_block}
use cse.BlockManager.Bitmap.{allocated}
use cse.BlockManager.Alloc.{Fresh}
use cse.BlockManager.Spare.{spare, lead, spare-taken, spare-same, alloc_data-Returns}
use cse.InodeManager.{Env, Manager, alloc, uninitialised}
use cse.InodeManager.Layout.{Inode, IsInode}
use cse.InodeManager.Inodes.{elsewhere}
use cse.InodeManager.Files.{block_at, with_block}
use cse.InodeManager.Direct.{Holds, part, Content, part-IsBlock, with_data-allocated}

-- The blocks that a file of a size has.
abbrev pub blocks_of : ℕ → ℕ
blocks_of size = (size + (block_size - 1)) / block_size

-- The file's blocks that stand first in their byte of the bitmap, among the first `g` bytes.
abbrev pub leads : ℕ → Inode → ℕ → ℕ
leads g ino n = total n (λ i. lead g (block_at ino i))

-- A block of another file, or of another inode, that holds `c`.
abbrev pub IsKept : Disk → Inode → ℕ → ℕ → Bytes → Type 0
IsKept d ino n b c =
    (inode_start ≤ b)
    × (b < block_num)
    × (data_start ≤ b → allocated d b ≡ true)
    × ((i : ℕ) → i < n → block_at ino i ≢ b)
    × (d b ≡ c)

-- The loop on its way: `n` blocks are there, the first `k` are written, and the spare blocks among the
-- first `g` bytes of the bitmap are enough for the rest. Those and the file's make up the whole that
-- the file can have. `K` tells what blocks of others hold.
pub record Progress (g whole : ℕ) (buf : Bytes) (K : ℕ → Bytes → Type 0) (d : Disk) (ino : Inode)
    (n k : ℕ) : Type 0 where
  pub disk : IsDisk d
  pub inode : IsInode ino
  pub holds : Holds d ino n
  pub content : Content d ino k buf
  pub first : block_at ino 0 < block_num
  pub others : (b : ℕ) (c : Bytes) → K b c → IsKept d ino n b c
  pub room : length buf ≤ (n + spare g d) * block_size
  pub account : leads g ino n + spare g d ≡ whole

pub All-set :
    (xs : List ℕ) (i v m : ℕ) → All (λ b. b < m) xs → v < m → All (λ b. b < m) (set xs i v)
All-set [] i v m h k = tt
All-set (x ∷ xs) zero v m h k = (k, h.1)
All-set (x ∷ xs) (suc i) v m h k = (h.0, All-set xs i v m h.1 k)

with_block-IsInode :
    (ino : Inode) (k b : ℕ) → IsInode ino → b < 2 ^ 32 → IsInode (with_block ino k b)
with_block-IsInode ino k b v h = record {
  type_fits = v.type_fits;
  padding_fits = v.padding_fits;
  size_fits = v.size_fits;
  atime_fits = v.atime_fits;
  mtime_fits = v.mtime_fits;
  ctime_fits = v.ctime_fits;
  blocks_fit = All-set ino.blocks k b (2 ^ 32) v.blocks_fit h;
  blocks_count = length-set ino.blocks k b ∙ v.blocks_count;
}

block_at-with_block :
    (ino : Inode) (k b i : ℕ)
    → IsInode ino
    → k ≤ ndirect
    → block_at (with_block ino k b) i ≡ (if i == k then b else block_at ino i)
block_at-with_block ino k b i v h = elim (Bool-cases (i == k)) [
  | inl e ↦
      rw (e, (==_iff i k).0 e) (get_or-set_self ino.blocks k b 0 (omega (arith, v.blocks_count, h)))
  | inr e ↦ rw e (get_or-set_ne ino.blocks k i b 0 (ground arith))
]

leads-with_block :
    (g : ℕ) (ino : Inode) (k b : ℕ)
    → IsInode ino
    → k < ndirect
    → leads g (with_block ino k b) (k + 1) ≡ leads g ino k + lead g b
unfolding total
leads-with_block g ino k b v h =
    let n : k + 1 ≡ suc k = omega arith in
    let at : (i : ℕ) → block_at (with_block ino k b) i ≡ (if i == k then b else block_at ino i) =
      λ i. block_at-with_block ino k b i v (omega (arith, h)) in
    let same : leads g (with_block ino k b) k ≡ leads g ino k =
      total-same k _ _ (λ i l. ap (lead g) (ground (arith, at i))) in
    let last : block_at (with_block ino k b) k ≡ b = ground (arith, at k) in rw (n, same, last) refl

pub alloc-Returns :
    (env : Env) (g : ℕ) (s : Manager)
    → IsDisk s.disk
    → 0 < spare g s.disk
    → Returns (λ r. Fresh data_block s.disk (r.0, r.1.disk)) (alloc env data_block s)
unfolding alloc uninitialised
alloc-Returns env g s v pos =
    let junk = env.junk s.count in
    elim (alloc_block junk data_block s.disk)
        as (λ o.
          Returns (Fresh data_block s.disk) o
          → Returns {A = ℕ × Manager} (λ r. Fresh data_block s.disk (r.0, r.1.disk))
              (elim o [
                | none ↦ none
                | some (i, d) ↦ some (i, record (record s { count = s.count + 1 }) { disk = d })
              ])) [ none ↦ λ h. h | some (i, d) ↦ λ h. h ]
      (alloc_data-Returns junk s.disk g v pos)

-- A fresh block behind the `k` blocks that are there.
pub grown-Progress :
    (g whole : ℕ) (buf : Bytes) (K : ℕ → Bytes → Type 0) (d d' : Disk) (ino : Inode) (k b : ℕ)
    → k < ndirect
    → Progress g whole buf K d ino k k
    → Fresh data_block d (b, d')
    → Progress g whole buf K d' (with_block ino k b) (k + 1) k
grown-Progress g whole buf K d d' ino k b h v (lo, hi, free, bits, disk, same) =
    let at : (i : ℕ) → block_at (with_block ino k b) i ≡ (if i == k then b else block_at ino i) =
      λ i. block_at-with_block ino k b i v.inode (omega (arith, h)) in
    let exact : spare g d ≡ spare g d' + lead g b =
      spare-taken g b d d' lo hi free (λ j l. bits j) in
    record {
      disk = disk;
      inode = with_block-IsInode ino k b v.inode (omega (arith, hi));
      holds = record {
        in_range = λ i le. ground (arith, at i, v.holds.in_range i);
        taken =
            λ i le. ground (arith, at i, v.holds.taken i, bits (block_at (with_block ino k b) i));
        apart = λ i j le le' e.
            ground (arith, at i, at j, v.holds.apart i j, v.holds.taken i, v.holds.taken j);
      };
      content = λ i le.
          ground (arith, at i, v.content i le, v.holds.in_range i le, same (block_at ino i));
      first = ground (arith, at 0, v.first);
      others = λ b' c q.
          let (lo', hi', taken, apart, e) = v.others b' c q in
          let far : b' ≢ bblock b = λ z. omega (arith, lo', z, hi) in
          (
            lo',
            hi',
            (λ z. ground (arith, bits b', taken z)),
            (λ i le z. ground (arith, at i, apart i, taken, lo, bits b')),
            same b' far ∙ e,
          );
      room = ground (arith, v.room, exact);
      account = omega (arith, v.account, exact, leads-with_block g ino k b v.inode h);
    }

-- The block `k`, which is there, is written.
pub written-Progress :
    (g whole : ℕ) (buf : Bytes) (K : ℕ → Bytes → Type 0) (d : Disk) (ino : Inode) (n k : ℕ)
    → All IsByte buf
    → k < n
    → Progress g whole buf K d ino n k
    → Progress g whole buf K (λ j. if j == block_at ino k then part buf k else d j) ino n (k + 1)
written-Progress g whole buf K d ino n k bytes h v =
    let d' : Disk = λ j. if j == block_at ino k then part buf k else d j in
    let low : data_start ≤ block_at ino k = (v.holds.in_range k h).0 in
    let bits : (j : ℕ) → j < block_num → allocated d' j ≡ allocated d j =
      λ j l. with_data-allocated d (block_at ino k) j (part buf k) low l in
    record {
      disk = λ j. elim (Bool-cases (j == block_at ino k)) [
        | inl e ↦ rw e (part-IsBlock buf k bytes)
        | inr e ↦ rw e (v.disk j)
      ];
      inode = v.inode;
      holds = record {
        in_range = v.holds.in_range;
        taken = λ i le. bits (block_at ino i) (v.holds.in_range i le).1 ∙ v.holds.taken i le;
        apart = v.holds.apart;
      };
      content = λ i le. elim (Bool-cases (i == k)) [
        | inl e ↦ rw ((==_iff i k).0 e, (==_iff (block_at ino k) (block_at ino k)).1 refl) refl
        | inr e ↦ ground (arith, v.holds.apart i k, v.content i)
      ];
      first = v.first;
      others = λ b c q.
          let (lo', hi', taken, apart, e) = v.others b c q in
          (
            lo',
            hi',
            (λ z. bits b hi' ∙ taken z),
            apart,
            elsewhere (block_at ino k) b (part buf k) d (λ z. apart k h (sym z)) ∙ e,
          );
      room = rw (spare-same g d d' bits) v.room;
      account = rw (spare-same g d d' bits) v.account;
    }
