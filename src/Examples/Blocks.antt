-- ===== src/Examples/Blocks.antt =====
-- inode_manager.cc: the bitmap of a blank disk and of a disk whose bytes all begin with an allocated
-- block, and the bytes of an inode.
use cse.Base.{
  some, ℕ, zero, suc, ◌/◌, ◌%◌, ◌*◌, ◌^◌, ◌<◌, ◌≤◌, ◌≡◌, refl, ◌⊎◌, true, [], arith, get_or,
  replicate, length-replicate, All, Returns, ◌≢◌,
}
use cse.Disk.{iblock, block_num, Disk, block_size, bblock_index, IsByte, IsDisk}
use cse.BlockManager.{BlockType, inode, data_block, shift, alloc_block, free_block}
use cse.BlockManager.Bits.{bit}
use cse.BlockManager.Bitmap.{allocated}
use cse.BlockManager.Alloc.{first_of, end_of, Fresh, alloc_block-Returns, alloc_block_gives_up}
use cse.BlockManager.Free.{Freed, free_block-Returns}
use cse.InodeManager.{Manager, get_inode, put_inode}
use cse.InodeManager.Inodes.{put_inode-Returns}
use cse.InodeManager.Layout.{Inode, block_count, IsInode}

All-replicate {ℓ κ} : {A : Type ℓ} (P : A → Type κ) (n : ℕ) (a : A) → P a → All P (replicate n a)
All-replicate P zero a h = tt
All-replicate P (suc n) a h = (h, All-replicate P n a h)

abbrev constant : ℕ → Disk
constant b = λ id. replicate block_size b

constant-IsDisk : (b : ℕ) → b < 256 → IsDisk (constant b)
constant-IsDisk b h id = (length-replicate block_size b, All-replicate IsByte block_size b h)

alloc_block-Returns_example :
    Returns
      (λ r. ((r.0 ≡ 0) × (r.1 ≡ constant 0)) ⊎ Fresh data_block (constant 0) r)
      (alloc_block (replicate 512 205) data_block (constant 0))
alloc_block-Returns_example =
    alloc_block-Returns (replicate 512 205) data_block (constant 0)
      (constant-IsDisk 0 (omega arith))

free_block-Returns_example : Returns (Freed 5000 (constant 255)) (free_block 5000 (constant 255))
free_block-Returns_example =
    free_block-Returns 5000 (constant 255) (constant-IsDisk 255 (omega arith))

get_or-replicate_within : (n b i : ℕ) → i < n → get_or (replicate n b) i 0 ≡ b
get_or-replicate_within zero b i h = absurd (omega arith)
get_or-replicate_within (suc n) b zero h = refl
get_or-replicate_within (suc n) b (suc i) h = get_or-replicate_within n b i (omega arith)

-- 128 is the byte whose first block alone is allocated.
first_allocated : (j : ℕ) → j % 8 ≡ 0 → allocated (constant 128) j ≡ true
unfolding allocated cse.BlockManager.Bitmap.marked
first_allocated j h =
    let top : shift j ≡ 7 = omega arith in
    rw (get_or-replicate_within block_size 128 (bblock_index j / 8) (omega arith), top)
      (unfold bit in refl)

every_eighth :
    (i : ℕ)
    → first_of data_block ≤ i
    → i < end_of data_block
    → (j : ℕ) × (i / 8 ≡ j / 8) × (j ≤ i) × (allocated (constant 128) j ≡ true)
every_eighth i lo hi =
    (i / 8 * 8, omega arith, omega arith, first_allocated (i / 8 * 8) (omega arith))

alloc_block_gives_up_example :
    Returns (λ r. (r.0 ≡ 0) × (r.1 ≡ constant 128)) (alloc_block [] data_block (constant 128))
alloc_block_gives_up_example =
    alloc_block_gives_up [] data_block (constant 128) (constant-IsDisk 128 (omega arith))
      every_eighth

abbrev a_file : Inode
a_file = record {
  type = 2;
  padding = 513;
  size = 70000;
  atime = 1577836800;
  mtime = 1577836801;
  ctime = 1577836802;
  blocks = replicate block_count 5001;
}

a_file-IsInode : IsInode a_file
a_file-IsInode = record {
  type_fits = omega arith;
  padding_fits = omega arith;
  size_fits = omega arith;
  atime_fits = omega arith;
  mtime_fits = omega arith;
  ctime_fits = omega arith;
  blocks_fit = All-replicate (λ b. b < 2 ^ 32) block_count 5001 (omega arith);
  blocks_count = length-replicate {A = ℕ} block_count 5001;
}

abbrev manager : Manager
manager = record { disk = constant 7; count = 0 }

put_inode-Returns_example :
    Returns
      (λ r.
        (get_inode 5 r.1 ≡ some (some a_file, r.1))
        × ((b : ℕ) → b ≢ iblock 5 block_num → r.1.disk b ≡ manager.disk b))
      (put_inode 5 a_file manager)
put_inode-Returns_example =
    put_inode-Returns 5 a_file manager (omega arith) a_file-IsInode
      (constant-IsDisk 7 (omega arith))
