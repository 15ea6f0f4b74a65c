-- ===== src/Examples/Files.antt =====
-- inode_manager.cc: a disk with one file of two blocks, which a text of three blocks is written over.
use cse.Base.{
  ℕ, zero, suc, ◌+◌, ◌*◌, ◌^◌, ◌<◌, ◌≡◌, refl, inl, inr, true, Bool, ◌&&◌, arith, ltb, ◌==◌,
  if◌then◌else◌, some, [], ◌∷◌, ◌++◌, replicate, All, Bool-cases, Returns,
}
use cse.Base.Bytes.{Bytes}
use cse.Disk.{Disk, IsByte, IsBlock, IsDisk}
use cse.BlockManager.Bitmap.{allocated}
use cse.BlockManager.Spare.{spare}
use cse.InodeManager.{Manager, get_inode}
use cse.InodeManager.Layout.{Inode, block_count, encode, IsInode}
use cse.InodeManager.Files.{block_at, write_file, read_file}
use cse.InodeManager.Direct.{Holds}
use cse.InodeManager.Progress.{blocks_of}
use cse.InodeManager.RoundTrip.{IsOther, read_file-write_file}
use cse.Examples.Inodes.{clock_env}

abbrev pub ino : Inode
ino = record {
  type = 2;
  padding = 0;
  size = 600;
  atime = 7;
  mtime = 8;
  ctime = 9;
  blocks = 4112 ∷ 4120 ∷ replicate 99 0;
}

-- The bitmap block has the bits of blocks 4112 and 4120.
abbrev pub disk : Disk
disk id =
    if id == 3
    then 0 ∷ 0 ∷ 128 ∷ 128 ∷ replicate 508 0
    else if id == 13
    then encode ino ++ replicate 88 0
    else replicate 512 0

abbrev pub manager : Manager
manager = record { disk = disk; count = 0 }

abbrev pub text : Bytes
text = replicate 1100 65

pub all_bytes : Bytes → Bool
all_bytes [] = true
all_bytes (c ∷ s) = ltb c 256 && all_bytes s

pub all_bytes_sound : (s : Bytes) → all_bytes s ≡ true → All IsByte s
unfolding all_bytes
all_bytes_sound [] h = tt
all_bytes_sound (c ∷ s) h = (ground arith, all_bytes_sound s (ground arith))

bitmap-IsBlock : IsBlock (disk 3)
unfolding all_bytes
bitmap-IsBlock = (refl, all_bytes_sound (disk 3) refl)

inode-IsBlock : IsBlock (disk 13)
unfolding all_bytes encode
inode-IsBlock = (refl, all_bytes_sound (disk 13) refl)

blank-IsBlock : IsBlock (disk 0)
unfolding all_bytes
blank-IsBlock = (refl, all_bytes_sound (disk 0) refl)

pub disk-IsDisk : IsDisk disk
disk-IsDisk id = elim (Bool-cases (id == 3)) [
  | inl e ↦ rw e bitmap-IsBlock
  | inr e ↦ elim (Bool-cases (id == 13)) [
    | inl e' ↦ rw (e, e') inode-IsBlock
    | inr e' ↦ rw (e, e') blank-IsBlock
  ]
]

pub text-IsByte : All IsByte text
unfolding all_bytes
text-IsByte = all_bytes_sound text refl

ino-IsInode : IsInode ino
ino-IsInode = record {
  type_fits = omega arith;
  padding_fits = omega arith;
  size_fits = omega arith;
  atime_fits = omega arith;
  mtime_fits = omega arith;
  ctime_fits = omega arith;
  blocks_fit = (omega arith, (omega arith, zeros 99));
  blocks_count = refl;
}
  where
    zeros : (n : ℕ) → All (λ b. b < 2 ^ 32) (replicate n 0)
    zeros zero = tt
    zeros (suc n) = (omega arith, zeros n)

has_inode : get_inode 2 manager ≡ some (some ino, manager)
unfolding get_inode encode cse.InodeManager.Layout.decode
has_inode = refl

block_lem : (i : ℕ) → i < 2 → block_at ino i ≡ 4112 + 8 * i
block_lem zero h = refl
block_lem (suc zero) h = refl
block_lem (suc (suc i)) h = absurd (omega (arith, h))

pub ino-Holds : Holds disk ino (blocks_of ino.size)
unfolding allocated cse.BlockManager.Bits.bit
ino-Holds = record {
  in_range = λ i h. rw (block_lem i h) (omega (arith, h), omega (arith, h));
  taken = taken;
  apart = λ i j h h' e. omega (arith, block_lem i h, block_lem j h', e);
}
  where
    taken : (i : ℕ) → i < 2 → allocated disk (block_at ino i) ≡ true
    taken zero h = refl
    taken (suc zero) h = refl
    taken (suc (suc i)) h = absurd (omega (arith, h))

one_spare : spare 517 disk ≡ 1
unfolding spare allocated cse.BlockManager.Bits.bit
one_spare = refl

read_file-write_file_example :
    Returns
      (λ w.
        ((ino' : Inode) × (get_inode 2 w.1 ≡ some (some ino', w.1)) × (ino'.size ≡ 1100))
        × Returns (λ r. r.0 ≡ text) (read_file clock_env 2 w.1)
        × ((b : ℕ) → IsOther disk ino 2 b → w.1.disk b ≡ disk b))
      (write_file clock_env 2 text 1100 manager)
read_file-write_file_example =
    read_file-write_file clock_env 517 2 text ino manager (omega arith) (omega arith) has_inode
      ino-IsInode disk-IsDisk (omega arith) ino-Holds (omega arith) text-IsByte
      (rw one_spare (omega arith))
