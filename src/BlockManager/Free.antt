-- ===== src/BlockManager/Free.antt =====
-- `free_block`: what it does to the bitmap, and what it leaves alone.
use cse.Base.{
  ℕ, ◌<◌, ◌≡◌, ◌≢◌, refl, sym, inl, inr, not, ◌&&◌, ◌||◌, arith, ltb, leb, ◌==◌, if◌then◌else◌,
  some, Bool-cases, ==_iff, Returns,
}
use cse.Disk.{Disk, block_num, bblock, inode_start, IsDisk, read_block}
use cse.BlockManager.{unmark, free_block}
use cse.BlockManager.Bitmap.{allocated, unmark-IsBlock, marked-unmark}
use cse.BlockManager.Alloc.{with_bitmap, write_block-bitmap, with_bitmap-IsDisk}

allocated-with_unmark :
    (i j : ℕ) (d : Disk)
    → IsDisk d
    → allocated (with_bitmap i (unmark (d (bblock i)) i) d) j ≡ (not (j == i) && allocated d j)
unfolding allocated
allocated-with_unmark i j d v = elim (Bool-cases (bblock j == bblock i)) [
  | inl hit ↦
      let e : bblock j ≡ bblock i = (==_iff (bblock j) (bblock i)).0 hit in
      rw (hit, e) (marked-unmark (d (bblock i)) i j (v (bblock i)) (sym e))
  | inr miss ↦ rw miss (ground arith)
]

-- What `free_block` promises: the bit of the block is cleared and every other bit is as it was; a
-- block before the inode table or behind the disk is left alone.
abbrev pub Freed : ℕ → Disk → Disk → Type 0
Freed i d d' =
    ((j : ℕ)
      → allocated d' j ≡ (
          if ltb i inode_start || leb block_num i
          then allocated d j
          else not (j == i) && allocated d j))
    × IsDisk d'
    × ((b : ℕ) → b ≢ bblock i → d' b ≡ d b)

-- On a disk of whole blocks `free_block` returns. A block before the inode table or behind the disk
-- is left alone; otherwise the block's bit is cleared and every other bit is as it was. Only the
-- bitmap block may change, and the disk is one of whole blocks again.
pub free_block-Returns : (i : ℕ) (d : Disk) → IsDisk d → Returns (Freed i d) (free_block i d)
unfolding free_block
free_block-Returns i d v = elim (Bool-cases (ltb i inode_start || leb block_num i)) [
  | inl out ↦ rw out ((λ j. rw out refl), v, (λ b ne. refl))
  | inr ok ↦
      let h : i < block_num = ground arith in
      rw
        (
          ok,
          read_bitmap h,
          write_block-bitmap i (unmark (d (bblock i)) i) d h
              (unmark-IsBlock (d (bblock i)) i (v (bblock i))),
        )
        (
          (λ j. rw ok (allocated-with_unmark i j d v)),
          with_bitmap-IsDisk i (unmark (d (bblock i)) i) d v
              (unmark-IsBlock (d (bblock i)) i (v (bblock i))),
          (λ b ne. ground arith),
        )
]
  where
    read_bitmap : i < block_num → read_block (bblock i) d ≡ some (d (bblock i))
    read_bitmap h = unfold read_block in ground arith
