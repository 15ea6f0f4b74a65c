-- ===== src/BlockManager/Spare.antt =====
-- `alloc_block` finds a data block as long as a bitmap byte has its first block free.
use cse.Disk.{Disk, block_num, bblock, bblock_index, data_start, IsBlock, IsDisk}
use cse.Base.Bytes.{Bytes}
use cse.BlockManager.{BlockType, data_block, not_check, byte_of, shift, alloc_block}
use cse.BlockManager.Bits.{bit}
use cse.BlockManager.Bitmap.{marked, allocated, get_or-IsByte}
use cse.BlockManager.Alloc.{Fresh, FirstFit, alloc_block-FirstFit, FirstFit-Fresh, first_of, end_of}
use cse.Base.{
  ℕ, zero, suc, ◌+◌, ◌-◌, ◌*◌, ◌/◌, ◌%◌, ◌^◌, ◌<◌, ◌≤◌, ◌≡◌, refl, sym, ◌∙◌, ap, inl, inr, true,
  false, Bool, not, ◌&&◌, ◌||◌, arith, ltb, leb, ◌==◌, if◌then◌else◌, Bool-cases, ==_iff, Returns,
  Returns-map, ==_iff,
}

-- The free data blocks that are first in a byte of the bitmap, among the first `k` bytes.
abbrev pub is_spare : Disk → ℕ → Bool
is_spare d k = leb data_start (8 * k) && ltb (8 * k) block_num && not (allocated d (8 * k))

unfoldable pub spare : ℕ → Disk → ℕ
spare zero d = 0
spare (suc k) d = spare k d + (if is_spare d k then 1 else 0)

spare_found : (k : ℕ) (d : Disk) → 0 < spare k d → (j : ℕ) × (is_spare d j ≡ true)
unfolding spare
spare_found zero d h = absurd (omega (arith, h))
spare_found (suc k) d h = elim (Bool-cases (is_spare d k)) [
  | inl e ↦ (k, e)
  | inr e ↦ spare_found k d (ground arith)
]

-- A block that is first in one of the first `k` bytes counts, of the data blocks.
abbrev pub lead : ℕ → ℕ → ℕ
lead k b = if (b % 8 == 0) && ltb b (8 * k) then 1 else 0

-- A data block that is allocated: a spare block less if it counts.
pub spare-taken :
    (k b : ℕ) (d d' : Disk)
    → data_start ≤ b
    → b < block_num
    → allocated d b ≡ false
    → ((j : ℕ) → j < block_num → allocated d' j ≡ ((j == b) || allocated d j))
    → spare k d ≡ spare k d' + lead k b
unfolding spare
spare-taken zero b d d' lo hi e h = ground arith
spare-taken (suc k) b d d' lo hi e h =
    let ih = spare-taken k b d d' lo hi e h in
    elim (Bool-cases (8 * k == b)) [
      | inl hit ↦ let q : 8 * k ≡ b = (==_iff (8 * k) b).0 hit in ground (arith, ih, q, h (8 * k))
      | inr miss ↦ ground (arith, ih, h (8 * k))
    ]

-- A disk with the same bits has the same spare blocks.
pub spare-same :
    (k : ℕ) (d d' : Disk)
    → ((j : ℕ) → j < block_num → allocated d' j ≡ allocated d j)
    → spare k d' ≡ spare k d
unfolding spare
spare-same zero d d' h = refl
spare-same (suc k) d d' h = ground (arith, spare-same k d d' h, h (8 * k))

first_bit : (b : ℕ) → b < 256 → bit b 7 ≡ false → (b / 2 ^ 7 == 0) ≡ true
unfolding bit
first_bit b h e = ground arith

first_in_byte :
    (buf : Bytes) (j : ℕ) → IsBlock buf → marked buf (8 * j) ≡ false → not_check buf (8 * j) ≡ true
unfolding marked not_check
first_in_byte buf j v e =
    let s : shift (8 * j) ≡ 7 = omega arith in
    rw s (
      first_bit (byte_of buf (8 * j)) (get_or-IsByte buf (bblock_index (8 * j) / 8) v.1)
        (ap (λ m. bit (byte_of buf (8 * j)) m) (sym s) ∙ e))

-- First fit goes no further than a free block that is first in its byte.
FirstFit-Fresh_before :
    (t : BlockType) (d : Disk) (j : ℕ) (r : ℕ × Disk)
    → IsDisk d
    → first_of t ≤ 8 * j
    → 8 * j < end_of t
    → 0 < first_of t
    → allocated d (8 * j) ≡ false
    → FirstFit (first_of t) (end_of t - first_of t) d r
    → Fresh t d r × (r.0 ≤ 8 * j)
unfolding allocated
FirstFit-Fresh_before t d j r v lo hi pos e fit =
    let passes = first_in_byte (d (bblock (8 * j))) j (v (bblock (8 * j))) e in go passes fit
  where
    go :
        not_check (d (bblock (8 * j))) (8 * j) ≡ true
        → FirstFit (first_of t) (end_of t - first_of t) d r
        → Fresh t d r × (r.0 ≤ 8 * j)
    go p (inl (z, q, all)) = absurd (cc (p, all (8 * j) lo (omega (arith, lo, hi))))
    go p (inr (a, b, test, earlier, q)) = (
      elim (FirstFit-Fresh t d r v (omega (arith, lo, hi)) (inr (a, b, test, earlier, q))) [
        | inr fresh ↦ fresh
        | inl out ↦ absurd (omega (arith, out.0, a, pos))
      ],
      elim (Bool-cases (leb r.0 (8 * j))) [
        | inl y ↦ ground arith
        | inr y ↦ absurd (cc (p, earlier (8 * j) lo (ground arith)))
      ],
    )

-- With a free block that is first in its byte `alloc_block` does not fail.
pub alloc_before-Returns :
    (junk : Bytes) (t : BlockType) (d : Disk) (j : ℕ)
    → IsDisk d
    → first_of t ≤ 8 * j
    → 8 * j < end_of t
    → 0 < first_of t
    → allocated d (8 * j) ≡ false
    → Returns (λ r. Fresh t d r × (r.0 ≤ 8 * j)) (alloc_block junk t d)
alloc_before-Returns junk t d j v lo hi pos e =
    Returns-map _ _ (alloc_block junk t d) (λ r f. FirstFit-Fresh_before t d j r v lo hi pos e f)
      (alloc_block-FirstFit junk t d v)

-- With a spare block `alloc_block` finds a data block.
pub alloc_data-Returns :
    (junk : Bytes) (d : Disk) (k : ℕ)
    → IsDisk d
    → 0 < spare k d
    → Returns (Fresh data_block d) (alloc_block junk data_block d)
alloc_data-Returns junk d k v pos =
    let (j, e) = spare_found k d pos in
    Returns-map _ _ (alloc_block junk data_block d) (λ r f. f.0)
      (alloc_before-Returns junk data_block d j v (ground arith) (ground arith) (omega arith)
        (ground arith))
