-- ===== src/BlockManager/Bitmap.antt =====
-- The bitmap as a predicate on blocks: which are allocated, and what the updates of one bit do to it.
use Prim.Native.Nat.{bit_or}
use cse.Base.{
  ℕ, zero, suc, ◌/◌, ◌^◌, ◌<◌, ◌≤◌, ◌≡◌, refl, inl, inr, Bool, true, false, not, ◌&&◌, ◌||◌, arith,
  ◌==◌, if◌then◌else◌, [], ◌∷◌, get_or, set, All, length-set, get_or-set_self, get_or-set_ne,
  Bool-cases, ==_iff,
}
use cse.Base.Bytes.{Bytes}
use cse.Disk.{Disk, bblock, bblock_index, IsByte, IsBlock}
use cse.BlockManager.{complement, shift, byte_of, mark, unmark, not_check}
use cse.BlockManager.Bits.{bit, bit-or, bit-clear, or-lt, bit_shifted_out}

-- The bit of block `i` in its bitmap block.
unfoldable pub marked : Bytes → ℕ → Bool
marked buf i = bit (byte_of buf i) (shift i)

-- The bit of block `i` on the disk.
unfoldable pub allocated : Disk → ℕ → Bool
unfolding marked
allocated d i = marked (d (bblock i)) i

pub get_or-IsByte : (s : Bytes) (i : ℕ) → All IsByte s → get_or s i 0 < 256
get_or-IsByte [] i h = omega arith
get_or-IsByte (c ∷ s) zero h = h.0
get_or-IsByte (c ∷ s) (suc i) h = get_or-IsByte s i h.1

All-set : (s : Bytes) (i v : ℕ) → All IsByte s → v < 256 → All IsByte (set s i v)
All-set [] i v h k = tt
All-set (c ∷ s) zero v h k = (k, h.1)
All-set (c ∷ s) (suc i) v h k = (h.0, All-set s i v h.1 k)

-- Two blocks of one bitmap block with one byte and one bit are one block.
same_place :
    (i j : ℕ)
    → bblock i ≡ bblock j
    → bblock_index i / 8 ≡ bblock_index j / 8
    → shift i ≡ shift j
    → i ≡ j
same_place i j h k s = omega arith

pub mark-IsBlock : (buf : Bytes) (i : ℕ) → IsBlock buf → IsBlock (mark buf i)
unfolding mark
mark-IsBlock buf i h = (
  rw (length-set buf (bblock_index i / 8) (bit_or (byte_of buf i) (2 ^ shift i))) h.0,
  All-set buf (bblock_index i / 8) (bit_or (byte_of buf i) (2 ^ shift i)) h.1
      (or-lt (byte_of buf i) (shift i) (get_or-IsByte buf (bblock_index i / 8) h.1) (omega arith)),
)

complement-lt : (b : ℕ) → complement b < 256
complement-lt b = omega arith

pub unmark-IsBlock : (buf : Bytes) (i : ℕ) → IsBlock buf → IsBlock (unmark buf i)
unfolding unmark
unmark-IsBlock buf i h = (
  rw
      (length-set buf (bblock_index i / 8)
        (complement (bit_or (complement (byte_of buf i)) (2 ^ shift i))))
      h.0,
  All-set buf (bblock_index i / 8) (complement (bit_or (complement (byte_of buf i)) (2 ^ shift i)))
      h.1 (complement-lt (bit_or (complement (byte_of buf i)) (2 ^ shift i))),
)

-- Replacing the byte of block `i` by `v` changes the bits of that byte only.
marked-set :
    (buf : Bytes) (i j v : ℕ)
    → IsBlock buf
    → bblock i ≡ bblock j
    → marked (set buf (bblock_index i / 8) v) j
      ≡ (if bblock_index i / 8 == bblock_index j / 8 then bit v (shift j) else marked buf j)
unfolding marked
marked-set buf i j v h b = elim (Bool-cases (bblock_index i / 8 == bblock_index j / 8)) [
  | inl hit ↦
      let e : bblock_index i / 8 ≡ bblock_index j / 8 =
        (==_iff (bblock_index i / 8) (bblock_index j / 8)).0 hit in
      rw (hit, ← e, get_or-set_self buf (bblock_index i / 8) v 0 (omega arith)) refl
  | inr miss ↦
      rw (miss, get_or-set_ne buf (bblock_index i / 8) (bblock_index j / 8) v 0 (ground arith)) refl
]

-- `mark` sets the bit of its block and leaves every other bit of the bitmap block alone.
pub marked-mark :
    (buf : Bytes) (i j : ℕ)
    → IsBlock buf
    → bblock i ≡ bblock j
    → marked (mark buf i) j ≡ ((j == i) || marked buf j)
unfolding mark
marked-mark buf i j h b = rw (marked-set buf i j (bit_or (byte_of buf i) (2 ^ shift i)) h b) (
    unfold marked in
    ground (
      arith,
      bit-or (byte_of buf i) (shift i) (shift j) (get_or-IsByte buf (bblock_index i / 8) h.1)
          (omega arith) (omega arith),
      same_place i j b,
    ))

-- `unmark` clears the bit of its block and leaves every other bit of the bitmap block alone.
pub marked-unmark :
    (buf : Bytes) (i j : ℕ)
    → IsBlock buf
    → bblock i ≡ bblock j
    → marked (unmark buf i) j ≡ (not (j == i) && marked buf j)
unfolding unmark
marked-unmark buf i j h b =
    rw (marked-set buf i j (complement (bit_or (complement (byte_of buf i)) (2 ^ shift i))) h b) (
      unfold marked in
      ground (
        arith,
        bit-clear (byte_of buf i) (shift i) (shift j) (get_or-IsByte buf (bblock_index i / 8) h.1)
            (omega arith) (omega arith),
        same_place i j b,
      ))

-- Where the test passes, the block and every earlier block of its byte are free.
pub not_check-marked :
    (buf : Bytes) (i j : ℕ)
    → IsBlock buf
    → not_check buf i ≡ true
    → i / 8 ≡ j / 8
    → j ≤ i
    → marked buf j ≡ false
unfolding not_check marked
not_check-marked buf i j h free same le =
    let e : bblock_index j / 8 ≡ bblock_index i / 8 = omega arith in
    rw e (
      bit_shifted_out (byte_of buf i) (shift i) (shift j)
        (get_or-IsByte buf (bblock_index i / 8) h.1) (omega arith) (omega arith) free (omega arith))
