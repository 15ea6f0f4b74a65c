-- ===== src/BlockManager/Alloc.antt =====
-- `alloc_block`: first fit, what it does to the bitmap, and what it leaves alone.
use cse.Base.{
  ℕ, zero, suc, ◌+◌, ◌-◌, ◌/◌, ◌<◌, ◌≤◌, ◌≡◌, ◌≢◌, refl, sym, ◌∙◌, ap, ◌⊎◌, inl, inr, true, false,
  ◌||◌, arith, ◌==◌, if◌then◌else◌, some, take_all, Bool-cases, ==_iff, Returns, Returns-map,
}
use cse.Base.Bytes.{Bytes}
use cse.Disk.{
  Disk, block_size, block_num, bblock, inode_start, data_start, IsBlock, IsDisk, read_block,
  write_block,
}
use cse.BlockManager.{
  BlockType, inode, data_block, other, mark, not_check, refresh, alloc_loop, alloc_block,
}
use cse.BlockManager.Bitmap.{marked, allocated, mark-IsBlock, marked-mark, not_check-marked}

-- The disk after the bitmap block of `i` has been replaced.
abbrev pub with_bitmap : ℕ → Bytes → Disk → Disk
with_bitmap i buf d = λ j. if j == bblock i then buf else d j

abbrev pub with_mark : ℕ → Disk → Disk
with_mark i d = with_bitmap i (mark (d (bblock i)) i) d

pub write_block-bitmap :
    (i : ℕ) (buf : Bytes) (d : Disk)
    → i < block_num
    → IsBlock buf
    → write_block (bblock i) buf d ≡ some (with_bitmap i buf d)
unfolding write_block
write_block-bitmap i buf d h k = rw (take_all block_size buf (omega (arith, k.0))) (ground arith)

refresh_lem :
    (local i : ℕ) (buf : Bytes) (d : Disk)
    → (local ≢ 0 → buf ≡ d local)
    → i < block_num
    → refresh local i buf d ≡ some (d (bblock i))
unfolding refresh read_block
refresh_lem local i buf d h k = elim (Bool-cases (local == bblock i)) [
  | inl hit ↦
      let e : local ≡ bblock i = (==_iff local (bblock i)).0 hit in
      rw hit (ap some (h (omega arith) ∙ ap d e))
  | inr miss ↦ rw miss (ground arith)
]

-- First fit over the `n` blocks from `i` on: the first block that passes the test is marked; if
-- none passes, the disk is as it was.
abbrev pub FirstFit : ℕ → ℕ → Disk → ℕ × Disk → Type 0
FirstFit i n d r =
    ((r.0 ≡ 0) × (r.1 ≡ d) × ((j : ℕ) → i ≤ j → j < i + n → not_check (d (bblock j)) j ≡ false))
    ⊎ ((i ≤ r.0)
        × (r.0 < i + n)
        × (not_check (d (bblock r.0)) r.0 ≡ true)
        × ((j : ℕ) → i ≤ j → j < r.0 → not_check (d (bblock j)) j ≡ false)
        × (r.1 ≡ with_mark r.0 d))

FirstFit-later :
    (i n : ℕ) (d : Disk) (r : ℕ × Disk)
    → not_check (d (bblock i)) i ≡ false
    → FirstFit (i + 1) n d r
    → FirstFit i (suc n) d r
FirstFit-later i n d r miss (inl (z, e, all)) = inl (
  z,
  e,
  λ j lo hi. elim (Bool-cases (j == i)) [
    | inl hit ↦ rw ((==_iff j i).0 hit) miss
    | inr other' ↦ all j (ground arith) (omega arith)
  ],
)
FirstFit-later i n d r miss (inr (lo, hi, t, all, e)) = inr (
  omega arith,
  omega arith,
  t,
  (λ j lo' hi'. elim (Bool-cases (j == i)) [
    | inl hit ↦ rw ((==_iff j i).0 hit) miss
    | inr other' ↦ all j (ground arith) (omega arith)
  ]),
  e,
)

alloc_loop-Returns :
    (n i local : ℕ) (buf : Bytes) (d : Disk)
    → IsDisk d
    → (local ≢ 0 → buf ≡ d local)
    → i + n ≤ block_num
    → Returns (FirstFit i n d) (alloc_loop n i local buf d)
unfolding alloc_loop
alloc_loop-Returns zero i local buf d v h fits = inl (refl, refl, λ j lo hi. absurd (omega arith))
alloc_loop-Returns (suc n) i local buf d v h fits = elim (Bool-cases (not_check (d (bblock i)) i)) [
  | inl hit ↦
      rw
        (
          refresh_lem local i buf d h (omega arith),
          alloc_loop,
          hit,
          write_block-bitmap i (mark (d (bblock i)) i) d (omega arith)
              (mark-IsBlock (d (bblock i)) i (v (bblock i))),
        )
        (inr (omega arith, omega arith, hit, (λ j lo hi. absurd (omega arith)), refl))
  | inr miss ↦
      rw (refresh_lem local i buf d h (omega arith), alloc_loop, miss)
        (Returns-map (FirstFit (i + 1) n d) (FirstFit i (suc n) d)
          (alloc_loop n (i + 1) (bblock i) (d (bblock i)) d) (λ r. FirstFit-later i n d r miss)
          (alloc_loop-Returns n (i + 1) (bblock i) (d (bblock i)) d v (λ z. refl) (omega arith)))
]

-- The blocks that `alloc_block` looks through for a type.
abbrev pub first_of : BlockType → ℕ
first_of inode = inode_start
first_of data_block = data_start
first_of (other t) = 0

abbrev pub end_of : BlockType → ℕ
end_of inode = data_start
end_of data_block = block_num
end_of (other t) = 0

-- `alloc_block` is first fit over the blocks of its type.
pub alloc_block-FirstFit :
    (junk : Bytes) (t : BlockType) (d : Disk)
    → IsDisk d
    → Returns (FirstFit (first_of t) (end_of t - first_of t) d) (alloc_block junk t d)
unfolding alloc_block
alloc_block-FirstFit junk inode d v =
    alloc_loop-Returns (data_start - inode_start) inode_start 0 junk d v (λ z. absurd (z refl))
      (omega arith)
alloc_block-FirstFit junk data_block d v =
    alloc_loop-Returns (block_num - data_start) data_start 0 junk d v (λ z. absurd (z refl))
      (omega arith)
alloc_block-FirstFit junk (other t) d v = inl (refl, refl, λ j lo hi. absurd (omega arith))

pub with_bitmap-IsDisk :
    (i : ℕ) (buf : Bytes) (d : Disk) → IsDisk d → IsBlock buf → IsDisk (with_bitmap i buf d)
with_bitmap-IsDisk i buf d v h j = elim (Bool-cases (j == bblock i)) [
  | inl hit ↦ rw hit h
  | inr miss ↦ rw miss (v j)
]

allocated-with_mark :
    (i j : ℕ) (d : Disk) → IsDisk d → allocated (with_mark i d) j ≡ ((j == i) || allocated d j)
unfolding allocated
allocated-with_mark i j d v = elim (Bool-cases (bblock j == bblock i)) [
  | inl hit ↦
      let e : bblock j ≡ bblock i = (==_iff (bblock j) (bblock i)).0 hit in
      rw (hit, e) (marked-mark (d (bblock i)) i j (v (bblock i)) (sym e))
  | inr miss ↦ rw miss (ground arith)
]

-- What `alloc_block` promises where it returns a block: the block is one of its type and was free;
-- its bit is set, every other bit is as it was, and so is every block but the bitmap block.
abbrev pub Fresh : BlockType → Disk → ℕ × Disk → Type 0
Fresh t d r =
    (first_of t ≤ r.0)
    × (r.0 < end_of t)
    × (allocated d r.0 ≡ false)
    × ((j : ℕ) → allocated r.1 j ≡ ((j == r.0) || allocated d j))
    × IsDisk r.1
    × ((b : ℕ) → b ≢ bblock r.0 → r.1 b ≡ d b)

pub FirstFit-Fresh :
    (t : BlockType) (d : Disk) (r : ℕ × Disk)
    → IsDisk d
    → first_of t ≤ end_of t
    → FirstFit (first_of t) (end_of t - first_of t) d r
    → ((r.0 ≡ 0) × (r.1 ≡ d)) ⊎ Fresh t d r
FirstFit-Fresh t d r v le (inl (z, e, all)) = inl (z, e)
FirstFit-Fresh t d r v le (inr (lo, hi, test, all, e)) = inr (
    rw e (
      lo,
      omega arith,
      unfold allocated in
          not_check-marked (d (bblock r.0)) r.0 r.0 (v (bblock r.0)) test refl (omega arith),
      (λ j. allocated-with_mark r.0 j d v),
      with_bitmap-IsDisk r.0 (mark (d (bblock r.0)) r.0) d v
          (mark-IsBlock (d (bblock r.0)) r.0 (v (bblock r.0))),
      (λ b ne. ground arith),
    ))

first-le-end : (t : BlockType) → first_of t ≤ end_of t
first-le-end inode = omega arith
first-le-end data_block = omega arith
first-le-end (other t) = omega arith

-- On a disk of whole blocks `alloc_block` returns: 0 with the disk unchanged, or a block of the
-- range of its type that was not allocated. Then the bit of that block is set and every other bit
-- is as it was, only the bitmap block has changed, and the disk is one of whole blocks again.
pub alloc_block-Returns :
    (junk : Bytes) (t : BlockType) (d : Disk)
    → IsDisk d
    → Returns (λ r. ((r.0 ≡ 0) × (r.1 ≡ d)) ⊎ Fresh t d r) (alloc_block junk t d)
alloc_block-Returns junk t d v =
    Returns-map _ _ (alloc_block junk t d) (λ r f. FirstFit-Fresh t d r v (first-le-end t) f)
      (alloc_block-FirstFit junk t d v)

not_check-false :
    (i j : ℕ) (d : Disk)
    → IsDisk d
    → i / 8 ≡ j / 8
    → j ≤ i
    → allocated d j ≡ true
    → not_check (d (bblock i)) i ≡ false
unfolding allocated
not_check-false i j d v same le taken = elim (Bool-cases (not_check (d (bblock i)) i)) [
  | inr e ↦ e
  | inl e ↦
      let b : bblock j ≡ bblock i = omega arith in
      let t : marked (d (bblock i)) j ≡ true = rw b at taken in
      absurd (cc (not_check-marked (d (bblock i)) i j (v (bblock i)) e same le))
]

-- The bug of the test: on a disk of whole blocks, where each block of the range of the type has an
-- allocated block in its byte of the bitmap that is not behind it, `alloc_block` returns 0 and
-- changes nothing, however many blocks are free.
pub alloc_block_gives_up :
    (junk : Bytes) (t : BlockType) (d : Disk)
    → IsDisk d
    → ((i : ℕ)
        → first_of t ≤ i
        → i < end_of t
        → (j : ℕ) × (i / 8 ≡ j / 8) × (j ≤ i) × (allocated d j ≡ true))
    → Returns (λ r. (r.0 ≡ 0) × (r.1 ≡ d)) (alloc_block junk t d)
alloc_block_gives_up junk t d v full =
    Returns-map _ _ (alloc_block junk t d) (λ r f. go r f) (alloc_block-FirstFit junk t d v)
  where
    go : (r : ℕ × Disk) → FirstFit (first_of t) (end_of t - first_of t) d r → (r.0 ≡ 0) × (r.1 ≡ d)
    go r (inl (z, e, all)) = (z, e)
    go r (inr (lo, hi, test, all, e)) =
        let (j, same, le, taken) = full r.0 lo (omega (arith, first-le-end t)) in
        absurd (cc (not_check-false r.0 j d v same le taken))
