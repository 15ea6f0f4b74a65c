-- ===== src/InodeManager/Direct.antt =====
-- inode_manager.cc: `write_file` and `read_file` on files that fit the 100 direct blocks. Which blocks
-- a file has, and what stands in them.
use cse.Base.{
  ℕ, zero, suc, ◌+◌, ◌-◌, ◌*◌, ◌<◌, ◌≤◌, ◌≡◌, refl, sym, ◌∙◌, ap, inl, inr, true, false, arith, ltb,
  ◌==◌, if◌then◌else◌, [], ◌∷◌, ◌++◌, take, drop, replicate, length, length-append,
  length-replicate, All, All-append, take_all, Bool-cases,
}
use cse.Base.Bytes.{Bytes}
use cse.Base.Index.{length-drop, length-take}
use cse.Disk.{Disk, block_size, block_num, data_start, IsByte, IsBlock}
use cse.BlockManager.Bitmap.{allocated}
use cse.InodeManager.Layout.{Inode}
use cse.InodeManager.Files.{block_at, block_to_write}

-- The first `n` blocks of the inode are different allocated data blocks.
pub record Holds (d : Disk) (ino : Inode) (n : ℕ) : Type 0 where
  pub in_range : (i : ℕ) → i < n → (data_start ≤ block_at ino i) × (block_at ino i < block_num)
  pub taken : (i : ℕ) → i < n → allocated d (block_at ino i) ≡ true
  pub apart : (i j : ℕ) → i < n → j < n → block_at ino i ≡ block_at ino j → i ≡ j

-- The first `n` blocks hold the text, each the part that begins at its place, filled up with zeros.
abbrev pub part : Bytes → ℕ → Bytes
part buf i = block_to_write (drop (i * block_size) buf) (length buf - i * block_size)

abbrev pub Content : Disk → Inode → ℕ → Bytes → Type 0
Content d ino n buf = (i : ℕ) → i < n → d (block_at ino i) ≡ part buf i

pub All-replicate : (n : ℕ) → All IsByte (replicate n 0)
All-replicate zero = tt
All-replicate (suc n) = (omega arith, All-replicate n)

pub All-take : (n : ℕ) (s : Bytes) → All IsByte s → All IsByte (take n s)
All-take zero s h = tt
All-take (suc n) [] h = tt
All-take (suc n) (c ∷ s) h = (h.0, All-take n s h.1)

pub All-drop : (n : ℕ) (s : Bytes) → All IsByte s → All IsByte (drop n s)
All-drop zero s h = h
All-drop (suc n) [] h = tt
All-drop (suc n) (c ∷ s) h = All-drop n s h.1

-- A block that is written has 512 bytes.
pub block_to_write-IsBlock :
    (cur : Bytes) (n : ℕ) → All IsByte cur → length cur ≡ n → IsBlock (block_to_write cur n)
unfolding block_to_write
block_to_write-IsBlock cur n v h = elim (Bool-cases (ltb n block_size)) [
  | inl short ↦ rw short (
    omega (
      arith,
      length-append (take n cur) (replicate (block_size - n) 0),
      length-take n cur,
      length-replicate {A = ℕ} (block_size - n) 0,
      short_lem n short,
      h,
    ),
    All-append IsByte (take n cur) _ (All-take n cur v) (All-replicate (block_size - n)),
  )
  | inr full ↦
      rw full
        (omega (arith, length-take block_size cur, full_lem n full, h), All-take block_size cur v)
]
  where
    short_lem : (n : ℕ) → ltb n block_size ≡ true → n < block_size
    short_lem n e = ground arith

    full_lem : (n : ℕ) → ltb n block_size ≡ false → block_size ≤ n
    full_lem n e = ground arith

pub part-IsBlock : (buf : Bytes) (i : ℕ) → All IsByte buf → IsBlock (part buf i)
part-IsBlock buf i v =
    block_to_write-IsBlock (drop (i * block_size) buf) _ (All-drop (i * block_size) buf v)
      (length-drop (i * block_size) buf)

-- The bytes of the text that a block gives back.
pub take-block_to_write :
    (cur : Bytes) (n m : ℕ)
    → length cur ≡ n
    → m ≤ n
    → m ≤ block_size
    → take m (block_to_write cur n) ≡ take m cur
unfolding block_to_write
take-block_to_write cur n m h le le' = elim (Bool-cases (ltb n block_size)) [
  | inl short ↦
      rw (short, take_all n cur (omega (arith, h)))
        (take-append m cur (replicate (block_size - n) 0) (omega (arith, h, le)))
  | inr full ↦ rw full (take-take m block_size cur le')
]
  where
    take-append : (m : ℕ) (s t : Bytes) → m ≤ length s → take m (s ++ t) ≡ take m s
    take-append zero s t h = refl
    take-append (suc m) [] t h = absurd (omega (arith, h))
    take-append (suc m) (c ∷ s) t h = ap (λ (l : Bytes). c ∷ l) (take-append m s t (omega arith))

    take-take : (m n : ℕ) (s : Bytes) → m ≤ n → take m (take n s) ≡ take m s
    take-take zero n s h = refl
    take-take (suc m) zero s h = absurd (omega (arith, h))
    take-take (suc m) (suc n) [] h = refl
    take-take (suc m) (suc n) (c ∷ s) h = ap (λ (l : Bytes). c ∷ l) (take-take m n s (omega arith))

take_empty : (n : ℕ) → take {A = ℕ} n [] ≡ []
take_empty zero = refl
take_empty (suc n) = refl

pub take_parts : (n m : ℕ) (s : Bytes) → take n s ++ take m (drop n s) ≡ take (n + m) s
take_parts zero m s = ap (λ k. take k s) (omega arith)
take_parts (suc n) m [] = take_empty m ∙ sym (take_empty (suc n + m))
take_parts (suc n) m (c ∷ s) =
    let e : suc (n + m) ≡ suc n + m = omega arith in
    ap (λ (l : Bytes). c ∷ l) (take_parts n m s) ∙ ap (λ k. take k (c ∷ s)) e

drop_empty : (n : ℕ) → drop {A = ℕ} n [] ≡ []
drop_empty zero = refl
drop_empty (suc n) = refl

pub drop-drop : (n m : ℕ) (s : Bytes) → drop n (drop m s) ≡ drop (m + n) s
drop-drop n zero s = ap (λ k. drop k s) (omega arith)
drop-drop n (suc m) [] = drop_empty n ∙ sym (drop_empty (suc m + n))
drop-drop n (suc m) (c ∷ s) =
    let e : suc (m + n) ≡ suc m + n = omega arith in drop-drop n m s ∙ ap (λ k. drop k (c ∷ s)) e

-- A data block does not stand in the bitmap, so to write it changes no bit.
pub with_data-allocated :
    (d : Disk) (b j : ℕ) (buf : Bytes)
    → data_start ≤ b
    → j < block_num
    → allocated (λ x. if x == b then buf else d x) j ≡ allocated d j
unfolding allocated
with_data-allocated d b j buf h k = ground arith
