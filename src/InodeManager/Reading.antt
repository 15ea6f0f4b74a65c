-- ===== src/InodeManager/Reading.antt =====
-- inode_manager.cc: the loop of `read_file`, on direct blocks.
use cse.Base.{
  ℕ, zero, suc, ◌+◌, ◌-◌, ◌*◌, ◌<◌, ◌≤◌, ◌≡◌, refl, inl, inr, false, arith, ltb, leb, some, ◌++◌,
  take, drop, length, take_all, Bool-cases, Returns, append-nil,
}
use cse.Base.Bytes.{Bytes}
use cse.Base.Index.{length-drop}
use cse.Disk.{block_size, block_num, ndirect}
use cse.InodeManager.{Manager, ◌>>=◌}
use cse.InodeManager.Layout.{Inode}
use cse.InodeManager.Inodes.{get_block-inside}
use cse.InodeManager.Files.{block_at, next_inode, read_loop}
use cse.InodeManager.Direct.{part, take-block_to_write, take_parts}

next_inode-direct :
    (ino : Inode) (k : ℕ) (s : Manager) → k < ndirect → next_inode ino k s ≡ some ((ino, k), s)
unfolding next_inode
next_inode-direct ino k s h =
    let direct : ltb (ndirect - 1) k ≡ false = ground arith in rw (next_inode, direct) refl

-- A block that is read in full, and the last one.
whole_part :
    (buf : Bytes) (k : ℕ)
    → (k + 1) * block_size ≤ length buf
    → take (k * block_size) buf ++ take block_size (part buf k) ≡ take ((k + 1) * block_size) buf
whole_part buf k h =
    let at : ℕ = k * block_size in
    let e : at + block_size ≡ (k + 1) * block_size = omega arith in
    rw
      (
        take-block_to_write (drop at buf) (length buf - at) block_size (length-drop at buf)
            (omega (arith, h)) (omega arith),
        take_parts at block_size buf,
        e,
      )
      refl

last_part :
    (buf block : Bytes) (k : ℕ)
    → (k * block_size < length buf → block ≡ part buf k)
    → k * block_size ≤ length buf
    → length buf ≤ (k + 1) * block_size
    → take (k * block_size) buf ++ take (length buf - k * block_size) block ≡ buf
last_part buf block k content le le' = elim (Bool-cases (ltb (k * block_size) (length buf))) [
  | inl more ↦
      let at : ℕ = k * block_size in
      let n : ℕ = length buf - at in
      rw
        (
          content (ground arith),
          take-block_to_write (drop at buf) n n (length-drop at buf) (omega arith)
              (omega (arith, le')),
          take_parts at n buf,
        )
        (take_all (at + n) buf (omega arith))
  | inr done ↦
      let e : length buf - k * block_size ≡ 0 = ground arith in
      rw (e, append-nil (take (k * block_size) buf))
        (take_all (k * block_size) buf (omega (arith, e)))
]

-- The loop of `read_file` from block `k` on, with the bytes before it in hand.
pub read_loop-Returns :
    (f k : ℕ) (ino : Inode) (buf : Bytes) (s : Manager)
    → length buf ≤ ndirect * block_size
    → k * block_size ≤ length buf
    → (0 < k → k * block_size < length buf)
    → length buf < (k + f) * block_size
    → ((i : ℕ)
        → i * block_size < length buf
        → (block_at ino i < block_num) × (s.disk (block_at ino i) ≡ part buf i))
    → block_at ino 0 < block_num
    → Returns
        (λ r. (r.0 ≡ buf) × (r.1 ≡ s))
        (read_loop f k ino k (take (k * block_size) buf) (length buf) s)
unfolding read_loop next_inode
read_loop-Returns zero k ino buf s small le more fuel v first = absurd (omega (arith, le, fuel))
read_loop-Returns (suc f) k ino buf s small le more fuel v first =
    let inside : block_at ino k < block_num = inside_lem in
    rw
      (
        read_loop,
        ◌>>=◌,
        next_inode-direct ino k s (grind (arith, small, more)),
        get_block-inside (block_at ino k) s inside,
      )
      (elim (Bool-cases (leb (length buf) ((k + 1) * block_size))) [
        | inl last ↦
            rw last
              (last_part buf (s.disk (block_at ino k)) k (λ h. (v k h).1) le (ground arith), refl)
        | inr not_last ↦
            let next : (k + 1) * block_size < length buf = ground arith in
            rw (not_last, (v k (omega (arith, next))).1, whole_part buf k (omega (arith, next)))
              (read_loop-Returns f (k + 1) ino buf s small (omega (arith, next)) (λ z. next)
                (omega (arith, fuel)) v first)
      ])
  where
    inside_lem : block_at ino k < block_num
    inside_lem = elim (Bool-cases (ltb (k * block_size) (length buf))) [
      | inl h ↦ (v k (ground arith)).0
      | inr h ↦ let z : k ≡ 0 = ground (arith, more) in rw z first
    ]
