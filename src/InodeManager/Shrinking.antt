-- ===== src/InodeManager/Shrinking.antt =====
-- inode_manager.cc: the loop of `write_file` that frees the blocks which a shorter file does not need,
-- on direct blocks.
use cse.Base.{
  ℕ, zero, suc, ◌+◌, ◌-◌, ◌*◌, ◌<◌, ◌≤◌, ◌≡◌, ◌≢◌, refl, ◌∙◌, ap, inl, inr, true, false, not, ◌&&◌,
  arith, ltb, ◌==◌, none, some, Bool-cases, Returns, Returns-map, bind-Returns,
}
use cse.Base.Sums.{total}
use cse.Disk.{Disk, block_size, block_num, ndirect, inode_start, data_start, IsDisk}
use cse.BlockManager.{free_block}
use cse.BlockManager.Bitmap.{allocated}
use cse.BlockManager.Spare.{spare, lead, spare-taken}
use cse.BlockManager.Free.{Freed, free_block-Returns}
use cse.InodeManager.{Manager, free}
use cse.InodeManager.Layout.{Inode}
use cse.InodeManager.Files.{block_at, shrink_loop}
use cse.InodeManager.Progress.{blocks_of, leads}

-- The inodes and the data blocks are as they were.
abbrev pub Same : Disk → Disk → Type 0
Same d d' = IsDisk d' × ((b : ℕ) → inode_start ≤ b → d' b ≡ d b)

-- A data block is free afterwards, and no other bit has changed.
abbrev FreedOne : ℕ → Disk → Disk → Type 0
FreedOne b d d' = Same d d' × ((j : ℕ) → allocated d' j ≡ (not (j == b) && allocated d j))

free-Returns :
    (b : ℕ) (s : Manager)
    → IsDisk s.disk
    → data_start ≤ b
    → b < block_num
    → Returns (λ r. FreedOne b s.disk r.1.disk) (free b s)
unfolding free
free-Returns b s v lo hi =
    elim (free_block b s.disk)
        as (λ o.
          Returns (Freed b s.disk) o
          → Returns {A = Unit {0} × Manager} (λ r. FreedOne b s.disk r.1.disk)
              (elim o [ none ↦ none | some d ↦ some (tt, record s { disk = d }) ])) [
                | none ↦ λ f. f
                | some d ↦ λ f.
                    ((f.1, (λ j le. f.2 j (omega (arith, le, hi)))), λ j. ground (arith, f.0 j))
              ]
      (free_block-Returns b s.disk v)

-- The blocks from `k` on, of `n`, are given back: what they counted is spare.
pub record Shrunk (g : ℕ) (ino : Inode) (k n : ℕ) (d d' : Disk) : Type 0 where
  pub same : Same d d'
  pub bits :
      (b : ℕ)
      → b < block_num
      → ((i : ℕ) → k ≤ i → i < n → block_at ino i ≢ b)
      → allocated d' b ≡ allocated d b
  pub account : leads g ino n + spare g d ≡ leads g ino k + spare g d'

Shrunk-none : (g : ℕ) (ino : Inode) (k n : ℕ) (d : Disk) → IsDisk d → n ≡ k → Shrunk g ino k n d d
Shrunk-none g ino k n d v e = record {
  same = (v, (λ b le. refl));
  bits = λ b h far. refl;
  account = rw e refl;
}

-- A block is freed, and then the ones behind it.
Shrunk-one :
    (g : ℕ) (ino : Inode) (k n : ℕ) (d d' d'' : Disk)
    → data_start ≤ block_at ino k
    → block_at ino k < block_num
    → allocated d (block_at ino k) ≡ true
    → k < n
    → FreedOne (block_at ino k) d d'
    → Shrunk g ino (k + 1) n d' d''
    → Shrunk g ino k n d d''
unfolding total
Shrunk-one g ino k n d d' d'' lo hi taken lt (same, bits) v =
    let b : ℕ = block_at ino k in
    let exact : spare g d' ≡ spare g d + lead g b =
      spare-taken g b d' d lo hi (ground (arith, bits b)) (λ j h. ground (arith, bits j, taken)) in
    let one : k + 1 ≡ suc k = omega arith in
    let next : leads g ino (k + 1) ≡ leads g ino k + lead g b = ap (λ m. leads g ino m) one in
    record {
      same = (v.same.0, (λ c le. v.same.1 c le ∙ same.1 c le));
      bits = λ c h far.
          let ne : block_at ino k ≢ c = far k (omega arith) lt in
          v.bits c h (λ i le. far i (omega (arith, le))) ∙ ground (arith, bits c);
      account = omega (arith, v.account, exact, next);
    }

pub shrink_loop-Returns :
    (g f k n file_size : ℕ) (ino : Inode) (s : Manager)
    → IsDisk s.disk
    → file_size ≤ ndirect * block_size
    → n ≡ k + (blocks_of file_size - k)
    → blocks_of file_size ≤ f + k
    → ((i : ℕ) → i < n → (data_start ≤ block_at ino i) × (block_at ino i < block_num))
    → ((i : ℕ) → k ≤ i → i < n → allocated s.disk (block_at ino i) ≡ true)
    → ((i j : ℕ) → i < n → j < n → block_at ino i ≡ block_at ino j → i ≡ j)
    → Returns (λ r. Shrunk g ino k n s.disk r.1.disk) (shrink_loop f k k ino file_size s)
unfolding shrink_loop
shrink_loop-Returns g zero k n file_size ino s v small size fuel inside taken apart =
    Shrunk-none g ino k n s.disk v (omega (arith, size, fuel))
shrink_loop-Returns g (suc f) k n file_size ino s v small size fuel inside taken apart =
    elim (Bool-cases (ltb (k * block_size) file_size)) [
      | inr done ↦ rw (shrink_loop, done) (Shrunk-none g ino k n s.disk v (ground (arith, size)))
      | inl more ↦
          let direct : ltb (ndirect - 1) k ≡ false = ground arith in
          let lt : k < n = ground (arith, size) in
          rw (shrink_loop, more, direct)
            (bind-Returns _ (λ r. Shrunk g ino k n s.disk r.1.disk) (free (block_at ino k) s) _
              (free-Returns (block_at ino k) s v (inside k lt).0 (inside k lt).1)
              (λ a t w.
                Returns-map _ _ (shrink_loop f (k + 1) (k + 1) ino file_size t)
                  (λ r x.
                    Shrunk-one g ino k n s.disk t.disk r.1.disk (inside k lt).0 (inside k lt).1
                      (taken k (omega arith) lt) lt w x)
                  (shrink_loop-Returns g f (k + 1) n file_size ino t w.0.0 small
                    (omega (arith, size, lt)) (omega (arith, fuel)) inside
                    (λ i le lt'. ground (
                      arith,
                      w.1 (block_at ino i),
                      taken i (omega (arith, le)) lt',
                      apart i k lt' lt,
                    ))
                    apart)))
    ]
