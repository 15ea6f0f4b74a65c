-- ===== src/InodeManager/Writing.antt =====
-- inode_manager.cc: the loop of `write_file` on a file that has at most 100 blocks before and after.
use cse.Base.{
  ℕ, zero, suc, ◌+◌, ◌-◌, ◌*◌, ◌<◌, ◌≤◌, ◌≡◌, refl, sym, ◌∙◌, ap, inl, inr, false, arith, ltb, leb,
  ◌==◌, if◌then◌else◌, some, drop, length, All, Bool-cases, Returns, bind-Returns,
}
use cse.Base.Bytes.{Bytes}
use cse.Disk.{Disk, block_size, block_num, ndirect, IsByte}
use cse.BlockManager.{data_block}
use cse.BlockManager.Alloc.{Fresh}
use cse.InodeManager.{◌>>◌, put_block, Env, Manager, alloc, ◌>>=◌}
use cse.InodeManager.Layout.{Inode}
use cse.InodeManager.Inodes.{put_block-inside}
use cse.InodeManager.Files.{block_at, block_to_write, next_to_write, grow_file, write_loop}
use cse.InodeManager.Progress.{blocks_of, Progress, alloc-Returns, grown-Progress, written-Progress}
use cse.InodeManager.Direct.{part, part-IsBlock, drop-drop}

-- A round where the file has the block already, or a block is allocated for it.
grow_file-Returns :
    (env : Env) (g whole k file_size : ℕ) (buf : Bytes) (K : ℕ → Bytes → Type 0) (ino : Inode)
    (s : Manager)
    → k < ndirect
    → k * block_size < length buf
    → Progress g whole buf K s.disk ino (k + (blocks_of file_size - k)) k
    → Returns
        (λ r. Progress g whole buf K r.1.disk r.0 (k + 1 + (blocks_of file_size - (k + 1))) k)
        (grow_file env ino k file_size k s)
unfolding grow_file
grow_file-Returns env g whole k file_size buf K ino s small more v =
    elim (Bool-cases (leb file_size (k * block_size))) [
      | inr there ↦
          let e : k + (blocks_of file_size - k) ≡ k + 1 + (blocks_of file_size - (k + 1)) =
            ground arith in
          rw there (rw (sym e) v)
      | inl new ↦
          let e : k + (blocks_of file_size - k) ≡ k = ground arith in
          let e' : k + 1 + (blocks_of file_size - (k + 1)) ≡ k + 1 = ground arith in
          let v' : Progress g whole buf K s.disk ino k k = rw e at v in
          rw (new, e')
            (bind-Returns (λ r. Fresh data_block s.disk (r.0, r.1.disk))
              (λ r. Progress g whole buf K r.1.disk r.0 (k + 1) k) (alloc env data_block s) _
              (alloc-Returns env g s v.disk (omega (arith, v'.room, more)))
              (λ b t f. grown-Progress g whole buf K s.disk t.disk ino k b small v' f))
    ]

next_to_write-direct :
    (env : Env) (ino : Inode) (k last_inum file_size block_no : ℕ) (s : Manager)
    → k < ndirect
    → next_to_write env ino k last_inum file_size block_no s ≡ some ((ino, k, last_inum), s)
unfolding next_to_write
next_to_write-direct env ino k last_inum file_size block_no s h =
    let direct : ltb (ndirect - 1) k ≡ false = ground arith in rw (next_to_write, direct) refl

put_part :
    (buf : Bytes) (k lost b : ℕ) (s : Manager)
    → All IsByte buf
    → lost ≡ length buf - k * block_size
    → b < block_num
    → put_block b (block_to_write (drop (k * block_size) buf) lost) s
      ≡ some (tt, record s { disk = λ j. if j == b then part buf k else s.disk j })
put_part buf k lost b s bytes e h =
    ap (λ n. put_block b (block_to_write (drop (k * block_size) buf) n) s) e
    ∙ put_block-inside b (part buf k) s h (part-IsBlock buf k bytes).0

drop_block :
    (k : ℕ) (buf : Bytes)
    → drop block_size (drop (k * block_size) buf) ≡ drop ((k + 1) * block_size) buf
drop_block k buf =
    let e : k * block_size + block_size ≡ (k + 1) * block_size = omega arith in
    drop-drop block_size (k * block_size) buf ∙ ap (λ n. drop n buf) e

-- What the loop leaves: every block of the text is written.
abbrev pub Done :
    ℕ → ℕ → ℕ → Bytes → (ℕ → Bytes → Type 0) → ℕ → (ℕ × ℕ × ℕ × Inode) × Manager → Type 0
Done g whole inum buf K file_size ((block_no, k, last_inum, ino), s) =
    (block_no ≡ k)
    × (last_inum ≡ inum)
    × (k ≡ blocks_of (length buf))
    × Progress g whole buf K s.disk ino (k + (blocks_of file_size - k)) k

pub write_loop-Returns :
    (env : Env) (g whole inum : ℕ) (buf : Bytes) (K : ℕ → Bytes → Type 0)
    (file_size fuel lost k : ℕ) (ino : Inode) (s : Manager)
    → All IsByte buf
    → length buf ≤ ndirect * block_size
    → lost ≡ length buf - k * block_size
    → lost ≤ fuel * block_size
    → k ≤ blocks_of (length buf)
    → Progress g whole buf K s.disk ino (k + (blocks_of file_size - k)) k
    → Returns
        (Done g whole inum buf K file_size)
        (write_loop env fuel lost (drop (k * block_size) buf) k k inum ino file_size s)
unfolding write_loop
write_loop-Returns env g whole inum buf K file_size zero lost k ino s bytes fits e le kle v =
    (refl, refl, omega (arith, e, le, kle), v)
write_loop-Returns env g whole inum buf K file_size (suc f) zero k ino s bytes fits e le kle v =
    (refl, refl, omega (arith, e, le, kle), v)
write_loop-Returns env g whole inum buf K file_size (suc f) (suc n) k ino s bytes fits e le kle v =
    let small : k < ndirect = omega (arith, fits, e) in
    rw (write_loop, ◌>>=◌, next_to_write-direct env ino k inum file_size k s small)
      (bind-Returns _ (Done g whole inum buf K file_size) (grow_file env ino k file_size k s) _
        (grow_file-Returns env g whole k file_size buf K ino s small (omega (arith, e)) v)
        (λ grown t w.
          let inside = w.holds.in_range k (omega arith) in
          let d : Disk = λ j. if j == block_at grown k then part buf k else t.disk j in
          rw
            (
              ◌>>◌,
              ◌>>=◌,
              put_part buf k (suc n) (block_at grown k) t bytes e inside.1,
              drop_block k buf,
            )
            (write_loop-Returns env g whole inum buf K file_size f (suc n - block_size) (k + 1)
              grown (record t { disk = d }) bytes fits (omega (arith, e)) (omega (arith, le))
              (omega (arith, e))
              (written-Progress g whole buf K t.disk grown _ k bytes (omega arith) w))))
