-- ===== src/Fuse/OnDisk.antt =====
-- fuse.cc over yfs_client, the extent clients, the extent server and the inode manager: `read` and `write`
-- requests of the kernels of any clients, down to the bytes of one disk.
use cse.Base.{
  ℕ, ◌+◌, ◌-◌, ◌*◌, ◌^◌, ◌<◌, ◌≤◌, ◌≡◌, refl, ◌∙◌, inl, inr, true, Bool, arith, ltb, leb, Option,
  none, some, List, ◌++◌, take, drop, replicate, length, All, All-append, Bool-cases, Returns,
  All-map, Safely,
}
use cse.Base.Bytes.{Bytes}
use cse.Disk.{block_size, inode_num, ndirect, IsByte}
use cse.InodeManager.{Env, Attr}
use cse.InodeManager.Direct.{All-take, All-drop, All-replicate}
use cse.InodeManager.Store.{Files, IsFile, IsStore}
use cse.Extent.{System}
use cse.Extent.InodeStorage.{inode_storage, is_file, inode_laws, content_lem}
use cse.YfsClient.{World}
use cse.YfsClient.Content.{int_length, written}
use cse.YfsClient.Content.Laws.{Written, written-Returns}
use cse.Fuse.Sharing.{
  FileRequest, read, write, caller, file, replies, run_requests, IsWrite, MayCall, Stands,
  run_requests-answers,
}

-- Bytes in, bytes out.
written-IsByte :
    (old bytes : Bytes) (size off : ℕ)
    → All IsByte old
    → All IsByte bytes
    → Safely (All IsByte) (written old size off bytes)
unfolding written
written-IsByte old bytes size off h k = elim (Bool-cases (leb (2 ^ 31) (length old))) [
  | inl long ↦ rw long tt
  | inr short ↦ elim (Bool-cases (ltb off (length old))) [
    | inl inside ↦
        rw (short, inside)
          (All-append IsByte (take off old) _ (All-take off old h)
            (All-append IsByte bytes (drop (off + size) old) k (All-drop (off + size) old h)))
    | inr behind ↦ rw (short, behind) (filled (int_length (off - length old)))
  ]
]
  where
    filled :
        (o : Option ℕ)
        → Safely
            (All IsByte)
            (elim (elim o as (λ x. Option Bytes) [
              | none ↦ none
              | some n ↦ some (old ++ replicate n 0)
            ])
              as (λ x. Option Bytes) [ none ↦ none | some s ↦ some (s ++ take size bytes) ])
    filled none = tt
    filled (some n) =
        All-append IsByte (old ++ replicate n 0) (take size bytes)
          (All-append IsByte old (replicate n 0) h (All-replicate n)) (All-take size bytes k)

module _ (env : Env) (g : ℕ) (fs : Files) (many : fs.n < inode_num)
    (direct : (i : ℕ) → IsFile fs i → fs.room i ≤ ndirect) where
  -- A call by a client that answers, on one of the files; what a `write` brings ends within the
  -- file's blocks.
  abbrev EndsInside : FileRequest → Type 0
  EndsInside (read c i size off) = Unit {0}
  EndsInside (write c i size off bytes) =
      (length bytes ≡ size) × All IsByte bytes × (off + size ≤ fs.room i * block_size)

  abbrev pub IsFileRequest : (Bytes → Bool) → FileRequest → Type 0
  IsFileRequest reachable c = (reachable (caller c) ≡ true) × IsFile fs (file c) × EndsInside c

  -- What `write` makes of a file that fits its blocks fits them too.
  ends_inside-IsWrite :
      (reachable : Bytes → Bool) (junk : Attr) (clock : System (inode_storage env) → ℕ)
      (finum i size off : ℕ) (bytes : Bytes)
      → IsFile fs i
      → length bytes ≡ size
      → All IsByte bytes
      → off + size ≤ fs.room i * block_size
      → IsWrite reachable junk clock finum
          (inode_laws env g fs many direct)
          (IsFile fs)
          i
          size
          off
          bytes
  unfolding inode_laws
  ends_inside-IsWrite reachable junk clock finum i size off bytes h len ok inside = (
    len,
    λ old (old_bytes, le).
        let small : fs.room i ≤ ndirect = direct i h in
        let short : length old < 2 ^ 31 = omega (arith, le, small) in
        let near : off < length old + 2 ^ 31 = omega (arith, inside, small) in
        (
          short,
          near,
          λ new e.
              let all : All IsByte new = rw e at (written-IsByte old bytes size off old_bytes ok) in
              let is : Written old size off bytes new =
                rw e at (written-Returns old bytes size off len short near) in
              (all, omega (arith, is.0, le, inside)),
        ),
  )

  IsFileRequest-MayCall :
      (reachable : Bytes → Bool) (junk : Attr) (clock : System (inode_storage env) → ℕ) (finum : ℕ)
      (c : FileRequest)
      → IsFileRequest reachable c
      → MayCall reachable junk clock finum (inode_laws env g fs many direct) (IsFile fs) c
  IsFileRequest-MayCall reachable junk clock finum (read c i size off) (here, h, inside) =
      (here, h, tt)
  IsFileRequest-MayCall reachable junk clock finum (write c i size off bytes)
        (here, h, (len, ok, inside)) =
      (here, h, ends_inside-IsWrite reachable junk clock finum i size off bytes h len ok inside)

  start-Stands :
      (reachable : Bytes → Bool) (junk : Attr) (clock : System (inode_storage env) → ℕ) (finum : ℕ)
      (texts : ℕ → Bytes) (s : System (inode_storage env))
      → IsStore g fs texts s.store.disk
      → ((i : ℕ) → s.owner i ≡ none)
      → ((c : Bytes) (i : ℕ) → s.cache c i ≡ none)
      → Stands reachable junk clock finum (inode_laws env g fs many direct) (IsFile fs) s texts
  unfolding inode_laws
  start-Stands reachable junk clock finum texts s v nobody empty = record {
    served = λ j h. (
      record {
        held = λ c i f k d. absurd (cc (empty c i, k));
        answers = λ c i k. absurd (cc (nobody i, k));
      },
      (ground (arith, h), (texts, v)),
      omega (arith, h, many),
    );
    same = λ j h.
        let file' : is_file fs j ≡ true = ground (arith, h) in
        rw (nobody j) (content_lem env g fs many direct texts s.store j v ∙ rw file' refl);
    fits = λ j h. ((v.stored j h).bytes, v.small j h);
  }

  -- The file system's `read` and `write`, from the kernel down: over the caching extent clients, the
  -- extent server and the inode manager, from a disk where the file of each inode from 1 to `n`, fewer
  -- than 4096, holds its text and may still grow to the blocks that are its own, at most 100, with
  -- nothing in the extent clients' caches: any sequence of `read` and `write` requests to clients that
  -- answer, on these files, where the data of a `write` has the given size, is bytes and ends within
  -- the file's blocks, gets the replies of one memory that holds the texts. A reply is the number of
  -- bytes to write, or the bytes that were written last, by whichever client.
  pub run_requests-IsStore :
      (reachable : Bytes → Bool) (junk : Attr) (clock : System (inode_storage env) → ℕ) (finum : ℕ)
      (texts : ℕ → Bytes) (cs : List FileRequest) (w : World (System (inode_storage env)))
      → IsStore g fs texts w.extents.store.disk
      → ((i : ℕ) → w.extents.owner i ≡ none)
      → ((c : Bytes) (i : ℕ) → w.extents.cache c i ≡ none)
      → All (IsFileRequest reachable) cs
      → Returns (λ q. q.0 ≡ replies cs texts) (run_requests reachable junk clock finum cs w)
  run_requests-IsStore reachable junk clock finum texts cs w v nobody empty calls =
      run_requests-answers reachable junk clock finum (inode_laws env g fs many direct) (IsFile fs)
        cs w texts (start-Stands reachable junk clock finum texts w.extents v nobody empty)
        (All-map (IsFileRequest reachable) _ cs
          (λ c h. IsFileRequest-MayCall reachable junk clock finum c h) calls)
