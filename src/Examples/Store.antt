-- ===== src/Examples/Store.antt =====
-- Two files on a disk: one is empty and may grow to two blocks, the other has 600 bytes and may grow to
-- four. Two clients of the extent service work on them.
use cse.Base.{
  ℕ, zero, suc, ◌+◌, ◌*◌, ◌<◌, ◌≤◌, ◌≡◌, ◌≢◌, refl, inl, inr, false, arith, ◌==◌, if◌then◌else◌,
  none, List, [], ◌∷◌, replicate, length, All, Bool-cases, Returns,
}
use cse.Base.Bytes.{Bytes, codes}
use cse.Base.Sums.{total}
use cse.Disk.{block_size, ndirect, IsByte}
use cse.BlockManager.Bitmap.{allocated}
use cse.BlockManager.Spare.{spare}
use cse.InodeManager.{Manager}
use cse.InodeManager.Files.{block_at, write_file, read_file}
use cse.InodeManager.Direct.{All-replicate}
use cse.InodeManager.Progress.{blocks_of, leads}
use cse.InodeManager.Stored.{inode_of, IsStored}
use cse.InodeManager.Store.{Files, IsFile, IsStore}
use cse.InodeManager.Serving.{write_file-IsStore}
use cse.Extent.{System}
use cse.Extent.Coherence.History.{Request, get, put, answers, run}
use cse.Extent.InodeStorage.{inode_storage, IsCall, inode_run-answers}
use cse.YfsClient.{World}
use cse.Fuse.{buffer, wrote}
use cse.Fuse.Sharing.{FileRequest, read, write, replies, run_requests}
use cse.Fuse.OnDisk.{IsFileRequest, run_requests-IsStore}
use cse.Examples.Inodes.{clock_env}
use cse.Examples.Files.{ino, disk, manager, text, disk-IsDisk, text-IsByte, ino-Holds}
use cse.Examples.Extents.{no_attr, answering, anne, bert}

abbrev files : Files
files = record { n = 2; room = λ i. 2 * i }

abbrev texts : ℕ → Bytes
texts i = if i == 2 then replicate 600 0 else []

few : (i : ℕ) → IsFile files i → files.room i ≤ ndirect
few i h = omega (arith, h)

empty-IsStored : IsStored disk (inode_of disk 1) []
unfolding cse.InodeManager.Layout.decode
empty-IsStored = record {
  size = refl;
  bytes = tt;
  fits = omega arith;
  holds = record {
    in_range = λ i h. absurd (omega (arith, h));
    taken = λ i h. absurd (omega (arith, h));
    apart = λ i j h. absurd (omega (arith, h));
  };
  content = λ i h. absurd (omega (arith, h));
  first = omega arith;
}

ino_lem : inode_of disk 2 ≡ ino
unfolding cse.InodeManager.Layout.encode cse.InodeManager.Layout.decode
ino_lem = refl

zeros-IsStored : IsStored disk ino (replicate 600 0)
unfolding cse.InodeManager.Files.block_to_write
zeros-IsStored = record {
  size = refl;
  bytes = All-replicate 600;
  fits = omega arith;
  holds = ino-Holds;
  content = content;
  first = omega arith;
}
  where
    content :
        (i : ℕ) → i < 2 → disk (block_at ino i) ≡ cse.InodeManager.Direct.part (replicate 600 0) i
    content zero h = refl
    content (suc zero) h = refl
    content (suc (suc i)) h = absurd (omega (arith, h))

spare_blocks : spare 520 disk ≡ 4
unfolding spare allocated cse.BlockManager.Bits.bit
spare_blocks = refl

ino-leads : leads 520 ino 2 ≡ 2
unfolding total
ino-leads = refl

capacity_lem :
    total 2 (λ j. files.room (suc j))
    ≤ spare 520 disk
      + total 2 (λ j. leads 520 (inode_of disk (suc j)) (blocks_of (length (texts (suc j)))))
unfolding total
capacity_lem = rw (ino_lem, spare_blocks) (omega arith)

disk-IsStore : IsStore 520 files texts disk
disk-IsStore = record {
  disk = disk-IsDisk;
  stored = stored;
  small = small;
  apart = apart;
  capacity = capacity_lem;
}
  where
    stored : (i : ℕ) → IsFile files i → IsStored disk (inode_of disk i) (texts i)
    stored zero h = absurd (omega (arith, h))
    stored (suc zero) h = empty-IsStored
    stored (suc (suc zero)) h = rw ino_lem zeros-IsStored
    stored (suc (suc (suc i))) h = absurd (omega (arith, h))

    small : (i : ℕ) → IsFile files i → length (texts i) ≤ files.room i * block_size
    small zero h = absurd (omega (arith, h))
    small (suc zero) h = omega arith
    small (suc (suc zero)) h = omega arith
    small (suc (suc (suc i))) h = absurd (omega (arith, h))

    -- Only one of the files has blocks.
    apart :
        (i j a b : ℕ)
        → IsFile files i
        → IsFile files j
        → i ≢ j
        → a < blocks_of (length (texts i))
        → b < blocks_of (length (texts j))
        → block_at (inode_of disk i) a ≢ block_at (inode_of disk j) b
    apart i j a b h h' ne lt lt' e = elim (Bool-cases (i == 2)) [
      | inr miss ↦ absurd (omega (arith, rw miss at lt))
      | inl hit ↦
          let miss : (j == 2) ≡ false = ground arith in absurd (omega (arith, rw miss at lt'))
    ]

-- `write_file` of a longer text, on the file that may grow to four blocks.
write_file-IsStore_example :
    Returns
      (λ r.
        IsStore 520 files (λ j. if j == 2 then text else texts j) r.1.disk
        × ((j : ℕ)
            → IsFile files j
            → Returns (λ q. q.0 ≡ (if j == 2 then text else texts j)) (read_file clock_env j r.1)))
      (write_file clock_env 2 text 1100 manager)
write_file-IsStore_example =
    write_file-IsStore clock_env 520 files (omega arith) few texts 2 text manager disk-IsStore
      (omega arith, omega arith) text-IsByte (omega arith)

abbrev begin : System (inode_storage clock_env)
begin = record { store = manager; owner = λ i. none; cache = λ c i. none }

-- Anne writes a file of three blocks, which Bert reads; Bert writes the other file, which Anne reads.
abbrev requests : List Request
requests =
    put anne 2 text 7
    ∷ get bert 2 8
    ∷ put bert 1 (codes "hi") 9
    ∷ get anne 1 10
    ∷ get anne 2 11
    ∷ []

codes-IsByte : All IsByte (codes "hi")
codes-IsByte = (omega arith, (omega arith, tt))

requests-IsCall : All (IsCall clock_env 520 files (omega arith) few answering) requests
requests-IsCall = (
  (refl, (omega arith, omega arith), (text-IsByte, omega arith)),
  (
    (refl, (omega arith, omega arith), tt),
    (
      (refl, (omega arith, omega arith), (codes-IsByte, omega arith)),
      ((refl, (omega arith, omega arith), tt), ((refl, (omega arith, omega arith), tt), tt)),
    ),
  ),
)

inode_run-answers_example :
    Returns (λ q. q.0 ≡ text ∷ codes "hi" ∷ text ∷ []) (run answering no_attr requests begin)
unfolding answers
inode_run-answers_example =
    inode_run-answers clock_env 520 files (omega arith) few answering no_attr texts requests begin
      disk-IsStore (λ i. refl) (λ c i. refl) requests-IsCall

abbrev world : World (System (inode_storage clock_env))
world = record { extents = begin; locks = [] }

-- Anne writes behind the end of a file, which Bert reads; Bert writes the empty file, which Anne reads.
abbrev calls : List FileRequest
calls =
    write anne 2 3 1000 (codes "abc")
    ∷ read bert 2 5 998
    ∷ write bert 1 2 0 (codes "hi")
    ∷ read anne 1 9 0
    ∷ []

calls-IsFileRequest : All (IsFileRequest clock_env 520 files (omega arith) few answering) calls
calls-IsFileRequest = (
  (refl, (omega arith, omega arith), (refl, abc-IsByte, omega arith)),
  (
    (refl, (omega arith, omega arith), tt),
    (
      (refl, (omega arith, omega arith), (refl, codes-IsByte, omega arith)),
      ((refl, (omega arith, omega arith), tt), tt),
    ),
  ),
)
  where
    abc-IsByte : All IsByte (codes "abc")
    abc-IsByte = (omega arith, (omega arith, (omega arith, tt)))

run_requests-IsStore_example :
    Returns
      (λ q. q.0 ≡ wrote 3 ∷ buffer (0 ∷ 0 ∷ codes "abc") ∷ wrote 2 ∷ buffer (codes "hi") ∷ [])
      (run_requests answering no_attr (λ s. 7) 0 calls world)
unfolding replies cse.YfsClient.Content.slice cse.YfsClient.Content.written
run_requests-IsStore_example =
    run_requests-IsStore clock_env 520 files (omega arith) few answering no_attr (λ s. 7) 0 texts
      calls world disk-IsStore (λ i. refl) (λ c i. refl) calls-IsFileRequest
