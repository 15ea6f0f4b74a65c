-- ===== src/Extent/InodeStorage.antt =====
-- extent_server.h: `extent_server` keeps its files in an `inode_manager`. The extent service over the
-- inode manager of this repository, down to the bytes of the disk.
use cse.Base.{
  ℕ, ◌*◌, ◌<◌, ◌≤◌, ◌≡◌, refl, sym, ◌∙◌, ap, inl, inr, true, Bool, ◌&&◌, arith, ltb, leb, ◌==◌,
  if◌then◌else◌, Option, none, some, List, [], ◌∷◌, length, All, All-map, Bool-cases, ==_iff,
  Returns, Returns-map,
}
use cse.Base.Bytes.{Bytes}
use cse.Disk.{block_size, inode_num, ndirect, IsByte}
use cse.InodeManager.{Env, Manager, Attr, alloc_inode}
use cse.InodeManager.Files.{read_file, write_file, getattr, remove_file}
use cse.InodeManager.Store.{Files, IsFile, IsStore}
use cse.InodeManager.Serving.{write_file-IsStore, read_file-IsStore, getattr-same}
use cse.Extent.{Storage, System}
use cse.Extent.Coherence.{StorageLaws}
use cse.Extent.Coherence.History.{
  Request, get, put, client_of, file_of, answers, run, Allowed, run-answers,
}

-- `extent_server::im`
abbrev pub inode_storage : Env → Storage
inode_storage env = record {
  State = Manager;
  alloc_inode = alloc_inode env;
  read_file = read_file env;
  write_file = write_file env;
  getattr = getattr env;
  remove_file = remove_file;
}

abbrev pub is_file : Files → ℕ → Bool
is_file fs i = ltb 0 i && leb i fs.n

-- What `read_file` gives of a file; what is no file has no content.
abbrev pub content_of : Env → Files → Manager → ℕ → Bytes
content_of env fs s i =
    if is_file fs i then elim (read_file env i s) [ none ↦ [] | some (b, t) ↦ b ] else []

module _ (env : Env) (g : ℕ) (fs : Files) (many : fs.n < inode_num)
    (direct : (i : ℕ) → IsFile fs i → fs.room i ≤ ndirect) where
  pub is_file-IsFile : (i : ℕ) → is_file fs i ≡ true → IsFile fs i
  is_file-IsFile i h = (ground arith, ground arith)

  pub content_lem :
      (texts : ℕ → Bytes) (s : Manager) (i : ℕ)
      → IsStore g fs texts s.disk
      → content_of env fs s i ≡ (if is_file fs i then texts i else [])
  content_lem texts s i v = elim (Bool-cases (is_file fs i)) [
    | inr out ↦ rw out
    | inl file ↦ rw file (
        go (read_file env i s)
          (read_file-IsStore env g fs many direct texts i s v (is_file-IsFile i file)))
  ]
    where
      go :
          (o : Option (Bytes × Manager))
          → Returns (λ r. (r.0 ≡ texts i) × IsStore g fs texts r.1.disk) o
          → elim o as (λ x. Bytes) [ none ↦ [] | some (b, t) ↦ b ] ≡ texts i
      go none h = absurd h
      go (some (b, t)) h = h.0

  -- A file is in service on a disk where every file holds some text and has its room.
  abbrev pub Serving : Manager → ℕ → Type 0
  Serving s i = (is_file fs i ≡ true) × ((texts : ℕ → Bytes) × IsStore g fs texts s.disk)

  abbrev pub FitsRoom : ℕ → Bytes → Type 0
  FitsRoom i buf = All IsByte buf × (length buf ≤ fs.room i * block_size)

  updated_content :
      (i j : ℕ) (buf text old : Bytes)
      → is_file fs i ≡ true
      → old ≡ (if is_file fs j then text else [])
      → (if is_file fs j then (if j == i then buf else text) else [])
        ≡ (if j == i then buf else old)
  updated_content i j buf text old file e = elim (Bool-cases (j == i)) [
    | inl hit ↦
        let q : j ≡ i = (==_iff j i).0 hit in
        let file' : is_file fs j ≡ true = ap (is_file fs) q ∙ file in rw (hit, file') refl
    | inr miss ↦ rw (miss, e) refl
  ]

  -- What `StorageLaws` asks of the operations.
  pub read_stored :
      (i : ℕ) (s : Manager)
      → Serving s i
      → Returns
          (λ r.
            (r.0 ≡ content_of env fs s i)
            × FitsRoom i r.0
            × ((j : ℕ) → content_of env fs r.1 j ≡ content_of env fs s j)
            × ((j : ℕ) → Serving s j → Serving r.1 j))
          (read_file env i s)
  read_stored i s (file, (texts, v)) =
      let h : IsFile fs i = is_file-IsFile i file in
      Returns-map _ _ (read_file env i s)
        (λ r (text, u). (
          text ∙ sym (content_lem texts s i v ∙ rw file refl),
          rw text ((v.stored i h).bytes, v.small i h),
          (λ j. content_lem texts r.1 j u ∙ sym (content_lem texts s j v)),
          (λ j k. (k.0, (texts, u))),
        ))
        (read_file-IsStore env g fs many direct texts i s v h)

  pub write_stored :
      (i : ℕ) (buf : Bytes) (s : Manager)
      → Serving s i
      → FitsRoom i buf
      → Returns
          (λ r.
            ((j : ℕ) → content_of env fs r.1 j ≡ (if j == i then buf else content_of env fs s j))
            × ((j : ℕ) → Serving s j → Serving r.1 j))
          (write_file env i buf (length buf) s)
  write_stored i buf s (file, (texts, v)) (bytes, le) =
      let after : ℕ → Bytes = λ k. if k == i then buf else texts k in
      Returns-map _ _ (write_file env i buf (length buf) s)
        (λ r u. (
          (λ j.
              content_lem after r.1 j u.0
              ∙ updated_content i j buf (texts j) (content_of env fs s j) file
                  (content_lem texts s j v)),
          (λ j k. (k.0, (after, u.0))),
        ))
        (write_file-IsStore env g fs many direct texts i buf s v (is_file-IsFile i file) bytes le)

  pub getattr_stored :
      (i : ℕ) (s : Manager)
      → Serving s i
      → Returns
          (λ r.
            ((j : ℕ) → content_of env fs r.1 j ≡ content_of env fs s j)
            × ((j : ℕ) → Serving s j → Serving r.1 j))
          (getattr env i s)
  getattr_stored i s (file, (texts, v)) =
      Returns-map _ _ (getattr env i s) (λ r e. ((λ j. rw e refl), (λ j k. rw e k)))
        (getattr-same env g fs many direct i s (is_file-IsFile i file))

  unfoldable pub inode_laws : StorageLaws (inode_storage env)
  inode_laws = record {
    content = content_of env fs;
    Serves = Serving;
    Fits = FitsRoom;
    read_lem = read_stored;
    write_lem = write_stored;
    getattr_lem = getattr_stored;
  }

  -- A call by a client that answers, on one of the files; what a `put` brings fits the file's blocks.
  abbrev pub FitsBlocks : Request → Type 0
  FitsBlocks (get c i now) = Unit {0}
  FitsBlocks (put c i buf now) = FitsRoom i buf

  abbrev pub IsCall : (Bytes → Bool) → Request → Type 0
  IsCall reachable r = (reachable (client_of r) ≡ true) × IsFile fs (file_of r) × FitsBlocks r

  -- The answers depend on the files only.
  answers-same :
      (reachable : Bytes → Bool) (rs : List Request) (m m' : ℕ → Bytes)
      → ((i : ℕ) → IsFile fs i → m i ≡ m' i)
      → All (IsCall reachable) rs
      → answers rs m ≡ answers rs m'
  unfolding answers
  answers-same reachable [] m m' same h = refl
  answers-same reachable (get c i now ∷ rs) m m' same (h, hs) =
      rw (same i h.1, answers-same reachable rs m m' same hs) refl
  answers-same reachable (put c i buf now ∷ rs) m m' same (h, hs) =
      answers-same reachable rs _ _ (λ j k. rw (same j k) refl) hs

  IsCall-Allowed :
      (reachable : Bytes → Bool) (junk : Attr) (texts : ℕ → Bytes) (s : Manager) (r : Request)
      → IsStore g fs texts s.disk
      → IsCall reachable r
      → Allowed reachable junk inode_laws s r
  unfolding inode_laws
  IsCall-Allowed reachable junk texts s (get c i now) v (here, h, fits) =
      (omega (arith, h, many), here, (ground (arith, h), (texts, v)), tt)
  IsCall-Allowed reachable junk texts s (put c i buf now) v (here, h, fits) =
      (omega (arith, h, many), here, (ground (arith, h), (texts, v)), fits)

  -- The extent service over the inode manager: from a disk where the file of each inode from 1 to
  -- `n`, fewer than 4096, holds its text and may still grow to the blocks that are its own, at most
  -- 100, with nothing in the clients' caches, any sequence of `get` and `put` calls of clients that
  -- answer, on these files and with bytes that fit their blocks, returns the answers of one memory
  -- that holds the texts. So a `get` returns what was put last, by whichever client, whether it is
  -- still in a cache or went to the disk.
  pub inode_run-answers :
      (reachable : Bytes → Bool) (junk : Attr) (texts : ℕ → Bytes) (rs : List Request)
      (s : System (inode_storage env))
      → IsStore g fs texts s.store.disk
      → ((i : ℕ) → s.owner i ≡ none)
      → ((c : Bytes) (i : ℕ) → s.cache c i ≡ none)
      → All (IsCall reachable) rs
      → Returns (λ q. q.0 ≡ answers rs texts) (run reachable junk rs s)
  unfolding inode_laws
  inode_run-answers reachable junk texts rs s v nobody empty calls =
      let m : ℕ → Bytes = λ j. if is_file fs j then texts j else [] in
      Returns-map _ _ (run reachable junk rs s)
        (λ q e.
          e
          ∙ answers-same reachable rs m texts
              (λ i h. let file : is_file fs i ≡ true = ground (arith, h) in rw file refl) calls)
        (run-answers reachable junk inode_laws rs s m
          (
            record {
              held = λ c i f k d. absurd (cc (empty c i, k));
              answers = λ c i k. absurd (cc (nobody i, k));
            },
            (λ j. rw (nobody j) (content_lem texts s.store j v)),
          )
          (All-map (IsCall reachable) (Allowed reachable junk inode_laws s.store) rs
            (λ r h. IsCall-Allowed reachable junk texts s.store r v h) calls))
