-- ===== src/Extent/Coherence.antt =====
-- Coherence of the clients' caches: what every client sees of a file is one content.
mod Steps
pub mod Service
pub mod Cache
pub mod Operations
pub mod History
use cse.Base.{
  ℕ, ◌<◌, ◌≡◌, Bool, true, false, Option, none, some, length, ◌==◌, if◌then◌else◌, Returns,
}
use cse.Base.Bytes.{Bytes}
use cse.InodeManager.{Attr}
use cse.Extent.{Storage, FileData, System}

-- What the server relies on: in the ids that are in service a file is read as it was written last,
-- writes of what fits the file succeed, and no other file changes.
pub record StorageLaws (S : Storage) : Type 1 where
  pub content : S.State → ℕ → Bytes
  pub Serves : S.State → ℕ → Type 0
  pub Fits : ℕ → Bytes → Type 0
  pub read_lem :
      (i : ℕ) (s : S.State)
      → Serves s i
      → Returns
          (λ r.
            (r.0 ≡ content s i)
            × Fits i r.0
            × ((j : ℕ) → content r.1 j ≡ content s j)
            × ((j : ℕ) → Serves s j → Serves r.1 j))
          (S.read_file i s)
  pub write_lem :
      (i : ℕ) (buf : Bytes) (s : S.State)
      → Serves s i
      → Fits i buf
      → Returns
          (λ r.
            ((j : ℕ) → content r.1 j ≡ (if j == i then buf else content s j))
            × ((j : ℕ) → Serves s j → Serves r.1 j))
          (S.write_file i buf (length buf) s)
  pub getattr_lem :
      (i : ℕ) (s : S.State)
      → Serves s i
      → Returns
          (λ r. ((j : ℕ) → content r.1 j ≡ content s j) × ((j : ℕ) → Serves s j → Serves r.1 j))
          (S.getattr i s)

abbrev pub held_data : Option FileData → Bytes → Bytes
held_data none b = b
held_data (some f) b = if f.data_cached then f.file_data else b

abbrev pub owned_data : Option Bytes → (Bytes → Option FileData) → Bytes → Bytes
owned_data none k b = b
owned_data (some c) k b = held_data (k c) b

module _ {S : Storage} (L : StorageLaws S) where
  -- The content of a file: what its owner has in the cache, or what is stored.
  abbrev pub view : System S → ℕ → Bytes
  view s i = owned_data (s.owner i) (λ c. s.cache c i) (L.content s.store i)

  -- Only its owner has a file's data in the cache, which fits the file, and an owner can be called.
  pub record IsCoherent (reachable : Bytes → Bool) (s : System S) : Type 0 where
    pub held :
        (c : Bytes) (i : ℕ) (f : FileData)
        → s.cache c i ≡ some f
        → f.data_cached ≡ true
        → (s.owner i ≡ some c) × L.Fits i f.file_data
    pub answers : (c : Bytes) (i : ℕ) → s.owner i ≡ some c → reachable c ≡ true
