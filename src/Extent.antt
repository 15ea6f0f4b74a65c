-- ===== src/Extent.antt =====
-- extent_protocol.h, extent_server.h and extent_client.h: the data of the extent service, and what
-- the server asks of the inode manager.
pub mod Protocol
pub mod Handlers
pub mod Coherence
pub mod InodeStorage
use cse.Base.{ℕ, ◌≡◌, Bool, false, Option, none, some, List, [], length, Returns}
use cse.Base.Bytes.{Bytes}
use cse.InodeManager.{Attr}

-- The operations of `inode_manager` that `extent_server` calls. `none` is undefined behaviour.
pub record Storage : Type 1 where
  pub State : Type 0
  pub alloc_inode : ℕ → State → Option (ℕ × State)
  pub read_file : ℕ → State → Option (Bytes × State)
  pub write_file : ℕ → Bytes → ℕ → State → Option (Unit {0} × State)
  pub getattr : ℕ → State → Option (Attr × State)
  pub remove_file : ℕ → State → Option (Unit {0} × State)

-- `extent_client::FileData`; the two Booleans are `data_stat == OK` and `attr_stat == OK`.
pub record FileData : Type 0 where
  pub data_cached : Bool
  pub attr_cached : Bool
  pub file_data : Bytes
  pub file_attr : Attr

-- The constructor leaves `file_attr` as memory has it.
abbrev pub fresh_data : Attr → FileData
fresh_data junk = record {
  data_cached = false;
  attr_cached = false;
  file_data = [];
  file_attr = junk;
}

-- The server, with `fileManger` from an id to the client that has the file, and the cache of each
-- client by the client's address. An address with no client has an empty cache.
pub record System (S : Storage) : Type 0 where
  pub store : S.State
  pub owner : ℕ → Option Bytes
  pub cache : Bytes → ℕ → Option FileData
