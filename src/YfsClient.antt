-- ===== src/YfsClient.antt =====
-- yfs_client.h and yfs_client.cc: the file-system operations over the extent client and the lock
-- client. The extent client is an interface; of the lock client the calls are recorded, the last one
-- first. `none` is an uncaught exception, undefined behaviour, or a crash of the extent client.
pub mod Content
pub mod Paths
pub mod Operations
pub mod Locks
pub mod Directories
pub mod Transfer
pub mod ExtentClient
use cse.Base.{
  ℕ, ◌≡◌, refl, Bool, true, false, Option, none, some, List, [], ◌∷◌, if◌then◌else◌, ◌==◌, ltb,
}
use cse.Base.Bytes.{Bytes}
use cse.InodeManager.{Attr}

-- `extent_client`: the Boolean of an answer is `== extent_protocol::OK`.
pub record ExtentService (S : Type 0) : Type 0 where
  pub get : ℕ → S → Option ((Bool × Bytes) × S)
  pub getattr : ℕ → S → Option ((Bool × Attr) × S)
  pub put : ℕ → Bytes → S → Option (Bool × S)
  pub create : ℕ → S → Option ((Bool × ℕ) × S)
  pub remove : ℕ → S → Option (Bool × S)

pub data LockCall : Type 0 where
  acquire : ℕ → LockCall
  release : ℕ → LockCall

pub record World (S : Type 0) : Type 0 where
  pub extents : S
  pub locks : List LockCall

-- `xxstatus`
pub data Status : Type 0 where
  ok rpcerr noent ioerr exist creerr wrterr readerr : Status

-- `struct fileinfo` and `struct dirinfo`
pub record FileInfo : Type 0 where
  pub size : ℕ
  pub atime : ℕ
  pub mtime : ℕ
  pub ctime : ℕ

pub record DirInfo : Type 0 where
  pub atime : ℕ
  pub mtime : ℕ
  pub ctime : ℕ
