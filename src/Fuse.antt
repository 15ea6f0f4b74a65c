-- ===== src/Fuse.antt =====
-- fuse.cc: the handlers that turn requests of the kernel into operations of `yfs_client`, and their
-- one reply. Timeouts and generations, which are always 0, are left out of an entry.
pub mod Handlers
pub mod Existing
pub mod Listing
pub mod Sharing
pub mod OnDisk
use cse.Base.{ℕ, ◌≡◌, Bool, List}
use cse.Base.Bytes.{Bytes}

-- The fields of `struct stat` that are set; `bzero` clears the others.
pub record Stat : Type 0 where
  pub ino : ℕ
  pub mode : ℕ
  pub nlink : ℕ
  pub size : ℕ
  pub atime : ℕ
  pub mtime : ℕ
  pub ctime : ℕ

-- `struct fuse_entry_param`
pub record Entry : Type 0 where
  pub ino : ℕ
  pub attr : Stat

-- The error numbers that are sent; `success` is 0.
pub data Errno : Type 0 where
  success enoent eexist enosys enotdir enotempty : Errno

pub data Reply : Type 0 where
  error : Errno → Reply
  attributes : Stat → Reply
  buffer : Bytes → Reply
  wrote : ℕ → Reply
  entry : Entry → Reply
  created : Entry → Reply
  opened : Reply
  statfs : (namemax : ℕ) (bsize : ℕ) → Reply
  link : Bytes → Reply

-- `struct dirbuf`
pub record DirBuf : Type 0 where
  pub p : Bytes
  pub size : ℕ

-- What libfuse does with a directory entry: its size, by the length of the name, and its bytes, by
-- the name, the inode number and the offset of the next entry.
pub record DirentFormat : Type 0 where
  pub dirent_size : ℕ → ℕ
  pub dirent : Bytes → ℕ → ℕ → Bytes
