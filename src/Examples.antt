-- ===== src/Examples.antt =====
-- Tests on concrete inputs, and the theorems applied to them.
mod Inodes
mod Files
mod Handles
mod Waiting
mod Creation
mod Paths
mod LockServer
mod Locking
mod Folders
mod Blocks
mod Yfs
mod Extents
mod Store
