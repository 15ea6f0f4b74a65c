-- ===== src/Examples/Inodes.antt =====
-- Runs of the inode manager on a fresh disk.
use cse.Base.{◌+◌, ◌≡◌, refl, Option, some, none, replicate}
use cse.Base.Bytes.{codes}
use cse.InodeManager.{Env, Manager, M, ◌>>=◌, ◌>>◌, return, alloc_inode, Attr}
use cse.InodeManager.Files

abbrev pub clock_env : Env
clock_env = record { time = λ n. n + 100; junk = λ n. replicate 512 0xcd }

abbrev from_start : {A : Type 0} → M A → Option A
from_start m = elim (Files.init clock_env) [
  | none ↦ none
  | some s ↦ elim (m s) [ none ↦ none | some (a, s') ↦ some a ]
]

second_inode : from_start (alloc_inode clock_env 2) ≡ some 5
unfolding Files.init cse.Disk.read_block cse.BlockManager.not_check cse.BlockManager.mark
second_inode = refl

write_then_read :
    from_start (do
      n ← alloc_inode clock_env 2
      Files.write_file clock_env n (codes "hello") 5
      Files.read_file clock_env n)
    ≡ some (codes "hello")
unfolding Files.init Files.write_file Files.read_file cse.BlockManager.not_check
    cse.BlockManager.mark cse.InodeManager.Layout.decode cse.InodeManager.Layout.encode
write_then_read = refl
