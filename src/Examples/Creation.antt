-- ===== src/Examples/Creation.antt =====
-- inode_manager.cc: the first file on a blank disk.
use cse.Base.{◌+◌, ℕ, zero, suc, ◌*◌, ◌≡◌, refl, false, arith, replicate, All, Returns}
use cse.Disk.{blank, IsByte, IsBlock, IsDisk}
use cse.BlockManager.Bitmap.{allocated}
use cse.InodeManager.{Manager, alloc_inode, return}
use cse.InodeManager.Direct.{All-replicate}
use cse.InodeManager.Creation.{IsNewFile, alloc_inode-Returns}
use cse.InodeManager.Files.{free_chain, chain_bound, free_inode}
use cse.InodeManager.Removal.{free_inode_ends}
use cse.Examples.Inodes.{clock_env}

abbrev manager : Manager
manager = record { disk = blank; count = 0 }

blank-IsDisk : IsDisk blank
blank-IsDisk id = (refl, All-replicate 512)

bytes-IsByte : (n : ℕ) → All IsByte (replicate n 0xcd)
bytes-IsByte zero = tt
bytes-IsByte (suc n) = (omega arith, bytes-IsByte n)

memory-IsBlock : (n : ℕ) → IsBlock (clock_env.junk n)
memory-IsBlock n = (refl, bytes-IsByte 512)

inode_free : allocated blank (8 * 2) ≡ false
unfolding allocated cse.BlockManager.Bits.bit
inode_free = refl

data_free : allocated blank (8 * 514) ≡ false
unfolding allocated cse.BlockManager.Bits.bit
data_free = refl

alloc_inode-Returns_example : Returns (IsNewFile 2 manager) (alloc_inode clock_env 2 manager)
alloc_inode-Returns_example =
    alloc_inode-Returns clock_env 2 2 514 manager blank-IsDisk memory-IsBlock (omega arith)
      (omega arith) inode_free (omega arith) (omega arith) data_free

free_inode_ends_example :
    free_chain (return tt) (chain_bound + 1000) 7 manager ≡ free_inode 7 manager
free_inode_ends_example = free_inode_ends (return tt) 1000 7 manager blank-IsDisk
