-- ===== src/YfsClient/Locks.antt =====
-- Which locks the operations of `yfs_client` take, and whether they give them back.
use cse.Base.{ℕ, ◌≡◌, Bool, some, List, [], ◌∷◌, ◌++◌, arith, Safely, ◌⊎◌}
use cse.Base.Bytes.{Bytes}
use cse.Directory.{Dirent}
use cse.YfsClient.{
  ExtentService, LockCall, acquire, release, World, Status, ok, rpcerr, FileInfo, DirInfo,
}
use cse.YfsClient.Operations
use cse.YfsClient.Operations.{M, ◌>>=◌, ◌>>◌, return}

-- A call of an operation, with its arguments.
pub data Call : Type 0 where
  isfile islink isdir : ℕ → Call
  getfile : ℕ → FileInfo → Call
  getdir_info : ℕ → DirInfo → Call
  setattr : ℕ → ℕ → Call
  create mkdir : ℕ → Bytes → ℕ → Call
  lookup : ℕ → Bytes → Bool → ℕ → Call
  readdir : ℕ → List Dirent → Call
  read : ℕ → ℕ → ℕ → Bytes → Call
  write : ℕ → ℕ → ℕ → Bytes → Call
  unlink : ℕ → Bytes → Call
  symlink : ℕ → Bytes → Bytes → ℕ → Call

-- The locks that an operation takes and gives back, the last call first: that of its inode, or lock 0
-- and that of the parent directory.
abbrev one_lock : ℕ → List LockCall
one_lock i = release i ∷ acquire i ∷ []

abbrev two_locks : ℕ → List LockCall
two_locks i = release i ∷ release 0 ∷ acquire i ∷ acquire 0 ∷ []

abbrev pub lock_calls : Call → List LockCall
lock_calls (isfile i) = one_lock i
lock_calls (islink i) = one_lock i
lock_calls (isdir i) = one_lock i
lock_calls (getfile i fin) = one_lock i
lock_calls (getdir_info i din) = one_lock i
lock_calls (setattr i size) = one_lock i
lock_calls (create i name out) = two_locks i
lock_calls (mkdir i name out) = two_locks i
lock_calls (lookup i name found out) = one_lock i
lock_calls (readdir i list) = one_lock i
lock_calls (read i size off content) = one_lock i
lock_calls (write i size off content) = one_lock i
lock_calls (unlink i name) = one_lock i
lock_calls (symlink i target name out) = two_locks i

module _ {S : Type 0} (E : ExtentService S) (junk : ℕ) where
  abbrev ignore : {A : Type 0} → M S A → M S (Unit {0})
  ignore m = m >>= λ _. return tt

  -- The operation, without its result.
  pub perform : Call → M S (Unit {0})
  unfolding Operations.isfile Operations.islink Operations.isdir Operations.getfile
      Operations.getdir_info Operations.setattr Operations.create Operations.mkdir Operations.lookup
      Operations.readdir Operations.read Operations.write Operations.unlink Operations.symlink
  perform (isfile i) = ignore (Operations.isfile E junk i)
  perform (islink i) = ignore (Operations.islink E junk i)
  perform (isdir i) = ignore (Operations.isdir E junk i)
  perform (getfile i fin) = ignore (Operations.getfile E junk i fin)
  perform (getdir_info i din) = ignore (Operations.getdir_info E junk i din)
  perform (setattr i size) = ignore (Operations.setattr E junk i size)
  perform (create i name out) = ignore (Operations.create E junk i name out)
  perform (mkdir i name out) = ignore (Operations.mkdir E junk i name out)
  perform (lookup i name found out) = ignore (Operations.lookup E junk i name found out)
  perform (readdir i list) = ignore (Operations.readdir E junk i list)
  perform (read i size off content) = ignore (Operations.read E junk i size off content)
  perform (write i size off content) = ignore (Operations.write E junk i size off content)
  perform (unlink i name) = ignore (Operations.unlink E junk i name)
  perform (symlink i target name out) = ignore (Operations.symlink E junk i target name out)

  -- Whatever the extent client answers, if an operation other than `readlink` returns, it has taken
  -- the lock of its inode, or lock 0 and that of the parent directory, and no other, and has given
  -- back each lock that it has taken.
  pub perform-locks :
      (c : Call) (w : World S) → Safely (λ r. r.1.locks ≡ lock_calls c ++ w.locks) (perform c w)
  unfolding perform
  perform-locks (isfile i) w = ground arith
  perform-locks (islink i) w = ground arith
  perform-locks (isdir i) w = ground arith
  perform-locks (getfile i fin) w = ground arith
  perform-locks (getdir_info i din) w = ground arith
  perform-locks (setattr i size) w = ground arith
  perform-locks (create i name out) w = ground arith
  perform-locks (mkdir i name out) w = ground arith
  perform-locks (lookup i name found out) w = ground arith
  perform-locks (readdir i list) w = ground arith
  perform-locks (read i size off content) w = ground arith
  perform-locks (write i size off content) w = ground arith
  perform-locks (unlink i name) w = ground arith
  perform-locks (symlink i target name out) w = ground arith

  -- If `readlink` returns, it returns OK and has given back the lock of its inode, or RPCERR and
  -- still holds the lock.
  pub readlink_keeps_lock :
      (i : ℕ) (w w' : World S) (st : Status) (target : Bytes)
      → Operations.readlink E junk i w ≡ some ((st, target), w')
      → ((st ≡ ok) × (w'.locks ≡ one_lock i ++ w.locks))
        ⊎ ((st ≡ rpcerr) × (w'.locks ≡ acquire i ∷ w.locks))
  unfolding Operations.readlink
  readlink_keeps_lock i w w' st target h = ground arith
