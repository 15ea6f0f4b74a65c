-- ===== src/YfsClient/Operations.antt =====
-- yfs_client.cc: the operations, with every call of the lock client and of the extent client. A
-- reference parameter is an argument and part of the result.
use cse.Base.{
  ℕ, Bool, true, false, not, Option, none, some, List, [], ◌∷◌, ◌==◌, if◌then◌else◌, take,
}
use cse.Base.Bytes.{Bytes}
use cse.InodeManager.Files.{t_dir, t_file, t_link}
use cse.Directory.{Dirent, directory, find, getdir, addent, delent, tostring}
use cse.YfsClient.{
  ExtentService, acquire, release, World, Status, ok, rpcerr, noent, ioerr, exist, creerr, wrterr,
  readerr, FileInfo, DirInfo,
}
use cse.YfsClient.Content.{resized, slice, written}

abbrev pub M : Type 0 → Type 0 → Type 0
M S A = World S → Option (A × World S)

infixl 5 ◌>>=◌ ◌>>◌
abbrev pub ◌>>=◌ : {S A B : Type 0} → M S A → (A → M S B) → M S B
◌>>=◌ m f w = elim (m w) [ none ↦ none | some (a, w') ↦ f a w' ]

abbrev pub ◌>>◌ : {S B : Type 0} → M S (Unit {0}) → M S B → M S B
m >> k = m >>= λ _. k

abbrev pub return : {S A : Type 0} → A → M S A
return a w = some (a, w)

-- `lc->acquire(i)` and `lc->release(i)`
abbrev pub lock : {S : Type 0} → ℕ → M S (Unit {0})
lock i w = some (tt, record w { locks = acquire i ∷ w.locks })

abbrev pub unlock : {S : Type 0} → ℕ → M S (Unit {0})
unlock i w = some (tt, record w { locks = release i ∷ w.locks })

-- A call of the extent client.
abbrev pub ec : {S A : Type 0} → (S → Option (A × S)) → M S A
ec m w = elim (m w.extents) [ none ↦ none | some (a, s) ↦ some (a, record w { extents = s }) ]

abbrev pub or_fault : {S A : Type 0} → Option A → M S A
or_fault none w = none
or_fault (some a) w = some (a, w)

-- The second parameter is what an uninitialised `finum` of the directory's constructor holds.
module _ {S : Type 0} (E : ExtentService S) (junk : ℕ) where
  -- The body of `isfile`, `islink` and `isdir`
  abbrev pub has_type : ℕ → ℕ → M S Bool
  has_type t i = do
    lock i
    (got, a) ← ec (E.getattr i)
    unlock i
    return (if got then a.type == t else false)

  unfoldable pub isfile : ℕ → M S Bool
  isfile = has_type t_file

  unfoldable pub islink : ℕ → M S Bool
  islink = has_type t_link

  unfoldable pub isdir : ℕ → M S Bool
  isdir = has_type t_dir

  unfoldable pub getfile : ℕ → FileInfo → M S (Status × FileInfo)
  getfile i fin = do
    lock i
    (got, a) ← ec (E.getattr i)
    unlock i
    return (
        if got
        then (ok, record { size = a.size; atime = a.atime; mtime = a.mtime; ctime = a.ctime })
        else (ioerr, fin))

  unfoldable pub getdir_info : ℕ → DirInfo → M S (Status × DirInfo)
  getdir_info i din = do
    lock i
    (got, a) ← ec (E.getattr i)
    unlock i
    return (
        if got
        then (ok, record { atime = a.atime; mtime = a.mtime; ctime = a.ctime })
        else (ioerr, din))

  -- The end of an operation on one inode: its lock is given back.
  abbrev pub finish : {A : Type 0} → ℕ → A → M S A
  finish i r = do unlock i; return r

  unfoldable pub setattr : ℕ → ℕ → M S Status
  setattr i size = do
    lock i
    (got, a) ← ec (E.getattr i)
    if not got then finish i rpcerr else if a.size == size then finish i ok else (do
      (read, file_str) ← ec (E.get i)
      if not read then finish i rpcerr else (do
        new ← or_fault (resized file_str a.size size)
        put ← ec (E.put i new)
        finish i (if put then ok else rpcerr)))

  -- The end of `create`, `mkdir` and `symlink`, which hold two locks.
  abbrev pub finish_two : {A : Type 0} → ℕ → A → M S A
  finish_two parent r = do unlock 0; unlock parent; return r

  -- The body of `create` and `mkdir`
  abbrev pub create_entry : ℕ → ℕ → Bytes → ℕ → M S (Status × ℕ)
  create_entry type parent name ino_out = do
    lock 0
    lock parent
    (read, dir_str) ← ec (E.get parent)
    if not read
        then finish_two parent (readerr, ino_out)
        else if not (find name (directory junk dir_str) == 0)
        then finish_two parent (exist, ino_out)
        else (do
          (made, i) ← ec (E.create type)
          if not made then finish_two parent (creerr, i) else (do
            let dire : Dirent = record { name = name; inum = i }
            put ← ec (E.put parent (tostring (addent dire (directory junk dir_str))))
            finish_two parent ((if put then ok else wrterr), i)))

  unfoldable pub create : ℕ → Bytes → ℕ → M S (Status × ℕ)
  create = create_entry t_file

  unfoldable pub mkdir : ℕ → Bytes → ℕ → M S (Status × ℕ)
  mkdir = create_entry t_dir

  unfoldable pub lookup : ℕ → Bytes → Bool → ℕ → M S (Status × Bool × ℕ)
  lookup parent name found ino_out = do
    lock parent
    (read, dir_str) ← ec (E.get parent)
    if not read then finish parent (readerr, found, ino_out) else (do
      let i = find name (directory junk dir_str)
      if i == 0 then finish parent (noent, false, i) else finish parent (ok, true, i))

  unfoldable pub readdir : ℕ → List Dirent → M S (Status × List Dirent)
  readdir dir list = do
    lock dir
    (read, dir_str) ← ec (E.get dir)
    if not read
        then finish dir (readerr, list)
        else finish dir (ok, getdir list (directory junk dir_str))

  unfoldable pub read : ℕ → ℕ → ℕ → Bytes → M S (Status × Bytes)
  read i size off content = do
    lock i
    (got, file_str) ← ec (E.get i)
    if not got then finish i (rpcerr, content) else finish i (ok, slice file_str size off)

  -- `bytes_written` is not assigned.
  unfoldable pub write : ℕ → ℕ → ℕ → Bytes → M S Status
  write i size off content = do
    lock i
    (got, file_str) ← ec (E.get i)
    if not got then finish i rpcerr else (do
      new ← or_fault (written file_str size off (take size content))
      put ← ec (E.put i new)
      finish i (if put then ok else rpcerr))

  -- `finum = direct.find(name_str)==0` stores the comparison, and `!finum == 0` negates first.
  unfoldable pub unlink : ℕ → Bytes → M S Status
  unlink parent name = do
    lock parent
    (got, dir_str) ← ec (E.get parent)
    if not got then finish parent readerr else (do
      let finum : ℕ = if find name (directory junk dir_str) == 0 then 1 else 0
      if not (finum == 0) then finish parent ok else (do
        put ← ec (E.put parent (tostring (delent name (directory junk dir_str))))
        (if (if finum == 0 then 1 else 0) == 0
            then (do lock finum; _ ← ec (E.remove finum); unlock finum)
            else return tt)
        finish parent (if put then ok else wrterr)))

  unfoldable pub symlink : ℕ → Bytes → Bytes → ℕ → M S (Status × ℕ)
  symlink parent link name ino_out = do
    lock 0
    lock parent
    (got, dir_str) ← ec (E.get parent)
    if not got
        then finish_two parent (readerr, ino_out)
        else if not (find name (directory junk dir_str) == 0)
        then finish_two parent (exist, ino_out)
        else (do
          (made, i) ← ec (E.create t_link)
          if not made then finish_two parent (creerr, i) else (do
            _ ← ec (E.put i link)
            let dire : Dirent = record { name = name; inum = i }
            put ← ec (E.put parent (tostring (addent dire (directory junk dir_str))))
            finish_two parent ((if put then ok else wrterr), i)))

  -- Where the content cannot be read the lock is kept.
  unfoldable pub readlink : ℕ → M S (Status × Bytes)
  readlink i = do
    lock i
    (got, link) ← ec (E.get i)
    if not got then return (rpcerr, link) else finish i (ok, link)

  -- The constructor, which makes the root directory empty.
  unfoldable pub init : M S Bool
  init = ec (E.put 1 [])
