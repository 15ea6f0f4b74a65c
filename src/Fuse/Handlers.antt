-- ===== src/Fuse/Handlers.antt =====
-- fuse.cc: the functions. A handler is an operation that ends with the reply it sends.
use Prim.Native.Nat.{min}
use cse.Base.{
  ℕ, ◌+◌, ◌-◌, Bool, true, false, not, Option, some, none, List, [], ◌∷◌, ◌++◌, ltb, leb, ◌==◌,
  if◌then◌else◌, length, take, drop,
}
use cse.Base.Bytes.{Bytes}
use cse.InodeManager.Files.{t_dir, t_file}
use cse.Directory.{Dirent}
use cse.YfsClient.{ExtentService, Status, ok, noent, exist, FileInfo, DirInfo}
use cse.YfsClient.Operations
use cse.YfsClient.Operations.{M, ◌>>=◌, ◌>>◌, return}
use cse.Fuse.{
  Stat, Entry, success, enoent, eexist, enosys, enotdir, enotempty, Reply, error, attributes,
  buffer, wrote, entry, created, opened, statfs, link, DirBuf, DirentFormat,
}

abbrev pub is_ok : Status → Bool
is_ok ok = true
is_ok s = false

abbrev pub is_exist : Status → Bool
is_exist exist = true
is_exist s = false

abbrev pub is_noent : Status → Bool
is_noent noent = true
is_noent s = false

abbrev pub no_info : FileInfo
no_info = record { size = 0; atime = 0; mtime = 0; ctime = 0 }

abbrev no_dir_info : DirInfo
no_dir_info = record { atime = 0; mtime = 0; ctime = 0 }

-- `bzero(&st, sizeof(st)); st.st_ino = inum;`
abbrev pub blank_stat : ℕ → Stat
blank_stat i = record { ino = i; mode = 0; nlink = 0; size = 0; atime = 0; mtime = 0; ctime = 0 }

-- `S_IFREG | 0666`, `S_IFDIR | 0777` and `S_IFLNK | 0777`
abbrev pub regular_mode : ℕ
regular_mode = 0o100666

abbrev pub directory_mode : ℕ
directory_mode = 0o040777

abbrev pub link_mode : ℕ
link_mode = 0o120777

abbrev pub file_stat : ℕ → ℕ → FileInfo → Stat
file_stat i mode info = record {
  ino = i;
  mode = mode;
  nlink = 1;
  size = info.size;
  atime = info.atime;
  mtime = info.mtime;
  ctime = info.ctime;
}

-- A directory's size is not set.
abbrev pub dir_stat : ℕ → DirInfo → Stat
dir_stat i info = record {
  ino = i;
  mode = directory_mode;
  nlink = 2;
  size = 0;
  atime = info.atime;
  mtime = info.mtime;
  ctime = info.ctime;
}

-- The bytes of a C string, up to the first 0.
unfoldable pub c_str : Bytes → Bytes
c_str [] = []
c_str (c ∷ s) = let rest = c ∷ c_str s in if c == 0 then [] else rest

unfoldable pub dirbuf_add : DirentFormat → DirBuf → Bytes → ℕ → DirBuf
dirbuf_add fmt b name ino =
    let size = b.size + fmt.dirent_size (length name) in
    record { p = b.p ++ fmt.dirent name ino size; size = size }

unfoldable pub dirbuf_all : DirentFormat → DirBuf → List Dirent → DirBuf
unfolding dirbuf_add
dirbuf_all fmt b [] = b
dirbuf_all fmt b (e ∷ es) = dirbuf_all fmt (dirbuf_add fmt b e.name e.inum) es

-- The reply of `n` bytes of a buffer from `off` on. To read behind its end is undefined.
abbrev pub reply_buf : Bytes → ℕ → ℕ → Option Reply
reply_buf buf off n =
    if leb (off + n) (length buf) then some (buffer (take n (drop off buf))) else none

unfoldable pub reply_buf_limited : Bytes → ℕ → ℕ → ℕ → Option Reply
reply_buf_limited buf bufsize off maxsize =
    if ltb off bufsize then reply_buf buf off (min (bufsize - off) maxsize) else some (buffer [])

-- The error reply of the handlers that make an entry.
abbrev pub entry_error : Status → Reply
entry_error s = if is_exist s then error eexist else error enoent

module _ {S : Type 0} (E : ExtentService S) (junk : ℕ) where
  -- `isfile` is asked once more for the trace that is printed.
  unfoldable pub getattr : ℕ → M S (Status × Stat)
  unfolding Operations.isfile Operations.isdir Operations.getfile Operations.getdir_info
  getattr i = do
    _ ← Operations.isfile E junk i
    file ← Operations.isfile E junk i
    if file
        then (do
          (ret, info) ← Operations.getfile E junk i no_info
          return (ret, (if is_ok ret then file_stat i regular_mode info else blank_stat i)))
        else (do
          dir ← Operations.isdir E junk i
          if dir
              then (do
                (ret, info) ← Operations.getdir_info E junk i no_dir_info
                return (ret, (if is_ok ret then dir_stat i info else blank_stat i)))
              else (do
                (ret, info) ← Operations.getfile E junk i no_info
                return (ret, (if is_ok ret then file_stat i link_mode info else blank_stat i))))

  unfoldable pub fuseserver_getattr : ℕ → M S Reply
  unfolding getattr
  fuseserver_getattr i = do
    (ret, st) ← getattr i
    return (if is_ok ret then attributes st else error enoent)

  -- The Boolean says whether `to_set` has the bit FUSE_SET_ATTR_SIZE. The status of `setattr` and of
  -- `getattr` is not looked at.
  unfoldable pub fuseserver_setattr : ℕ → ℕ → Bool → M S Reply
  unfolding Operations.setattr getattr
  fuseserver_setattr i size size_bit =
      if size_bit
      then (do _ ← Operations.setattr E junk i size; (_, st) ← getattr i; return (attributes st))
      else return (error enosys)

  unfoldable pub fuseserver_read : ℕ → ℕ → ℕ → M S Reply
  unfolding Operations.read
  fuseserver_read i size off = do
    (r, buf) ← Operations.read E junk i size off []
    return (if is_ok r then buffer buf else error enoent)

  unfoldable pub fuseserver_write : ℕ → Bytes → ℕ → ℕ → M S Reply
  unfolding Operations.write
  fuseserver_write i buf size off = do
    r ← Operations.write E junk i size off buf
    return (if is_ok r then wrote size else error enoent)

  -- The status and the entry, which is complete where the status is OK.
  unfoldable pub fuseserver_createhelper : ℕ → Bytes → ℕ → M S (Status × Entry)
  unfolding Operations.create Operations.mkdir getattr
  fuseserver_createhelper parent name type = do
    (ret, i) ←
        if type == t_file
        then Operations.create E junk parent name 0
        else Operations.mkdir E junk parent name 0
    if is_ok ret
        then (do (ret', st) ← getattr i; return (ret', record { ino = i; attr = st }))
        else return (ret, record { ino = i; attr = blank_stat i })

  unfoldable pub fuseserver_create : ℕ → Bytes → M S Reply
  unfolding fuseserver_createhelper
  fuseserver_create parent name = do
    (ret, e) ← fuseserver_createhelper parent name t_file
    return (if is_ok ret then created e else entry_error ret)

  unfoldable pub fuseserver_mknod : ℕ → Bytes → M S Reply
  unfolding fuseserver_createhelper
  fuseserver_mknod parent name = do
    (ret, e) ← fuseserver_createhelper parent name t_file
    return (if is_ok ret then entry e else entry_error ret)

  unfoldable pub fuseserver_lookup : ℕ → Bytes → M S Reply
  unfolding Operations.lookup getattr
  fuseserver_lookup parent name = do
    (_, found, i) ← Operations.lookup E junk parent name false 0
    if found
        then (do (_, st) ← getattr i; return (entry (record { ino = i; attr = st })))
        else return (error enoent)

  unfoldable pub fuseserver_readdir : DirentFormat → ℕ → ℕ → ℕ → M S Reply
  unfolding Operations.isdir Operations.readdir dirbuf_all reply_buf_limited
  fuseserver_readdir fmt i size off = do
    dir ← Operations.isdir E junk i
    if not dir then return (error enotdir) else (do
      (_, entries) ← Operations.readdir E junk i []
      let b = dirbuf_all fmt (record { p = []; size = 0 }) entries
      Operations.or_fault (reply_buf_limited b.p b.size off size))

  unfoldable pub fuseserver_open : ℕ → M S Reply
  fuseserver_open i = return opened

  unfoldable pub fuseserver_mkdir : ℕ → Bytes → M S Reply
  unfolding fuseserver_createhelper
  fuseserver_mkdir parent name = do
    (ret, e) ← fuseserver_createhelper parent name t_dir
    return (if is_ok ret then entry e else entry_error ret)

  unfoldable pub fuseserver_unlink : ℕ → Bytes → M S Reply
  unfolding Operations.unlink
  fuseserver_unlink parent name = do
    r ← Operations.unlink E junk parent name
    return (if is_ok r then error success else if is_noent r then error enoent else error enotempty)

  unfoldable pub fuseserver_statfs : M S Reply
  fuseserver_statfs = return (statfs 255 512)

  unfoldable pub fuseserver_symlink : Bytes → ℕ → Bytes → M S Reply
  unfolding Operations.symlink getattr
  fuseserver_symlink target parent name = do
    (ret, i) ← Operations.symlink E junk parent target name 0
    if is_ok ret
        then (do
          (ret', st) ← getattr i
          return (if is_ok ret' then entry (record { ino = i; attr = st }) else error enoent))
        else return (entry_error ret)

  unfoldable pub fuseserver_readlink : ℕ → M S Reply
  unfolding Operations.readlink c_str
  fuseserver_readlink i = do
    (ret, buf) ← Operations.readlink E junk i
    return (if is_ok ret then link (c_str buf) else error enoent)
