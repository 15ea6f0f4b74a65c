-- ===== src/Examples/Yfs.antt =====
-- yfs_client.cc over an extent client that is a function from numbers to contents.
use cse.Base.{
  ℕ, ◌+◌, ◌%◌, ◌≡◌, refl, ◌⊎◌, true, false, some, none, [], ◌∷◌, ◌++◌, arith, ◌==◌, if◌then◌else◌,
  Returns, Safely,
}
use cse.Base.Bytes.{bytes_eq, Bytes, codes}
use cse.InodeManager.{Attr}
use cse.Directory.{Dirent, find_in, delent_loop}
use cse.Directory.Text.{serialize}
use cse.YfsClient.{ExtentService, acquire, release, World, ok, rpcerr}
use cse.YfsClient.Content.Laws.{Written}
use cse.YfsClient.Operations
use cse.YfsClient.Operations.{◌>>=◌}
use cse.YfsClient.Transfer.{write-Returns, read-write}
use cse.Fuse.{error, success}
use cse.Fuse.Handlers
use cse.Fuse.Existing.{Refused, existing_name-Refused, fuseserver_unlink-Returns}
use cse.Directory.Names.{IsFirst, without}
use cse.YfsClient.Locks.{write, lock_calls, perform, perform-locks, readlink_keeps_lock}
use cse.YfsClient.Directories.{
  ExtentLaws, IsDir, SameBut, SameAll, LookedUp, lookup-Returns, readdir-Returns,
  unlink_never_removes,
}

abbrev no_attr : Attr
no_attr = record { type = 0; atime = 0; mtime = 0; ctime = 0; size = 0 }

abbrev Store : Type 0
Store = ℕ × (ℕ → Bytes)

abbrev store : ExtentService Store
store = record {
  get = λ i s. some ((true, s.1 i), s);
  getattr = λ i s. some ((true, no_attr), s);
  put = λ i buf s. some (true, (s.0, λ j. if j == i then buf else s.1 j));
  create = λ type s. some ((true, s.0 % 1000 + 2), (s.0 + 1, s.1));
  remove = λ i s. some (true, (s.0, λ j. if j == i then [] else s.1 j));
}

abbrev store_laws : ExtentLaws store
store_laws = record {
  content = λ s. s.1;
  Serves = λ s i. Unit {0};
  Fits = λ i buf. Unit {0};
  get_lem = λ i s h. (refl, refl, (λ j. refl), (λ j k. k));
  put_lem = λ i buf s h fits. (refl, (λ j. refl), (λ j k. k));
}

abbrev memo : Dirent
memo = record { name = codes "memo"; inum = 17 }

abbrev world : World Store
world = record { extents = (0, λ i. if i == 1 then codes "memo/17/" else []); locks = [] }

world_text : codes "memo/17/" ≡ serialize (memo ∷ [])
unfolding serialize cse.Directory.print_entry cse.Directory.Decimal.print
world_text = refl

root-IsDir : IsDir store store_laws 99 world.extents 1 (memo ∷ [])
root-IsDir = (world_text, ((ground arith, omega arith), tt))

memo-IsFirst : IsFirst (codes "memo") (memo ∷ []) memo
memo-IsFirst = ([], [], refl, refl, tt)

lookup-Returns_example :
    Returns
      (λ r.
        LookedUp store store_laws 99 (codes "memo") (memo ∷ []) r.0
        × SameAll store store_laws 99 world.extents r.1.extents)
      (Operations.lookup store 99 1 (codes "memo") false 0 world)
lookup-Returns_example =
    lookup-Returns store store_laws 99 1 (codes "memo") false 0 (memo ∷ []) world tt root-IsDir

readdir-Returns_example :
    Returns
      (λ r. (r.0 ≡ (ok, [] ++ (memo ∷ []))) × SameAll store store_laws 99 world.extents r.1.extents)
      (Operations.readdir store 99 1 [] world)
readdir-Returns_example = readdir-Returns store store_laws 99 1 [] (memo ∷ []) world tt root-IsDir

unlink_never_removes_example :
    Operations.unlink (record store { remove = λ i s. none }) 99 1 (codes "memo") world
    ≡ Operations.unlink store 99 1 (codes "memo") world
unlink_never_removes_example = unlink_never_removes store (λ i s. none) 99 1 (codes "memo") world

perform-locks_example :
    Safely
      (λ r. r.1.locks ≡ lock_calls (write 17 2 4 (codes "xy")) ++ [])
      (perform store 99 (write 17 2 4 (codes "xy")) world)
perform-locks_example = perform-locks store 99 (write 17 2 4 (codes "xy")) world

-- An extent client that fails.
abbrev broken : ExtentService Store
broken = record store { get = λ i s. some ((false, []), s) }

abbrev still_locked : World Store
still_locked = record world { locks = acquire 17 ∷ [] }

readlink_fails : Operations.readlink broken 99 17 world ≡ some ((rpcerr, []), still_locked)
unfolding Operations.readlink
readlink_fails = refl

readlink_keeps_lock_example :
    ((rpcerr ≡ ok) × (still_locked.locks ≡ release 17 ∷ acquire 17 ∷ []))
    ⊎ ((rpcerr ≡ rpcerr) × (still_locked.locks ≡ acquire 17 ∷ []))
readlink_keeps_lock_example =
    readlink_keeps_lock broken 99 17 world still_locked rpcerr [] readlink_fails

existing_name-Refused_example :
    Returns
      (Refused store store_laws 99 world)
      (Handlers.fuseserver_create store 99 1 (codes "memo") world)
    × Returns
        (Refused store store_laws 99 world)
        (Handlers.fuseserver_mknod store 99 1 (codes "memo") world)
    × Returns
        (Refused store store_laws 99 world)
        (Handlers.fuseserver_mkdir store 99 1 (codes "memo") world)
existing_name-Refused_example =
    existing_name-Refused store store_laws 99 1 (codes "memo") (memo ∷ []) memo world tt root-IsDir
      memo-IsFirst (λ e. omega (arith, e))

fuseserver_unlink-Returns_example :
    Returns
      (λ r.
        (r.0 ≡ error success)
        × IsDir store store_laws 99 r.1.extents 1 []
        × SameBut store store_laws 99 1 world.extents r.1.extents)
      (Handlers.fuseserver_unlink store 99 1 (codes "memo") world)
unfolding without bytes_eq
fuseserver_unlink-Returns_example =
    fuseserver_unlink-Returns store store_laws 99 1 (codes "memo") (memo ∷ []) world tt tt
      root-IsDir ((λ e. omega (arith, e)), tt)

-- Writing two bytes behind the end of an empty file, which leaves a hole.
write-Returns_example :
    Returns
      (λ r.
        (r.0 ≡ ok)
        × Written [] 2 3 (codes "xy") (r.1.extents.1 17)
        × SameBut store store_laws 99 17 world.extents r.1.extents)
      (Operations.write store 99 17 2 3 (codes "xy") world)
write-Returns_example =
    write-Returns store store_laws 99 17 2 3 (codes "xy") world refl (omega arith) (omega arith) tt
      (λ new e. tt)

read-write_example :
    Returns
      (λ r. r.0 ≡ (ok, codes "xy"))
      ((Operations.write store 99 17 2 3 (codes "xy") >>= λ _. Operations.read store 99 17 2 3 [])
        world)
read-write_example =
    read-write store store_laws 99 17 2 3 (codes "xy") [] world refl (omega arith) (omega arith)
      (omega arith) tt (λ new e. tt)

-- A link with a new name.
