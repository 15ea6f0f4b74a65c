-- ===== src/Extent/Handlers.antt =====
-- extent_server.cc and extent_client.cc: the handlers of the server and of its caching clients. An
-- RPC is a call of its handler, so a call of a client runs to its end before the next one begins.

use cse.Base.{
  ℕ, ◌%◌, ◌^◌, Bool, true, false, not, ◌&&◌, ◌||◌, Option, none, some, [], ◌==◌, if◌then◌else◌,
  length,
}
use cse.Base.Bytes.{Bytes, bytes_eq}
use cse.InodeManager.{Attr}
use cse.Extent.{Storage, FileData, fresh_data, System}

module _ (S : Storage) where
  abbrev pub M : Type 0 → Type 0
  M A = System S → Option (A × System S)

  infixl 5 ◌>>=◌ ◌>>◌
  abbrev pub ◌>>=◌ : {A B : Type 0} → M A → (A → M B) → M B
  ◌>>=◌ m f s = elim (m s) [ none ↦ none | some (a, s') ↦ f a s' ]

  abbrev pub ◌>>◌ : {B : Type 0} → M (Unit {0}) → M B → M B
  m >> k = m >>= λ _. k

  abbrev pub return : {A : Type 0} → A → M A
  return a s = some (a, s)

  -- A call of the inode manager.
  abbrev pub stored : {A : Type 0} → (S.State → Option (A × S.State)) → M A
  stored m s = elim (m s.store) [ none ↦ none | some (a, t) ↦ some (a, record s { store = t }) ]

  abbrev pub set_owner : ℕ → Bytes → M (Unit {0})
  set_owner id c s = some (tt, record s { owner = λ j. if j == id then some c else s.owner j })

  abbrev pub set_data : Bytes → ℕ → FileData → M (Unit {0})
  set_data c id f s =
      some
        (tt, record s { cache = λ x j. if bytes_eq x c && (j == id) then some f else s.cache x j })

  -- `id &= 0x7fffffff`
  abbrev pub mask : ℕ → ℕ
  mask id = id % 2 ^ 31

  -- extent_server::create and extent_server::put
  unfoldable pub server_create : Bytes → ℕ → M ℕ
  server_create clt type = stored (S.alloc_inode type)

  unfoldable pub server_put : Bytes → ℕ → Bytes → M (Unit {0})
  server_put clt id buf = stored (S.write_file (mask id) buf (length buf))

  -- extent_client::flush_handler
  unfoldable pub flush_cached : Bytes → ℕ → Option FileData → M (Unit {0})
  unfolding server_put
  flush_cached me eid none = return tt
  flush_cached me eid (some f) =
      if f.data_cached
      then (do
        server_put me eid f.file_data
        set_data me eid (record f { data_cached = false; attr_cached = false }))
      else return tt

  unfoldable pub flush_handler : Bytes → ℕ → M (Unit {0})
  unfolding flush_cached
  flush_handler me eid s = flush_cached me eid (s.cache me eid) s

  -- extent_client::flush_rm_handler and extent_client::get_attr_handler read the entry with no test
  -- that it is there.
  unfoldable pub flush_rm_cached : Bytes → ℕ → Option FileData → M (Unit {0})
  flush_rm_cached me eid none s = none
  flush_rm_cached me eid (some f) s =
      set_data me eid (record f { data_cached = false; attr_cached = false }) s

  unfoldable pub flush_rm_handler : Bytes → ℕ → M (Unit {0})
  unfolding flush_rm_cached
  flush_rm_handler me eid s = flush_rm_cached me eid (s.cache me eid) s

  unfoldable pub get_attr_handler : Bytes → ℕ → M Attr
  get_attr_handler me eid s = elim (s.cache me eid) [ none ↦ none | some f ↦ some (f.file_attr, s) ]

  -- `handle(c).safebind()->call(...)`: where no client answers at the address, `safebind` gives a
  -- null pointer. The parameter says who answers.
  module _ (reachable : Bytes → Bool) where
    unfoldable pub call : {A : Type 0} → Bytes → M A → M A
    call c m s = if reachable c then m s else none

    -- `owner` in `get`, `getattr` and `remove`: a file that nobody has becomes the caller's.
    unfoldable pub find_owner : Bytes → ℕ → M Bytes
    find_owner clt id s = elim (s.owner id) [
      | none ↦ (set_owner id clt >>= λ _. return clt) s
      | some c ↦ some (c, s)
    ]

    -- extent_server::get
    unfoldable pub server_get : Bytes → ℕ → M Bytes
    unfolding find_owner call flush_handler
    server_get clt eid = do
      let id = mask eid
      owner ← find_owner clt id
      (if bytes_eq owner clt then return tt else call owner (flush_handler owner id))
      set_owner id clt
      stored (S.read_file id)

    -- extent_server::getattr
    unfoldable pub server_getattr : Bytes → ℕ → M Attr
    unfolding find_owner call get_attr_handler
    server_getattr clt eid = do
      let id = mask eid
      owner ← find_owner clt id
      if bytes_eq owner clt then stored (S.getattr id) else call owner (get_attr_handler owner id)

    -- extent_server::remove
    unfoldable pub server_remove : Bytes → ℕ → M (Unit {0})
    unfolding find_owner call flush_rm_handler
    server_remove clt eid = do
      let id = mask eid
      owner ← find_owner clt id
      (if bytes_eq owner clt then return tt else call owner (flush_rm_handler owner id))
      set_owner id []
      stored (S.remove_file id)

    -- The client's operations. `junk` is what `new FileData()` leaves in `file_attr`.
    module _ (junk : Attr) where
      -- `fileManager[eid]`, created where it is missing
      unfoldable pub lookup_data : Bytes → ℕ → M FileData
      lookup_data me eid s = elim (s.cache me eid) [
        | none ↦ (set_data me eid (fresh_data junk) >>= λ _. return (fresh_data junk)) s
        | some f ↦ some (f, s)
      ]

      -- extent_client::create
      unfoldable pub client_create : Bytes → ℕ → M ℕ
      unfolding server_create
      client_create me type = server_create me type

      -- extent_client::getattr
      unfoldable pub client_getattr : Bytes → ℕ → M Attr
      unfolding lookup_data server_getattr
      client_getattr me eid = do
        f ← lookup_data me eid
        if f.attr_cached then return f.file_attr else (do
          a ← server_getattr me eid
          f' ← lookup_data me eid
          set_data me eid (record f' { file_attr = a; attr_cached = true })
          return a)

      -- The end of extent_client::get, which sets the access time. The clock is an argument.
      unfoldable pub touch : Bytes → ℕ → ℕ → M (Unit {0})
      unfolding lookup_data
      touch me eid now = do
        f ← lookup_data me eid
        set_data me eid (record f { file_attr = record f.file_attr { atime = now } })

      -- extent_client::get
      unfoldable pub client_get : Bytes → ℕ → ℕ → M Bytes
      unfolding lookup_data server_get client_getattr touch
      client_get me eid now = do
        f ← lookup_data me eid
        buf ← if f.data_cached then return f.file_data else (do
          b ← server_get me eid
          g ← lookup_data me eid
          set_data me eid (record g { file_data = b; data_cached = true })
          (if g.attr_cached then return tt else (client_getattr me eid >>= λ _. return tt))
          return b)
        touch me eid now
        return buf

      -- extent_client::put
      unfoldable pub client_put : Bytes → ℕ → Bytes → ℕ → M (Unit {0})
      unfolding lookup_data client_get
      client_put me eid buf now = do
        f ← lookup_data me eid
        (if not f.data_cached || not f.attr_cached
            then (client_get me eid now >>= λ _. return tt)
            else return tt)
        g ← lookup_data me eid
        let a = record g.file_attr { size = length buf % 2 ^ 32; ctime = now; mtime = now }
        set_data me eid
            (record { file_data = buf; file_attr = a; data_cached = true; attr_cached = true })

      -- extent_client::remove
      unfoldable pub client_remove : Bytes → ℕ → M (Unit {0})
      unfolding server_remove
      client_remove me eid = server_remove me eid
