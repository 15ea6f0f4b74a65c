-- ===== src/Handle.antt =====
-- handle.h and handle.cc: the cache of RPC connections. An `hinfo` and an `rpcc` live at an address; a
-- deleted one is gone from the state, and to use it, which the source leaves undefined, is `none`.
pub mod Invariant
pub mod Removal
pub mod Safety
pub mod Runs
use cse.Base.{
  ℕ, ◌+◌, ◌-◌, ◌%◌, ◌^◌, Bool, true, false, Option, none, some, ◌==◌, ◌&&◌, if◌then◌else◌,
}
use cse.Base.Bytes.{Bytes, bytes_eq}

-- `struct hinfo`. `refcnt` is an `int`, kept as its 32 bits; where the source would
-- count it beyond the greatest or the least `int`, which is undefined, the result is `none`.
pub record HInfo : Type 0 where
  pub cl : Option ℕ
  pub refcnt : ℕ
  pub del : Bool
  pub m : Bytes

-- `handle_mgr`, and the memory: which `hinfo` stands at an address, at which addresses a connection is
-- alive, and the next address that `new` gives.
pub record HandleMgr : Type 0 where
  pub hmap : Bytes → Option ℕ
  pub infos : ℕ → Option HInfo
  pub clients : ℕ → Bool
  pub next : ℕ

abbrev pub init : HandleMgr
init = record { hmap = λ m. none; infos = λ a. none; clients = λ c. false; next = 1 }

abbrev pub with_info : ℕ → Option HInfo → HandleMgr → HandleMgr
with_info a o s = record s { infos = λ j. if j == a then o else s.infos j }

abbrev pub with_name : Bytes → Option ℕ → HandleMgr → HandleMgr
with_name m o s = record s { hmap = λ n. if bytes_eq n m then o else s.hmap n }

abbrev pub with_client : ℕ → Bool → HandleMgr → HandleMgr
with_client c b s = record s { clients = λ j. if j == c then b else s.clients j }

-- `get_handle` of a name that is not in the map, and of one that is; NULL is `none`.
abbrev pub new_info : Bytes → HInfo
new_info m = record { cl = none; refcnt = 1; del = false; m = m }

unfoldable pub get_new : Bytes → HandleMgr → Option ℕ × HandleMgr
get_new m s = (
  some s.next,
  record (with_name m (some s.next) (with_info s.next (some (new_info m)) s)) { next = s.next + 1 },
)

unfoldable pub get_known : ℕ → HInfo → HandleMgr → Option (Option ℕ × HandleMgr)
get_known a h s =
    if h.del
    then some (none, s)
    else if h.refcnt + 1 == 2 ^ 31
    then none
    else some (some a, with_info a (some (record h { refcnt = (h.refcnt + 1) % 2 ^ 32 })) s)

unfoldable pub get_handle : Bytes → HandleMgr → Option (Option ℕ × HandleMgr)
unfolding get_new get_known
get_handle m s = elim (s.hmap m) [
  | none ↦ some (get_new m s)
  | some a ↦ elim (s.infos a) [ none ↦ none | some h ↦ get_known a h s ]
]

-- `h->cl->cancel(); delete h->cl`, where there is a connection
unfoldable pub delete_client : Option ℕ → HandleMgr → Option HandleMgr
delete_client none s = some s
delete_client (some c) s = if s.clients c then some (with_client c false s) else none

unfoldable pub delete_info : Bytes → ℕ → HInfo → HandleMgr → Option HandleMgr
unfolding delete_client
delete_info m a h s = elim (delete_client h.cl s) [
  | none ↦ none
  | some t ↦ some (with_info a none (with_name m none t))
]

unfoldable pub delete_found : Bytes → ℕ → HInfo → HandleMgr → Option HandleMgr
unfolding delete_info
delete_found m a h s =
    if h.refcnt == 0
    then delete_info m a h s
    else some (with_info a (some (record h { del = true })) s)

unfoldable pub delete_handle_wo : Bytes → HandleMgr → Option HandleMgr
unfolding delete_found
delete_handle_wo m s = elim (s.hmap m) [
  | none ↦ some s
  | some a ↦ elim (s.infos a) [ none ↦ none | some h ↦ delete_found m a h s ]
]

unfoldable pub delete_handle : Bytes → HandleMgr → Option HandleMgr
unfolding delete_handle_wo
delete_handle m s = delete_handle_wo m s

unfoldable pub done_info : ℕ → HInfo → HandleMgr → Option HandleMgr
unfolding delete_handle_wo
done_info a h s =
    let r = (h.refcnt + 2 ^ 32 - 1) % 2 ^ 32 in
    let t = with_info a (some (record h { refcnt = r })) s in
    if h.refcnt == 2 ^ 31
    then none
    else if (r == 0) && h.del
    then delete_handle_wo h.m t
    else some t

unfoldable pub done_handle : ℕ → HandleMgr → Option HandleMgr
unfolding done_info
done_handle a s = elim (s.infos a) [ none ↦ none | some h ↦ done_info a h s ]

-- `handle::~handle`
unfoldable pub destroy : Option ℕ → HandleMgr → Option HandleMgr
unfolding done_handle
destroy none s = some s
destroy (some a) s = done_handle a s

-- The rest of `safebind` where there is no connection: a new one is made, and deleted again where its
-- `bind` fails. Whether it does is the first argument.
unfoldable pub bind_info : Bool → ℕ → HInfo → HandleMgr → Option ℕ × HandleMgr
bind_info bound a h s =
    if bound
    then (
      some s.next,
      with_client s.next true
          (with_info a (some (record h { cl = some s.next })) (record s { next = s.next + 1 })),
    )
    else (none, with_info a (some (record h { del = true })) (record s { next = s.next + 1 }))

unfoldable pub safebind_info : Bool → ℕ → HInfo → HandleMgr → Option ℕ × HandleMgr
unfolding bind_info
safebind_info bound a h s =
    if h.del then (none, s) else elim h.cl [ none ↦ bind_info bound a h s | some c ↦ (some c, s) ]

unfoldable pub safebind : Bool → Option ℕ → HandleMgr → Option (Option ℕ × HandleMgr)
unfolding safebind_info
safebind bound none s = some (none, s)
safebind bound (some a) s = elim (s.infos a) [
  | none ↦ none
  | some h ↦ some (safebind_info bound a h s)
]
