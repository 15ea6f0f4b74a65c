-- ===== src/LockServer.antt =====
-- lock_server.cc: the lock server in which a client waits until it gets the lock, for one lock id. Each
-- RPC call runs in a thread of the server.
pub mod Runs
pub mod Answers
use cse.Base.{ℕ, Bool, true, false, not, ◌||◌, Option, none, some, ◌==◌, if◌then◌else◌}

-- `struct lock_data`. A `_lock` that is true is `FREE`.
pub record LockData : Type 0 where
  pub lock : Bool
  pub clt_id : ℕ

-- What a thread does: nothing, or it waits in `acquire` for a client, or has been woken there.
pub data Pc : Type 0 where
  outside : Pc
  waits woken : ℕ → Pc

pub record Server : Type 0 where
  pub entry : Option LockData
  pub pc : ℕ → Pc
  pub nacquire : ℕ

abbrev pub init : Server
init = record { entry = none; pc = λ t. outside; nacquire = 0 }

unfoldable pub stat : Server → ℕ
stat s = s.nacquire

-- `lock_map[lid]`, which makes an entry of zeros where there is none: it is locked, by client 0.
abbrev pub entry_or_new : Option LockData → LockData
entry_or_new none = record { lock = false; clt_id = 0 }
entry_or_new (some d) = d

abbrev pub with_pc : ℕ → Pc → Server → Server
with_pc t p s = record s { pc = λ u. if u == t then p else s.pc u }

abbrev pub take : ℕ → ℕ → Server → Server
take t clt s = record (with_pc t outside s) { entry = some (record { lock = false; clt_id = clt }) }

-- The test of the loop in `acquire`.
unfoldable pub acquire_loop : LockData → ℕ → ℕ → Server → Server
acquire_loop d t clt s = if not d.lock then with_pc t (waits clt) s else take t clt s

unfoldable pub acquire : ℕ → ℕ → Server → Server
unfolding acquire_loop
acquire t clt s = elim s.entry [ none ↦ take t clt s | some d ↦ acquire_loop d t clt s ]

-- A thread that `pthread_cond_wait` returns in.
unfoldable pub acquire_again : ℕ → ℕ → Server → Server
unfolding acquire_loop
acquire_again t clt s =
    let d = entry_or_new s.entry in acquire_loop d t clt (record s { entry = some d })

-- A waiting thread is woken.
unfoldable pub wake : Pc → ℕ → Server → Server
wake (waits clt) t s = with_pc t (woken clt) s
wake p t s = s

-- `pthread_cond_signal`, with the thread that it picks.
unfoldable pub signal : Option ℕ → Server → Server
unfolding wake
signal none s = s
signal (some t) s = wake (s.pc t) t s

-- `release`; `none` is that it waits.
unfoldable pub release : Option ℕ → ℕ → Server → Option Server
unfolding signal
release pick clt s =
    let d = entry_or_new s.entry in
    if not (d.clt_id == clt) || d.lock
    then none
    else some (signal pick (record s { entry = some (record d { lock = true }) }))
