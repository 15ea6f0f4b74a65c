-- ===== src/LockServerCache.antt =====
-- lock_server_cache.h and lock_server_cache.cc: the caching lock server. Each handler runs its whole
-- table access under `lockManagerLock`; the call to a client that follows it is a message of the
-- result. A failed assertion and undefined behaviour are `none`.
pub mod Invariant
pub mod Handover
pub mod Queues
pub mod Runs
pub mod Owner
use cse.Base.{
  ℕ, ◌≡◌, refl, Bool, true, false, not, ◌&&◌, Option, none, some, List, [], ◌∷◌, ◌==◌,
  if◌then◌else◌,
}
use cse.Base.Bytes.{Bytes, bytes_eq, bytes_lt, bytes_empty}

-- `enum State`; `idle` is the source's NONE.
pub data State : Type 0 where
  idle locked revoking retrying : State

-- `struct LockEntry`. A client is its address, host:port; the empty text names no client. The set
-- is the list of its members in their order.
pub record LockEntry : Type 0 where
  pub owner : Bytes
  pub retrying_client : Bytes
  pub waiting_clients : List Bytes
  pub state : State

-- `lock_protocol::xxstatus`, as far as the handlers return it.
pub data Status : Type 0 where
  ok retry : Status

-- A call to a client, sent after the table is unlocked.
pub data Message : Type 0 where
  revoke : Bytes → ℕ → Message
  retry_lock : Bytes → ℕ → Message

pub record Server : Type 0 where
  pub nacquire : ℕ
  pub lock_manager : ℕ → Option LockEntry

pub record Reply : Type 0 where
  pub server : Server
  pub status : Status
  pub messages : List Message

-- `waitingClients.count(c)`
unfoldable pub member : Bytes → List Bytes → Bool
member c [] = false
member c (x ∷ xs) = if bytes_eq c x then true else member c xs

-- `waitingClients.insert(c)`
unfoldable pub insert : Bytes → List Bytes → List Bytes
insert c [] = c ∷ []
insert c (x ∷ xs) =
    if bytes_eq c x then x ∷ xs else if bytes_lt c x then c ∷ x ∷ xs else x ∷ insert c xs

abbrev pub fresh_entry : LockEntry
fresh_entry = record { owner = []; retrying_client = []; waiting_clients = []; state = idle }

-- `assert(b)`, before the rest of a handler.
infixr 3 ◌⊳◌
abbrev pub ◌⊳◌ {ℓ} : {A : Type ℓ} → Bool → Option A → Option A
b ⊳ k = if b then k else none

abbrev pub is_nonempty : List Bytes → Bool
is_nonempty [] = false
is_nonempty (c ∷ cs) = true

-- The entry after the handler, the answer, and the client to be called, if any.
abbrev pub Granted : Type 0
Granted = Option (LockEntry × Status × List Bytes)

-- The three cases of `switch (lockEntry->state)` in which the lock is taken.
unfoldable pub acquire_locked : LockEntry → Bytes → Granted
acquire_locked e c =
    not (member c e.waiting_clients)
    ⊳ not (bytes_empty e.owner)
    ⊳ not (bytes_eq e.owner c)
    ⊳ some (
      record e { waiting_clients = insert c e.waiting_clients; state = revoking },
      retry,
      e.owner ∷ [],
    )

unfoldable pub acquire_revoking : LockEntry → Bytes → Granted
acquire_revoking e c =
    not (member c e.waiting_clients)
    ⊳ some (record e { waiting_clients = insert c e.waiting_clients }, retry, [])

unfoldable pub acquire_retrying : LockEntry → Bytes → Granted
acquire_retrying e c =
    not (member c e.waiting_clients)
    ⊳ (if bytes_eq c e.retrying_client
        then (if is_nonempty e.waiting_clients
            then some (record e { retrying_client = []; state = revoking; owner = c }, ok, c ∷ [])
            else some (record e { retrying_client = []; state = locked; owner = c }, ok, []))
        else some (record e { waiting_clients = insert c e.waiting_clients }, retry, []))

unfoldable pub acquire_state : State → LockEntry → Bytes → Granted
unfolding acquire_locked acquire_revoking acquire_retrying
acquire_state idle e c = bytes_empty e.owner ⊳ some (record e { state = locked; owner = c }, ok, [])
acquire_state locked e c = acquire_locked e c
acquire_state revoking e c = acquire_revoking e c
acquire_state retrying e c = acquire_retrying e c

unfoldable pub acquire_entry : LockEntry → Bytes → Granted
unfolding acquire_state
acquire_entry e c = acquire_state e.state e c

-- The entry after `release`, and the client that is told to try again.
unfoldable pub release_set : List Bytes → LockEntry → Option (LockEntry × Bytes)
release_set [] e = none
release_set (next ∷ rest) e =
    some (
      record { owner = []; retrying_client = next; waiting_clients = rest; state = retrying },
      next,
    )

abbrev pub is_revoking : State → Bool
is_revoking revoking = true
is_revoking s = false

unfoldable pub release_entry : LockEntry → Bytes → Option (LockEntry × Bytes)
unfolding release_set
release_entry e c = is_revoking e.state ⊳ bytes_eq e.owner c ⊳ release_set e.waiting_clients e

abbrev pub entry_or_fresh : Option LockEntry → LockEntry
entry_or_fresh none = fresh_entry
entry_or_fresh (some e) = e

abbrev pub put_entry : ℕ → LockEntry → Server → Server
put_entry lid e s = record s { lock_manager = λ j. if j == lid then some e else s.lock_manager j }

abbrev pub revokes : ℕ → List Bytes → List Message
revokes lid [] = []
revokes lid (c ∷ cs) = revoke c lid ∷ []

unfoldable pub reply_acquire : ℕ → Server → Granted → Option Reply
reply_acquire lid s none = none
reply_acquire lid s (some (e, status, told)) =
    some (record { server = put_entry lid e s; status = status; messages = revokes lid told })

unfoldable pub acquire : ℕ → Bytes → Server → Option Reply
unfolding acquire_entry reply_acquire
acquire lid c s = reply_acquire lid s (acquire_entry (entry_or_fresh (s.lock_manager lid)) c)

unfoldable pub reply_release : ℕ → Server → Option (LockEntry × Bytes) → Option Reply
reply_release lid s none = none
reply_release lid s (some (e, next)) =
    some (record { server = put_entry lid e s; status = ok; messages = retry_lock next lid ∷ [] })

-- A lock that was never asked for has no entry, which fails the assertion on the pointer.
unfoldable pub release_found : ℕ → Bytes → Server → Option LockEntry → Option Reply
unfolding release_entry reply_release
release_found lid c s none = none
release_found lid c s (some e) = reply_release lid s (release_entry e c)

unfoldable pub release : ℕ → Bytes → Server → Option Reply
unfolding release_found
release lid c s = release_found lid c s (s.lock_manager lid)

-- The constructor leaves `nacquire` unset, and no handler changes it: it is the first argument.
unfoldable pub init : ℕ → Server
init garbage = record { nacquire = garbage; lock_manager = λ lid. none }

unfoldable pub stat : ℕ → Server → ℕ × Status
stat lid s = (s.nacquire, ok)
