-- ===== src/LockClientCache.antt =====
-- lock_client_cache.h and lock_client_cache.cc: the caching lock client, for one lock id. A thread runs
-- from one release of `lockManagerLock` to the next as one action; between two actions it stands at
-- one of the positions below. `none` is a failed assertion or undefined behaviour.
pub mod Local
pub mod Actions
use cse.Base.{
  not, ◌&&◌, ℕ, ◌+◌, ◌-◌, ◌≡◌, refl, Bool, true, false, Option, none, some, List, [], ◌∷◌, ◌++◌,
  ◌==◌, if◌then◌else◌, ltb,
}
use cse.LockServerCache.{Status, ok, retry}

-- `enum LockState`; `idle` is the source's NONE.
pub data LockState : Type 0 where
  idle acquiring free releasing locked : LockState

-- `enum Message`
pub data Message : Type 0 where
  empty retried revoked : Message

-- `struct LockEntry`. A `QueuingThread` is the number of its thread.
pub record LockEntry : Type 0 where
  pub state : LockState
  pub message : Message
  pub threads : List ℕ

abbrev pub new_entry : LockEntry
new_entry = record { state = idle; message = empty; threads = [] }

-- Where a thread stands. In `acquire`: it waits for its condition variable, with nobody before it, or
-- behind others, or for a retry; or its call of the server is on the way, or answered. Then it holds the
-- lock. In `release`: its call is on the way, or answered.
pub data Pc : Type 0 where
  outside first_wait queue_wait calling retry_wait holding returning returned : Pc
  answered : Status → Pc

-- The entry of the lock, where there is one, the threads, which condition variables have been
-- signalled, and how many runs of `revoke_handler` wait for the server: those whose call is on the way,
-- and those whose call is answered.
pub record Client : Type 0 where
  pub entry : Option LockEntry
  pub pc : ℕ → Pc
  pub signalled : ℕ → Bool
  pub revoking : ℕ
  pub revoke_done : ℕ

abbrev pub init : Client
init = record {
  entry = none;
  pc = λ t. outside;
  signalled = λ t. false;
  revoking = 0;
  revoke_done = 0;
}

abbrev pub move {ℓ} : {A : Type ℓ} → (ℕ → A) → ℕ → A → ℕ → A
move f t a j = if j == t then a else f j

abbrev pub waits : Pc → Bool
waits first_wait = true
waits queue_wait = true
waits retry_wait = true
waits p = false

abbrev pub front : List ℕ → Option ℕ
front [] = none
front (t ∷ ts) = some t

-- The thread goes on to `p`, and the entry is `e`.
abbrev pub go : Client → ℕ → Pc → LockEntry → Client
go k t p e = record k { entry = some e; pc = move k.pc t p; signalled = move k.signalled t false }

-- `pthread_cond_signal(&threads.front()->cv)`, which is lost on a thread that does not wait.
abbrev pub signal : Option ℕ → Client → Client
signal none k = k
signal (some t) k = if waits (k.pc t) then record k { signalled = move k.signalled t true } else k

-- The test of the loop in `blockUntilGot`, behind which stands an assertion that fails.
abbrev pub loop : LockState → Option Pc
loop acquiring = some calling
loop s = none

-- `acquire`, up to its first wait or call.
unfoldable pub acquire_first : LockState → LockEntry → ℕ → Client → Client
acquire_first free e t k = go k t holding (record e { state = locked; threads = t ∷ [] })
acquire_first idle e t k = go k t calling (record e { state = acquiring; threads = t ∷ [] })
acquire_first s e t k = go k t first_wait (record e { threads = t ∷ [] })

unfoldable pub acquire_in : List ℕ → LockEntry → ℕ → Client → Client
unfolding acquire_first
acquire_in [] e t k = acquire_first e.state e t k
acquire_in (u ∷ ts) e t k = go k t queue_wait (record e { threads = u ∷ (ts ++ (t ∷ [])) })

-- What a thread does that waited behind others: the `switch`.
unfoldable pub take_turn : LockState → LockEntry → ℕ → Client → Option Client
take_turn free e t k = some (go k t holding (record e { state = locked }))
take_turn locked e t k = some (go k t holding e)
take_turn idle e t k = some (go k t calling (record e { state = acquiring }))
take_turn s e t k = none

-- A thread that is woken, by where it waited.
unfoldable pub wake_at : Pc → LockEntry → ℕ → Client → Option Client
unfolding take_turn
wake_at first_wait e t k = some (go k t calling (record e { state = acquiring }))
wake_at queue_wait e t k = take_turn e.state e t k
wake_at retry_wait e t k = elim (loop e.state) [
  | none ↦ none
  | some p ↦ some (go k t p (record e { message = empty }))
]
wake_at p e t k = none

-- The thread takes the answer of the server to its `acquire`.
unfoldable pub receive_retry : Message → LockEntry → ℕ → Client → Option Client
receive_retry empty e t k = some (go k t retry_wait e)
receive_retry m e t k = elim (loop e.state) [
  | none ↦ none
  | some p ↦ some (go k t p (record e { message = empty }))
]

unfoldable pub receive_at : Pc → LockEntry → ℕ → Client → Option Client
unfolding receive_retry
receive_at (answered ok) e t k = some (go k t holding (record e { state = locked }))
receive_at (answered retry) e t k = receive_retry e.message e t k
receive_at p e t k = none

-- The end of `release`: the front of the queue is taken off and the next one is woken.
unfoldable pub pop : List ℕ → Bool → LockEntry → ℕ → Client → Option Client
pop [] from_revoked e t k = none
pop (u ∷ []) from_revoked e t k = some (go k t outside (record e { threads = [] }))
pop (u ∷ v ∷ ts) from_revoked e t k = some (
    signal (some v) (
      go k t outside
        (record e { state = if from_revoked then e.state else locked; threads = v ∷ ts })))

unfoldable pub release_from : Message → LockEntry → ℕ → Client → Option Client
unfolding pop
release_from revoked e t k = some (go k t returning (record e { state = releasing }))
release_from m e t k = let e' = record e { state = free } in pop e.threads false e' t k

unfoldable pub release_end : LockEntry → ℕ → Client → Option Client
unfolding pop
release_end e t k = pop e.threads true (record e { state = idle; message = empty }) t k

-- `revoke_handler`, up to its call of the server, and from the answer on.
unfoldable pub revoke_in : LockState → LockEntry → Client → Client
revoke_in free e k = record k {
  entry = some (record e { state = releasing });
  revoking = k.revoking + 1;
}
revoke_in s e k = record k { entry = some (record e { message = revoked }) }

unfoldable pub revoke_end : LockEntry → Client → Client
revoke_end e k =
    signal (front e.threads)
      (record k { entry = some (record e { state = idle }); revoke_done = k.revoke_done - 1 })

-- `retry_handler`; `front()` of an empty list is undefined.
unfoldable pub retry_in : List ℕ → LockEntry → Client → Option Client
retry_in [] e k = none
retry_in (t ∷ ts) e k =
    some (signal (some t) (record k { entry = some (record e { message = retried }) }))

-- What a client does in one go: a thread that calls `acquire`, is woken, takes the server's answer,
-- calls `release` or takes the answer to that; the handlers.
pub data Action : Type 0 where
  acquires wakes receives releases released : ℕ → Action
  revoke_comes revoke_ends retry_comes : Action

-- Is the thread in the queue?
unfoldable pub queued : ℕ → List ℕ → Bool
queued t [] = false
queued t (u ∷ ts) = if t == u then true else queued t ts

-- A thread calls `acquire` when it is in no other call, and `release` when it holds the lock. Its
-- `QueuingThread` is new, so it is not one of those in the queue.
abbrev pub is_outside : Pc → Bool
is_outside outside = true
is_outside p = false

abbrev pub is_holding : Pc → Bool
is_holding holding = true
is_holding p = false

abbrev pub is_returned : Pc → Bool
is_returned returned = true
is_returned p = false

-- An action on an entry that is there; without one the source uses a null pointer.
unfoldable pub act_on : Action → LockEntry → Client → Option Client
unfolding acquire_in wake_at receive_at release_from release_end revoke_in revoke_end retry_in
act_on (acquires t) e k =
    if is_outside (k.pc t) && not (queued t e.threads)
    then some (acquire_in e.threads e t k)
    else none
act_on (wakes t) e k = if k.signalled t then wake_at (k.pc t) e t k else none
act_on (receives t) e k = receive_at (k.pc t) e t k
act_on (releases t) e k = if is_holding (k.pc t) then release_from e.message e t k else none
act_on (released t) e k = if is_returned (k.pc t) then release_end e t k else none
act_on revoke_comes e k = some (revoke_in e.state e k)
act_on revoke_ends e k = if ltb 0 k.revoke_done then some (revoke_end e k) else none
act_on retry_comes e k = retry_in e.threads e k

-- `acquire` makes the entry where there is none.
unfoldable pub act_first : Action → Client → Option Client
unfolding act_on
act_first (acquires t) k = act_on (acquires t) new_entry k
act_first a k = none

unfoldable pub act_entry : Option LockEntry → Action → Client → Option Client
unfolding act_on act_first
act_entry none a k = act_first a k
act_entry (some e) a k = act_on a e k

unfoldable pub act : Action → Client → Option Client
unfolding act_entry
act a k = act_entry k.entry a k
