-- ===== src/LockServerCache/Invariant.antt =====
-- The entry of one lock: its well-formedness, and what the two handlers do to it.
use cse.Base.{
  Returns, ◌&&◌, not, ◌≡◌, refl, ◌≢◌, ◌⊎◌, true, false, List, [], ◌∷◌, arith, if◌then◌else◌,
}
use cse.Base.Bytes.{Bytes, bytes_eq, bytes_empty, bytes_eq_iff}
use cse.LockServerCache.{
  State, idle, locked, revoking, retrying, LockEntry, Status, ok, retry, member, insert,
  acquire_state, acquire_entry, is_revoking,
}

-- Which fields are in use in which state.
abbrev pub IsValidIn : State → LockEntry → Type 0
IsValidIn idle e = (e.owner ≡ []) × (e.retrying_client ≡ []) × (e.waiting_clients ≡ [])
IsValidIn locked e = (e.owner ≢ []) × (e.retrying_client ≡ []) × (e.waiting_clients ≡ [])
IsValidIn revoking e =
    (e.owner ≢ [])
    × (e.retrying_client ≡ [])
    × (e.waiting_clients ≢ [])
    × (member e.owner e.waiting_clients ≡ false)
IsValidIn retrying e =
    (e.owner ≡ []) × (e.retrying_client ≢ []) × (member e.retrying_client e.waiting_clients ≡ false)

abbrev pub IsValid : LockEntry → Type 0
IsValid e = IsValidIn e.state e

pub member-insert :
    (x c : Bytes) (xs : List Bytes)
    → member x (insert c xs) ≡ (if bytes_eq x c then true else member x xs)
unfolding member insert
member-insert x c [] = refl
member-insert x c (y ∷ ys) =
    ground (arith, member-insert x c ys, bytes_eq_iff c y, bytes_eq_iff x y, bytes_eq_iff x c)

insert-ne-nil : (c : Bytes) (xs : List Bytes) → insert c xs ≢ []
unfolding insert
insert-ne-nil c [] = λ e. cc
insert-ne-nil c (x ∷ xs) = ground arith

-- What `acquire` promises: the caller gets the lock, which nobody held, or joins the waiting
-- clients and the holder is the one it was. The holder is told to give the lock back when the
-- entry begins to revoke, and nobody is told otherwise.
abbrev pub Acquired : LockEntry → Bytes → LockEntry × Status × List Bytes → Type 0
Acquired e c r =
    IsValid r.0
    × (((r.1 ≡ ok) × (e.owner ≡ []) × (r.0.owner ≡ c))
        ⊎ ((r.1 ≡ retry) × (r.0.owner ≡ e.owner) × (member c r.0.waiting_clients ≡ true)))
    × (r.2 ≡ (if is_revoking r.0.state && not (is_revoking e.state) then r.0.owner ∷ [] else []))

acquire_state-Returns :
    (s : State) (e : LockEntry) (c : Bytes)
    → e.state ≡ s
    → IsValidIn s e
    → c ≢ []
    → c ≢ e.owner
    → member c e.waiting_clients ≡ false
    → Returns (Acquired e c) (acquire_state s e c)
unfolding acquire_state bytes_empty
acquire_state-Returns idle e c st v h k m = ground arith
acquire_state-Returns locked e c st v h k m =
    unfold member in
    ground (
      arith,
      insert-ne-nil c e.waiting_clients,
      member-insert e.owner c e.waiting_clients,
      member-insert c c e.waiting_clients,
      bytes_eq_iff e.owner c,
      bytes_eq_iff c c,
    )
acquire_state-Returns revoking e c st v h k m = ground (
  arith,
  insert-ne-nil c e.waiting_clients,
  member-insert e.owner c e.waiting_clients,
  member-insert c c e.waiting_clients,
  bytes_eq_iff e.owner c,
  bytes_eq_iff c c,
)
acquire_state-Returns retrying e c st v h k m = ground (
  arith,
  insert-ne-nil c e.waiting_clients,
  member-insert e.retrying_client c e.waiting_clients,
  member-insert c c e.waiting_clients,
  bytes_eq_iff c e.retrying_client,
  bytes_eq_iff e.retrying_client c,
  bytes_eq_iff c c,
)

-- On a well-formed entry a client with a name that neither holds the lock nor waits for it gets an
-- answer: no assertion fails and the entry stays well-formed. Either the answer is OK, nobody held
-- the lock, and the client holds it now; or the answer is RETRY, the holder is as before, and the
-- client waits. The holder is told to give the lock back just when the entry begins to revoke.
pub acquire_entry-Returns :
    (e : LockEntry) (c : Bytes)
    → IsValid e
    → c ≢ []
    → c ≢ e.owner
    → member c e.waiting_clients ≡ false
    → Returns (Acquired e c) (acquire_entry e c)
unfolding acquire_entry
acquire_entry-Returns e c v h k m = acquire_state-Returns e.state e c refl v h k m
