-- ===== src/Handle/Runs.antt =====
-- handle.cc: any sequence of operations of a program on its handles.
use cse.Base.{ℕ, ◌+◌, ◌-◌, ◌^◌, ◌<◌, ◌≡◌, refl, Bool, Option, none, some, Returns, arith}
use cse.Base.Bytes.{Bytes}
use cse.Handle.{HandleMgr, init, get_handle, delete_handle, destroy, safebind}
use cse.Handle.Invariant.{IsLive, IsSound, with_users, everywhere}
use cse.Handle.Safety.{
  with_handle, get_handle-Returns, done_handle-Returns, safebind-Returns, delete_handle_wo-Returns,
}

-- A program makes handles, binds and destroys those that it has, and deletes names. It has fewer than
-- 2^31 handles of one `hinfo`, so that the count does not overflow.
pub data Step (s : HandleMgr) (users : ℕ → ℕ) : HandleMgr → (ℕ → ℕ) → Type 0 where
  made :
      (m : Bytes) (o : Option ℕ) (t : HandleMgr)
      → ((a : ℕ) → users a + 1 < 2 ^ 31)
      → get_handle m s ≡ some (o, t)
      → Step s users t (with_handle o users)
  destroyed :
      (a : ℕ) (t : HandleMgr)
      → 0 < users a
      → destroy (some a) s ≡ some t
      → Step s users t (with_users a (users a - 1) users)
  bound :
      (ok : Bool) (a : ℕ) (o : Option ℕ) (t : HandleMgr)
      → 0 < users a
      → safebind ok (some a) s ≡ some (o, t)
      → Step s users t users
  deleted : (m : Bytes) (t : HandleMgr) → delete_handle m s ≡ some t → Step s users t users

pub data Reach : HandleMgr → (ℕ → ℕ) → Type 0 where
  start : Reach init (λ a. 0)
  later :
      {s t : HandleMgr} {users more : ℕ → ℕ} → Reach s users → Step s users t more → Reach t more

abbrev Few : (ℕ → ℕ) → Type 0
Few users = (a : ℕ) → users a < 2 ^ 31

with_users-Few : (a n : ℕ) (users : ℕ → ℕ) → n < 2 ^ 31 → Few users → Few (with_users a n users)
with_users-Few a n users h f = everywhere (λ j k. k < 2 ^ 31) users a n h (λ j ne. f j)

with_handle-Few :
    (o : Option ℕ) (users : ℕ → ℕ) → ((a : ℕ) → users a + 1 < 2 ^ 31) → Few (with_handle o users)
with_handle-Few none users few = λ a. omega (arith, few a)
with_handle-Few (some b) users few =
    with_users-Few b (users b + 1) users (few b) (λ a. omega (arith, few a))

Step-IsSound :
    {s t : HandleMgr} {users more : ℕ → ℕ}
    → Step s users t more
    → IsSound s users × Few users
    → IsSound t more × Few more
unfolding destroy delete_handle
Step-IsSound {s} {users = users} (made m o t few e) (v, f) =
    (rw e at (get_handle-Returns m s users v few), with_handle-Few o users few)
Step-IsSound {s} {users = users} (destroyed a t pos e) (v, f) = (
  rw e at (done_handle-Returns a s users v pos (f a)),
  with_users-Few a (users a - 1) users (omega (arith, f a)) f,
)
Step-IsSound {s} {users = users} (bound ok a o t pos e) (v, f) =
    ((rw e at (safebind-Returns ok a s users v pos)).0, f)
Step-IsSound {s} {users = users} (deleted m t e) (v, f) =
    (rw e at (delete_handle_wo-Returns m s users v), f)

Reach-IsSound : {s : HandleMgr} {users : ℕ → ℕ} → Reach s users → IsSound s users × Few users
Reach-IsSound start = (
  record { named = λ m a q. cc q; entries = λ a. refl; own_client = λ a b c q q'. cc q },
  λ a. omega arith,
)
Reach-IsSound (later r st) = Step-IsSound st (Reach-IsSound r)

-- After any sequence of operations of a program that has fewer than 2^31 handles of an `hinfo` and
-- destroys and binds only handles that it has, none of them to begin with, and with fewer than 2^31 - 1
-- handles of every `hinfo` now: a handle of a name can be made, and a name can be deleted, also where
-- there is no handle at all. Neither uses a deleted `hinfo` or connection, or deletes one twice, or
-- overflows the count. After each of them the names of the map and the `hinfo`s fit each other,
-- `refcnt` is the number of handles, an `hinfo` with handles is not deleted, and a connection that an
-- `hinfo` has is alive and its own.
pub operations_are_safe :
    {s : HandleMgr} {users : ℕ → ℕ} (m : Bytes)
    → Reach s users
    → ((b : ℕ) → users b + 1 < 2 ^ 31)
    → Returns (λ r. IsSound r.1 (with_handle r.0 users)) (get_handle m s)
      × Returns (λ t. IsSound t users) (delete_handle m s)
unfolding delete_handle
operations_are_safe {s} {users} m r few =
    let v = (Reach-IsSound r).0 in
    (get_handle-Returns m s users v few, delete_handle_wo-Returns m s users v)

-- After any such sequence, for an `hinfo` of which there is a handle: the handle is destroyed, with one
-- handle fewer, or bound, with a live connection where `safebind` gives one. Neither uses a deleted
-- `hinfo` or connection, or deletes one twice, or counts below 0, and after each of them the state is as
-- sound as before it.
pub handles_are_safe :
    {s : HandleMgr} {users : ℕ → ℕ} (a : ℕ) (ok : Bool)
    → Reach s users
    → 0 < users a
    → Returns (λ t. IsSound t (with_users a (users a - 1) users)) (destroy (some a) s)
      × Returns (λ r. IsSound r.1 users × IsLive r.1 r.0) (safebind ok (some a) s)
unfolding destroy
handles_are_safe {s} {users} a ok r pos =
    let (v, f) = Reach-IsSound r in
    (done_handle-Returns a s users v pos (f a), safebind-Returns ok a s users v pos)
