-- ===== src/LockServerCache/Queues.antt =====
-- lock_server_cache.cc: histories in which no client asks for a lock that it holds or waits for, as the
-- caching lock client does.
use cse.Base.{
  ℕ, ◌≡◌, ◌≢◌, refl, inl, inr, ◌⊎◌, false, Option, none, some, List, [], arith, ◌==◌, Bool-cases,
  Returns, Option-cases, ◌∷◌, ==_iff, true,
}
use cse.Base.Bytes.{Bytes, bytes_eq_iff}
use cse.LockServerCache.{
  State, idle, locked, revoking, retrying, LockEntry, Status, Server, Reply, member, insert,
  acquire_state, acquire_entry, release_entry, entry_or_fresh, put_entry, acquire, release,
  release_found, init, reply_release, reply_acquire, retry_lock, ok, Granted,
}
use cse.LockServerCache.Invariant.{IsValid, acquire_entry-Returns}
use cse.LockServerCache.Handover.{
  IsQueued, insert-Distinct, insert-All, release_entry-Returns, Handed,
}
use cse.LockServerCache.Runs.{reply_acquire-inversion, reply_release-inversion}

-- The entry of a lock, which is a fresh one before the first request.
abbrev pub entry_of : Server → ℕ → LockEntry
entry_of s lid = entry_or_fresh (s.lock_manager lid)

-- `acquire` puts only its caller into the set.
acquire_state-waiting :
    (s : State) (e e' : LockEntry) (c : Bytes) (st : Status) (told : List Bytes)
    → acquire_state s e c ≡ some (e', st, told)
    → (e'.waiting_clients ≡ e.waiting_clients) ⊎ (e'.waiting_clients ≡ insert c e.waiting_clients)
unfolding acquire_state
acquire_state-waiting idle e e' c st told k = ground arith
acquire_state-waiting locked e e' c st told k = ground arith
acquire_state-waiting revoking e e' c st told k = ground arith
acquire_state-waiting retrying e e' c st told k = ground arith

acquired-IsQueued :
    (e e' : LockEntry) (c : Bytes) (st : Status) (told : List Bytes)
    → IsQueued e
    → c ≢ []
    → c ≢ e.owner
    → member c e.waiting_clients ≡ false
    → acquire_entry e c ≡ some (e', st, told)
    → IsQueued e'
unfolding acquire_entry
acquired-IsQueued e e' c st told (v, d, a) h o m k =
    let valid : IsValid e' = (rw k at (acquire_entry-Returns e c v h o m)).0 in
    elim (acquire_state-waiting e.state e e' c st told k) [
      | inl w ↦ (valid, rw w d, rw w a)
      | inr w ↦ (
        valid,
        rw w (insert-Distinct c e.waiting_clients m d),
        rw w (insert-All c e.waiting_clients h a),
      )
    ]

-- A release gets through only in the state `revoking`, by the owner.
release_entry-inside :
    (s : State) (e : LockEntry) (c : Bytes) (r : LockEntry × Bytes)
    → e.state ≡ s
    → release_entry e c ≡ some r
    → (e.state ≡ revoking) × (e.owner ≡ c)
unfolding release_entry
release_entry-inside idle e c r st k = ground (arith, bytes_eq_iff e.owner c)
release_entry-inside locked e c r st k = ground (arith, bytes_eq_iff e.owner c)
release_entry-inside revoking e c r st k = ground (arith, bytes_eq_iff e.owner c)
release_entry-inside retrying e c r st k = ground (arith, bytes_eq_iff e.owner c)

-- The server after some requests, none of which failed an assertion, of clients with names that ask
-- only for locks that they neither hold nor wait for.
pub data Reach (garbage : ℕ) : Server → Type 0 where
  start : Reach garbage (init garbage)
  acquired :
      {s : Server} (lid : ℕ) (c : Bytes) (r : Reply)
      → Reach garbage s
      → c ≢ []
      → c ≢ (entry_of s lid).owner
      → member c (entry_of s lid).waiting_clients ≡ false
      → acquire lid c s ≡ some r
      → Reach garbage r.server
  released :
      {s : Server} (lid : ℕ) (c : Bytes) (r : Reply)
      → Reach garbage s
      → release lid c s ≡ some r
      → Reach garbage r.server

AllQueued : Server → Type 0
AllQueued s = (lid : ℕ) → IsQueued (entry_of s lid)

put_entry-AllQueued :
    (s : Server) (lid : ℕ) (e : LockEntry)
    → AllQueued s
    → IsQueued e
    → AllQueued (put_entry lid e s)
unfolding AllQueued
put_entry-AllQueued s lid e v w j = elim (Bool-cases (j == lid)) [
  | inl hit ↦ rw hit w
  | inr miss ↦ rw miss (v j)
]

released-AllQueued :
    (lid : ℕ) (c : Bytes) (s : Server) (o : Option LockEntry) (r : Reply)
    → AllQueued s
    → IsQueued (entry_or_fresh o)
    → release_found lid c s o ≡ some r
    → AllQueued r.server
unfolding release_found
released-AllQueued lid c s none r v w k = absurd (cc)
released-AllQueued lid c s (some e) r v w k =
    let (e', next, q, t) = reply_release-inversion lid s (release_entry e c) r k in
    let (st, o) = release_entry-inside e.state e c (e', next) refl q in
    rw t (put_entry-AllQueued s lid e' v (rw q at (release_entry-Returns e c w st o)).0)

Reach-AllQueued : {garbage : ℕ} {s : Server} → Reach garbage s → AllQueued s
unfolding AllQueued acquire release init
Reach-AllQueued start = λ lid. ((refl, refl, refl), tt, tt)
Reach-AllQueued (acquired {s} lid c r past h o m k) =
    let old : AllQueued s = Reach-AllQueued past in
    let (e, told, q, srv) = reply_acquire-inversion lid s (acquire_entry (entry_of s lid) c) r k in
    rw srv (
      put_entry-AllQueued s lid e old
        (acquired-IsQueued (entry_of s lid) e c r.status told (old lid) h o m q))
Reach-AllQueued (released {s} lid c r past k) =
    let old : AllQueued s = Reach-AllQueued past in
    released-AllQueued lid c s (s.lock_manager lid) r old (old lid) k

-- The client that is told of a released lock, and its next request.
abbrev pub IsHandedOver : ℕ → Server → Reply → Type 0
IsHandedOver lid s r =
    (next : Bytes) × (r.messages ≡ retry_lock next lid ∷ [])
    × (member next (entry_of s lid).waiting_clients ≡ true)
    × Returns (λ q. (q.status ≡ ok) × ((entry_of q.server lid).owner ≡ next))
        (acquire lid next r.server)

acquire-retried :
    (lid : ℕ) (c next : Bytes) (e e' : LockEntry) (s : Server)
    → Handed e (e', next)
    → Returns
        (λ q. (q.status ≡ ok) × ((entry_of q.server lid).owner ≡ next))
        (acquire lid next (put_entry lid e' s))
unfolding acquire reply_acquire
acquire-retried lid c next e e' s handed =
    let here : (lid == lid) ≡ true = (==_iff lid lid).1 refl in
    rw here (go (acquire_entry e' next) handed.4)
  where
    go :
        (o : Granted)
        → Returns (λ q. IsQueued q.0 × (q.1 ≡ ok) × (q.0.owner ≡ next)) o
        → Returns
            (λ q. (q.status ≡ ok) × ((entry_of q.server lid).owner ≡ next))
            (reply_acquire lid (put_entry lid e' s) o)
    go none h = absurd h
    go (some (e'', st, told)) h =
        let here : (lid == lid) ≡ true = (==_iff lid lid).1 refl in (h.1, rw here h.2)

release_found-IsHandedOver :
    (lid : ℕ) (c : Bytes) (s : Server)
    → IsQueued (entry_of s lid)
    → (entry_of s lid).state ≡ revoking
    → (entry_of s lid).owner ≡ c
    → Returns (IsHandedOver lid s) (release_found lid c s (s.lock_manager lid))
unfolding release_found reply_release
release_found-IsHandedOver lid c s v st o = elim (Option-cases (s.lock_manager lid)) [
  | inl e ↦ absurd (cc (rw e at st))
  | inr (e, q) ↦
      let same : entry_of s lid ≡ e = rw q refl in
      rw q (
        told e (release_entry e c) (release_entry-Returns e c (rw q at v) (rw q at st) (rw q at o))
          q)
]
  where
    told :
        (e : LockEntry) (m : Option (LockEntry × Bytes))
        → Returns (Handed e) m
        → s.lock_manager lid ≡ some e
        → Returns (IsHandedOver lid s) (reply_release lid s m)
    told e none h q = absurd h
    told e (some (e', next)) h q = (next, refl, rw q h.2, acquire-retried lid c next e e' s h)

-- After any history of `acquire` and `release` requests, none of which failed an assertion, of clients
-- with names that ask only for locks that they neither hold nor wait for: while a lock is being
-- revoked, its owner's release gets through, and one client, which waited for the lock, is told to try
-- again. When that client asks next it is told OK and is the owner. No assertion fails in the two.
pub handed_over :
    {garbage : ℕ} {s : Server} (lid : ℕ) (c : Bytes)
    → Reach garbage s
    → (entry_of s lid).state ≡ revoking
    → (entry_of s lid).owner ≡ c
    → Returns (IsHandedOver lid s) (release lid c s)
unfolding release AllQueued
handed_over {s = s} lid c past st o =
    release_found-IsHandedOver lid c s (Reach-AllQueued past lid) st o
