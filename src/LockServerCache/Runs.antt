-- ===== src/LockServerCache/Runs.antt =====
-- Histories of the caching lock server: requests of any clients in any order, for any locks.
use cse.Base.{
  ℕ, ◌≡◌, refl, sym, ◌∙◌, ◌≢◌, inl, inr, false, Option, none, some, List, [], ◌∷◌, arith,
  if◌then◌else◌, ◌==◌, Bool-cases, ==_iff,
}
use cse.Base.Bytes.{Bytes, bytes_eq_iff}
use cse.LockServerCache.{
  State, idle, locked, revoking, retrying, LockEntry, Status, ok, retry, Server, Reply,
  acquire_state, acquire_entry, release_set, release_entry, entry_or_fresh, put_entry, acquire,
  release, release_found, init, Granted, reply_acquire, reply_release,
}

-- The clients' side of a history: who was told OK for a lock and has not released it. The empty
-- name stands for nobody.
abbrev pub Holders : Type 0
Holders = ℕ → Bytes

abbrev pub granted : ℕ → Bytes → Status → Holders → Holders
granted lid c ok h = λ j. if j == lid then c else h j
granted lid c retry h = h

abbrev pub given_back : ℕ → Holders → Holders
given_back lid h = λ j. if j == lid then [] else h j

-- The server and the holders after some requests, none of which failed an assertion. Clients have
-- names; nothing else is asked of them.
pub data Reach (garbage : ℕ) : Server → Holders → Type 0 where
  start : Reach garbage (init garbage) (λ lid. [])
  acquired :
      {s : Server} {h : Holders} (lid : ℕ) (c : Bytes) (r : Reply)
      → Reach garbage s h
      → c ≢ []
      → acquire lid c s ≡ some r
      → Reach garbage r.server (granted lid c r.status h)
  released :
      {s : Server} {h : Holders} (lid : ℕ) (c : Bytes) (r : Reply)
      → Reach garbage s h
      → release lid c s ≡ some r
      → Reach garbage r.server (given_back lid h)

-- Whether the entry has an owner is told by its state.
abbrev pub OwnerFits : State → LockEntry → Type 0
OwnerFits idle e = e.owner ≡ []
OwnerFits locked e = e.owner ≢ []
OwnerFits revoking e = e.owner ≢ []
OwnerFits retrying e = e.owner ≡ []

abbrev pub owner_after : LockEntry → Bytes → Status → Bytes
owner_after e c ok = c
owner_after e c retry = e.owner

pub acquire_state-OwnerFits :
    (s : State) (e e' : LockEntry) (c : Bytes) (st : Status) (told : List Bytes)
    → e.state ≡ s
    → OwnerFits s e
    → c ≢ []
    → acquire_state s e c ≡ some (e', st, told)
    → OwnerFits e'.state e' × (e'.owner ≡ owner_after e c st) × (st ≡ ok → e.owner ≡ [])
unfolding acquire_state
acquire_state-OwnerFits idle e e' c st told q v h k = ground arith
acquire_state-OwnerFits locked e e' c st told q v h k = ground arith
acquire_state-OwnerFits revoking e e' c st told q v h k = ground arith
acquire_state-OwnerFits retrying e e' c st told q v h k = ground arith

-- What a history keeps: each entry's owner fits its state, and is the client that holds the lock.
abbrev Tracks : Server → Holders → Type 0
Tracks s h =
    (lid : ℕ)
    → let e = entry_or_fresh (s.lock_manager lid) in OwnerFits e.state e × (e.owner ≡ h lid)

pub reply_acquire-inversion :
    (lid : ℕ) (s : Server) (o : Granted) (r : Reply)
    → reply_acquire lid s o ≡ some r
    → (e : LockEntry) × (told : List Bytes) × (o ≡ some (e, r.status, told))
      × (r.server ≡ put_entry lid e s)
unfolding reply_acquire
reply_acquire-inversion lid s none r k = absurd (cc)
reply_acquire-inversion lid s (some (e, st, told)) r k = (e, told, cc, cc)

release_set-inversion :
    (cs : List Bytes) (e e' : LockEntry) (next : Bytes)
    → release_set cs e ≡ some (e', next)
    → (e'.owner ≡ []) × (e'.state ≡ retrying)
unfolding release_set
release_set-inversion [] e e' next k = cc
release_set-inversion (c ∷ cs) e e' next k = ground arith

release_entry-inversion :
    (e e' : LockEntry) (c next : Bytes)
    → release_entry e c ≡ some (e', next)
    → (e'.owner ≡ []) × (e'.state ≡ retrying)
unfolding release_entry
release_entry-inversion e e' c next k =
    ground (arith, release_set-inversion e.waiting_clients e e' next)

pub reply_release-inversion :
    (lid : ℕ) (s : Server) (o : Option (LockEntry × Bytes)) (r : Reply)
    → reply_release lid s o ≡ some r
    → (e : LockEntry) × (next : Bytes) × (o ≡ some (e, next)) × (r.server ≡ put_entry lid e s)
unfolding reply_release
reply_release-inversion lid s none r k = absurd (cc)
reply_release-inversion lid s (some (e, next)) r k = (e, next, refl, cc)

pub release_found-inversion :
    (lid : ℕ) (c : Bytes) (s : Server) (o : Option LockEntry) (r : Reply)
    → release_found lid c s o ≡ some r
    → (e' : LockEntry) × (e'.owner ≡ []) × (e'.state ≡ retrying) × (r.server ≡ put_entry lid e' s)
unfolding release_found
release_found-inversion lid c s none r k = absurd (cc)
release_found-inversion lid c s (some e) r k =
    let (e', next, q, t) = reply_release-inversion lid s (release_entry e c) r k in
    let (a, b) = release_entry-inversion e e' c next q in (e', a, b, t)

init-Tracks : (garbage : ℕ) → Tracks (init garbage) (λ lid. [])
unfolding init
init-Tracks garbage lid = (refl, refl)

-- Replacing one entry leaves the others, and their holders, alone.
put_entry-Tracks :
    (s : Server) (h h' : Holders) (lid : ℕ) (e : LockEntry)
    → Tracks s h
    → OwnerFits e.state e
    → e.owner ≡ h' lid
    → ((j : ℕ) → (j == lid) ≡ false → h j ≡ h' j)
    → Tracks (put_entry lid e s) h'
put_entry-Tracks s h h' lid e t fits o same j = elim (Bool-cases (j == lid)) [
  | inl hit ↦ rw (hit, (==_iff j lid).0 hit) (fits, o)
  | inr miss ↦ rw miss ((t j).0, (t j).1 ∙ same j miss)
]

granted-Tracks :
    (s : Server) (h : Holders) (lid : ℕ) (e : LockEntry) (c : Bytes) (st : Status)
    → Tracks s h
    → OwnerFits e.state e
    → e.owner ≡ owner_after (entry_or_fresh (s.lock_manager lid)) c st
    → Tracks (put_entry lid e s) (granted lid c st h)
granted-Tracks s h lid e c ok t fits o =
    put_entry-Tracks s h (granted lid c ok h) lid e t fits (ground arith) (λ j miss. ground arith)
granted-Tracks s h lid e c retry t fits o =
    put_entry-Tracks s h h lid e t fits (o ∙ (t lid).1) (λ j miss. refl)

acquired-Tracks :
    (s : Server) (h : Holders) (lid : ℕ) (c : Bytes) (r : Reply)
    → Tracks s h
    → c ≢ []
    → acquire lid c s ≡ some r
    → Tracks r.server (granted lid c r.status h) × (r.status ≡ ok → h lid ≡ [])
unfolding acquire
acquired-Tracks s h lid c r t named k =
    let old = entry_or_fresh (s.lock_manager lid) in
    let (e, told, q, srv) = reply_acquire-inversion lid s (acquire_entry old c) r k in
    let (fits, o, free) =
      acquire_state-OwnerFits old.state old e c r.status told refl (t lid).0 named q in
    (rw srv (granted-Tracks s h lid e c r.status t fits o), λ w. sym (t lid).1 ∙ free w)

released-Tracks :
    (s : Server) (h : Holders) (lid : ℕ) (c : Bytes) (r : Reply)
    → Tracks s h
    → release lid c s ≡ some r
    → Tracks r.server (given_back lid h)
unfolding release
released-Tracks s h lid c r t k =
    let (e, o, st, srv) = release_found-inversion lid c s (s.lock_manager lid) r k in
    let fits : OwnerFits e.state e = rw st o in
    rw srv
      (put_entry-Tracks s h (given_back lid h) lid e t fits (ground arith) (λ j miss. ground arith))

Reach-Tracks : {garbage : ℕ} {s : Server} {h : Holders} → Reach garbage s h → Tracks s h
Reach-Tracks {garbage} start = init-Tracks garbage
Reach-Tracks (acquired {s} {h} lid c r past named k) =
    (acquired-Tracks s h lid c r (Reach-Tracks past) named k).0
Reach-Tracks (released {s} {h} lid c r past k) = released-Tracks s h lid c r (Reach-Tracks past) k

-- Mutual exclusion: after any history of `acquire` and `release` requests of clients with names,
-- none of which failed an assertion, a client is told OK for a lock only while nobody holds it,
-- that is, after the last OK for the lock has been answered by a release.
pub mutual_exclusion :
    {garbage : ℕ} {s : Server} {h : Holders} (lid : ℕ) (c : Bytes) (r : Reply)
    → Reach garbage s h
    → c ≢ []
    → acquire lid c s ≡ some r
    → r.status ≡ ok
    → h lid ≡ []
mutual_exclusion {s = s} {h = h} lid c r past named k w =
    (acquired-Tracks s h lid c r (Reach-Tracks past) named k).1 w

release_entry-owner :
    (e : LockEntry) (c : Bytes) (r : LockEntry × Bytes) → release_entry e c ≡ some r → e.owner ≡ c
unfolding release_entry
release_entry-owner e c r k = ground (arith, bytes_eq_iff e.owner c)

pub release_found-owner :
    (lid : ℕ) (c : Bytes) (s : Server) (o : Option LockEntry) (r : Reply)
    → release_found lid c s o ≡ some r
    → (entry_or_fresh o).owner ≡ c
unfolding release_found
release_found-owner lid c s none r k = absurd (cc)
release_found-owner lid c s (some e) r k =
    let (e', next, q, t) = reply_release-inversion lid s (release_entry e c) r k in
    release_entry-owner e c (e', next) q

-- After any such history a release of a lock gets through only if its caller is the client that was
-- told OK for the lock last and has not released it.
pub release_by_holder :
    {garbage : ℕ} {s : Server} {h : Holders} (lid : ℕ) (c : Bytes) (r : Reply)
    → Reach garbage s h
    → release lid c s ≡ some r
    → h lid ≡ c
unfolding release
release_by_holder {s = s} lid c r past k =
    sym (Reach-Tracks past lid).1 ∙ release_found-owner lid c s (s.lock_manager lid) r k
