-- ===== src/LockServerCache/Owner.antt =====
-- What one request does to the owner of its lock.
use cse.Base.{ℕ, ◌≡◌, ◌≢◌, refl, some, [], ==_iff, ap, ◌∙◌}
use cse.Base.Bytes.{Bytes}
use cse.LockServerCache.{
  LockEntry, ok, Server, Reply, acquire_entry, entry_or_fresh, put_entry, acquire, release,
}
use cse.LockServerCache.Runs.{
  OwnerFits, owner_after, acquire_state-OwnerFits, reply_acquire-inversion, release_found-inversion,
  release_found-owner,
}

abbrev pub entry_at : ℕ → Server → LockEntry
entry_at lid s = entry_or_fresh (s.lock_manager lid)

abbrev pub Fits : ℕ → Server → Type 0
Fits lid s = OwnerFits (entry_at lid s).state (entry_at lid s)

entry_at-put_entry : (lid : ℕ) (e : LockEntry) (s : Server) → entry_at lid (put_entry lid e s) ≡ e
entry_at-put_entry lid e s = rw ((==_iff lid lid).1 refl)

pub acquire-owner :
    (lid : ℕ) (c : Bytes) (s : Server) (r : Reply)
    → Fits lid s
    → c ≢ []
    → acquire lid c s ≡ some r
    → Fits lid r.server
      × ((entry_at lid r.server).owner ≡ owner_after (entry_at lid s) c r.status)
      × (r.status ≡ ok → (entry_at lid s).owner ≡ [])
unfolding acquire acquire_entry
acquire-owner lid c s r v named k =
    let old = entry_at lid s in
    let (e, told, q, srv) = reply_acquire-inversion lid s (acquire_entry old c) r k in
    let here = ap (entry_at lid) srv ∙ entry_at-put_entry lid e s in
    rw here (acquire_state-OwnerFits old.state old e c r.status told refl v named q)

pub release-owner :
    (lid : ℕ) (c : Bytes) (s : Server) (r : Reply)
    → release lid c s ≡ some r
    → Fits lid r.server × ((entry_at lid r.server).owner ≡ []) × ((entry_at lid s).owner ≡ c)
unfolding release
release-owner lid c s r k =
    let (e, o, st, srv) = release_found-inversion lid c s (s.lock_manager lid) r k in
    let here = ap (entry_at lid) srv ∙ entry_at-put_entry lid e s in
    rw (here, st) (o, o, release_found-owner lid c s (s.lock_manager lid) r k)
