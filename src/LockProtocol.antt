-- ===== src/LockProtocol.antt =====
-- The caching lock server and its caching clients together, for one lock id. A call of the server is
-- on the way until the server takes it, and its answer until the client takes it; between these points
-- anything may happen. A revoke or a retry may reach a client at any time.
pub mod Exclusion
use cse.Base.{
  ℕ, zero, suc, ◌+◌, ◌-◌, ◌≤◌, ◌<◌, ◌≡◌, ◌≢◌, refl, sym, ◌∙◌, ap, true, false, Option, none, some,
  [], arith, if◌then◌else◌, ltb, Safely, Bool-cases, inl, inr,
}
use cse.Base.Bytes.{Bytes, bytes_eq, bytes_eq_iff}
use cse.LockServerCache.{Status, ok, retry, Server, Reply}
use cse.LockServerCache
use cse.LockServerCache.Owner.{entry_at, Fits, acquire-owner, release-owner}
use cse.LockClientCache.{
  Pc, calling, holding, returning, returned, answered, Client, move, Action, act,
}
use cse.LockClientCache
use cse.LockClientCache.Local.{IsOrderly, claims, Keeps}
use cse.LockClientCache.Actions.{act-Keeps, init-IsOrderly}

pub record Network : Type 0 where
  pub server : Server
  pub clients : Bytes → Client

abbrev pub with_client : Bytes → Client → Network → Network
with_client c k n = record n { clients = λ d. if bytes_eq d c then k else n.clients d }

-- The thread's call has been served.
abbrev pub served : ℕ → Pc → Client → Client
served t p k = record k { pc = move k.pc t p }

abbrev pub revoke_served : Client → Client
revoke_served k = record k { revoking = k.revoking - 1; revoke_done = k.revoke_done + 1 }

pub data Step (lid : ℕ) (n : Network) : Network → Type 0 where
  client_acts :
      (c : Bytes) (a : Action) (k : Client)
      → c ≢ []
      → act a (n.clients c) ≡ some k
      → Step lid n (with_client c k n)
  acquire_served :
      (c : Bytes) (t : ℕ) (r : Reply)
      → c ≢ []
      → (n.clients c).pc t ≡ calling
      → LockServerCache.acquire lid c n.server ≡ some r
      → Step lid n (
          with_client c
            (served t (answered r.status) (n.clients c))
            (record n { server = r.server }))
  release_served :
      (c : Bytes) (t : ℕ) (r : Reply)
      → (n.clients c).pc t ≡ returning
      → LockServerCache.release lid c n.server ≡ some r
      → Step lid n
          (with_client c (served t returned (n.clients c)) (record n { server = r.server }))
  revoke_release_served :
      (c : Bytes) (r : Reply)
      → 0 < (n.clients c).revoking
      → LockServerCache.release lid c n.server ≡ some r
      → Step lid n (with_client c (revoke_served (n.clients c)) (record n { server = r.server }))

-- The server and clients at their start.
abbrev pub begin : ℕ → Network
begin garbage = record {
  server = LockServerCache.init garbage;
  clients = λ c. LockClientCache.init;
}

pub data Reach (lid garbage : ℕ) : Network → Type 0 where
  start : Reach lid garbage (begin garbage)
  later : {n m : Network} → Reach lid garbage n → Step lid n m → Reach lid garbage m
