-- ===== src/YfsClient/ExtentClient.antt =====
-- yfs_client.cc over the caching clients of the extent service: `ec` of a `yfs_client` is a client of
-- the server, at an address of its own.
use cse.Base.{ℕ, ◌^◌, ◌<◌, ◌≡◌, refl, true, Bool, ◌==◌, if◌then◌else◌, Option, none, some, Returns}
use cse.Base.Bytes.{Bytes}
use cse.InodeManager.{Attr}
use cse.Extent.{Storage, System}
use cse.Extent.Handlers
use cse.Extent.Coherence.{StorageLaws, view, IsCoherent}
use cse.Extent.Coherence.Service.{Got}
use cse.Extent.Coherence.Operations.{Put, client_get-Returns, client_put-Returns}
use cse.YfsClient.{ExtentService}
use cse.YfsClient.Directories.{ExtentLaws}

-- A call that returns has the status OK.
abbrev answered : {T A : Type 0} → Option (A × T) → Option ((Bool × A) × T)
answered none = none
answered (some (a, t)) = some ((true, a), t)

abbrev done : {T : Type 0} → Option (Unit {0} × T) → Option (Bool × T)
done none = none
done (some (u, t)) = some (true, t)

answered-Returns :
    {T A : Type 0} (P : A × T → Type 0) (Q : (Bool × A) × T → Type 0) (o : Option (A × T))
    → Returns P o
    → ((a : A) (t : T) → P (a, t) → Q ((true, a), t))
    → Returns Q (answered o)
answered-Returns P Q none h k = h
answered-Returns P Q (some (a, t)) h k = k a t h

done-Returns :
    {T : Type 0} (P : Unit {0} × T → Type 0) (Q : Bool × T → Type 0) (o : Option (Unit {0} × T))
    → Returns P o
    → ((u : Unit {0}) (t : T) → P (u, t) → Q (true, t))
    → Returns Q (done o)
done-Returns P Q none h k = h
done-Returns P Q (some (u, t)) h k = k u t h

-- The extent client at an address. `clock` is the time that its calls read.
abbrev pub client_service :
    (S : Storage) → (Bytes → Bool) → Attr → (System S → ℕ) → Bytes → ExtentService (System S)
client_service S reachable junk clock me = record {
  get = λ i s. answered (Handlers.client_get S reachable junk me i (clock s) s);
  getattr = λ i s. answered (Handlers.client_getattr S reachable junk me i s);
  put = λ i buf s. done (Handlers.client_put S reachable junk me i buf (clock s) s);
  create = λ type s. answered (Handlers.client_create S reachable junk me type s);
  remove = λ i s. done (Handlers.client_remove S reachable junk me i s);
}

module _ {S : Storage} (L : StorageLaws S) (reachable : Bytes → Bool) (junk : Attr)
    (clock : System S → ℕ) where
  -- A file that can be used: the caches are coherent, and the server has it in service.
  abbrev pub InService : System S → ℕ → Type 0
  InService s i = IsCoherent L reachable s × L.Serves s.store i × (i < 2 ^ 31)

  pub client_get-served :
      (me : Bytes) (i : ℕ) (s : System S)
      → reachable me ≡ true
      → InService s i
      → Returns
          (λ r.
            (r.0.0 ≡ true)
            × (r.0.1 ≡ view L s i)
            × ((j : ℕ) → view L r.1 j ≡ view L s j)
            × ((j : ℕ) → InService s j → InService r.1 j))
          ((client_service S reachable junk clock me).get i s)
  client_get-served me i s here (v, srv, small) =
      answered-Returns (Got L reachable me i s) _
        (Handlers.client_get S reachable junk me i (clock s) s)
        (client_get-Returns L reachable junk me i (clock s) s small v here srv)
        (λ b t (data_is, k, own, fits).
          (refl, data_is, k.1, (λ j (v', srv', small'). (k.0, k.2 j srv', small'))))

  pub client_put-served :
      (me : Bytes) (i : ℕ) (buf : Bytes) (s : System S)
      → reachable me ≡ true
      → InService s i
      → L.Fits i buf
      → Returns
          (λ r.
            (r.0 ≡ true)
            × ((j : ℕ) → view L r.1 j ≡ (if j == i then buf else view L s j))
            × ((j : ℕ) → InService s j → InService r.1 j))
          ((client_service S reachable junk clock me).put i buf s)
  client_put-served me i buf s here (v, srv, small) fits =
      done-Returns (λ r. Put L reachable junk me i buf s r.1) _
        (Handlers.client_put S reachable junk me i buf (clock s) s)
        (client_put-Returns L reachable junk me i buf (clock s) s small v here srv fits)
        (λ u t (v', same, serves, own).
          (refl, same, (λ j (w, srv', small'). (v', serves j srv', small'))))

  -- The extent client keeps the laws that `yfs_client` relies on.
  unfoldable pub client_laws :
      (me : Bytes) → reachable me ≡ true → ExtentLaws (client_service S reachable junk clock me)
  client_laws me here = record {
    content = view L;
    Serves = InService;
    Fits = L.Fits;
    get_lem = λ i s h. client_get-served me i s here h;
    put_lem = λ i buf s h fits. client_put-served me i buf s here h fits;
  }
