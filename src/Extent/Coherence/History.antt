-- ===== src/Extent/Coherence/History.antt =====
-- Histories of `get` and `put` calls of any clients, each run to its end before the next one begins,
-- against one memory that all of them share.
use cse.Base.{
  ℕ, ◌<◌, ◌^◌, ◌≡◌, refl, ◌∙◌, ap, Bool, true, List, [], ◌∷◌, ◌++◌, ◌==◌, if◌then◌else◌, All,
  All-map, Returns, bind-Returns, sym,
}
use cse.Base.Bytes.{Bytes}
use cse.InodeManager.{Attr}
use cse.Extent.{Storage, System}
use cse.Extent.Handlers
use cse.Extent.Coherence.{StorageLaws, view, IsCoherent}
use cse.Extent.Coherence.Service.{Got}
use cse.Extent.Coherence.Operations.{Put, client_get-Returns, client_put-Returns}

-- A call of a client, with the time of its clock.
pub data Request : Type 0 where
  get : (client : Bytes) (i : ℕ) (now : ℕ) → Request
  put : (client : Bytes) (i : ℕ) (buf : Bytes) (now : ℕ) → Request

abbrev pub client_of : Request → Bytes
client_of (get c i now) = c
client_of (put c i buf now) = c

abbrev pub file_of : Request → ℕ
file_of (get c i now) = i
file_of (put c i buf now) = i

-- The answers over one memory.
unfoldable pub answers : List Request → (ℕ → Bytes) → List Bytes
answers [] m = []
answers (get c i now ∷ rs) m = m i ∷ answers rs m
answers (put c i buf now ∷ rs) m = answers rs (λ j. if j == i then buf else m j)

module _ {S : Storage} (reachable : Bytes → Bool) (junk : Attr) where
  -- The answers of the clients; a `put` has none.
  abbrev serve : Request → Handlers.M S (List Bytes)
  serve (get c i now) =
      Handlers.◌>>=◌ S (Handlers.client_get S reachable junk c i now)
        λ b. Handlers.return S (b ∷ [])
  serve (put c i buf now) =
      Handlers.◌>>=◌ S (Handlers.client_put S reachable junk c i buf now) λ _. Handlers.return S []

  unfoldable pub run : List Request → Handlers.M S (List Bytes)
  run [] = Handlers.return S []
  run (r ∷ rs) =
      Handlers.◌>>=◌ S (serve r)
        λ a. Handlers.◌>>=◌ S (run rs) λ later. Handlers.return S (a ++ later)

  module _ (L : StorageLaws S) where
    -- What a `put` brings fits the file.
    abbrev pub FitsFile : Request → Type 0
    FitsFile (get c i now) = Unit {0}
    FitsFile (put c i buf now) = L.Fits i buf

    -- A call by a client that answers, on a file in service, of bytes that fit the file.
    abbrev pub Allowed : S.State → Request → Type 0
    Allowed t r =
        (file_of r < 2 ^ 31)
        × (reachable (client_of r) ≡ true)
        × L.Serves t (file_of r)
        × FitsFile r

    -- The state stands for the memory.
    abbrev pub Shows : System S → (ℕ → Bytes) → Type 0
    Shows s m = IsCoherent L reachable s × ((j : ℕ) → view L s j ≡ m j)

    -- One call, with the memory after it.
    abbrev Served : Request → System S → (ℕ → Bytes) → List Bytes × System S → Type 0
    Served r s m q =
        ((rs : List Request)
          → (m' : ℕ → Bytes) × Shows q.1 m' × (answers (r ∷ rs) m ≡ q.0 ++ answers rs m'))
        × ((j : ℕ) → L.Serves s.store j → L.Serves q.1.store j)

    serve-Served :
        (r : Request) (s : System S) (m : ℕ → Bytes)
        → Shows s m
        → Allowed s.store r
        → Returns (Served r s m) (serve r s)
    unfolding answers
    serve-Served (get c i now) s m (v, same) (small, here, srv, fits) =
        bind-Returns (Got L reachable c i s) (Served (get c i now) s m)
          (Handlers.client_get S reachable junk c i now s) _
          (client_get-Returns L reachable junk c i now s small v here srv)
          λ b t (data_is, k, own, fits'). (
            (λ rs. (
              m,
              (k.0, (λ j. k.1 j ∙ same j)),
              ap (λ x. x ∷ answers rs m) (sym (data_is ∙ same i)),
            )),
            k.2,
          )
    serve-Served (put c i buf now) s m (v, same) (small, here, srv, fits) =
        bind-Returns (λ q. Put L reachable junk c i buf s q.1) (Served (put c i buf now) s m)
          (Handlers.client_put S reachable junk c i buf now s) _
          (client_put-Returns L reachable junk c i buf now s small v here srv fits)
          λ a t (v', same', serves, own). (
            (λ rs. (
              (λ j. if j == i then buf else m j),
              (v', (λ j. same' j ∙ ap (λ x. if j == i then buf else x) (same j))),
              refl,
            )),
            serves,
          )

    -- The clients of the extent service share one memory: from a coherent state that stands for a
    -- memory, any sequence of `get` and `put` calls of clients that answer, on files in service
    -- with ids below 2^31 and with bytes that fit the files, returns the answers that the memory
    -- gives. So a `get` returns what was put last, by whichever client.
    pub run-answers :
        (rs : List Request) (s : System S) (m : ℕ → Bytes)
        → Shows s m
        → All (Allowed s.store) rs
        → Returns (λ q. q.0 ≡ answers rs m) (run rs s)
    unfolding run
    run-answers [] s m h allowed = unfold answers in refl
    run-answers (r ∷ rs) s m h allowed =
        bind-Returns (Served r s m) (λ q. q.0 ≡ answers (r ∷ rs) m) (serve r s) _
          (serve-Served r s m h allowed.0)
          λ a t (next, serves).
            let (m', h', e) = next rs in
            bind-Returns (λ q. q.0 ≡ answers rs m') (λ q. q.0 ≡ answers (r ∷ rs) m) (run rs t) _
              (run-answers rs t m' h' (
                All-map (Allowed s.store) (Allowed t.store) rs
                  (λ x (small, here, srv, fits). (small, here, serves (file_of x) srv, fits))
                  allowed.1))
              λ later u last. ap (λ x. a ++ x) last ∙ sym e
