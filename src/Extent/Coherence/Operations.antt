-- ===== src/Extent/Coherence/Operations.antt =====
-- `extent_client::get` and `extent_client::put`: one content for every client.
use cse.Base.{
  ℕ, ◌<◌, ◌^◌, ◌≡◌, refl, sym, ◌∙◌, Bool, true, false, not, ◌||◌, some, length, ◌==◌, if◌then◌else◌,
  Returns, bind-Returns, arith, Bool-cases, inl, inr, ==_iff, ◌%◌,
}
use cse.Base.Bytes.{Bytes}
use cse.InodeManager.{Attr}
use cse.Extent.{Storage, FileData, System}
use cse.Extent.Handlers
use cse.Extent.Coherence.{StorageLaws, view, IsCoherent}
use cse.Extent.Coherence.Steps.{
  Keeps, with_cache, view_cached, with_cache-IsCoherent, with_cache-view_owner,
}
use cse.Extent.Coherence.Service.{Keeps-trans, still, Got, server_get-Got, owner_uncached}
use cse.Extent.Coherence.Cache.{
  HasEntry, lookup_data-HasEntry, Kept, client_getattr-Kept, touch-Kept,
}

module _ {S : Storage} (L : StorageLaws S) (reachable : Bytes → Bool) (junk : Attr) where
  -- The content of one file is new, and the client has the file; the other files are as they were.
  abbrev pub Put : Bytes → ℕ → Bytes → System S → System S → Type 0
  Put me i buf s t =
      IsCoherent L reachable t
      × ((j : ℕ) → view L t j ≡ (if j == i then buf else view L s j))
      × ((j : ℕ) → L.Serves s.store j → L.Serves t.store j)
      × (t.owner i ≡ some me)

  set_data-Put :
      (me : Bytes) (i : ℕ) (f : FileData) (s : System S)
      → IsCoherent L reachable s
      → s.owner i ≡ some me
      → f.data_cached ≡ true
      → L.Fits i f.file_data
      → Returns (λ r. Put me i f.file_data s r.1) (Handlers.set_data S me i f s)
  set_data-Put me i f s v own d fits = (
    with_cache-IsCoherent L reachable me i f s v (λ q. (own, fits)),
    with_cache-view_owner L reachable me i f s own d,
    (λ j h. h),
    own,
  )

  -- Putting the content that a file has changes nothing.
  Put-Keeps :
      (me : Bytes) (i : ℕ) (buf : Bytes) (s t : System S)
      → buf ≡ view L s i
      → Put me i buf s t
      → Keeps L reachable s t
  Put-Keeps me i buf s t e (v, same, serves, own) = (
    v,
    (λ j. elim (Bool-cases (j == i)) [
      | inl hit ↦ same j ∙ rw (hit, (==_iff j i).0 hit) e
      | inr miss ↦ same j ∙ rw miss
    ]),
    serves,
  )

  -- The attributes are fetched too where they are missing.
  fetch_attributes-Kept :
      (me : Bytes) (i : ℕ) (cached : Bool) (s : System S)
      → i < 2 ^ 31
      → IsCoherent L reachable s
      → s.owner i ≡ some me
      → L.Serves s.store i
      → Returns (Kept L reachable junk me i s) (
          (if cached
              then Handlers.return S tt
              else (Handlers.◌>>=◌ S
                  (Handlers.client_getattr S reachable junk me i)
                  λ _. Handlers.return S tt))
            s)
  fetch_attributes-Kept me i true s small v own srv = (still L reachable s v, own)
  fetch_attributes-Kept me i false s small v own srv =
      bind-Returns _ _ (Handlers.client_getattr S reachable junk me i s) _
        (client_getattr-Kept L reachable junk me i s small v own srv) (λ a t kept. kept)

  -- `get` with the file's data not in the client's cache, up to the access time.
  fetch : Bytes → ℕ → Handlers.M S Bytes
  fetch me i = Handlers.◌>>=◌ S (Handlers.server_get S reachable me i) λ b.
      Handlers.◌>>=◌ S (Handlers.lookup_data S reachable junk me i) λ g.
        Handlers.◌>>=◌ S (Handlers.set_data S me i (record g { file_data = b; data_cached = true }))
          λ _.
            Handlers.◌>>=◌ S
              (if g.attr_cached
                then Handlers.return S tt
                else (Handlers.◌>>=◌ S (Handlers.client_getattr S reachable junk me i)
                    λ _. Handlers.return S tt))
              λ _. Handlers.return S b

  fetch-Got :
      (me : Bytes) (i : ℕ) (s : System S)
      → i < 2 ^ 31
      → IsCoherent L reachable s
      → reachable me ≡ true
      → L.Serves s.store i
      → ((f : FileData) → s.cache me i ≡ some f → f.data_cached ≡ false)
      → Returns (Got L reachable me i s) (fetch me i s)
  unfolding fetch
  fetch-Got me i s small v here srv lacks =
      bind-Returns (Got L reachable me i s) (Got L reachable me i s)
        (Handlers.server_get S reachable me i s) _
        (server_get-Got L reachable me i s small v here srv
          (λ own. owner_uncached L reachable me i s v own lacks))
        λ b t (data_is, k, own, fits).
          bind-Returns (HasEntry L reachable junk me i t) (Got L reachable me i s)
            (Handlers.lookup_data S reachable junk me i t) _
            (lookup_data-HasEntry L reachable junk me i t k.0)
            λ g u (k', e, same).
              let new : FileData = record g { file_data = b; data_cached = true } in
              let y : System S = with_cache L reachable me i new u in
              let kept : Keeps L reachable u y =
                Put-Keeps me i b u y (data_is ∙ sym (k.1 i) ∙ sym (k'.1 i))
                  (set_data-Put me i new u k'.0 (same i ∙ own) refl fits) in
              let all : Keeps L reachable s y =
                Keeps-trans L reachable s t y k (Keeps-trans L reachable t u y k' kept) in
              bind-Returns (Kept L reachable junk me i y) (Got L reachable me i s) _ _
                (fetch_attributes-Kept me i g.attr_cached y small kept.0 (same i ∙ own)
                  (all.2 i srv))
                λ a x (k'', own''). (data_is, Keeps-trans L reachable s y x all k'', own'', fits)

  -- The data is in the client's cache, or is fetched.
  get_data-Got :
      (me : Bytes) (i : ℕ) (f : FileData) (s : System S)
      → i < 2 ^ 31
      → IsCoherent L reachable s
      → reachable me ≡ true
      → L.Serves s.store i
      → s.cache me i ≡ some f
      → Returns
          (Got L reachable me i s)
          ((if f.data_cached then Handlers.return S f.file_data else fetch me i) s)
  get_data-Got me i f s small v here srv e = elim (Bool-cases f.data_cached) [
    | inl hit ↦ rw hit (
      sym (view_cached L reachable s me i f v e hit),
      still L reachable s v,
      (v.held me i f e hit).0,
      (v.held me i f e hit).1,
    )
    | inr miss ↦ rw miss (fetch-Got me i s small v here srv (λ g q. ground arith))
  ]

  -- From a coherent state, by a client that answers, on a file in service with an id below 2^31,
  -- `get` returns the content of the file, whichever client's cache it is in; it fits the file. The
  -- state stays coherent, every client sees the content that it saw, and the caller has the file
  -- afterwards.
  pub client_get-Returns :
      (me : Bytes) (i now : ℕ) (s : System S)
      → i < 2 ^ 31
      → IsCoherent L reachable s
      → reachable me ≡ true
      → L.Serves s.store i
      → Returns (Got L reachable me i s) (Handlers.client_get S reachable junk me i now s)
  unfolding Handlers.client_get fetch
  client_get-Returns me i now s small v here srv =
      bind-Returns (HasEntry L reachable junk me i s) (Got L reachable me i s)
        (Handlers.lookup_data S reachable junk me i s) _
        (lookup_data-HasEntry L reachable junk me i s v)
        λ f t (k, e, same).
          bind-Returns (Got L reachable me i t) (Got L reachable me i s)
            ((if f.data_cached then Handlers.return S f.file_data else fetch me i) t) _
            (get_data-Got me i f t small k.0 here (k.2 i srv) e)
            λ b u (data_is, k', own, fits).
              bind-Returns (Kept L reachable junk me i u) (Got L reachable me i s)
                (Handlers.touch S reachable junk me i now u) _
                (touch-Kept L reachable junk me i now u k'.0 own)
                λ a x (k'', own'). (
                  data_is ∙ k.1 i,
                  Keeps-trans L reachable s t x k (Keeps-trans L reachable t u x k' k''),
                  own',
                  fits,
                )

  -- What `put` does before it stores: the client has the file, and no client sees a difference.
  prepare-Kept :
      (me : Bytes) (i : ℕ) (f : FileData) (now : ℕ) (s : System S)
      → i < 2 ^ 31
      → IsCoherent L reachable s
      → reachable me ≡ true
      → L.Serves s.store i
      → s.cache me i ≡ some f
      → Returns (Kept L reachable junk me i s) (
          (if not f.data_cached || not f.attr_cached
              then (Handlers.◌>>=◌ S
                  (Handlers.client_get S reachable junk me i now)
                  λ _. Handlers.return S tt)
              else Handlers.return S tt)
            s)
  prepare-Kept me i f now s small v here srv e =
      elim (Bool-cases (not f.data_cached || not f.attr_cached)) [
        | inl hit ↦ rw hit (
            bind-Returns _ _ (Handlers.client_get S reachable junk me i now s) _
              (client_get-Returns me i now s small v here srv) (λ b t got. (got.1, got.2)))
        | inr miss ↦ rw miss (still L reachable s v, (v.held me i f e (ground arith)).0)
      ]

  Put-after :
      (me : Bytes) (i : ℕ) (buf : Bytes) (s t u : System S)
      → Keeps L reachable s t
      → Put me i buf t u
      → Put me i buf s u
  Put-after me i buf s t u k (v, same, serves, own) =
      (v, (λ j. ground (arith, same j, k.1 j)), (λ j h. serves j (k.2 j h)), own)

  -- From a coherent state, by a client that answers, on a file in service with an id below 2^31,
  -- `put` of bytes that fit the file returns and replaces the content of that file for every client, and no other content. The
  -- state stays coherent, and the caller has the file afterwards.
  pub client_put-Returns :
      (me : Bytes) (i : ℕ) (buf : Bytes) (now : ℕ) (s : System S)
      → i < 2 ^ 31
      → IsCoherent L reachable s
      → reachable me ≡ true
      → L.Serves s.store i
      → L.Fits i buf
      → Returns (λ r. Put me i buf s r.1) (Handlers.client_put S reachable junk me i buf now s)
  unfolding Handlers.client_put
  client_put-Returns me i buf now s small v here srv fits =
      bind-Returns (HasEntry L reachable junk me i s) (λ r. Put me i buf s r.1)
        (Handlers.lookup_data S reachable junk me i s) _
        (lookup_data-HasEntry L reachable junk me i s v)
        λ f t (k, e, same).
          bind-Returns (Kept L reachable junk me i t) (λ r. Put me i buf s r.1)
            ((if not f.data_cached || not f.attr_cached
                then (Handlers.◌>>=◌ S (Handlers.client_get S reachable junk me i now)
                    λ _. Handlers.return S tt)
                else Handlers.return S tt)
              t)
            _ (prepare-Kept me i f now t small k.0 here (k.2 i srv) e)
            λ a u (k', own).
              bind-Returns (HasEntry L reachable junk me i u) (λ r. Put me i buf s r.1)
                (Handlers.lookup_data S reachable junk me i u) _
                (lookup_data-HasEntry L reachable junk me i u k'.0)
                λ g x (k'', e', same').
                  Put-after me i buf s x _
                    (Keeps-trans L reachable s t x k (Keeps-trans L reachable t u x k' k''))
                    (set_data-Put me i
                      (record {
                        file_data = buf;
                        file_attr = record g.file_attr {
                          size = length buf % 2 ^ 32;
                          ctime = now;
                          mtime = now;
                        };
                        data_cached = true;
                        attr_cached = true;
                      })
                      x k''.0 (same' i ∙ own) refl fits)
