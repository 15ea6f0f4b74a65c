-- ===== src/Extent/Coherence/Service.antt =====
-- The operations of the extent client, through the server and the other clients: what they return
-- and what every client sees afterwards.
use cse.Base.{
  ℕ, ◌<◌, ◌%◌, ◌^◌, ◌≡◌, refl, sym, ◌∙◌, ap, Bool, true, false, ◌&&◌, Option, none, some, length,
  ◌==◌, if◌then◌else◌, Returns, Returns-map, bind-Returns, arith, Bool-cases, Option-cases, inl,
  inr, ==_iff,
}
use cse.Base.Bytes.{Bytes, bytes_eq, bytes_eq_iff, bytes_eq_refl}
use cse.Extent.{Storage, FileData, System}
use cse.Extent.Handlers
use cse.Extent.Handlers.{M, stored}
use cse.Extent.Coherence.{StorageLaws, view, IsCoherent}
use cse.Extent.Coherence.Steps.{
  Keeps, NobodyHas, view_stored, with_cache-IsCoherent, with_owner-Keeps, with_store-Keeps,
}

module _ {S : Storage} (L : StorageLaws S) (reachable : Bytes → Bool) where
  pub Keeps-trans :
      (s t u : System S) → Keeps L reachable s t → Keeps L reachable t u → Keeps L reachable s u
  Keeps-trans s t u a b = (b.0, (λ j. b.1 j ∙ a.1 j), (λ j h. b.2 j (a.2 j h)))

  -- A call of the storage in front of the rest of a handler.
  pub stored-Returns :
      {A B : Type 0} (P : A × S.State → Type 0) (Q : B × System S → Type 0)
      (m : S.State → Option (A × S.State)) (f : A → M S B) (s : System S)
      → Returns P (m s.store)
      → ((a : A) (t : S.State) → P (a, t) → Returns Q (f a (record s { store = t })))
      → Returns Q ((Handlers.◌>>=◌ S (stored S m) f) s)
  stored-Returns {A} {B} P Q m f s h k = go (m s.store) h
    where
      go :
          (o : Option (A × S.State))
          → Returns P o
          → Returns Q
              (elim (elim o as (λ _. Option (A × System S)) [
                | none ↦ none
                | some (a, t) ↦ some (a, record s { store = t })
              ])
                as (λ _. Option (B × System S)) [ none ↦ none | some (a, s') ↦ f a s' ])
      go none h' = absurd h'
      go (some (a, t)) h' = k a t h'

  -- The owner's data goes to the storage, and after that nobody has the file in the cache.
  abbrev Flushed : ℕ → System S → System S → Type 0
  Flushed i s t = Keeps L reachable s t × NobodyHas L reachable t i

  -- An entry of the owner that has no data: nobody has data.
  pub owner_uncached :
      (o : Bytes) (i : ℕ) (s : System S)
      → IsCoherent L reachable s
      → s.owner i ≡ some o
      → ((f : FileData) → s.cache o i ≡ some f → f.data_cached ≡ false)
      → NobodyHas L reachable s i
  owner_uncached o i s v own h c f k = elim (Bool-cases f.data_cached) [
    | inr e ↦ e
    | inl e ↦
        let q : c ≡ o = ground (arith, (v.held c i f k e).0, own) in
        h f (ap (λ x. s.cache x i) (sym q) ∙ k)
  ]

  put_back-Flushed :
      (o : Bytes) (i : ℕ) (f g : FileData) (s : System S) (t : S.State)
      → IsCoherent L reachable s
      → s.owner i ≡ some o
      → s.cache o i ≡ some f
      → f.data_cached ≡ true
      → g.data_cached ≡ false
      → ((j : ℕ) → L.content t j ≡ (if j == i then f.file_data else L.content s.store j))
      → ((j : ℕ) → L.Serves s.store j → L.Serves t j)
      → Flushed i s (record s {
        store = t;
        cache = λ x j. if bytes_eq x o && (j == i) then some g else s.cache x j;
      })
  put_back-Flushed o i f g s t v own k d d' stored' serves =
      let s' : System S = record s { store = t } in
      let v' : IsCoherent L reachable s' = record { held = v.held; answers = v.answers } in
      let u' : IsCoherent L reachable _ =
        with_cache-IsCoherent L reachable o i g s' v' (λ q. absurd (cc)) in
      (
        (
          u',
          (λ j. elim (Bool-cases (j == i)) [
            | inl hit ↦
                let q : j ≡ i = (==_iff j i).0 hit in
                rw (q, own, bytes_eq_refl o, stored' i, (==_iff i i).1 refl, d', k, d)
            | inr miss ↦ elim (Option-cases (s.owner j)) [
              | inl e ↦ rw (e, stored' j, miss)
              | inr (x, e) ↦ rw (e, stored' j) (ground arith)
            ]
          ]),
          serves,
        ),
        owner_uncached o i _ u' own (λ h q. ground (arith, bytes_eq_refl o)),
      )

  flush_handler-Flushed :
      (o : Bytes) (i : ℕ) (s : System S)
      → i < 2 ^ 31
      → IsCoherent L reachable s
      → s.owner i ≡ some o
      → L.Serves s.store i
      → Returns (λ r. Flushed i s r.1) (Handlers.flush_handler S o i s)
  unfolding Handlers.flush_handler Handlers.flush_cached Handlers.server_put
  flush_handler-Flushed o i s small v own srv = elim (Option-cases (s.cache o i)) [
    | inl e ↦ rw e ((v, (λ j. refl), (λ j h. h)), owner_uncached o i s v own (λ f k. absurd (cc)))
    | inr (f, e) ↦ elim (Bool-cases f.data_cached) [
      | inr d ↦
          rw (e, d) ((v, (λ j. refl), (λ j h. h)), owner_uncached o i s v own (λ g k. ground arith))
      | inl d ↦
          let m : i % 2 ^ 31 ≡ i = omega arith in
          rw (e, d, m)
            (stored-Returns _ _ (S.write_file i f.file_data (length f.file_data)) _ s
              (L.write_lem i f.file_data s.store srv (v.held o i f e d).1)
              λ a t (same, serves).
                put_back-Flushed o i f (record f { data_cached = false; attr_cached = false }) s t v
                  own e d refl same serves)
    ]
  ]

  -- What a client gets from the server: the content of the file. After that it has the file, and no
  -- client has it in the cache.
  abbrev pub Got : Bytes → ℕ → System S → Bytes × System S → Type 0
  Got me i s r =
      (r.0 ≡ view L s i) × Keeps L reachable s r.1 × (r.1.owner i ≡ some me) × L.Fits i r.0

  -- The end of `extent_server::get`, after every cache has been flushed.
  read-Got :
      (me : Bytes) (i : ℕ) (s t : System S)
      → reachable me ≡ true
      → L.Serves s.store i
      → Flushed i s t
      → Returns
          (Got me i s)
          ((Handlers.◌>>=◌ S (Handlers.set_owner S i me) λ _. stored S (S.read_file i)) t)
  read-Got me i s t here srv (keeps, nobody) =
      let u : System S = record t { owner = λ j. if j == i then some me else t.owner j } in
      let taken : Keeps L reachable t u = with_owner-Keeps L reachable i me t keeps.0 nobody here in
      let both : Keeps L reachable s u = Keeps-trans s t u keeps taken in
      bind-Returns _ (Got me i s) (S.read_file i u.store) _ (L.read_lem i u.store (both.2 i srv))
        λ b store (bytes, fits, same, serves). (
          bytes ∙ sym (view_stored L reachable u i nobody) ∙ both.1 i,
          Keeps-trans s u _ both (with_store-Keeps L reachable store u taken.0 same serves),
          ground arith,
          fits,
        )

  pub still : (s : System S) → IsCoherent L reachable s → Keeps L reachable s s
  still s v = (v, (λ j. refl), (λ j h. h))

  -- The owner that the handlers go by: the client that has the file, or the caller.
  abbrev Found : Bytes → ℕ → System S → Bytes × System S → Type 0
  Found me i s r =
      Keeps L reachable s r.1 × (r.1.owner i ≡ some r.0) × (r.0 ≡ me → NobodyHas L reachable r.1 i)

  find_owner-Found :
      (me : Bytes) (i : ℕ) (s : System S)
      → IsCoherent L reachable s
      → reachable me ≡ true
      → (s.owner i ≡ some me → NobodyHas L reachable s i)
      → Returns (Found me i s) (Handlers.find_owner S reachable me i s)
  unfolding Handlers.find_owner
  find_owner-Found me i s v here own = elim (Option-cases (s.owner i)) [
    | inl e ↦
        let nobody : NobodyHas L reachable s i = λ c f k. elim (Bool-cases f.data_cached) [
          | inl d ↦ absurd (cc (e, (v.held c i f k d).0))
          | inr d ↦ d
        ] in
        rw (Handlers.find_owner, e)
          (with_owner-Keeps L reachable i me s v nobody here, ground arith, λ q. nobody)
    | inr (o, e) ↦ rw (Handlers.find_owner, e) (still s v, e, λ q. own (e ∙ ap some q))
  ]

  -- A flush of a file whose owner can be called.
  call-Flushed :
      (o : Bytes) (i : ℕ) (s t : System S)
      → i < 2 ^ 31
      → Keeps L reachable s t
      → t.owner i ≡ some o
      → L.Serves s.store i
      → Returns
          (λ r. Flushed i s r.1)
          (Handlers.call S reachable o (Handlers.flush_handler S o i) t)
  unfolding Handlers.call
  call-Flushed o i s t small keeps own srv = rw (keeps.0.answers o i own) (
      Returns-map _ (λ r. Flushed i s r.1) (Handlers.flush_handler S o i t)
        (λ r flushed. (Keeps-trans s t r.1 keeps flushed.0, flushed.1))
        (flush_handler-Flushed o i t small keeps.0 own (keeps.2 i srv)))

  -- A client that does not have the file's data in its cache gets from the server what the file has,
  -- wherever that is: every other cache is flushed first, and no client sees a difference.
  pub server_get-Got :
      (me : Bytes) (i : ℕ) (s : System S)
      → i < 2 ^ 31
      → IsCoherent L reachable s
      → reachable me ≡ true
      → L.Serves s.store i
      → (s.owner i ≡ some me → NobodyHas L reachable s i)
      → Returns (Got me i s) (Handlers.server_get S reachable me i s)
  unfolding Handlers.server_get
  server_get-Got me i s small v here srv own =
      let m : i % 2 ^ 31 ≡ i = omega arith in
      rw m (
        bind-Returns (Found me i s) (Got me i s) (Handlers.find_owner S reachable me i s) _
          (find_owner-Found me i s v here own)
          λ o t (keeps, has, nobody). elim (Bool-cases (bytes_eq o me)) [
            | inl hit ↦
                rw hit (read-Got me i s t here srv (keeps, nobody ((bytes_eq_iff o me).0 hit)))
            | inr miss ↦ rw miss (
                bind-Returns (λ r. Flushed i s r.1) (Got me i s)
                  (Handlers.call S reachable o (Handlers.flush_handler S o i) t) _
                  (call-Flushed o i s t small keeps has srv)
                  λ a u flushed. read-Got me i s u here srv flushed)
          ])
