-- ===== src/Extent/Coherence/Cache.antt =====
-- The operations of the extent client on its own cache.
use cse.Base.{
  ℕ, ◌<◌, ◌%◌, ◌^◌, ◌≡◌, refl, sym, ◌∙◌, ap, Bool, true, some, Returns, bind-Returns, arith,
  Bool-cases, Option-cases, inl, inr,
}
use cse.Base.Bytes.{Bytes, bytes_eq_refl}
use cse.InodeManager.{Attr}
use cse.Extent.{Storage, FileData, fresh_data, System}
use cse.Extent.Handlers
use cse.Extent.Handlers.{M, stored}
use cse.Extent.Coherence.{StorageLaws, IsCoherent}
use cse.Extent.Coherence.Steps.{Keeps, with_cache-IsCoherent, with_cache-view, with_store-Keeps}
use cse.Extent.Coherence.Service.{Keeps-trans, still}

module _ {S : Storage} (L : StorageLaws S) (reachable : Bytes → Bool) (junk : Attr) where
  -- The client's entry after `fileManager[eid]`, which makes a missing one: no client sees it.
  abbrev pub HasEntry : Bytes → ℕ → System S → FileData × System S → Type 0
  HasEntry me i s r =
      Keeps L reachable s r.1 × (r.1.cache me i ≡ some r.0) × ((j : ℕ) → r.1.owner j ≡ s.owner j)

  pub lookup_data-HasEntry :
      (me : Bytes) (i : ℕ) (s : System S)
      → IsCoherent L reachable s
      → Returns (HasEntry me i s) (Handlers.lookup_data S reachable junk me i s)
  unfolding Handlers.lookup_data
  lookup_data-HasEntry me i s v = elim (Option-cases (s.cache me i)) [
    | inl e ↦
        rw (Handlers.lookup_data, e)
          (
            (
              with_cache-IsCoherent L reachable me i (fresh_data junk) s v (λ q. absurd (cc)),
              with_cache-view L reachable me i (fresh_data junk) s (λ b. rw e),
              (λ j h. h),
            ),
            ground (arith, bytes_eq_refl me),
            (λ j. refl),
          )
    | inr (f, e) ↦ rw (Handlers.lookup_data, e) (still L reachable s v, e, (λ j. refl))
  ]

  -- The client's entry is replaced by one for the same data.
  set_data-Keeps :
      (me : Bytes) (i : ℕ) (f g : FileData) (s : System S)
      → IsCoherent L reachable s
      → s.cache me i ≡ some f
      → g.data_cached ≡ f.data_cached
      → g.file_data ≡ f.file_data
      → Returns
          (λ r. Keeps L reachable s r.1 × ((j : ℕ) → r.1.owner j ≡ s.owner j))
          (Handlers.set_data S me i g s)
  set_data-Keeps me i f g s v e flag same = (
    (
      with_cache-IsCoherent L reachable me i g s v
          (λ d. let own = v.held me i f e (sym flag ∙ d) in (own.0, rw same own.1)),
      with_cache-view L reachable me i g s (λ b. rw (e, flag, same)),
      (λ j h. h),
    ),
    (λ j. refl),
  )

  -- A step of the file's owner that no client sees, and after which it is still the owner.
  abbrev pub Kept : {A : Type 0} → Bytes → ℕ → System S → A × System S → Type 0
  Kept me i s r = Keeps L reachable s r.1 × (r.1.owner i ≡ some me)

  server_getattr-Kept :
      (me : Bytes) (i : ℕ) (s : System S)
      → i < 2 ^ 31
      → IsCoherent L reachable s
      → s.owner i ≡ some me
      → L.Serves s.store i
      → Returns (Kept me i s) (Handlers.server_getattr S reachable me i s)
  unfolding Handlers.server_getattr
  server_getattr-Kept me i s small v own srv =
      let m : i % 2 ^ 31 ≡ i = omega arith in
      rw m (
        bind-Returns (λ r. r ≡ (me, s)) (Kept me i s) (Handlers.find_owner S reachable me i s) _
          (rw (Handlers.find_owner, own) refl)
          λ o t e.
            rw (ap (λ r. r.0) e, ap (λ r. r.1) e, bytes_eq_refl me)
              (bind-Returns _ (Kept me i s) (S.getattr i s.store) _ (L.getattr_lem i s.store srv)
                λ a u (same, serves). (with_store-Keeps L reachable u s v same serves, own)))

  pub client_getattr-Kept :
      (me : Bytes) (i : ℕ) (s : System S)
      → i < 2 ^ 31
      → IsCoherent L reachable s
      → s.owner i ≡ some me
      → L.Serves s.store i
      → Returns (Kept me i s) (Handlers.client_getattr S reachable junk me i s)
  unfolding Handlers.client_getattr
  client_getattr-Kept me i s small v own srv =
      bind-Returns (HasEntry me i s) (Kept me i s) (Handlers.lookup_data S reachable junk me i s) _
        (lookup_data-HasEntry me i s v)
        λ f t (k, e, same). elim (Bool-cases f.attr_cached) [
          | inl hit ↦ rw hit (k, same i ∙ own)
          | inr miss ↦ rw miss (
              bind-Returns (Kept me i t) (Kept me i s) (Handlers.server_getattr S reachable me i t)
                _ (server_getattr-Kept me i t small k.0 (same i ∙ own) (k.2 i srv))
                λ a u (k', own').
                  bind-Returns (HasEntry me i u) (Kept me i s)
                    (Handlers.lookup_data S reachable junk me i u) _
                    (lookup_data-HasEntry me i u k'.0)
                    λ g x (k'', e', same').
                      let last =
                        set_data-Keeps me i g (record g { file_attr = a; attr_cached = true }) x
                          k''.0 e' refl refl in
                      (
                        Keeps-trans L reachable s t _ k (
                            Keeps-trans L reachable t u _ k'
                              (Keeps-trans L reachable u x _ k'' last.0)),
                        same' i ∙ own',
                      ))
        ]

  pub touch-Kept :
      (me : Bytes) (i now : ℕ) (s : System S)
      → IsCoherent L reachable s
      → s.owner i ≡ some me
      → Returns (Kept me i s) (Handlers.touch S reachable junk me i now s)
  unfolding Handlers.touch
  touch-Kept me i now s v own =
      bind-Returns (HasEntry me i s) (Kept me i s) (Handlers.lookup_data S reachable junk me i s) _
        (lookup_data-HasEntry me i s v)
        λ f t (k, e, same).
          let last =
            set_data-Keeps me i f (record f { file_attr = record f.file_attr { atime = now } }) t
              k.0 e refl refl in
          (Keeps-trans L reachable s t _ k last.0, same i ∙ own)
