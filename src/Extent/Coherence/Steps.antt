-- ===== src/Extent/Coherence/Steps.antt =====
-- The steps from which the handlers are made: each keeps the caches coherent.
use cse.Base.{
  ℕ, ◌≡◌, sym, ◌∙◌, ap, Bool, true, false, ◌&&◌, some, ◌==◌, if◌then◌else◌, arith, Bool-cases,
  Option-cases, inl, inr, ==_iff,
}
use cse.Base.Bytes.{Bytes, bytes_eq, bytes_eq_iff, bytes_eq_refl}
use cse.Extent.{Storage, FileData, System}
use cse.Extent.Coherence.{StorageLaws, held_data, owned_data, view, IsCoherent}

module _ {S : Storage} (L : StorageLaws S) (reachable : Bytes → Bool) where
  -- A step that no client can see: the caches stay coherent, every file has the content it had, and
  -- what was in service still is.
  abbrev pub Keeps : System S → System S → Type 0
  Keeps s t =
      IsCoherent L reachable t
      × ((j : ℕ) → view L t j ≡ view L s j)
      × ((j : ℕ) → L.Serves s.store j → L.Serves t.store j)

  abbrev pub NobodyHas : System S → ℕ → Type 0
  NobodyHas s i = (c : Bytes) (f : FileData) → s.cache c i ≡ some f → f.data_cached ≡ false

  -- With no data in any cache the content is what is stored.
  pub view_stored : (s : System S) (i : ℕ) → NobodyHas s i → view L s i ≡ L.content s.store i
  view_stored s i h = elim (Option-cases (s.owner i)) [
    | inl e ↦ rw e
    | inr (c, e) ↦ elim (Option-cases (s.cache c i)) [
      | inl k ↦ rw (e, k)
      | inr (f, k) ↦ rw (e, k, h c f k)
    ]
  ]

  -- What its owner has in the cache is the content.
  pub view_cached :
      (s : System S) (c : Bytes) (i : ℕ) (f : FileData)
      → IsCoherent L reachable s
      → s.cache c i ≡ some f
      → f.data_cached ≡ true
      → view L s i ≡ f.file_data
  view_cached s c i f v k d = rw ((v.held c i f k d).0, k, d)

  abbrev pub with_cache : Bytes → ℕ → FileData → System S → System S
  with_cache c i f s = record s {
    cache = λ x j. if bytes_eq x c && (j == i) then some f else s.cache x j;
  }

  abbrev with_owner : ℕ → Bytes → System S → System S
  with_owner i c s = record s { owner = λ j. if j == i then some c else s.owner j }

  -- The owner's entry may be replaced by any that fits, and another client's by one with no data.
  pub with_cache-IsCoherent :
      (c : Bytes) (i : ℕ) (f : FileData) (s : System S)
      → IsCoherent L reachable s
      → (f.data_cached ≡ true → (s.owner i ≡ some c) × L.Fits i f.file_data)
      → IsCoherent L reachable (with_cache c i f s)
  with_cache-IsCoherent c i f s v own = record {
    held = λ x j g k d. elim (Bool-cases (bytes_eq x c && (j == i))) [
      | inl hit ↦ ground (arith, bytes_eq_iff x c, own, rw hit at k)
      | inr miss ↦ v.held x j g (rw miss at k) d
    ];
    answers = v.answers;
  }

  -- An entry that stands for the same data as the one before it shows no client a difference.
  pub with_cache-view :
      (c : Bytes) (i : ℕ) (f : FileData) (s : System S)
      → ((b : Bytes) → held_data (some f) b ≡ held_data (s.cache c i) b)
      → (j : ℕ) → view L (with_cache c i f s) j ≡ view L s j
  with_cache-view c i f s h j = elim (Option-cases (s.owner j)) [
    | inl e ↦ rw e
    | inr (x, e) ↦ elim (Bool-cases (bytes_eq x c && (j == i))) [
      | inl hit ↦
          let p : x ≡ c = ground (arith, bytes_eq_iff x c) in
          let q : j ≡ i = ground arith in rw (e, hit, p, q) (h (L.content s.store i))
      | inr miss ↦ rw (e, miss)
    ]
  ]

  -- The owner's new data is the new content of that file and of no other.
  pub with_cache-view_owner :
      (c : Bytes) (i : ℕ) (f : FileData) (s : System S)
      → s.owner i ≡ some c
      → f.data_cached ≡ true
      → (j : ℕ) → view L (with_cache c i f s) j ≡ (if j == i then f.file_data else view L s j)
  with_cache-view_owner c i f s own d j = elim (Bool-cases (j == i)) [
    | inl hit ↦ let q : j ≡ i = (==_iff j i).0 hit in rw (hit, q, own, bytes_eq_refl c, d)
    | inr miss ↦ elim (Option-cases (s.owner j)) [
      | inl e ↦ rw (miss, e)
      | inr (x, e) ↦ rw e (ground arith)
    ]
  ]

  pub with_owner-Keeps :
      (i : ℕ) (c : Bytes) (s : System S)
      → IsCoherent L reachable s
      → NobodyHas s i
      → reachable c ≡ true
      → Keeps s (with_owner i c s)
  with_owner-Keeps i c s v nobody r = (
    record {
      held = λ x j g k d. elim (Bool-cases (j == i)) [
        | inl hit ↦ let q : j ≡ i = (==_iff j i).0 hit in absurd (cc (nobody x g (rw q at k)))
        | inr miss ↦ rw miss (v.held x j g k d)
      ];
      answers = λ x j e. elim (Bool-cases (j == i)) [
        | inl hit ↦ ground (arith, rw hit at e)
        | inr miss ↦ v.answers x j (rw miss at e)
      ];
    },
    (λ j. elim (Bool-cases (j == i)) [
      | inl hit ↦
          let q : j ≡ i = (==_iff j i).0 hit in
          rw q (view_stored (with_owner i c s) i nobody ∙ sym (view_stored s i nobody))
      | inr miss ↦ rw miss
    ]),
    (λ j h. h),
  )

  -- A step of the storage that keeps every content.
  pub with_store-Keeps :
      (t : S.State) (s : System S)
      → IsCoherent L reachable s
      → ((j : ℕ) → L.content t j ≡ L.content s.store j)
      → ((j : ℕ) → L.Serves s.store j → L.Serves t j)
      → Keeps s (record s { store = t })
  with_store-Keeps t s v same serves = (
    record { held = v.held; answers = v.answers },
    (λ j. ap (owned_data (s.owner j) (λ c. s.cache c j)) (same j)),
    serves,
  )
