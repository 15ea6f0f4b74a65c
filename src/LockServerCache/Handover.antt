-- ===== src/LockServerCache/Handover.antt =====
-- lock_server_cache.cc: the set of waiting clients, and how a lock goes from its holder to the next client.
use cse.Base.{
  ◌≡◌, ◌≢◌, refl, inl, inr, true, false, List, [], ◌∷◌, arith, if◌then◌else◌, All, Bool-cases,
  Returns,
}
use cse.Base.Bytes.{Bytes, bytes_eq, bytes_lt, bytes_eq_iff, bytes_eq_refl}
use cse.LockServerCache.{
  locked, idle, retrying, LockEntry, ok, member, insert, acquire_state, acquire_retrying,
  acquire_entry, release_set, release_entry, revoking, State,
}
use cse.LockServerCache.Invariant.{IsValid, IsValidIn, member-insert}

-- No client is twice in the set.
abbrev pub Distinct : List Bytes → Type 0
Distinct [] = Unit {0}
Distinct (c ∷ cs) = (member c cs ≡ false) × Distinct cs

-- A well-formed entry whose waiting clients have names and are a set.
abbrev pub IsQueued : LockEntry → Type 0
IsQueued e = IsValid e × Distinct e.waiting_clients × All (λ (c : Bytes). c ≢ []) e.waiting_clients

pub insert-Distinct :
    (c : Bytes) (xs : List Bytes) → member c xs ≡ false → Distinct xs → Distinct (insert c xs)
unfolding insert member
insert-Distinct c [] m d = (refl, tt)
insert-Distinct c (x ∷ xs) m d = elim (Bool-cases (bytes_eq c x)) [
  | inl e ↦ rw (insert, e) d
  | inr e ↦
      let m' : member c xs ≡ false = rw e at m in
      elim (Bool-cases (bytes_lt c x)) [
        | inl lt ↦ rw (insert, e, lt) (m, d)
        | inr ge ↦
            rw (insert, e, ge)
              (
                ground (arith, member-insert x c xs, bytes_eq_iff c x, bytes_eq_iff x c, d.0),
                insert-Distinct c xs m' d.1,
              )
      ]
]

pub insert-All :
    (c : Bytes) (xs : List Bytes)
    → c ≢ []
    → All (λ (x : Bytes). x ≢ []) xs
    → All (λ (x : Bytes). x ≢ []) (insert c xs)
unfolding insert
insert-All c [] h a = (h, tt)
insert-All c (x ∷ xs) h a = elim (Bool-cases (bytes_eq c x)) [
  | inl e ↦ rw (insert, e) a
  | inr e ↦ elim (Bool-cases (bytes_lt c x)) [
    | inl lt ↦ rw (insert, e, lt) (h, a)
    | inr ge ↦ rw (insert, e, ge) (a.0, insert-All c xs h a.1)
  ]
]

-- The client that is told to try again, of a set that has it first.
abbrev pub Handed : LockEntry → LockEntry × Bytes → Type 0
Handed e r =
    IsQueued r.0
    × (r.0.owner ≡ [])
    × (member r.1 e.waiting_clients ≡ true)
    × ((x : Bytes)
        → member x r.0.waiting_clients
          ≡ (if bytes_eq x r.1 then false else member x e.waiting_clients))
    × Returns (λ q. IsQueued q.0 × (q.1 ≡ ok) × (q.0.owner ≡ r.1)) (acquire_entry r.0 r.1)

-- The client that was told gets the lock, whether others still wait or not.
retried-Returns :
    (next : Bytes) (rest : List Bytes) (e : LockEntry)
    → e.state ≡ retrying
    → e.retrying_client ≡ next
    → e.waiting_clients ≡ rest
    → next ≢ []
    → member next rest ≡ false
    → Distinct rest
    → All (λ (c : Bytes). c ≢ []) rest
    → Returns (λ q. IsQueued q.0 × (q.1 ≡ ok) × (q.0.owner ≡ next)) (acquire_entry e next)
unfolding acquire_entry acquire_state acquire_retrying
retried-Returns next [] e st n w h m d a =
    rw (acquire_entry, st, acquire_retrying, w, m, n, bytes_eq_refl next)
      (((h, refl, refl), tt, tt), refl, refl)
retried-Returns next (c ∷ rest) e st n w h m d a =
    rw (acquire_entry, st, acquire_retrying, w, m, n, bytes_eq_refl next)
      (((h, refl, (λ q. cc q), m), d, a), refl, refl)

release_set-Handed :
    (cs : List Bytes) (e : LockEntry)
    → e.waiting_clients ≡ cs
    → cs ≢ []
    → Distinct cs
    → All (λ (c : Bytes). c ≢ []) cs
    → Returns (Handed e) (release_set cs e)
unfolding release_set
release_set-Handed [] e w k d a = absurd (k refl)
release_set-Handed (next ∷ rest) e w k d a =
    unfold member in
    (
      ((refl, a.0, d.0), d.1, a.1),
      refl,
      rw (w, bytes_eq_refl next) refl,
      (λ x. elim (Bool-cases (bytes_eq x next)) [
        | inl y ↦ rw (w, y) (ground (arith, bytes_eq_iff x next, d.0))
        | inr y ↦ rw (w, y) refl
      ]),
      retried-Returns next rest
          (record { owner = []; retrying_client = next; waiting_clients = rest; state = retrying })
          refl refl refl a.0 d.0 d.1 a.1,
    )

-- The holder of a lock that is being revoked, whose entry is well-formed with named waiting clients and
-- none twice, can release it: no assertion fails, and nobody holds the lock. The client that is told to try again
-- was waiting, the others wait as before, and the entry is well-formed again, with named waiting clients and
-- none twice. When that client then asks for the lock it gets it, again with such an entry.
pub release_entry-Returns :
    (e : LockEntry) (c : Bytes)
    → IsQueued e
    → e.state ≡ revoking
    → e.owner ≡ c
    → Returns (Handed e) (release_entry e c)
unfolding release_entry
release_entry-Returns e c (v, d, a) st o =
    let w : e.waiting_clients ≢ [] = waits e.state st v in
    simp (st, o, bytes_eq_refl c) (release_set-Handed e.waiting_clients e refl w d a)
  where
    waits : (s : State) → s ≡ revoking → IsValidIn s e → e.waiting_clients ≢ []
    waits idle h v' = cc
    waits locked h v' = cc
    waits revoking h v' = v'.2
    waits retrying h v' = cc
