-- ===== src/LockProtocol/Exclusion.antt =====
-- Mutual exclusion over all clients and all their threads.
use cse.Base.{
  ℕ, zero, suc, ◌+◌, ◌≤◌, ◌<◌, ◌≡◌, ◌≢◌, refl, sym, ◌∙◌, ap, true, false, Option, none, some, [],
  arith, Bool-cases, inl, inr,
}
use cse.Base.Bytes.{Bytes, bytes_eq, bytes_eq_iff}
use cse.LockServerCache.{Status, ok, retry, Server, Reply}
use cse.LockServerCache
use cse.LockServerCache.Owner.{entry_at, Fits, acquire-owner, release-owner}
use cse.LockClientCache.{Pc, calling, holding, returning, returned, answered, Client, front}
use cse.LockClientCache.Local.{IsOrderly, active, claims, front_claim, entry_of}
use cse.LockClientCache.Actions.{act-Keeps, init-IsOrderly}
use cse.LockProtocol.{
  Network, with_client, served, revoke_served, Step, client_acts, acquire_served, release_served,
  revoke_release_served, Reach, start, later,
}

served-IsOrderly :
    (k : Client) (t : ℕ) (p q : Pc)
    → IsOrderly k
    → k.pc t ≡ p
    → active p true ≡ true
    → active p false ≡ true
    → IsOrderly (served t q k)
served-IsOrderly k t p q v w a b = record {
  at_front = λ x z. ground (arith, v.at_front x, v.at_front t);
  free_alone = v.free_alone;
}

served-retry :
    (k : Client) (t : ℕ)
    → IsOrderly k
    → k.pc t ≡ calling
    → claims (served t (answered retry) k) ≤ claims k
served-retry k t v w = ground (arith, v.at_front t)

served-ok :
    (k : Client) (t : ℕ)
    → IsOrderly k
    → k.pc t ≡ calling
    → claims (served t (answered ok) k) ≤ claims k + 1
served-ok k t v w = ground (arith, v.at_front t)

served-returned :
    (k : Client) (t : ℕ)
    → IsOrderly k
    → k.pc t ≡ returning
    → claims (served t returned k) + 1 ≤ claims k
served-returned k t v w = ground (arith, v.at_front t)

no_claims : (m : ℕ) {l : ℕ} → l ≤ m + 1 → ¬ (0 < m) → l ≤ 1
no_claims zero le none_has = omega (arith, le)
no_claims (suc m) le none_has = absurd (none_has (omega arith))

front_claim-revoke : (o : Option ℕ) (k : Client) → front_claim o (revoke_served k) ≡ front_claim o k
front_claim-revoke none k = refl
front_claim-revoke (some t) k = refl

revoke-claims : (k : Client) → 0 < k.revoking → claims (revoke_served k) + 1 ≤ claims k
revoke-claims k pos = rw (front_claim-revoke (front (entry_of k).threads) k) (omega (arith, pos))

claims-holding : (k : Client) (t : ℕ) → IsOrderly k → k.pc t ≡ holding → 0 < claims k
claims-holding k t v w = ground (arith, v.at_front t)

one_holding : (k : Client) (t u : ℕ) → IsOrderly k → k.pc t ≡ holding → k.pc u ≡ holding → t ≡ u
one_holding k t u v w x = ground (arith, v.at_front t, v.at_front u)

abbrev owner : ℕ → Network → Bytes
owner lid n = (entry_at lid n.server).owner

-- A client with a claim is the owner that the server knows, and has one claim.
record Inv (lid : ℕ) (n : Network) : Type 0 where
  fits : Fits lid n.server
  orderly : (c : Bytes) → IsOrderly (n.clients c)
  single : (c : Bytes) → claims (n.clients c) ≤ 1
  owns : (c : Bytes) → 0 < claims (n.clients c) → (owner lid n ≡ c) × (c ≢ [])

-- One client, and perhaps the server, has moved.
moved-Inv :
    (lid : ℕ) (n : Network) (s : Server) (c : Bytes) (k : Client)
    → Inv lid n
    → Fits lid s
    → IsOrderly k
    → claims k ≤ 1
    → (0 < claims k → ((entry_at lid s).owner ≡ c) × (c ≢ []))
    → ((d : Bytes) → d ≢ c → 0 < claims (n.clients d) → (entry_at lid s).owner ≡ d)
    → Inv lid (with_client c k (record n { server = s }))
moved-Inv lid n s c k v f o le own others = record {
  fits = f;
  orderly = λ d. elim (Bool-cases (bytes_eq d c)) [ inl e ↦ rw e o | inr e ↦ rw e (v.orderly d) ];
  single = λ d. elim (Bool-cases (bytes_eq d c)) [ inl e ↦ rw e le | inr e ↦ rw e (v.single d) ];
  owns = λ d. elim (Bool-cases (bytes_eq d c)) [
    | inl e ↦ rw (e, (bytes_eq_iff d c).0 e) own
    | inr e ↦ rw e (λ pos. (others d (λ q. cc ((bytes_eq_iff d c).1 q)) pos, (v.owns d pos).1))
  ];
}

acquired-Inv :
    (lid : ℕ) (n : Network) (c : Bytes) (t : ℕ) (r : Reply) (st : Status)
    → Inv lid n
    → c ≢ []
    → (n.clients c).pc t ≡ calling
    → LockServerCache.acquire lid c n.server ≡ some r
    → r.status ≡ st
    → Inv lid
        (with_client c (served t (answered st) (n.clients c)) (record n { server = r.server }))
acquired-Inv lid n c t r ok v named w e q =
    let (f, o, was) = acquire-owner lid c n.server r v.fits named e in
    let none_has : (d : Bytes) → 0 < claims (n.clients d) → ⊥ =
      λ d pos. (v.owns d pos).1 (sym (v.owns d pos).0 ∙ was q) in
    let o' : (entry_at lid r.server).owner ≡ c = rw q at o in
    moved-Inv lid n r.server c (served t (answered ok) (n.clients c)) v f
      (served-IsOrderly (n.clients c) t calling (answered ok) (v.orderly c) w refl refl)
      (no_claims (claims (n.clients c)) (served-ok (n.clients c) t (v.orderly c) w) (none_has c))
      (λ pos. (o', named)) (λ d ne pos. absurd (none_has d pos))
acquired-Inv lid n c t r retry v named w e q =
    let (f, o, was) = acquire-owner lid c n.server r v.fits named e in
    let o' : (entry_at lid r.server).owner ≡ owner lid n = rw q at o in
    let le = served-retry (n.clients c) t (v.orderly c) w in
    moved-Inv lid n r.server c (served t (answered retry) (n.clients c)) v f
      (served-IsOrderly (n.clients c) t calling (answered retry) (v.orderly c) w refl refl)
      (omega (arith, le, v.single c)) (λ pos. (o' ∙ (v.owns c (omega (arith, le, pos))).0, named))
      (λ d ne pos. o' ∙ (v.owns d pos).0)

released-Inv :
    (lid : ℕ) (n : Network) (c : Bytes) (k : Client) (r : Reply)
    → Inv lid n
    → IsOrderly k
    → claims k + 1 ≤ claims (n.clients c)
    → LockServerCache.release lid c n.server ≡ some r
    → Inv lid (with_client c k (record n { server = r.server }))
released-Inv lid n c k r v o le e =
    let (f, gone, had) = release-owner lid c n.server r e in
    moved-Inv lid n r.server c k v f o (omega (arith, le, v.single c))
      (λ pos. absurd (omega (arith, le, v.single c, pos)))
      (λ d ne pos. absurd (ne (sym (v.owns d pos).0 ∙ had)))

Step-Inv : (lid : ℕ) {n m : Network} → Step lid n m → Inv lid n → Inv lid m
Step-Inv lid {n} (client_acts c a k named e) v =
    let (o, le) = rw e at (act-Keeps a (n.clients c) (v.orderly c)) in
    moved-Inv lid n n.server c k v v.fits o (omega (arith, le, v.single c))
      (λ pos. v.owns c (omega (arith, le, pos))) (λ d ne pos. (v.owns d pos).0)
Step-Inv lid {n} (acquire_served c t r named w e) v =
    acquired-Inv lid n c t r r.status v named w e refl
Step-Inv lid {n} (release_served c t r w e) v =
    released-Inv lid n c (served t returned (n.clients c)) r v
      (served-IsOrderly (n.clients c) t returning returned (v.orderly c) w refl refl)
      (served-returned (n.clients c) t (v.orderly c) w) e
Step-Inv lid {n} (revoke_release_served c r pos e) v =
    released-Inv lid n c (revoke_served (n.clients c)) r v
      (record { at_front = (v.orderly c).at_front; free_alone = (v.orderly c).free_alone })
      (revoke-claims (n.clients c) pos) e

Reach-Inv : {lid garbage : ℕ} {n : Network} → Reach lid garbage n → Inv lid n
Reach-Inv {lid} {garbage} start = record {
  fits = unfold LockServerCache.init in refl;
  orderly = λ c. init-IsOrderly;
  single = λ c. omega arith;
  owns = λ c pos. absurd (omega (arith, pos));
}
Reach-Inv {lid} (later r st) = Step-Inv lid st (Reach-Inv r)

-- After any run of the server and its clients, which have names, where a thread makes a call only when it
-- is in no other one, releases only a lock that it holds and is woken only by a signal, and revokes and
-- retries reach the clients at any time: two threads that hold the lock are one thread of one client.
pub one_holder :
    {lid garbage : ℕ} {n : Network} (c d : Bytes) (t u : ℕ)
    → Reach lid garbage n
    → (n.clients c).pc t ≡ holding
    → (n.clients d).pc u ≡ holding
    → (c ≡ d) × (t ≡ u)
one_holder {n = n} c d t u r w x =
    let v = Reach-Inv r in
    let a = (v.owns c (claims-holding (n.clients c) t (v.orderly c) w)).0 in
    let b = (v.owns d (claims-holding (n.clients d) u (v.orderly d) x)).0 in
    let e : c ≡ d = sym a ∙ b in
    (e, one_holding (n.clients d) t u (v.orderly d) (ap (λ y. (n.clients y).pc t) (sym e) ∙ w) x)
