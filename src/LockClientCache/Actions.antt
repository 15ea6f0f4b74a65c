-- ===== src/LockClientCache/Actions.antt =====
-- What holds of one client after any of its actions, whatever the server answers and whenever a
-- handler runs.
use cse.Base.{
  Safely, ℕ, ◌-◌, ◌≤◌, ◌≡◌, refl, ap, Bool, true, false, not, ◌&&◌, Option, none, some, List, [],
  ◌∷◌, if◌then◌else◌, ltb, arith, Bool-cases, inl, inr,
}
use cse.LockClientCache.{
  LockState, idle, acquiring, free, releasing, locked, Message, empty, retried, revoked, LockEntry,
  new_entry, outside, queue_wait, holding, returning, Client, init, front, go, signal, pop,
  release_from, release_end, revoke_in, revoke_end, retry_in, Action, acquires, wakes, receives,
  releases, released, revoke_comes, revoke_ends, retry_comes, is_outside, is_holding, is_returned,
  act_on, act_first, act_entry, act, queued,
}
use cse.LockClientCache.Local.{
  entry_of, is_free, IsOrderly, claim_of, Keeps, go-Keeps, acquire_in-Keeps, wake_at-Keeps,
  receive_at-Keeps,
}

-- A signal to the front changes no claim.
signal-Keeps :
    (o : Option ℕ) (k : Client)
    → IsOrderly k
    → front (entry_of k).threads ≡ o
    → Keeps k (signal o k)
signal-Keeps none k v f = (v, omega arith)
signal-Keeps (some t) k v f = (
  record {
    at_front = λ x a. ground (arith, v.at_front x);
    free_alone = λ z. ground (arith, v.free_alone);
  },
  ground arith,
)

Keeps-trans : (k l m : Client) → Keeps k l → Keeps l m → Keeps k m
Keeps-trans k l m a b = (b.0, omega (arith, a.1, b.1))

-- The front leaves, and the next one in the queue may have what it had.
leave-Keeps :
    (k : Client) (t w : ℕ) (e : LockEntry)
    → IsOrderly k
    → front (entry_of k).threads ≡ some t
    → front e.threads ≡ some w
    → is_free e.state ≡ false
    → claim_of queue_wait e.state ≤ claim_of (k.pc t) (entry_of k).state
    → Keeps k (go k t outside e)
leave-Keeps k t w e v f q s c = (
  record { at_front = λ x a. ground (arith, v.at_front x); free_alone = λ z. ground arith },
  ground (arith, v.at_front w),
)

-- The end of `release`: the claim of the front passes to the entry or to the next thread, or is gone.
pop-Keeps :
    (ts : List ℕ) (from_revoked : Bool) (k : Client) (e : LockEntry) (t : ℕ)
    → IsOrderly k
    → (entry_of k).threads ≡ ts
    → front ts ≡ some t
    → e.state ≡ (if from_revoked then idle else free)
    → (if from_revoked then 0 else 1) ≤ claim_of (k.pc t) (entry_of k).state
    → Safely (Keeps k) (pop ts from_revoked e t k)
unfolding pop
pop-Keeps [] r k e t v h f q c = tt
pop-Keeps (u ∷ []) r k e t v h f q c = (
  record { at_front = λ x a. ground (arith, v.at_front x); free_alone = λ z. refl },
  ground arith,
)
pop-Keeps (u ∷ w ∷ ts) r k e t v h f q c =
    let e' : LockEntry = record e { state = if r then e.state else locked; threads = w ∷ ts } in
    let left : Keeps k (go k t outside e') =
      leave-Keeps k t w e' v (rw h f) refl (ground arith) (ground arith) in
    Keeps-trans k (go k t outside e') _ left (signal-Keeps (some w) (go k t outside e') left.0 refl)

release_from-Keeps :
    (m : Message) (k : Client) (e : LockEntry) (t : ℕ)
    → IsOrderly k
    → entry_of k ≡ e
    → front e.threads ≡ some t
    → k.pc t ≡ holding
    → Safely (Keeps k) (release_from m e t k)
unfolding release_from
release_from-Keeps revoked k e t v h f w =
    go-Keeps k t returning e _ v h f f refl (rw w (omega arith))
release_from-Keeps empty k e t v h f w =
    pop-Keeps e.threads false k _ t v (ap (λ x. x.threads) h) f refl (rw w (omega arith))
release_from-Keeps retried k e t v h f w =
    pop-Keeps e.threads false k _ t v (ap (λ x. x.threads) h) f refl (rw w (omega arith))

-- A message to the entry.
message-Keeps :
    (m : Message) (k : Client) (e : LockEntry)
    → IsOrderly k
    → entry_of k ≡ e
    → Keeps k (record k { entry = some (record e { message = m }) })
message-Keeps m k e v h = (
  record {
    at_front = λ x a. ground (arith, v.at_front x);
    free_alone = λ z. ground (arith, v.free_alone);
  },
  ground arith,
)

revoke_in-Keeps :
    (s : LockState) (k : Client) (e : LockEntry)
    → IsOrderly k
    → entry_of k ≡ e
    → e.state ≡ s
    → Keeps k (revoke_in s e k)
unfolding revoke_in
revoke_in-Keeps free k e v h q = (
  record { at_front = λ x a. ground (arith, v.at_front x); free_alone = λ z. ground arith },
  ground (arith, v.free_alone),
)
revoke_in-Keeps idle k e v h q = message-Keeps revoked k e v h
revoke_in-Keeps acquiring k e v h q = message-Keeps revoked k e v h
revoke_in-Keeps releasing k e v h q = message-Keeps revoked k e v h
revoke_in-Keeps locked k e v h q = message-Keeps revoked k e v h

revoke_end-Keeps :
    (k : Client) (e : LockEntry) → IsOrderly k → entry_of k ≡ e → Keeps k (revoke_end e k)
unfolding revoke_end
revoke_end-Keeps k e v h =
    let l : Client = record k {
      entry = some (record e { state = idle });
      revoke_done = k.revoke_done - 1;
    } in
    let set : Keeps k l = (
      record { at_front = λ x a. ground (arith, v.at_front x); free_alone = λ z. ground arith },
      ground arith,
    ) in
    Keeps-trans k l _ set (signal-Keeps (front e.threads) l set.0 refl)

retry_in-Keeps :
    (ts : List ℕ) (k : Client) (e : LockEntry)
    → IsOrderly k
    → entry_of k ≡ e
    → e.threads ≡ ts
    → Safely (Keeps k) (retry_in ts e k)
unfolding retry_in
retry_in-Keeps [] k e v h q = tt
retry_in-Keeps (t ∷ ts) k e v h q =
    let l : Client = record k { entry = some (record e { message = retried }) } in
    let set : Keeps k l = message-Keeps retried k e v h in
    Keeps-trans k l _ set (signal-Keeps (some t) l set.0 (ap front q))

act_on-Keeps :
    (a : Action) (k : Client) (e : LockEntry)
    → IsOrderly k
    → entry_of k ≡ e
    → Safely (Keeps k) (act_on a e k)
unfolding act_on
act_on-Keeps (acquires t) k e v h =
    elim (Bool-cases (is_outside (k.pc t) && not (queued t e.threads))) [
      | inl y ↦ rw y (acquire_in-Keeps e.threads k e t v h refl (ground arith) (ground arith))
      | inr y ↦ rw y tt
    ]
act_on-Keeps (wakes t) k e v h = elim (Bool-cases (k.signalled t)) [
  | inl y ↦ rw y (wake_at-Keeps (k.pc t) k e t v h refl y)
  | inr y ↦ rw y tt
]
act_on-Keeps (receives t) k e v h = receive_at-Keeps (k.pc t) k e t v h refl
act_on-Keeps (releases t) k e v h = elim (Bool-cases (is_holding (k.pc t))) [
  | inl y ↦
      rw y (release_from-Keeps e.message k e t v h (ground (arith, v.at_front t)) (ground arith))
  | inr y ↦ rw y tt
]
act_on-Keeps (released t) k e v h = elim (Bool-cases (is_returned (k.pc t))) [
  | inl y ↦ rw y (
      unfold release_end in
      pop-Keeps e.threads true k _ t v (ap (λ x. x.threads) h) (ground (arith, v.at_front t)) refl
        (omega arith))
  | inr y ↦ rw y tt
]
act_on-Keeps revoke_comes k e v h = revoke_in-Keeps e.state k e v h refl
act_on-Keeps revoke_ends k e v h = elim (Bool-cases (ltb 0 k.revoke_done)) [
  | inl y ↦ rw y (revoke_end-Keeps k e v h)
  | inr y ↦ rw y tt
]
act_on-Keeps retry_comes k e v h = retry_in-Keeps e.threads k e v h refl

act_first-Keeps :
    (a : Action) (k : Client) → IsOrderly k → k.entry ≡ none → Safely (Keeps k) (act_first a k)
unfolding act_first
act_first-Keeps (acquires t) k v q = act_on-Keeps (acquires t) k new_entry v (ground arith)
act_first-Keeps (wakes t) k v q = tt
act_first-Keeps (receives t) k v q = tt
act_first-Keeps (releases t) k v q = tt
act_first-Keeps (released t) k v q = tt
act_first-Keeps revoke_comes k v q = tt
act_first-Keeps revoke_ends k v q = tt
act_first-Keeps retry_comes k v q = tt

act_entry-Keeps :
    (o : Option LockEntry) (a : Action) (k : Client)
    → IsOrderly k
    → k.entry ≡ o
    → Safely (Keeps k) (act_entry o a k)
unfolding act_entry
act_entry-Keeps none a k v q = act_first-Keeps a k v q
act_entry-Keeps (some e) a k v q = act_on-Keeps a k e v (ground arith)

-- After any action the client is orderly and has no more claims than before.
pub act-Keeps : (a : Action) (k : Client) → IsOrderly k → Safely (Keeps k) (act a k)
unfolding act
act-Keeps a k v = act_entry-Keeps k.entry a k v refl

pub init-IsOrderly : IsOrderly init
init-IsOrderly = record { at_front = λ t a. cc; free_alone = λ z. cc }
