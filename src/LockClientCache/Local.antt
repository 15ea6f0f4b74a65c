-- ===== src/LockClientCache/Local.antt =====
-- What holds of one client after a step of `acquire`, whatever the server answers.
use cse.Base.{
  Safely, ℕ, ◌+◌, ◌≤◌, ◌≡◌, refl, sym, ◌∙◌, ap, Bool, true, false, Option, none, some, List, [],
  ◌∷◌, if◌then◌else◌, arith,
}
use cse.LockServerCache.{ok, retry}
use cse.LockClientCache.{
  LockState, idle, acquiring, free, releasing, locked, Message, empty, retried, revoked, LockEntry,
  new_entry, Pc, outside, first_wait, queue_wait, calling, retry_wait, holding, returning, returned,
  answered, Client, front, go, loop, acquire_first, acquire_in, take_turn, wake_at, receive_retry,
  receive_at, is_outside, queued,
}

-- A thread that may go on without being signalled, or has been signalled behind others.
abbrev pub active : Pc → Bool → Bool
active outside b = false
active queue_wait b = b
active p b = true

abbrev pub entry_of : Client → LockEntry
entry_of k = elim k.entry [ none ↦ new_entry | some e ↦ e ]

abbrev pub is_free : LockState → Bool
is_free free = true
is_free s = false

-- Only the front of the queue is active, and a lock that is free has no queue.
pub record IsOrderly (k : Client) : Type 0 where
  pub at_front :
      (t : ℕ) → active (k.pc t) (k.signalled t) ≡ true → front (entry_of k).threads ≡ some t
  pub free_alone : is_free (entry_of k).state ≡ true → (entry_of k).threads ≡ []

-- The claims on the lock that a client has: of the front of its queue, of an entry that is free, and of
-- the handlers whose release is on the way.
abbrev pub claim_of : Pc → LockState → ℕ
claim_of (answered ok) s = 1
claim_of holding s = 1
claim_of returning s = 1
claim_of queue_wait locked = 1
claim_of p s = 0

abbrev pub front_claim : Option ℕ → Client → ℕ
front_claim none k = 0
front_claim (some t) k = claim_of (k.pc t) (entry_of k).state

abbrev pub claims : Client → ℕ
claims k =
    front_claim (front (entry_of k).threads) k
    + (if is_free (entry_of k).state then 1 else 0)
    + k.revoking

-- An action keeps the order and adds no claim.
abbrev pub Keeps : Client → Client → Type 0
Keeps k k' = IsOrderly k' × (claims k' ≤ claims k)

-- The front of the queue goes on, with no more of a claim than it had.
pub go-Keeps :
    (k : Client) (t : ℕ) (p : Pc) (e e' : LockEntry)
    → IsOrderly k
    → entry_of k ≡ e
    → front e.threads ≡ some t
    → front e'.threads ≡ some t
    → is_free e'.state ≡ false
    → claim_of p e'.state ≤ claim_of (k.pc t) e.state
    → Keeps k (go k t p e')
go-Keeps k t p e e' v h q q' f le = (
  record { at_front = λ u a. ground (arith, v.at_front u); free_alone = λ z. ground arith },
  ground arith,
)

-- The first thread in the queue.
alone-Keeps :
    (p : Pc) (k : Client) (e e' : LockEntry) (t : ℕ)
    → IsOrderly k
    → entry_of k ≡ e
    → e.threads ≡ []
    → e'.threads ≡ t ∷ []
    → is_free e'.state ≡ false
    → claim_of p e'.state ≤ (if is_free e.state then 1 else 0)
    → Keeps k (go k t p e')
alone-Keeps p k e e' t v h q q' f le = (
  record { at_front = λ u a. ground (arith, v.at_front u); free_alone = λ z. ground arith },
  ground arith,
)

acquire_first-Keeps :
    (s : LockState) (k : Client) (e : LockEntry) (t : ℕ)
    → IsOrderly k
    → entry_of k ≡ e
    → e.threads ≡ []
    → e.state ≡ s
    → Keeps k (acquire_first s e t k)
unfolding acquire_first
acquire_first-Keeps free k e t v h q f =
    alone-Keeps holding k e _ t v h q refl refl (rw f (omega arith))
acquire_first-Keeps idle k e t v h q f = alone-Keeps calling k e _ t v h q refl refl (omega arith)
acquire_first-Keeps acquiring k e t v h q f =
    alone-Keeps first_wait k e _ t v h q refl (ap is_free f) (omega arith)
acquire_first-Keeps releasing k e t v h q f =
    alone-Keeps first_wait k e _ t v h q refl (ap is_free f) (omega arith)
acquire_first-Keeps locked k e t v h q f =
    alone-Keeps first_wait k e _ t v h q refl (ap is_free f) (omega arith)

pub acquire_in-Keeps :
    (ts : List ℕ) (k : Client) (e : LockEntry) (t : ℕ)
    → IsOrderly k
    → entry_of k ≡ e
    → e.threads ≡ ts
    → is_outside (k.pc t) ≡ true
    → queued t ts ≡ false
    → Keeps k (acquire_in ts e t k)
unfolding acquire_in queued
acquire_in-Keeps [] k e t v h q o n = acquire_first-Keeps e.state k e t v h q refl
acquire_in-Keeps (u ∷ ts) k e t v h q o n = (
  record {
    at_front = λ x a. ground (arith, v.at_front x);
    free_alone = λ z. ground (arith, v.free_alone);
  },
  ground arith,
)

-- The step at the end of a round in `blockUntilGot`.
loop-Keeps :
    (s : LockState) (k : Client) (e : LockEntry) (t : ℕ)
    → IsOrderly k
    → entry_of k ≡ e
    → e.state ≡ s
    → front e.threads ≡ some t
    → Safely
        (Keeps k)
        (elim (loop s) [ none ↦ none | some p ↦ some (go k t p (record e { message = empty })) ])
loop-Keeps acquiring k e t v h q f = go-Keeps k t calling e _ v h f f (rw q refl) (omega arith)
loop-Keeps idle k e t v h q f = tt
loop-Keeps free k e t v h q f = tt
loop-Keeps releasing k e t v h q f = tt
loop-Keeps locked k e t v h q f = tt

take_turn-Keeps :
    (s : LockState) (k : Client) (e : LockEntry) (t : ℕ)
    → IsOrderly k
    → entry_of k ≡ e
    → e.state ≡ s
    → front e.threads ≡ some t
    → k.pc t ≡ queue_wait
    → Safely (Keeps k) (take_turn s e t k)
unfolding take_turn
take_turn-Keeps free k e t v h q f w = absurd (ground (arith, v.free_alone))
take_turn-Keeps acquiring k e t v h q f w = tt
take_turn-Keeps releasing k e t v h q f w = tt
take_turn-Keeps idle k e t v h q f w = go-Keeps k t calling e _ v h f f refl (omega arith)
take_turn-Keeps locked k e t v h q f w =
    go-Keeps k t holding e e v h f f (rw q refl) (rw (q, w) (omega arith))

front_lem :
    (p : Pc) (k : Client) (e : LockEntry) (t : ℕ)
    → IsOrderly k
    → entry_of k ≡ e
    → k.pc t ≡ p
    → active p (k.signalled t) ≡ true
    → front e.threads ≡ some t
front_lem p k e t v h w a =
    ap (λ x. front x.threads) (sym h) ∙ v.at_front t (ap (λ x. active x (k.signalled t)) w ∙ a)

pub wake_at-Keeps :
    (p : Pc) (k : Client) (e : LockEntry) (t : ℕ)
    → IsOrderly k
    → entry_of k ≡ e
    → k.pc t ≡ p
    → k.signalled t ≡ true
    → Safely (Keeps k) (wake_at p e t k)
unfolding wake_at
wake_at-Keeps first_wait k e t v h w s =
    let f = front_lem first_wait k e t v h w refl in
    go-Keeps k t calling e _ v h f f refl (omega arith)
wake_at-Keeps queue_wait k e t v h w s =
    take_turn-Keeps e.state k e t v h refl (front_lem queue_wait k e t v h w s) w
wake_at-Keeps retry_wait k e t v h w s =
    loop-Keeps e.state k e t v h refl (front_lem retry_wait k e t v h w refl)
wake_at-Keeps outside k e t v h w s = tt
wake_at-Keeps calling k e t v h w s = tt
wake_at-Keeps holding k e t v h w s = tt
wake_at-Keeps returning k e t v h w s = tt
wake_at-Keeps returned k e t v h w s = tt
wake_at-Keeps (answered x) k e t v h w s = tt

receive_retry-Keeps :
    (m : Message) (k : Client) (e : LockEntry) (t : ℕ)
    → IsOrderly k
    → entry_of k ≡ e
    → front e.threads ≡ some t
    → Safely (Keeps k) (receive_retry m e t k)
unfolding receive_retry
receive_retry-Keeps empty k e t v h f =
    go-Keeps k t retry_wait e e v h f f (ground (arith, v.free_alone)) (omega arith)
receive_retry-Keeps retried k e t v h f = loop-Keeps e.state k e t v h refl f
receive_retry-Keeps revoked k e t v h f = loop-Keeps e.state k e t v h refl f

pub receive_at-Keeps :
    (p : Pc) (k : Client) (e : LockEntry) (t : ℕ)
    → IsOrderly k
    → entry_of k ≡ e
    → k.pc t ≡ p
    → Safely (Keeps k) (receive_at p e t k)
unfolding receive_at
receive_at-Keeps (answered ok) k e t v h w =
    let f = front_lem (answered ok) k e t v h w refl in
    go-Keeps k t holding e _ v h f f refl (rw w (omega arith))
receive_at-Keeps (answered retry) k e t v h w =
    receive_retry-Keeps e.message k e t v h (front_lem (answered retry) k e t v h w refl)
receive_at-Keeps first_wait k e t v h w = tt
receive_at-Keeps queue_wait k e t v h w = tt
receive_at-Keeps retry_wait k e t v h w = tt
receive_at-Keeps outside k e t v h w = tt
receive_at-Keeps calling k e t v h w = tt
receive_at-Keeps holding k e t v h w = tt
receive_at-Keeps returning k e t v h w = tt
receive_at-Keeps returned k e t v h w = tt
