-- ===== src/LockServer/Runs.antt =====
-- lock_server.cc: histories of calls by clients that release only a lock that they have.
use cse.Base.{
  ℕ, ◌≡◌, ◌≢◌, refl, sym, ◌∙◌, ap, inl, inr, true, false, arith, ◌==◌, if◌then◌else◌, Option, none,
  some, Bool-cases, ==_iff, Returns, Option-cases,
}
use mathlib.Core.Path.{subst}
use cse.LockServer.{
  LockData, Pc, outside, waits, woken, Server, init, entry_or_new, with_pc, take, acquire_loop,
  acquire, acquire_again, wake, signal, release,
}

-- Who has the lock, by the answers that clients have had.
abbrev pub answered : Pc → ℕ → Option ℕ → Option ℕ
answered outside clt holder = some clt
answered p clt holder = holder

abbrev pub got : Server → ℕ → ℕ → Option ℕ → Option ℕ
got s t clt holder = answered (s.pc t) clt holder

-- The thread that a signal wakes is one that waits, and there is one unless nobody waits.
abbrev pub Picks : Server → Option ℕ → Type 0
Picks s none = (t c : ℕ) → s.pc t ≢ waits c
Picks s (some t) = (c : ℕ) × (s.pc t ≡ waits c)

-- A state and the client that has the lock.
pub data Step (s : Server) (holder : Option ℕ) : Server → Option ℕ → Type 0 where
  acquires :
      (t clt : ℕ)
      → s.pc t ≡ outside
      → Step s holder (acquire t clt s) (got (acquire t clt s) t clt holder)
  goes_on :
      (t clt : ℕ)
      → s.pc t ≡ woken clt
      → Step s holder (acquire_again t clt s) (got (acquire_again t clt s) t clt holder)
  wakes : (t clt : ℕ) → s.pc t ≡ waits clt → Step s holder (wake (s.pc t) t s) holder
  releases :
      (clt : ℕ) (pick : Option ℕ) (s' : Server)
      → holder ≡ some clt
      → Picks s pick
      → release pick clt s ≡ some s'
      → Step s holder s' none

pub data Reach : Server → Option ℕ → Type 0 where
  start : Reach init none
  later :
      {s s' : Server} {holder holder' : Option ℕ}
      → Reach s holder
      → Step s holder s' holder'
      → Reach s' holder'

-- The entry names the client that has the lock.
abbrev pub Fits : Option LockData → Option ℕ → Type 0
Fits none holder = holder ≡ none
Fits (some d) holder = holder ≡ (if d.lock then none else some d.clt_id)

pub record IsValid (s : Server) (holder : Option ℕ) : Type 0 where
  pub fits : Fits s.entry holder
  pub early : (t : ℕ) → s.entry ≡ none → s.pc t ≡ outside
  pub awake :
      (t c : ℕ) → holder ≡ none → s.pc t ≡ waits c → (u : ℕ) × ((d : ℕ) × (s.pc u ≡ woken d))

-- Nobody waits in vain where a client has the lock.
held-IsValid :
    (s : Server) (clt : ℕ) (d : LockData)
    → s.entry ≡ some d
    → Fits (some d) (some clt)
    → IsValid s (some clt)
held-IsValid s clt d e f = record {
  fits = rw e f;
  early = λ t q. absurd (cc (e, q));
  awake = λ t c q. absurd (cc q);
}

got-with_pc :
    (s : Server) (t clt : ℕ) (p : Pc) (holder : Option ℕ)
    → got (with_pc t p s) t clt holder ≡ answered p clt holder
got-with_pc s t clt p holder =
    let at : (with_pc t p s).pc t ≡ p = rw ((==_iff t t).1 refl) refl in
    ap (λ q. answered q clt holder) at

take-IsValid :
    (s : Server) (t clt : ℕ) (holder : Option ℕ)
    → IsValid (take t clt s) (got (take t clt s) t clt holder)
take-IsValid s t clt holder =
    rw
      (got-with_pc (record s { entry = some (record { lock = false; clt_id = clt }) }) t clt outside
        holder)
      (held-IsValid (take t clt s) clt (record { lock = false; clt_id = clt }) refl refl)

-- A call of `acquire` that finds the lock taken, or free.
acquire_loop-IsValid :
    (d : LockData) (t clt : ℕ) (s : Server) (holder : Option ℕ)
    → IsValid s holder
    → s.entry ≡ some d
    → IsValid (acquire_loop d t clt s) (got (acquire_loop d t clt s) t clt holder)
unfolding acquire_loop
acquire_loop-IsValid d t clt s holder v e = elim (Bool-cases d.lock) [
  | inl y ↦ rw (acquire_loop, y) (take-IsValid s t clt holder)
  | inr y ↦
      let f : Fits (some d) holder = rw e at v.fits in
      let h : holder ≡ some d.clt_id = rw y at f in
      rw (acquire_loop, y, got-with_pc s t clt (waits clt) holder, h)
        (held-IsValid (with_pc t (waits clt) s) d.clt_id d e (rw y refl))
]

acquire-IsValid :
    (t clt : ℕ) (s : Server) (holder : Option ℕ)
    → IsValid s holder
    → IsValid (acquire t clt s) (got (acquire t clt s) t clt holder)
unfolding acquire
acquire-IsValid t clt s holder v = elim (Option-cases s.entry) [
  | inl e ↦ rw (acquire, e) (take-IsValid s t clt holder)
  | inr (d, e) ↦ rw (acquire, e) (acquire_loop-IsValid d t clt s holder v e)
]

pub again_known :
    (d : LockData) (t clt : ℕ) (s : Server)
    → s.entry ≡ some d
    → acquire_again t clt s ≡ acquire_loop d t clt s
unfolding acquire_again
again_known d t clt s e =
    let same : record s { entry = some d } ≡ s = λ i. record s { entry = sym e i } in
    ap (λ x. acquire_loop (entry_or_new x) t clt (record s { entry = some (entry_or_new x) })) e
    ∙ ap (acquire_loop d t clt) same

-- A thread that has been woken finds an entry.
acquire_again-IsValid :
    (t clt : ℕ) (s : Server) (holder : Option ℕ)
    → IsValid s holder
    → s.pc t ≡ woken clt
    → IsValid (acquire_again t clt s) (got (acquire_again t clt s) t clt holder)
acquire_again-IsValid t clt s holder v w = elim (Option-cases s.entry) [
  | inl e ↦ absurd (cc (v.early t e, w))
  | inr (d, e) ↦
      subst (λ r. IsValid r (got r t clt holder)) (sym (again_known d t clt s e))
        (acquire_loop-IsValid d t clt s holder v e)
]

-- A thread is woken, by a signal or without one.
woken-IsValid :
    (t clt : ℕ) (s : Server) (holder : Option ℕ)
    → IsValid s holder
    → s.pc t ≡ waits clt
    → IsValid (with_pc t (woken clt) s) holder
woken-IsValid t clt s holder v w = record {
  fits = v.fits;
  early = λ u e. absurd (cc (v.early t e, w));
  awake = λ u c h q. (t, (clt, rw ((==_iff t t).1 refl) refl));
}

-- A client that has the lock gives it back at once, and a waiting thread has been woken.
release-Returns :
    (pick : Option ℕ) (clt : ℕ) (s : Server)
    → IsValid s (some clt)
    → Picks s pick
    → Returns (λ s'. IsValid s' none) (release pick clt s)
unfolding release signal
release-Returns pick clt s v p = elim (Option-cases s.entry) [
  | inl e ↦ absurd (cc (rw e at v.fits))
  | inr (d, e) ↦
      let f : Fits (some d) (some clt) = rw e at v.fits in
      let locked : d.lock ≡ false = ground (arith, f) in
      let same : (d.clt_id == clt) ≡ true = ground (arith, f) in
      rw (release, e, locked, same) (given pick d p)
]
  where
    given :
        (o : Option ℕ) (d : LockData)
        → Picks s o
        → IsValid (signal o (record s { entry = some (record d { lock = true }) })) none
    given none d p = record {
      fits = refl;
      early = λ t q. absurd (cc q);
      awake = λ t c q w. absurd (p t c w);
    }
    given (some t) d (c, w) = rw w (record {
      fits = refl;
      early = λ u q. absurd (cc q);
      awake = λ u x h q. (t, (c, rw ((==_iff t t).1 refl) refl));
    })

Step-IsValid :
    {s s' : Server} {holder holder' : Option ℕ}
    → Step s holder s' holder'
    → IsValid s holder
    → IsValid s' holder'
unfolding wake
Step-IsValid {s} {holder = holder} (acquires t clt q) v = acquire-IsValid t clt s holder v
Step-IsValid {s} {holder = holder} (goes_on t clt q) v = acquire_again-IsValid t clt s holder v q
Step-IsValid {s} {holder = holder} (wakes t clt q) v = rw q (woken-IsValid t clt s holder v q)
Step-IsValid {s} (releases clt pick s' h p e) v = rw e at (release-Returns pick clt s (rw h at v) p)

pub Reach-IsValid : {s : Server} {holder : Option ℕ} → Reach s holder → IsValid s holder
Reach-IsValid start = record { fits = refl; early = λ t e. refl; awake = λ t c h q. absurd (cc q) }
Reach-IsValid (later r st) = Step-IsValid st (Reach-IsValid r)
