-- ===== src/LockServer/Answers.antt =====
-- lock_server.cc: when a call of `acquire` is answered.
use cse.Base.{
  ℕ, ◌≡◌, refl, sym, ap, ◌⊎◌, inl, inr, true, arith, Option, none, some, Bool-cases, ==_iff,
  Option-cases,
}
use mathlib.Core.Path.{subst}
use cse.LockServer.{
  LockData, outside, waits, woken, Server, take, acquire_loop, acquire, acquire_again,
}
use cse.LockServer.Runs.{Fits, Reach, Reach-IsValid, again_known}

free_entry : (d : LockData) → Fits (some d) none → d.lock ≡ true
free_entry d f = ground (arith, f)

acquire_loop-free :
    (d : LockData) (t clt : ℕ) (s : Server)
    → d.lock ≡ true
    → (acquire_loop d t clt s).pc t ≡ outside
unfolding acquire_loop
acquire_loop-free d t clt s y = rw (acquire_loop, y, (==_iff t t).1 refl) refl

-- After any sequence of calls by clients that release only a lock that they have: if no client has the
-- lock and a thread waits for it, then some thread has been woken that has not run since, and it
-- returns with the lock when it runs next.
pub no_lost_wakeup :
    {s : Server} (t clt : ℕ)
    → Reach s none
    → s.pc t ≡ waits clt
    → (u : ℕ) × ((d : ℕ) × (s.pc u ≡ woken d) × ((acquire_again u d s).pc u ≡ outside))
no_lost_wakeup {s} t clt r w =
    let v = Reach-IsValid r in
    let (u, (c, q)) = v.awake t clt refl w in
    elim (Option-cases s.entry) [
      | inl e ↦ absurd (cc (v.early t e, w))
      | inr (d, e) ↦ (
        u,
        (
          c,
          q,
          subst (λ x. x.pc u ≡ outside) (sym (again_known d u c s e))
              (acquire_loop-free d u c s (free_entry d (rw e at v.fits))),
        ),
      )
    ]

acquire_known :
    (d : LockData) (t clt : ℕ) (s : Server)
    → s.entry ≡ some d
    → acquire t clt s ≡ acquire_loop d t clt s
unfolding acquire
acquire_known d t clt s e =
    ap (λ x. elim x as (λ y. Server) [ none ↦ take t clt s | some k ↦ acquire_loop k t clt s ]) e

acquire_loop-held :
    (d : LockData) (t clt : ℕ) (s : Server)
    → (acquire_loop d t clt s).pc t ≡ outside
    → d.lock ≡ true
unfolding acquire_loop
acquire_loop-held d t clt s h = elim (Bool-cases d.lock) [
  | inl y ↦ y
  | inr y ↦ absurd (cc (rw (acquire_loop, y, (==_iff t t).1 refl) at h))
]

-- After any sequence of calls by clients that release only a lock that they have: a client that has been
-- answered when its call of `acquire` has run, at once or after it was woken, is answered while no other
-- client has the lock.
pub answered_alone :
    {s : Server} {holder : Option ℕ} (t clt : ℕ)
    → Reach s holder
    → ((s.pc t ≡ outside) × ((acquire t clt s).pc t ≡ outside))
      ⊎ ((s.pc t ≡ woken clt) × ((acquire_again t clt s).pc t ≡ outside))
    → holder ≡ none
answered_alone {s} t clt r how =
    let v = Reach-IsValid r in
    elim (Option-cases s.entry) [
      | inl e ↦ rw e at v.fits
      | inr (d, e) ↦
          let free : d.lock ≡ true = elim how [
            | inl (q, h) ↦
                acquire_loop-held d t clt s
                  (subst (λ x. x.pc t ≡ outside) (acquire_known d t clt s e) h)
            | inr (q, h) ↦
                acquire_loop-held d t clt s
                  (subst (λ x. x.pc t ≡ outside) (again_known d t clt s e) h)
          ] in
          rw free at (rw e at v.fits)
    ]
