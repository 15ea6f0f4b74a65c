-- ===== src/Examples/Waiting.antt =====
-- lock_server.cc: three clients that want the lock.
use cse.Base.{ℕ, ◌≡◌, refl, inr, Option, none, some}
use cse.LockServer.{outside, waits, woken, Server, init, acquire, acquire_again, release}
use cse.LockServer.Runs.{Reach, start, later, acquires, releases}
use cse.LockServer.Answers.{no_lost_wakeup, answered_alone}

abbrev or_init : Option Server → Server
or_init none = init
or_init (some s) = s

-- Client 5 gets the lock, 6 and 7 wait, and 5 gives it back.
abbrev waiting : Server
waiting = acquire 3 7 (acquire 2 6 (acquire 1 5 init))

abbrev given_back : Server
given_back = or_init (release (some 2) 5 waiting)

waiting-Reach : Reach waiting (some 5)
unfolding acquire
waiting-Reach =
    later (later (later start (acquires 1 5 refl)) (acquires 2 6 refl)) (acquires 3 7 refl)

given_back-Reach : Reach given_back none
unfolding acquire release
given_back-Reach = later waiting-Reach (releases 5 (some 2) given_back refl (6, refl) refl)

third_waits : given_back.pc 3 ≡ waits 7
unfolding acquire release
third_waits = refl

no_lost_wakeup_example :
    (u : ℕ) × ((d : ℕ) × (given_back.pc u ≡ woken d)
      × ((acquire_again u d given_back).pc u ≡ outside))
no_lost_wakeup_example = no_lost_wakeup 3 7 given_back-Reach third_waits

second_returns : (given_back.pc 2 ≡ woken 6) × ((acquire_again 2 6 given_back).pc 2 ≡ outside)
unfolding acquire release acquire_again
second_returns = (refl, refl)

abbrev nobody : Option ℕ
nobody = none

answered_alone_example : nobody ≡ none
answered_alone_example = answered_alone 2 6 given_back-Reach (inr second_returns)
