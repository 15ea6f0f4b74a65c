-- ===== src/Examples/Locking.antt =====
-- Two clients of the caching lock server, with one thread each, that want lock 1.
use cse.Base.{ℕ, ◌<◌, ◌≡◌, refl, ap, arith, Option, none, some, [], ◌∷◌}
use cse.Base.Bytes.{Bytes}
use cse.LockServerCache.{Reply, ok}
use cse.LockServerCache
use cse.LockClientCache.{
  Pc, holding, answered, Client, Action, acquires, wakes, receives, releases, released,
  revoke_comes, retry_comes, act,
}
use cse.LockClientCache
use cse.LockProtocol.{
  Network, with_client, served, client_acts, acquire_served, release_served, begin, Reach, start,
  later,
}
use cse.LockProtocol.Exclusion.{one_holder}
use cse.Examples.LockServer.{anne, bert}

abbrev or_init : Option Client → Client
or_init none = LockClientCache.init
or_init (some k) = k

abbrev or_empty : Option Reply → Reply
or_empty none = record { server = LockServerCache.init 7; status = ok; messages = [] }
or_empty (some r) = r

-- The action of a client, a served `acquire` and a served `release`, of thread 0.
abbrev after_act : Bytes → Action → Network → Network
after_act c a n = with_client c (or_init (act a (n.clients c))) n

abbrev acquiring_reply : Bytes → Network → Reply
acquiring_reply c n = or_empty (LockServerCache.acquire 1 c n.server)

abbrev after_acquire : Bytes → Network → Network
after_acquire c n =
    let r = acquiring_reply c n in
    with_client c (served 0 (answered r.status) (n.clients c)) (record n { server = r.server })

abbrev releasing_reply : Bytes → Network → Reply
releasing_reply c n = or_empty (LockServerCache.release 1 c n.server)

abbrev after_release : Bytes → Network → Network
after_release c n =
    let r = releasing_reply c n in
    with_client c (served 0 LockClientCache.returned (n.clients c)) (record n { server = r.server })

-- Anne holds the lock; Bert asks and has to wait; Anne is told to give it back, and does; Bert is told
-- to ask again, and gets it.
abbrev n0 : Network
n0 = begin 7

abbrev n1 : Network
n1 = after_act anne (acquires 0) n0

abbrev n2 : Network
n2 = after_acquire anne n1

abbrev n3 : Network
n3 = after_act anne (receives 0) n2

abbrev n4 : Network
n4 = after_act bert (acquires 0) n3

abbrev n5 : Network
n5 = after_acquire bert n4

abbrev n6 : Network
n6 = after_act bert (receives 0) n5

abbrev n7 : Network
n7 = after_act anne revoke_comes n6

abbrev n8 : Network
n8 = after_act anne (releases 0) n7

abbrev n9 : Network
n9 = after_release anne n8

abbrev n10 : Network
n10 = after_act anne (released 0) n9

abbrev n11 : Network
n11 = after_act bert retry_comes n10

abbrev n12 : Network
n12 = after_act bert (wakes 0) n11

abbrev n13 : Network
n13 = after_acquire bert n12

abbrev n14 : Network
n14 = after_act bert (receives 0) n13

reach3 : Reach 1 7 n3
unfolding act LockServerCache.acquire LockServerCache.init cse.Base.Bytes.bytes_eq
    cse.Base.Bytes.bytes_empty LockClientCache.queued
reach3 =
    later
      (later (later start (client_acts anne (acquires 0) _ (λ e. cc) refl))
        (acquire_served anne 0 _ (λ e. cc) refl refl))
      (client_acts anne (receives 0) _ (λ e. cc) refl)

reach6 : Reach 1 7 n6
unfolding act LockServerCache.acquire LockServerCache.init cse.Base.Bytes.bytes_eq
    cse.Base.Bytes.bytes_empty LockClientCache.queued LockServerCache.member
reach6 =
    later
      (later (later reach3 (client_acts bert (acquires 0) _ (λ e. cc) refl))
        (acquire_served bert 0 _ (λ e. cc) refl refl))
      (client_acts bert (receives 0) _ (λ e. cc) refl)

reach10 : Reach 1 7 n10
unfolding act LockServerCache.acquire LockServerCache.init cse.Base.Bytes.bytes_eq
    cse.Base.Bytes.bytes_empty LockClientCache.queued LockServerCache.release LockServerCache.member
    LockServerCache.insert
reach10 =
    later
      (later
        (later (later reach6 (client_acts anne revoke_comes _ (λ e. cc) refl))
          (client_acts anne (releases 0) _ (λ e. cc) refl))
        (release_served anne 0 _ refl refl))
      (client_acts anne (released 0) _ (λ e. cc) refl)

reach14 : Reach 1 7 n14
unfolding act LockServerCache.acquire LockServerCache.init cse.Base.Bytes.bytes_eq
    cse.Base.Bytes.bytes_empty LockClientCache.queued LockServerCache.member LockServerCache.release
    LockServerCache.insert
reach14 =
    later
      (later
        (later (later reach10 (client_acts bert retry_comes _ (λ e. cc) refl))
          (client_acts bert (wakes 0) _ (λ e. cc) refl))
        (acquire_served bert 0 _ (λ e. cc) refl refl))
      (client_acts bert (receives 0) _ (λ e. cc) refl)

bert_holds : (n14.clients bert).pc 0 ≡ holding
unfolding cse.Base.Bytes.bytes_eq act LockClientCache.queued LockServerCache.acquire
    LockServerCache.init cse.Base.Bytes.bytes_empty LockServerCache.member LockServerCache.release
    LockServerCache.insert
bert_holds = refl

abbrev first_thread : ℕ
first_thread = 0

one_holder_example : (bert ≡ bert) × (first_thread ≡ first_thread)
one_holder_example = one_holder bert bert first_thread first_thread reach14 bert_holds bert_holds
