-- ===== src/Examples/LockServer.antt =====
-- lock_server_cache.cc on two clients that want one lock.
use cse.Base.{ℕ, ◌≡◌, refl, ap, arith, get_or, ◌≢◌, Option, none, some, List, [], ◌∷◌, Returns}
use cse.Base.Bytes.{Bytes, codes}
use cse.LockServerCache.{
  State, revoking, LockEntry, Status, ok, retry, Server, Reply, acquire_entry, release_entry,
  acquire, release, init,
}
use cse.LockServerCache.Queues
use cse.LockServerCache.Queues.{IsHandedOver, handed_over}
use cse.LockServerCache.Invariant.{IsValid, Acquired, acquire_entry-Returns}
use cse.LockServerCache.Runs.{
  Holders, granted, given_back, Reach, start, acquired, released, mutual_exclusion,
  release_by_holder,
}

abbrev pub anne : Bytes
anne = codes "a:1"

abbrev pub bert : Bytes
bert = codes "b:2"

abbrev or_start : Option Reply → Reply
or_start none = record { server = init 7; status = retry; messages = [] }
or_start (some r) = r

-- Anne gets lock 1, Bert waits for it, Anne releases it, and Bert asks again.
abbrev first : Reply
first = or_start (acquire 1 anne (init 7))

abbrev second : Reply
second = or_start (acquire 1 bert first.server)

abbrev third : Reply
third = or_start (release 1 anne second.server)

abbrev fourth : Reply
fourth = or_start (acquire 1 bert third.server)

anne_gets : acquire 1 anne (init 7) ≡ some first
unfolding acquire init cse.Base.Bytes.bytes_empty
anne_gets = refl

bert_waits : acquire 1 bert first.server ≡ some second
unfolding acquire init cse.Base.Bytes.bytes_empty cse.LockServerCache.member cse.Base.Bytes.bytes_eq
bert_waits = refl

anne_releases : release 1 anne second.server ≡ some third
unfolding release acquire init cse.Base.Bytes.bytes_empty cse.LockServerCache.member
    cse.Base.Bytes.bytes_eq cse.LockServerCache.insert
anne_releases = refl

bert_gets : acquire 1 bert third.server ≡ some fourth
unfolding acquire release init cse.Base.Bytes.bytes_empty cse.LockServerCache.member
    cse.Base.Bytes.bytes_eq cse.LockServerCache.insert
bert_gets = refl

bert_was_told : second.status ≡ retry
unfolding acquire init cse.Base.Bytes.bytes_empty cse.LockServerCache.member cse.Base.Bytes.bytes_eq
bert_was_told = refl

bert_is_told : fourth.status ≡ ok
unfolding acquire release init cse.Base.Bytes.bytes_empty cse.LockServerCache.member
    cse.Base.Bytes.bytes_eq cse.LockServerCache.insert
bert_is_told = refl

abbrev waited : Holders
waited = granted 1 bert second.status (granted 1 anne first.status (λ lid. []))

two_requests : Reach 7 second.server waited
two_requests =
    acquired 1 bert second (acquired 1 anne first start (λ e. cc) anne_gets) (λ e. cc) bert_waits

three_requests : Reach 7 third.server (given_back 1 waited)
three_requests = released 1 anne third two_requests anne_releases

mutual_exclusion_example : given_back 1 waited 1 ≡ []
mutual_exclusion_example =
    mutual_exclusion 1 bert fourth three_requests (λ e. cc) bert_gets bert_is_told

release_by_holder_example : waited 1 ≡ anne
release_by_holder_example = release_by_holder 1 anne third two_requests anne_releases

-- Anne has the lock, and Bert waits.
abbrev contended : LockEntry
contended = record {
  owner = anne;
  retrying_client = [];
  waiting_clients = bert ∷ [];
  state = revoking;
}

contended-IsValid : IsValid contended
unfolding cse.LockServerCache.member cse.Base.Bytes.bytes_eq
contended-IsValid = ((λ e. cc), refl, (λ e. cc), refl)

acquire_entry-Returns_example :
    Returns (Acquired contended (codes "c:3")) (acquire_entry contended (codes "c:3"))
unfolding cse.LockServerCache.member cse.Base.Bytes.bytes_eq
acquire_entry-Returns_example =
    acquire_entry-Returns contended (codes "c:3") contended-IsValid (λ e. cc)
      (λ e. omega (arith, ap (λ s. get_or s 0 0) e)) refl

polite : Queues.Reach 7 second.server
unfolding acquire init cse.Base.Bytes.bytes_empty cse.LockServerCache.member cse.Base.Bytes.bytes_eq
polite =
    Queues.acquired 1 bert second
      (Queues.acquired 1 anne first Queues.start (λ e. cc e) (λ e. cc e) refl anne_gets) (λ e. cc e)
      (λ e. omega (arith, ap (λ s. get_or s 0 0) e)) refl bert_waits

handed_over_example : Returns (IsHandedOver 1 second.server) (release 1 anne second.server)
unfolding acquire init cse.Base.Bytes.bytes_empty cse.LockServerCache.member cse.Base.Bytes.bytes_eq
handed_over_example = handed_over 1 anne polite refl refl
