-- ===== src/Examples/Handles.antt =====
-- handle.cc: two handles of one name, the first bound.
use cse.Base.{
  ℕ, zero, suc, ◌+◌, ◌-◌, ◌*◌, ◌/◌, ◌%◌, ◌^◌, ◌<◌, ◌≤◌, ◌≡◌, ◌≢◌, refl, sym, ◌∙◌, ap, ◌⊎◌, inl, inr,
  true, false, Bool, not, ◌&&◌, ◌||◌, arith, ltb, leb, ◌==◌, if◌then◌else◌, Option, none, some,
  List, [], ◌∷◌, ◌++◌, get_or, set, take, drop, replicate, length, length-set, length-append,
  length-replicate, get_or-set_self, get_or-set_ne, All, All-append, take_all, Bool-cases, ==_iff,
  Returns, Returns-map, bind-Returns,
}
use cse.Base.Bytes.{Bytes, codes}
use cse.Handle.{HandleMgr, init, get_handle, destroy, safebind, delete_handle}
use cse.Handle.Invariant.{IsLive, IsSound, with_users}
use cse.Handle.Safety.{with_handle}
use cse.Handle.Runs.{Reach, start, later, made, bound, operations_are_safe, handles_are_safe}

abbrev name : Bytes
name = codes "h:9"

abbrev or_init : {A : Type 0} → Option (A × HandleMgr) → HandleMgr
or_init none = init
or_init (some (a, s)) = s

abbrev one : HandleMgr
one = or_init (get_handle name init)

abbrev two : HandleMgr
two = or_init (safebind true (some 1) one)

abbrev three : HandleMgr
three = or_init (get_handle name two)

abbrev users : ℕ → ℕ
users = with_handle (some 1) (with_handle (some 1) (λ a. 0))

few_lem : (n b : ℕ) → n < 7 → (if b == 1 then n else 0) + 1 < 2 ^ 31
few_lem n b h = ground arith

three_steps : Reach three users
unfolding get_handle safebind cse.Base.Bytes.bytes_eq
three_steps =
    later
      (later (later start (made name (some 1) one (λ b. omega arith) refl))
        (bound true 1 (some 2) two (omega arith) refl))
      (made name (some 1) three (λ b. few_lem 1 b (omega arith)) refl)

users_few : (b : ℕ) → users b + 1 < 2 ^ 31
users_few b = ground arith

-- The second handle has the connection of the first.
same_connection : safebind false (some 1) three ≡ some (some 2, three)
unfolding get_handle safebind cse.Base.Bytes.bytes_eq
same_connection = refl

operations_are_safe_example :
    Returns (λ r. IsSound r.1 (with_handle r.0 users)) (get_handle name three)
    × Returns (λ t. IsSound t users) (delete_handle name three)
operations_are_safe_example = operations_are_safe name three_steps users_few

handles_are_safe_example :
    Returns (λ t. IsSound t (with_users 1 (users 1 - 1) users)) (destroy (some 1) three)
    × Returns (λ r. IsSound r.1 users × IsLive r.1 r.0) (safebind true (some 1) three)
handles_are_safe_example = handles_are_safe 1 true three_steps (omega arith)
