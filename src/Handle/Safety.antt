-- ===== src/Handle/Safety.antt =====
-- Each operation of handle.cc on a sound state: it uses nothing that has been deleted, and leaves a sound
-- state.
use cse.Base.{
  ℕ, ◌+◌, ◌-◌, ◌%◌, ◌^◌, ◌<◌, ◌≡◌, refl, sym, ◌∙◌, inl, inr, true, false, Bool, ◌&&◌, arith, ◌==◌,
  Option, none, some, Bool-cases, ==_iff, Returns, Option-cases,
}
use mathlib.Core.Path.{subst}
use cse.Base.Bytes.{Bytes}
use cse.Handle.{
  HInfo, HandleMgr, with_info, get_new, get_known, get_handle, delete_found, delete_handle_wo,
  done_info, done_handle, bind_info, safebind_info, safebind,
}
use cse.Handle.Removal.{delete_info-Returns}
use cse.Handle.Invariant.{
  IsLive, Entry, IsSound, with_users, everywhere, changed-IsSound, next_free, added-IsSound,
  bound-IsSound, spent-IsSound,
}

same_users : (s : HandleMgr) (u w : ℕ → ℕ) → ((a : ℕ) → u a ≡ w a) → IsSound s u → IsSound s w
same_users s u w e v = record {
  named = v.named;
  entries = λ a. rw (sym (e a)) (v.entries a);
  own_client = v.own_client;
}

-- One handle more, where the constructor got an `hinfo`.
abbrev pub with_handle : Option ℕ → (ℕ → ℕ) → ℕ → ℕ
with_handle none users = users
with_handle (some a) users = with_users a (users a + 1) users

-- A name in the map has its `hinfo`.
found :
    (m : Bytes) (a : ℕ) (s : HandleMgr) (users : ℕ → ℕ)
    → IsSound s users
    → s.hmap m ≡ some a
    → (h : HInfo) × (s.infos a ≡ some h) × (h.m ≡ m)
found m a s users v e = elim (Option-cases (s.infos a)) [
  | inl q ↦ absurd (rw q at (v.named m a e))
  | inr (h, q) ↦ (h, q, rw q at (v.named m a e))
]

-- So has an address with a handle.
pointed :
    (a : ℕ) (s : HandleMgr) (users : ℕ → ℕ)
    → IsSound s users
    → 0 < users a
    → (h : HInfo) × (s.infos a ≡ some h) × Entry s a (users a) (some h)
pointed a s users v pos = elim (Option-cases (s.infos a)) [
  | inl q ↦ let z : users a ≡ 0 = rw q at (v.entries a) in absurd (omega (arith, z, pos))
  | inr (h, q) ↦ (h, q, rw q at (v.entries a))
]

get_known-IsSound :
    (a : ℕ) (h : HInfo) (s : HandleMgr) (users : ℕ → ℕ)
    → IsSound s users
    → s.infos a ≡ some h
    → users a + 1 < 2 ^ 31
    → Returns (λ r. IsSound r.1 (with_handle r.0 users)) (get_known a h s)
unfolding get_known
get_known-IsSound a h s users v e few = elim (Bool-cases h.del) [
  | inl y ↦ rw (get_known, y) v
  | inr y ↦
      let was : Entry s a (users a) (some h) = rw e at (v.entries a) in
      let below : (h.refcnt + 1 == 2 ^ 31) ≡ false = ground (arith, was.1, few) in
      rw (get_known, y, below)
        (changed-IsSound s users a (users a + 1) h _ v e refl refl (omega (arith, was.1, few)))
]

pub get_handle-Returns :
    (m : Bytes) (s : HandleMgr) (users : ℕ → ℕ)
    → IsSound s users
    → ((a : ℕ) → users a + 1 < 2 ^ 31)
    → Returns (λ r. IsSound r.1 (with_handle r.0 users)) (get_handle m s)
unfolding get_handle get_new
get_handle-Returns m s users v few = elim (Option-cases (s.hmap m)) [
  | inl e ↦
      let free : users s.next ≡ 0 = rw (next_free s users v) at (v.entries s.next) in
      rw (get_handle, e, free) (added-IsSound s users m v e)
  | inr (a, e) ↦
      let (h, q, w) = found m a s users v e in
      rw (get_handle, e, q) (get_known-IsSound a h s users v q (few a))
]

marked-IsSound :
    (s : HandleMgr) (users : ℕ → ℕ) (a : ℕ) (h : HInfo)
    → IsSound s users
    → s.infos a ≡ some h
    → IsSound (with_info a (some (record h { del = true })) s) users
marked-IsSound s users a h v e =
    let was : Entry s a (users a) (some h) = rw e at (v.entries a) in
    same_users _ (with_users a (users a) users) users
      (everywhere (λ j n. n ≡ users j) users a (users a) refl (λ j ne. refl))
      (changed-IsSound s users a (users a) h _ v e refl refl was.1)

delete_found-Returns :
    (a : ℕ) (h : HInfo) (s : HandleMgr) (users : ℕ → ℕ)
    → IsSound s users
    → s.infos a ≡ some h
    → Returns (λ t. IsSound t users) (delete_found h.m a h s)
unfolding delete_found
delete_found-Returns a h s users v e =
    let was : Entry s a (users a) (some h) = rw e at (v.entries a) in
    elim (Bool-cases (h.refcnt == 0)) [
      | inl y ↦
          rw (delete_found, y)
            (delete_info-Returns s users a h v e (sym was.1 ∙ (==_iff h.refcnt 0).0 y))
      | inr y ↦ rw (delete_found, y) (marked-IsSound s users a h v e)
    ]

pub delete_handle_wo-Returns :
    (m : Bytes) (s : HandleMgr) (users : ℕ → ℕ)
    → IsSound s users
    → Returns (λ t. IsSound t users) (delete_handle_wo m s)
unfolding delete_handle_wo
delete_handle_wo-Returns m s users v = elim (Option-cases (s.hmap m)) [
  | inl e ↦ rw (delete_handle_wo, e) v
  | inr (a, e) ↦
      let (h, q, w) = found m a s users v e in
      rw (delete_handle_wo, e, q)
        (subst (λ n. Returns (λ t. IsSound t users) (delete_found n a h s)) w
          (delete_found-Returns a h s users v q))
]

pub done_handle-Returns :
    (a : ℕ) (s : HandleMgr) (users : ℕ → ℕ)
    → IsSound s users
    → 0 < users a
    → users a < 2 ^ 31
    → Returns (λ t. IsSound t (with_users a (users a - 1) users)) (done_handle a s)
unfolding done_handle done_info
done_handle-Returns a s users v pos few =
    let (h, q, was) = pointed a s users v pos in
    let left : (h.refcnt + 2 ^ 32 - 1) % 2 ^ 32 ≡ users a - 1 = omega (arith, was.1, pos, few) in
    let above : (h.refcnt == 2 ^ 31) ≡ false = ground (arith, was.1, few) in
    let k : HInfo = record h { refcnt = (h.refcnt + 2 ^ 32 - 1) % 2 ^ 32 } in
    let w : IsSound (with_info a (some k) s) (with_users a (users a - 1) users) =
      changed-IsSound s users a (users a - 1) h k v q refl refl left in
    rw (done_handle, q, above)
      (elim (Bool-cases ((k.refcnt == 0) && h.del)) [
        | inl y ↦ rw y (delete_handle_wo-Returns h.m (with_info a (some k) s) _ w)
        | inr y ↦ rw y w
      ])

bind_info-Returns :
    (bound : Bool) (a : ℕ) (h : HInfo) (s : HandleMgr) (users : ℕ → ℕ)
    → IsSound s users
    → s.infos a ≡ some h
    → h.cl ≡ none
    → IsSound (bind_info bound a h s).1 users
      × IsLive (bind_info bound a h s).1 (bind_info bound a h s).0
unfolding bind_info
bind_info-Returns true a h s users v e q =
    (bound-IsSound s users a h v e, (rw ((==_iff s.next s.next).1 refl) refl, omega arith))
bind_info-Returns false a h s users v e q =
    (spent-IsSound _ users (marked-IsSound s users a h v e), tt)

-- `safebind` of a handle: the connection that it gives is alive.
pub safebind-Returns :
    (bound : Bool) (a : ℕ) (s : HandleMgr) (users : ℕ → ℕ)
    → IsSound s users
    → 0 < users a
    → Returns (λ r. IsSound r.1 users × IsLive r.1 r.0) (safebind bound (some a) s)
unfolding safebind safebind_info
safebind-Returns bound a s users v pos =
    let (h, q, was) = pointed a s users v pos in
    rw (safebind, q)
      (elim (Bool-cases h.del) [
        | inl y ↦ rw (safebind_info, y) (v, tt)
        | inr y ↦ elim (Option-cases h.cl) [
          | inl z ↦ rw (safebind_info, y, z) (bind_info-Returns bound a h s users v q z)
          | inr (c, z) ↦ rw (safebind_info, y, z) (v, rw z at was.2)
        ]
      ])
