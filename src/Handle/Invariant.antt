-- ===== src/Handle/Invariant.antt =====
-- What holds of the cache of connections, given how many handles there are for each `hinfo`, and what a
-- change of one `hinfo` does to it.
use cse.Base.{
  ℕ, ◌+◌, ◌<◌, ◌≤◌, ◌≡◌, ◌≢◌, refl, sym, ◌∙◌, ap, ◌⊎◌, inl, inr, true, arith, ◌==◌, if◌then◌else◌,
  Option, none, some, Bool-cases, ==_iff, Returns, Option-cases,
}
use cse.Base.Bytes.{Bytes, bytes_eq, bytes_eq_iff}
use cse.Handle.{HInfo, HandleMgr, with_info, with_client, new_info, get_new}

-- The connection of an `hinfo` is alive.
abbrev pub IsLive : HandleMgr → Option ℕ → Type 0
IsLive s none = Unit
IsLive s (some c) = (s.clients c ≡ true) × (c < s.next)

-- What stands at an address to which `n` handles point.
abbrev pub Entry : HandleMgr → ℕ → ℕ → Option HInfo → Type 0
Entry s a n none = n ≡ 0
Entry s a n (some h) = (s.hmap h.m ≡ some a) × (h.refcnt ≡ n) × IsLive s h.cl × (a < s.next)

abbrev pub client_of : Option HInfo → Option ℕ
client_of none = none
client_of (some h) = h.cl

-- `users` counts the handles of each `hinfo`.
pub record IsSound (s : HandleMgr) (users : ℕ → ℕ) : Type 0 where
  pub named : (m : Bytes) (a : ℕ) → s.hmap m ≡ some a → Returns (λ h. h.m ≡ m) (s.infos a)
  pub entries : (a : ℕ) → Entry s a (users a) (s.infos a)
  pub own_client :
      (a b c : ℕ) → client_of (s.infos a) ≡ some c → client_of (s.infos b) ≡ some c → a ≡ b

abbrev pub with_users : ℕ → ℕ → (ℕ → ℕ) → ℕ → ℕ
with_users a n users j = if j == a then n else users j

-- A property of every address, from that of `a` and that of the others.
pub everywhere :
    {A : Type 0} (P : ℕ → A → Type 0) (f : ℕ → A) (a : ℕ) (x : A)
    → P a x
    → ((j : ℕ) → j ≢ a → P j (f j))
    → (j : ℕ) → P j (if j == a then x else f j)
everywhere P f a x p q j = elim (Bool-cases (j == a)) [
  | inl y ↦ rw (y, (==_iff j a).0 y) p
  | inr y ↦ rw y (q j (λ e. cc ((==_iff j a).1 e)))
]

-- An `hinfo` is changed, but for its name and its connection.
pub changed-IsSound :
    (s : HandleMgr) (users : ℕ → ℕ) (a n : ℕ) (h k : HInfo)
    → IsSound s users
    → s.infos a ≡ some h
    → k.m ≡ h.m
    → k.cl ≡ h.cl
    → k.refcnt ≡ n
    → IsSound (with_info a (some k) s) (with_users a n users)
changed-IsSound s users a n h k v e em ec er =
    let same : (b : ℕ) → client_of ((with_info a (some k) s).infos b) ≡ client_of (s.infos b) =
      everywhere (λ b o. client_of o ≡ client_of (s.infos b)) s.infos a (some k)
        (ec ∙ ap client_of (sym e)) (λ b ne. refl) in
    let was : Entry s a (users a) (some h) = rw e at (v.entries a) in
    record {
      named = λ m.
          everywhere (λ b o. s.hmap m ≡ some b → Returns (λ x. x.m ≡ m) o) s.infos a (some k)
            (λ q. em ∙ (rw e at (v.named m a q))) (λ b ne. v.named m b);
      entries = λ b. elim (Bool-cases (b == a)) [
        | inl y ↦ rw (y, (==_iff b a).0 y) (rw (em, ec) (was.0, er, was.2, was.3))
        | inr y ↦ rw y (v.entries b)
      ];
      own_client = λ b d c q q'. v.own_client b d c (sym (same b) ∙ q) (sym (same d) ∙ q');
    }

-- An entry that an operation leaves alone.
pub other_entry :
    (s t : HandleMgr) (b n : ℕ) (o : Option HInfo)
    → Entry s b n o
    → ((m : Bytes) → s.hmap m ≡ some b → t.hmap m ≡ some b)
    → ((c : ℕ) → client_of o ≡ some c → s.clients c ≡ true → c < s.next → t.clients c ≡ true)
    → s.next ≤ t.next
    → Entry t b n o
other_entry s t b n none v f g le = v
other_entry s t b n (some h) v f g le =
    (f h.m v.0, v.1, live h.cl (λ c. g c) v.2, omega (arith, v.3, le))
  where
    live :
        (l : Option ℕ)
        → ((c : ℕ) → l ≡ some c → s.clients c ≡ true → c < s.next → t.clients c ≡ true)
        → IsLive s l
        → IsLive t l
    live none k w = tt
    live (some c) k w = (k c refl w.0 w.1, omega (arith, w.1, le))

unfoldable pub unwrap : Option ℕ → ℕ
unwrap none = 0
unwrap (some a) = a

-- The next address is not in use.
pub next_free : (s : HandleMgr) (users : ℕ → ℕ) → IsSound s users → s.infos s.next ≡ none
next_free s users v = elim (Option-cases (s.infos s.next)) [
  | inl e ↦ e
  | inr (h, e) ↦
      let w : Entry s s.next (users s.next) (some h) = rw e at (v.entries s.next) in
      absurd (omega (arith, w.3))
]

pub added-IsSound :
    (s : HandleMgr) (users : ℕ → ℕ) (m : Bytes)
    → IsSound s users
    → s.hmap m ≡ none
    → IsSound (get_new m s).1 (with_users s.next 1 users)
unfolding get_new unwrap
added-IsSound s users m v e =
    let t : HandleMgr = (get_new m s).1 in
    let name_kept : (n : Bytes) (b : ℕ) → s.hmap n ≡ some b → t.hmap n ≡ some b = λ n b q.
      elim (Bool-cases (bytes_eq n m)) [
        | inl y ↦ absurd (cc (q, e, ap s.hmap ((bytes_eq_iff n m).0 y)))
        | inr y ↦ rw y q
      ] in
    let same : (b : ℕ) → client_of (t.infos b) ≡ client_of (s.infos b) =
      everywhere (λ b o. client_of o ≡ client_of (s.infos b)) s.infos s.next (some (new_info m))
        (ap client_of (sym (next_free s users v))) (λ b ne. refl) in
    record {
      named = λ n.
          everywhere (λ b o. t.hmap n ≡ some b → Returns (λ h. h.m ≡ n) o) s.infos s.next
            (some (new_info m))
            (elim (Bool-cases (bytes_eq n m)) [
              | inl y ↦ λ q. sym ((bytes_eq_iff n m).0 y)
              | inr y ↦ rw y (λ q. absurd (rw (next_free s users v) at (v.named n s.next q)))
            ])
            (λ b ne. elim (Bool-cases (bytes_eq n m)) [
              | inl y ↦ rw y (λ q. absurd (ne (ap (λ o. unwrap o) (sym q))))
              | inr y ↦ rw y (v.named n b)
            ]);
      entries = λ b. elim (Bool-cases (b == s.next)) [
        | inl y ↦
            rw (y, (==_iff b s.next).0 y)
              (rw ((bytes_eq_iff m m).1 refl) refl, refl, tt, omega arith)
        | inr y ↦ rw y (
            other_entry s t b (users b) (s.infos b) (v.entries b) (λ n. name_kept n b)
              (λ c q w l. w) (omega arith))
      ];
      own_client = λ b d c q q'. v.own_client b d c (sym (same b) ∙ q) (sym (same d) ∙ q');
    }

client_low :
    (s : HandleMgr) (b n c : ℕ) (o : Option HInfo)
    → Entry s b n o
    → client_of o ≡ some c
    → c < s.next
client_low s b n c none v q = absurd (cc q)
client_low s b n c (some h) v q = (rw q at v.2).1

-- An address that is given out and not used.
pub spent-IsSound :
    (s : HandleMgr) (users : ℕ → ℕ)
    → IsSound s users
    → IsSound (record s { next = s.next + 1 }) users
spent-IsSound s users v = record {
  named = v.named;
  entries = λ b.
      other_entry s (record s { next = s.next + 1 }) b (users b) (s.infos b) (v.entries b)
        (λ n q. q) (λ c q w l. w) (omega arith);
  own_client = v.own_client;
}

-- A new connection for an `hinfo` that has none.
pub bound-IsSound :
    (s : HandleMgr) (users : ℕ → ℕ) (a : ℕ) (h : HInfo)
    → IsSound s users
    → s.infos a ≡ some h
    → IsSound
        (with_client s.next true
          (with_info a (some (record h { cl = some s.next })) (record s { next = s.next + 1 })))
        users
unfolding unwrap
bound-IsSound s users a h v e =
    let k : HInfo = record h { cl = some s.next } in
    let t : HandleMgr =
      with_client s.next true (with_info a (some k) (record s { next = s.next + 1 })) in
    let was : Entry s a (users a) (some h) = rw e at (v.entries a) in
    let low : (b c : ℕ) → client_of (s.infos b) ≡ some c → c < s.next =
      λ b c. client_low s b (users b) c (s.infos b) (v.entries b) in
    let new_client : (b c : ℕ)
        → client_of (t.infos b) ≡ some c
        → ((b ≡ a) × (c ≡ s.next)) ⊎ (client_of (s.infos b) ≡ some c) =
      λ b c. elim (Bool-cases (b == a)) [
        | inl y ↦ rw y (λ q. inl ((==_iff b a).0 y, ap unwrap (sym q)))
        | inr y ↦ rw y (λ q. inr q)
      ] in
    record {
      named = λ n.
          everywhere (λ b o. s.hmap n ≡ some b → Returns (λ x. x.m ≡ n) o) s.infos a (some k)
            (λ q. rw e at (v.named n a q)) (λ b ne. v.named n b);
      entries = λ b. elim (Bool-cases (b == a)) [
        | inl y ↦
            rw (y, (==_iff b a).0 y)
              (
                was.0,
                was.1,
                ((rw ((==_iff s.next s.next).1 refl) refl), omega arith),
                omega (arith, was.3),
              )
        | inr y ↦ rw y (
            other_entry s t b (users b) (s.infos b) (v.entries b) (λ n q. q)
              (λ c q w l. ground arith) (omega arith))
      ];
      own_client = λ b d c q q'. elim (new_client b c q) [
        | inl (x, z) ↦ elim (new_client d c q') [
          | inl (x', z') ↦ x ∙ sym x'
          | inr w' ↦ absurd (omega (arith, z, low d c w'))
        ]
        | inr w ↦ elim (new_client d c q') [
          | inl (x', z') ↦ absurd (omega (arith, z', low b c w))
          | inr w' ↦ v.own_client b d c w w'
        ]
      ];
    }
