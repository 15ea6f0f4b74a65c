-- ===== src/Handle/Removal.antt =====
-- handle.cc: an `hinfo` without handles is deleted, with its connection.
use cse.Base.{
  ℕ, ◌≡◌, ◌≢◌, refl, sym, ◌∙◌, ap, inl, inr, true, false, Bool, arith, ◌==◌, if◌then◌else◌, Option,
  none, some, Bool-cases, ==_iff, Returns,
}
use cse.Base.Bytes.{bytes_eq, bytes_eq_iff}
use cse.Handle.{HInfo, HandleMgr, with_info, with_name, delete_client, delete_info}
use cse.Handle.Invariant.{IsLive, Entry, client_of, IsSound, everywhere, other_entry, unwrap}

-- The others keep their connection when one is deleted.
Spared : HandleMgr → Option ℕ → (ℕ → Bool) → Type 0
Spared s o clients = (c : ℕ) → o ≢ some c → s.clients c ≡ true → clients c ≡ true

delete_client-Returns :
    (s : HandleMgr) (o : Option ℕ)
    → IsLive s o
    → Returns
        (λ t. (clients : ℕ → Bool) × (t ≡ record s { clients = clients }) × Spared s o clients)
        (delete_client o s)
unfolding delete_client Spared
delete_client-Returns s none v = (s.clients, refl, λ c ne w. w)
delete_client-Returns s (some c) v = rw v.0 (
  (λ j. if j == c then false else s.clients j),
  refl,
  λ d ne w. elim (Bool-cases (d == c)) [
    | inl y ↦ absurd (ne (ap some (sym ((==_iff d c).0 y))))
    | inr y ↦ rw y w
  ],
)

removed-IsSound :
    (s : HandleMgr) (users : ℕ → ℕ) (a : ℕ) (h : HInfo) (clients : ℕ → Bool)
    → IsSound s users
    → s.infos a ≡ some h
    → users a ≡ 0
    → Spared s h.cl clients
    → IsSound (with_info a none (with_name h.m none (record s { clients = clients }))) users
unfolding Spared unwrap
removed-IsSound s users a h clients v e z spared =
    let t : HandleMgr = with_info a none (with_name h.m none (record s { clients = clients })) in
    let was : Entry s a (users a) (some h) = rw e at (v.entries a) in
    let less : (b c : ℕ) → client_of (t.infos b) ≡ some c → client_of (s.infos b) ≡ some c =
      λ b c. elim (Bool-cases (b == a)) [ inl y ↦ rw y (λ q. cc q) | inr y ↦ rw y (λ q. q) ] in
    record {
      named = λ n.
          everywhere (λ b o. t.hmap n ≡ some b → Returns (λ x. x.m ≡ n) o) s.infos a none
            (elim (Bool-cases (bytes_eq n h.m)) [
              | inl y ↦ rw y (λ q. cc q)
              | inr y ↦ rw y (λ q. cc (y, (bytes_eq_iff n h.m).1 (sym (rw e at (v.named n a q)))))
            ])
            (λ b ne. elim (Bool-cases (bytes_eq n h.m)) [
              | inl y ↦ rw y (λ q. cc q)
              | inr y ↦ rw y (v.named n b)
            ]);
      entries = λ b. elim (Bool-cases (b == a)) [
        | inl y ↦ rw (y, (==_iff b a).0 y) z
        | inr y ↦ rw y (
            other_entry s t b (users b) (s.infos b) (v.entries b)
              (λ n q. elim (Bool-cases (bytes_eq n h.m)) [
                | inl x ↦
                    let same : b ≡ a =
                      ap unwrap (sym q ∙ ap s.hmap ((bytes_eq_iff n h.m).0 x) ∙ was.0) in
                    cc (y, (==_iff b a).1 same)
                | inr x ↦ rw x q
              ])
              (λ c q w l.
                spared c (λ q'. cc (y, (==_iff b a).1 (v.own_client b a c q (ap client_of e ∙ q'))))
                  w)
              (omega arith))
      ];
      own_client = λ b d c q q'. v.own_client b d c (less b c q) (less d c q');
    }

pub delete_info-Returns :
    (s : HandleMgr) (users : ℕ → ℕ) (a : ℕ) (h : HInfo)
    → IsSound s users
    → s.infos a ≡ some h
    → users a ≡ 0
    → Returns (λ t. IsSound t users) (delete_info h.m a h s)
unfolding delete_info
delete_info-Returns s users a h v e z =
    let was : Entry s a (users a) (some h) = rw e at (v.entries a) in
    step (delete_client h.cl s) (delete_client-Returns s h.cl was.2)
  where
    step :
        (o : Option HandleMgr)
        → Returns
            (λ t.
              (clients : ℕ → Bool) × (t ≡ record s { clients = clients }) × Spared s h.cl clients)
            o
        → Returns
            (λ t. IsSound t users)
            (elim o [ none ↦ none | some t ↦ some (with_info a none (with_name h.m none t)) ])
    step none w = w
    step (some t) (clients, q, sp) = rw q (removed-IsSound s users a h clients v e z sp)
