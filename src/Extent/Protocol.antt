-- ===== src/Extent/Protocol.antt =====
-- extent_protocol.h: how the attributes of a file go into an RPC message and come out of one. The
-- operators on a uint32_t, which are the RPC library's, are parameters.
use cse.Base.{ℕ, ◌^◌, ◌<◌, ◌≡◌, refl, ◌∙◌, ap, List, [], ◌∷◌, ◌++◌, append_assoc}
use cse.InodeManager.{Attr}

-- The fields fit a uint32_t.
pub record IsAttr (a : Attr) : Type 0 where
  pub type_fits : a.type < 2 ^ 32
  pub atime_fits : a.atime < 2 ^ 32
  pub mtime_fits : a.mtime < 2 ^ 32
  pub ctime_fits : a.ctime < 2 ^ 32
  pub size_fits : a.size < 2 ^ 32

-- A message that is written, and one that is read.
module _ {Out In : Type 0} (put32 : ℕ → Out → Out) (get32 : In → ℕ × In) where
  -- operator<< and operator>> on an attr
  unfoldable pub put_attr : Attr → Out → Out
  put_attr a m =
      let m1 = put32 a.type m in
      let m2 = put32 a.atime m1 in
      let m3 = put32 a.mtime m2 in let m4 = put32 a.ctime m3 in put32 a.size m4

  unfoldable pub get_attr : In → Attr × In
  get_attr u =
      let (type, u1) = get32 u in
      let (atime, u2) = get32 u1 in
      let (mtime, u3) = get32 u2 in
      let (ctime, u4) = get32 u3 in
      let (size, u5) = get32 u4 in
      (record { type = type; atime = atime; mtime = mtime; ctime = ctime; size = size }, u5)

  -- The numbers in a message: `<<` adds one of 32 bits at the end, and `>>` takes the first.
  pub record Numbers : Type 0 where
    pub written : Out → List ℕ
    pub pending : In → List ℕ
    pub put_lem : (n : ℕ) (m : Out) → n < 2 ^ 32 → written (put32 n m) ≡ written m ++ (n ∷ [])
    pub get_lem :
        (n : ℕ) (ns : List ℕ) (u : In)
        → pending u ≡ n ∷ ns
        → ((get32 u).0 ≡ n) × (pending (get32 u).1 ≡ ns)

  module _ (numbers : Numbers) where
    open numbers use {written, pending, put_lem, get_lem}

    abbrev fields : Attr → List ℕ
    fields a = a.type ∷ a.atime ∷ a.mtime ∷ a.ctime ∷ a.size ∷ []

    put_attr-fields :
        (a : Attr) (m : Out) → IsAttr a → written (put_attr a m) ≡ written m ++ fields a
    unfolding put_attr
    put_attr-fields a m v =
        rw
          (
            put_lem a.size _ v.size_fits,
            put_lem a.ctime _ v.ctime_fits,
            put_lem a.mtime _ v.mtime_fits,
            put_lem a.atime _ v.atime_fits,
            put_lem a.type m v.type_fits,
          )
          (simp append_assoc refl)

    get_attr-fields :
        (a : Attr) (ns : List ℕ) (u : In)
        → pending u ≡ fields a ++ ns
        → ((get_attr u).0 ≡ a) × (pending (get_attr u).1 ≡ ns)
    unfolding get_attr
    get_attr-fields a ns u e =
        let t1 = get_lem _ _ u e in
        let t2 = get_lem _ _ _ t1.1 in
        let t3 = get_lem _ _ _ t2.1 in
        let t4 = get_lem _ _ _ t3.1 in
        let t5 = get_lem _ _ _ t4.1 in (cc (t1.0, t2.0, t3.0, t4.0, t5.0), t5.1)

    -- Over operators on a uint32_t of which `<<` adds a number of 32 bits at the end of a message and
    -- `>>` takes the first one of a message: attributes whose fields fit 32 bits, written into an
    -- empty message, are read back from a message that begins with its numbers, and what follows
    -- them is left.
    pub get_attr-put_attr :
        (a : Attr) (ns : List ℕ) (m : Out) (u : In)
        → IsAttr a
        → written m ≡ []
        → pending u ≡ written (put_attr a m) ++ ns
        → ((get_attr u).0 ≡ a) × (pending (get_attr u).1 ≡ ns)
    get_attr-put_attr a ns m u v empty e =
        get_attr-fields a ns u
          (e ∙ ap (λ xs. xs ++ ns) (put_attr-fields a m v ∙ ap (λ xs. xs ++ fields a) empty))
