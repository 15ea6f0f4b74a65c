-- ===== src/Directory/Names.antt =====
-- yfs_client.cc: the entries of a name in `directory`, described without the loops of `find` and `delent`.
use cse.Base.{
  ◌≡◌, ◌≢◌, refl, sym, ◌∙◌, ap, inl, inr, ◌⊎◌, List, [], ◌∷◌, ◌++◌, All, Bool-cases, if◌then◌else◌,
}
use cse.Base.Bytes.{Bytes, bytes_eq, bytes_eq_iff}
use cse.Directory.{Dirent, find_in, delent_loop}

-- The entry has the name, and none in front of it has.
abbrev pub IsFirst : Bytes → List Dirent → Dirent → Type 0
IsFirst name es e =
    (before : List Dirent) × (after : List Dirent) × (es ≡ before ++ (e ∷ after))
    × (e.name ≡ name)
    × All (λ x. x.name ≢ name) before

abbrev pub IsMissing : Bytes → List Dirent → Type 0
IsMissing name es = All (λ x. x.name ≢ name) es

-- What `find` tells: the number of the first entry of the name, or 0 where there is none.
pub find_in-IsFirst :
    (name : Bytes) (es : List Dirent)
    → ((e : Dirent) × IsFirst name es e × (find_in name es ≡ e.inum))
      ⊎ (IsMissing name es × (find_in name es ≡ 0))
unfolding find_in
find_in-IsFirst name [] = inr (tt, refl)
find_in-IsFirst name (x ∷ es) = elim (Bool-cases (bytes_eq name x.name)) [
  | inl hit ↦
      inl (x, ([], es, refl, sym ((bytes_eq_iff name x.name).0 hit), tt), rw (find_in, hit) refl)
  | inr miss ↦
      let other : x.name ≢ name = λ e. absurd (cc (miss, (bytes_eq_iff name x.name).1 (sym e))) in
      elim (find_in-IsFirst name es) [
        | inl (e, (before, after, split, named, front), number) ↦ inl (
          e,
          (x ∷ before, after, ap (λ (l : List Dirent). x ∷ l) split, named, (other, front)),
          rw (find_in, miss) number,
        )
        | inr (missing, zero') ↦ inr ((other, missing), rw (find_in, miss) zero')
      ]
]

find_in-append_first :
    (name : Bytes) (before after : List Dirent) (e : Dirent)
    → e.name ≡ name
    → All (λ x. x.name ≢ name) before
    → find_in name (before ++ (e ∷ after)) ≡ e.inum
unfolding find_in
find_in-append_first name [] after e named h =
    rw (find_in, (bytes_eq_iff name e.name).1 (sym named)) refl
find_in-append_first name (x ∷ before) after e named h = elim (Bool-cases (bytes_eq name x.name)) [
  | inl hit ↦ absurd (h.0 (sym ((bytes_eq_iff name x.name).0 hit)))
  | inr miss ↦ rw (find_in, miss) (find_in-append_first name before after e named h.1)
]

pub IsFirst-find_in :
    (name : Bytes) (es : List Dirent) (e : Dirent) → IsFirst name es e → find_in name es ≡ e.inum
IsFirst-find_in name es e (before, after, split, named, front) =
    ap (find_in name) split ∙ find_in-append_first name before after e named front

-- The entries of other names.
unfoldable pub without : Bytes → List Dirent → List Dirent
without name [] = []
without name (e ∷ es) =
    let rest = without name es in if bytes_eq name e.name then rest else e ∷ rest

pub delent_loop-without :
    (name : Bytes) (es : List Dirent) → (delent_loop name es).0 ≡ without name es
unfolding delent_loop without
delent_loop-without name [] = refl
delent_loop-without name (e ∷ es) = elim (Bool-cases (bytes_eq name e.name)) [
  | inl hit ↦ rw hit (delent_loop-without name es)
  | inr miss ↦ rw miss (ap (λ (l : List Dirent). e ∷ l) (delent_loop-without name es))
]

-- Where no entry has the number 0, a name that `find` does not find is missing.
pub without-same :
    (name : Bytes) (es : List Dirent)
    → All (λ e. e.inum ≢ 0) es
    → find_in name es ≡ 0
    → without name es ≡ es
unfolding without find_in
without-same name [] h e = refl
without-same name (x ∷ es) h e = elim (Bool-cases (bytes_eq name x.name)) [
  | inl hit ↦ absurd (h.0 (rw hit at e))
  | inr miss ↦ rw miss (ap (λ (l : List Dirent). x ∷ l) (without-same name es h.1 (rw miss at e)))
]
