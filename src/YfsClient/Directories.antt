-- ===== src/YfsClient/Directories.antt =====
-- The operations on directories against the list of entries that the directory stands for. The
-- extent client is taken to keep what is put into it: the laws below.
use cse.Base.{
  ℕ, ◌≡◌, ◌≢◌, refl, ◌∙◌, ap, Bool, true, false, Option, none, some, List, ◌∷◌, ◌++◌, arith, ◌==◌,
  if◌then◌else◌, Returns, All, Bool-cases, inl, inr, ◌⊎◌, ==_iff,
}
use cse.Base.Bytes.{Bytes}
use cse.Directory.{Dirent, find_in, find, directory, delent, delent_loop, tostring, getdir}
use cse.Directory.Text.{serialize, IsEntry}
use cse.Directory.Names.{IsFirst, IsMissing, find_in-IsFirst}
use cse.Directory.Laws.{directory-serialize, delent_loop-text, delent_loop-writable}
use cse.YfsClient.{ExtentService, acquire, World, Status, ok, noent, exist}
use cse.YfsClient.Operations
use cse.YfsClient.Operations.{M, ◌>>=◌, ◌>>◌, return, ec}

-- What a client of the extent service relies on. For the extents in service a call succeeds: `get`
-- returns the content, and `put` of bytes that fit the extent replaces one content and keeps the others.
pub record ExtentLaws {S : Type 0} (E : ExtentService S) : Type 1 where
  pub content : S → ℕ → Bytes
  pub Serves : S → ℕ → Type 0
  pub Fits : ℕ → Bytes → Type 0
  pub get_lem :
      (i : ℕ) (s : S)
      → Serves s i
      → Returns
          (λ r.
            (r.0.0 ≡ true)
            × (r.0.1 ≡ content s i)
            × ((j : ℕ) → content r.1 j ≡ content s j)
            × ((j : ℕ) → Serves s j → Serves r.1 j))
          (E.get i s)
  pub put_lem :
      (i : ℕ) (buf : Bytes) (s : S)
      → Serves s i
      → Fits i buf
      → Returns
          (λ r.
            (r.0 ≡ true)
            × ((j : ℕ) → content r.1 j ≡ (if j == i then buf else content s j))
            × ((j : ℕ) → Serves s j → Serves r.1 j))
          (E.put i buf s)

-- A call of the extent client in front of the rest of an operation.
pub ec-Returns :
    {S A B : Type 0} (P : A × S → Type 0) (Q : B × World S → Type 0) (m : S → Option (A × S))
    (f : A → M S B) (w : World S)
    → Returns P (m w.extents)
    → ((a : A) (s : S) → P (a, s) → Returns Q (f a (record w { extents = s })))
    → Returns Q ((ec m >>= f) w)
ec-Returns {S} {A} {B} P Q m f w h k = go (m w.extents) h
  where
    go :
        (o : Option (A × S))
        → Returns P o
        → Returns Q
            (elim (elim o as (λ _. Option (A × World S)) [
              | none ↦ none
              | some (a, s) ↦ some (a, record w { extents = s })
            ])
              as (λ _. Option (B × World S)) [ none ↦ none | some (a, w') ↦ f a w' ])
    go none h' = absurd h'
    go (some (a, s)) h' = k a s h'

module _ {S : Type 0} (E : ExtentService S) (laws : ExtentLaws E) (junk : ℕ) where
  open laws use {content, Serves, Fits, get_lem, put_lem}

  -- The content of `i` is the text of these entries.
  abbrev pub IsDir : S → ℕ → List Dirent → Type 0
  IsDir s i es = (content s i ≡ serialize es) × All IsEntry es

  -- Every content but that of `i` is as before, and what was in service still is.
  pub record SameBut (i : ℕ) (s t : S) : Type 0 where
    pub same : (j : ℕ) → j ≢ i → content t j ≡ content s j
    pub serves : (j : ℕ) → Serves s j → Serves t j

  -- Every content is as before, and what was in service still is.
  pub record SameAll (s t : S) : Type 0 where
    pub same : (j : ℕ) → content t j ≡ content s j
    pub serves : (j : ℕ) → Serves s j → Serves t j

  -- What the constructor makes of a content that was read.
  pub directory_read :
      (s : S) (i : ℕ) (es : List Dirent) (buf : Bytes)
      → IsDir s i es
      → buf ≡ content s i
      → directory junk buf ≡ record { dir_string = serialize es; dir = es }
  directory_read s i es buf (text, h) e =
      ap (directory junk) (e ∙ text) ∙ directory-serialize junk es h

  -- What `lookup` tells: the number of the first entry of the name, or NOENT where there is none, or
  -- where that number is 0.
  abbrev pub LookedUp : Bytes → List Dirent → Status × Bool × ℕ → Type 0
  LookedUp name es r =
      ((e : Dirent) × IsFirst name es e
        × (r ≡ (if e.inum == 0 then (noent, false, 0) else (ok, true, e.inum))))
      ⊎ (IsMissing name es × (r ≡ (noent, false, 0)))

  looked_up :
      (name : Bytes) (es : List Dirent)
      → LookedUp name es (
          if find_in name es == 0
          then (noent, false, find_in name es)
          else (ok, true, find_in name es))
  looked_up name es = elim (find_in-IsFirst name es) [
    | inl (e, first, number) ↦ inl (
      e,
      first,
      (elim (Bool-cases (e.inum == 0)) [
        | inl z ↦ rw (number, z) (ap (λ n. (noent, false, n)) ((==_iff e.inum 0).0 z))
        | inr z ↦ rw (number, z) refl
      ]),
    )
    | inr (missing, number) ↦ inr (missing, rw number refl)
  ]

  -- `lookup`, over an extent client with the laws of `ExtentLaws`, in a directory in service whose
  -- content is the text of the entries `es`, returns: OK with the number of the first entry of that
  -- name, in front of which none has it, or NOENT where no entry has the name or the first one has the
  -- number 0. No content changes.
  pub lookup-Returns :
      (parent : ℕ) (name : Bytes) (found : Bool) (ino_out : ℕ) (es : List Dirent) (w : World S)
      → Serves w.extents parent
      → IsDir w.extents parent es
      → Returns
          (λ r. LookedUp name es r.0 × SameAll w.extents r.1.extents)
          (Operations.lookup E junk parent name found ino_out w)
  unfolding Operations.lookup find
  lookup-Returns parent name found ino_out es w srv d =
      ec-Returns _ _ (E.get parent) _ (record w { locks = acquire parent ∷ w.locks })
        (get_lem parent w.extents srv)
        λ a s (ok', buf, same, serves).
          rw (ok', directory_read w.extents parent es a.1 d buf)
            (elim (Bool-cases (find_in name es == 0)) [
              | inl e ↦ rw e (rw e at (looked_up name es), record { same = same; serves = serves })
              | inr e ↦ rw e (rw e at (looked_up name es), record { same = same; serves = serves })
            ])

  -- Making an entry of a name that is found: EXIST, and no content changes.
  pub create_entry-Exists :
      (type parent : ℕ) (name : Bytes) (ino_out : ℕ) (es : List Dirent) (w : World S)
      → Serves w.extents parent
      → IsDir w.extents parent es
      → find_in name es ≢ 0
      → Returns
          (λ r. (r.0.0 ≡ exist) × SameAll w.extents r.1.extents)
          (Operations.create_entry E junk type parent name ino_out w)
  unfolding find
  create_entry-Exists type parent name ino_out es w srv d there =
      let found : (find_in name es == 0) ≡ false = ground (arith, there) in
      ec-Returns _ _ (E.get parent) _ (record w { locks = acquire parent ∷ acquire 0 ∷ w.locks })
        (get_lem parent w.extents srv)
        λ a s (ok', buf, same, serves).
          rw (ok', directory_read w.extents parent es a.1 d buf, found)
            (refl, record { same = same; serves = serves })

  -- `readdir`, over an extent client with the laws of `ExtentLaws`, in a directory in service whose
  -- content is the text of the entries `es`, returns OK with those entries, in their order, appended to the
  -- list. No content changes.
  pub readdir-Returns :
      (dir : ℕ) (list es : List Dirent) (w : World S)
      → Serves w.extents dir
      → IsDir w.extents dir es
      → Returns
          (λ r. (r.0 ≡ (ok, list ++ es)) × SameAll w.extents r.1.extents)
          (Operations.readdir E junk dir list w)
  unfolding Operations.readdir getdir
  readdir-Returns dir list es w srv d =
      ec-Returns _ _ (E.get dir) _ (record w { locks = acquire dir ∷ w.locks })
        (get_lem dir w.extents srv)
        λ a s (ok', buf, same, serves).
          rw (ok', directory_read w.extents dir es a.1 d buf)
            (refl, record { same = same; serves = serves })

  -- `unlink`, over an extent client with the laws of `ExtentLaws`, in a directory in service whose
  -- content is the text of the entries `es`, where the text without the entries of the name fits,
  -- returns OK, also where the name is missing. If it is missing, or
  -- has the number 0, the entries are as before, and otherwise those of that name are gone. Every
  -- other content is as before.
  pub unlink-Returns :
      (parent : ℕ) (name : Bytes) (es : List Dirent) (w : World S)
      → Serves w.extents parent
      → Fits parent (serialize (delent_loop name es).0)
      → IsDir w.extents parent es
      → Returns
          (λ r.
            (r.0 ≡ ok)
            × IsDir r.1.extents parent
                (if find_in name es == 0 then es else (delent_loop name es).0)
            × SameBut parent w.extents r.1.extents)
          (Operations.unlink E junk parent name w)
  unfolding Operations.unlink find delent tostring
  unlink-Returns parent name es w srv fits d =
      ec-Returns _ _ (E.get parent) _ (record w { locks = acquire parent ∷ w.locks })
        (get_lem parent w.extents srv)
        λ a s (ok', buf, same, serves).
          rw (ok', directory_read w.extents parent es a.1 d buf)
            (elim (Bool-cases (find_in name es == 0)) [
              | inl e ↦ rw e (
                refl,
                (same parent ∙ d.0, d.1),
                record { same = λ j ne. same j; serves = serves },
              )
              | inr e ↦ rw e (
                  ec-Returns _ _ (E.put parent _) _ _
                    (put_lem parent _ s (serves parent srv) (rw (delent_loop-text name es) fits))
                    λ c u (put, stored, serves'). rw put (
                      refl,
                      (
                        ground (arith, stored parent, delent_loop-text name es),
                        delent_loop-writable name es d.1,
                      ),
                      (record {
                        same = λ j ne. ground (arith, stored j, same j);
                        serves = λ j h. serves' j (serves j h);
                      }),
                    ))
            ])

-- The bug of the comparison in `unlink`: it never removes an extent. With any other operation in
-- place of the extent client's `remove` its result is the same.
pub unlink_never_removes :
    {S : Type 0} (E : ExtentService S) (other : ℕ → S → Option (Bool × S)) (junk parent : ℕ)
    (name : Bytes) (w : World S)
    → Operations.unlink (record E { remove = other }) junk parent name w
      ≡ Operations.unlink E junk parent name w
unfolding Operations.unlink
unlink_never_removes E other junk parent name w = ground arith
