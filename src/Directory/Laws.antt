-- ===== src/Directory/Laws.antt =====
-- What the operations of `yfs_client::directory` do to the entries and to their text.
use cse.Base.{
  ℕ, suc, ◌≡◌, refl, ap, inl, inr, Bool, true, false, List, [], ◌∷◌, ◌++◌, append-nil, arith,
  if◌then◌else◌, length, All, All-append, Bool-cases,
}
use cse.Base.Bytes.{Bytes, bytes_eq, bytes_eq_iff}
use cse.Directory.Text.{serialize, serialize-append, IsEntry, entries-serialize}
use cse.Directory.{
  Dirent, Directory, directory, find_in, find, addent, delent_loop, delent, tostring,
}

-- The text is the text of the entries, and every entry can be written in it.
pub record IsConsistent (d : Directory) : Type 0 where
  pub text : d.dir_string ≡ serialize d.dir
  pub writable : All IsEntry d.dir

-- Reading the text of a list of entries gives a consistent directory with those entries.
pub directory-serialize :
    (finum : ℕ) (es : List Dirent)
    → All IsEntry es
    → directory finum (serialize es) ≡ record { dir_string = serialize es; dir = es }
unfolding directory
directory-serialize finum es h =
    ap (λ (l : List Dirent). record { dir_string = serialize es; dir = l })
      (entries-serialize es (suc (length (serialize es))) finum h (omega arith))

-- A directory whose text is that of its entries, with no slash in a name and every number below
-- 2^64, is read back from its own text, whatever the uninitialised number holds:
-- `directory(d.tostring())` is `d`.
pub directory-tostring :
    (finum : ℕ) (d : Directory) → IsConsistent d → directory finum (tostring d) ≡ d
unfolding tostring
directory-tostring finum d c = rw c.text (directory-serialize finum d.dir c.writable)

-- `addent` of an entry with no slash in its name and a number below 2^64 keeps the text that of the
-- entries.
pub addent-IsConsistent :
    (e : Dirent) (d : Directory) → IsEntry e → IsConsistent d → IsConsistent (addent e d)
unfolding addent serialize
addent-IsConsistent e d h c = record {
  text = rw (c.text, serialize-append d.dir (e ∷ []), append-nil);
  writable = All-append IsEntry d.dir (e ∷ []) c.writable (h, tt);
}

pub delent_loop-text :
    (name : Bytes) (es : List Dirent) → (delent_loop name es).1 ≡ serialize (delent_loop name es).0
unfolding delent_loop serialize
delent_loop-text name [] = refl
delent_loop-text name (e ∷ es) = ground (arith, delent_loop-text name es)

pub delent_loop-writable :
    (name : Bytes) (es : List Dirent) → All IsEntry es → All IsEntry (delent_loop name es).0
unfolding delent_loop
delent_loop-writable name [] h = tt
delent_loop-writable name (e ∷ es) h = elim (Bool-cases (bytes_eq name e.name)) [
  | inl hit ↦ rw hit (delent_loop-writable name es h.1)
  | inr miss ↦ rw miss (h.0, delent_loop-writable name es h.1)
]

-- Where the entries have no slash in a name and numbers below 2^64, `delent` makes the text that of
-- the entries that stay, whatever the text was before.
pub delent-IsConsistent :
    (name : Bytes) (d : Directory) → All IsEntry d.dir → IsConsistent (delent name d)
unfolding delent
delent-IsConsistent name d h = record {
  text = delent_loop-text name d.dir;
  writable = delent_loop-writable name d.dir h;
}

-- Changes of a directory.
pub data Update : Type 0 where
  added : Dirent → Update
  removed : Bytes → Update

abbrev pub apply : Update → Directory → Directory
apply (added e) d = addent e d
apply (removed name) d = delent name d

abbrev pub apply_all : List Update → Directory → Directory
apply_all [] d = d
apply_all (u ∷ us) d = apply_all us (apply u d)

-- An entry that is added has no slash in its name and a number below 2^64.
abbrev pub CanApply : Update → Type 0
CanApply (added e) = IsEntry e
CanApply (removed name) = Unit

apply-IsConsistent :
    (u : Update) (d : Directory) → CanApply u → IsConsistent d → IsConsistent (apply u d)
apply-IsConsistent (added e) d h c = addent-IsConsistent e d h c
apply-IsConsistent (removed name) d h c = delent-IsConsistent name d c.writable

-- After any sequence of `addent`, of entries with no slash in their names and numbers below 2^64, and
-- `delent`, on a directory whose text is that of its entries, the text is that of the entries again: the
-- constructor reads from it the directory as it is, whatever the uninitialised number holds.
pub directory-apply_all :
    (finum : ℕ) (us : List Update) (d : Directory)
    → All CanApply us
    → IsConsistent d
    → IsConsistent (apply_all us d) × (directory finum (tostring (apply_all us d)) ≡ apply_all us d)
directory-apply_all finum [] d h c = (c, directory-tostring finum d c)
directory-apply_all finum (u ∷ us) d h c =
    directory-apply_all finum us (apply u d) h.1 (apply-IsConsistent u d h.0 c)

-- Is an entry of that name there?
unfoldable pub has_name : Bytes → List Dirent → Bool
has_name name [] = false
has_name name (e ∷ es) = if bytes_eq name e.name then true else has_name name es

find_in-append :
    (name : Bytes) (es : List Dirent) (e : Dirent)
    → find_in name (es ++ (e ∷ []))
      ≡ (if has_name name es then find_in name es else if bytes_eq name e.name then e.inum else 0)
unfolding find_in has_name
find_in-append name [] e = refl
find_in-append name (x ∷ es) e = ground (arith, find_in-append name es e)

-- After `addent`, a name that was there is found as before, the new name has the new number, and
-- any other name is missing as before.
pub find-addent :
    (name : Bytes) (e : Dirent) (d : Directory)
    → find name (addent e d)
      ≡ (if has_name name d.dir then find name d else if bytes_eq name e.name then e.inum else 0)
unfolding find addent
find-addent name e d = find_in-append name d.dir e

find_in-delent :
    (name other : Bytes) (es : List Dirent)
    → find_in other (delent_loop name es).0 ≡ (if bytes_eq name other then 0 else find_in other es)
unfolding find_in delent_loop
find_in-delent name other [] = ground arith
find_in-delent name other (e ∷ es) = ground (
  arith,
  find_in-delent name other es,
  bytes_eq_iff name e.name,
  bytes_eq_iff other e.name,
  bytes_eq_iff name other,
)

-- After `delent` the name is not found any more, also if several entries had it, and any other
-- name is found as before.
pub find-delent :
    (name other : Bytes) (d : Directory)
    → find other (delent name d) ≡ (if bytes_eq name other then 0 else find other d)
unfolding find delent
find-delent name other d = find_in-delent name other d.dir
