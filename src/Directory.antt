-- ===== src/Directory.antt =====
-- yfs_client.cc and yfs_client.h: `yfs_client::directory`, the entries of one directory and their
-- text, and `yfs_client::finddir`. A text is a list of bytes; the proofs are in the modules below.
pub mod Decimal
pub mod Text
pub mod Laws
pub mod Names
use cse.Base.{
  ℕ, zero, suc, ◌≡◌, refl, Bool, true, false, Option, none, some, List, [], ◌∷◌, ◌++◌, ◌==◌,
  if◌then◌else◌, length,
}
use cse.Base.Bytes.{Bytes, codes, bytes_eq}
use Decimal.{print, extract}

-- `struct dirent`
pub record Dirent : Type 0 where
  pub name : Bytes
  pub inum : ℕ

pub record Directory : Type 0 where
  pub dir_string : Bytes
  pub dir : List Dirent

abbrev pub slash : ℕ
slash = b'/'

abbrev pub newline : ℕ
newline = 10

-- The text up to the next delimiter, and what follows the delimiter.
unfoldable pub break_at : ℕ → Bytes → Bytes × Bytes
break_at d [] = ([], [])
break_at d (c ∷ s) = let (p, r) = break_at d s in if c == d then ([], s) else (c ∷ p, r)

-- `std::getline(stream, line, d)`: it fails where nothing is left.
unfoldable pub getline : ℕ → Bytes → Option (Bytes × Bytes)
unfolding break_at
getline d [] = none
getline d (c ∷ s) = some (break_at d (c ∷ s))

-- A `getline` whose failure is not tested: the fresh string stays empty.
unfoldable pub getline_or_empty : ℕ → Bytes → Bytes × Bytes
unfolding getline
getline_or_empty d s = elim (getline d s) [ none ↦ ([], s) | some (p, r) ↦ (p, r) ]

-- The loop of the constructor. `finum` is declared outside it, and is left alone by a read at the
-- end of its stream. Each round takes at least one byte; the fuel counts rounds.
unfoldable pub entries : ℕ → Bytes → ℕ → List Dirent
entries zero s finum = []
entries (suc f) s finum = elim (getline slash s) [
  | none ↦ []
  | some (name, r) ↦
      let (str_finum, r') = getline_or_empty slash r in
      let finum' = extract finum str_finum in
      record { name = name; inum = finum' } ∷ entries f r' finum'
]

-- `directory(dir_str)`. The first argument is what the uninitialised `finum` holds.
unfoldable pub directory : ℕ → Bytes → Directory
unfolding entries getline getline_or_empty
directory finum dir_str = record {
  dir_string = dir_str;
  dir = entries (suc (length dir_str)) dir_str finum;
}

unfoldable pub find_in : Bytes → List Dirent → ℕ
find_in name [] = 0
find_in name (e ∷ es) = if bytes_eq name e.name then e.inum else find_in name es

unfoldable pub find : Bytes → Directory → ℕ
unfolding find_in
find name d = find_in name d.dir

-- `getdir` appends to the caller's list.
unfoldable pub getdir : List Dirent → Directory → List Dirent
getdir list d = list ++ d.dir

unfoldable pub print_entry : Dirent → Bytes
print_entry e = e.name ++ (slash ∷ (print e.inum ++ (slash ∷ [])))

unfoldable pub addent : Dirent → Directory → Directory
unfolding print_entry
addent e d = record { dir_string = d.dir_string ++ print_entry e; dir = d.dir ++ (e ∷ []) }

-- The loop of `delent`, over the two lists that it fills.
unfoldable pub delent_loop : Bytes → List Dirent → List Dirent × Bytes
unfolding print_entry
delent_loop name [] = ([], [])
delent_loop name (e ∷ es) =
    let (new_list, new_string) = delent_loop name es in
    if bytes_eq name e.name
    then (new_list, new_string)
    else (e ∷ new_list, print_entry e ++ new_string)

unfoldable pub delent : Bytes → Directory → Directory
unfolding delent_loop
delent name d = record { dir_string = (delent_loop name d.dir).1; dir = (delent_loop name d.dir).0 }

unfoldable pub tostring : Directory → Bytes
tostring d = d.dir_string

-- `finddir`: lines of `name/inum`, where `linestream >> finum` reads on behind the slash.
unfoldable pub finddir_loop : ℕ → Bytes → Bytes → ℕ
finddir_loop zero s name = 0
finddir_loop (suc f) s name = elim (getline newline s) [
  | none ↦ 0
  | some (line, r) ↦
      let (cur_name, r') = getline_or_empty slash line in
      let later = finddir_loop f r name in if bytes_eq cur_name name then extract 0 r' else later
]

unfoldable pub finddir : Bytes → Bytes → ℕ
unfolding finddir_loop getline getline_or_empty
finddir directory name = finddir_loop (suc (length directory)) directory name

two_entries :
    (directory 9 (codes "a/2/b/35/")).dir
    ≡ record { name = codes "a"; inum = 2 } ∷ record { name = codes "b"; inum = 35 } ∷ []
unfolding directory extract
two_entries = refl

-- The number is missing: the entry gets the number before it.
unfinished_entry :
    (directory 9 (codes "a/2/b")).dir
    ≡ record { name = codes "a"; inum = 2 } ∷ record { name = codes "b"; inum = 2 } ∷ []
unfolding directory extract
unfinished_entry = refl
