-- ===== src/Examples/Folders.antt =====
-- The text of a directory, and the content of a file.
use cse.Base.{
  ℕ, ◌+◌, ◌≡◌, refl, sym, arith, some, List, [], ◌∷◌, ◌++◌, replicate, length-append,
  length-replicate, Returns,
}
use cse.Fuse.{DirentFormat}
use cse.Fuse.Listing.{IsFormat, listing, text_from, read_pages, read_pages-listing}
use cse.Base.Bytes.{Bytes, codes}
use cse.Directory.{Dirent, Directory, directory, tostring, print_entry}
use cse.Directory.Decimal.{print}
use cse.Directory.Text.{serialize, IsEntry}
use cse.Directory.Laws.{
  IsConsistent, directory-tostring, Update, added, removed, apply_all, directory-apply_all,
}
use cse.YfsClient.Content.{written, resized}
use cse.YfsClient.Content.Laws.{Written, written-Returns, Resized, resized-Returns}

abbrev memo : Dirent
memo = record { name = codes "memo"; inum = 17 }

abbrev plan : Dirent
plan = record { name = codes "my plan"; inum = 4294967297 }

abbrev folder : Directory
folder = record { dir_string = codes "memo/17/my plan/4294967297/"; dir = memo ∷ plan ∷ [] }

memo-IsEntry : IsEntry memo
memo-IsEntry = (ground arith, omega arith)

plan-IsEntry : IsEntry plan
plan-IsEntry = (ground arith, omega arith)

folder_text : serialize folder.dir ≡ folder.dir_string
unfolding serialize print print_entry
folder_text = refl

folder-IsConsistent : IsConsistent folder
folder-IsConsistent = record {
  text = sym folder_text;
  writable = (memo-IsEntry, (plan-IsEntry, tt));
}

directory-tostring_example : directory 99 (tostring folder) ≡ folder
directory-tostring_example = directory-tostring 99 folder folder-IsConsistent

abbrev changes : List Update
changes = added memo ∷ removed (codes "memo") ∷ added memo ∷ []

directory-apply_all_example :
    IsConsistent (apply_all changes folder)
    × (directory 99 (tostring (apply_all changes folder)) ≡ apply_all changes folder)
directory-apply_all_example =
    directory-apply_all 99 changes folder (memo-IsEntry, (tt, (memo-IsEntry, tt)))
      folder-IsConsistent

-- Writing "xy" two bytes behind the end of "ab".
written-Returns_example :
    Returns (Written (codes "ab") 2 4 (codes "xy")) (written (codes "ab") 2 4 (codes "xy"))
written-Returns_example =
    written-Returns (codes "ab") (codes "xy") 2 4 refl (omega arith) (omega arith)

abbrev with_hole : Bytes
with_hole = 97 ∷ 98 ∷ 0 ∷ 0 ∷ codes "xy"

resized-Returns_example : Returns (Resized (codes "abc") 5) (resized (codes "abc") 3 5)
resized-Returns_example = resized-Returns (codes "abc") 5 (omega arith)

-- Entries of a header of 24 bytes and the name.
abbrev plain_format : DirentFormat
plain_format = record { dirent_size = λ n. 24 + n; dirent = λ name ino off. replicate 24 7 ++ name }

plain_format-IsFormat : IsFormat plain_format
plain_format-IsFormat name ino off =
    omega (arith, length-append (replicate 24 7) name, length-replicate {A = ℕ} 24 7)

abbrev two_entries : List Dirent
two_entries =
    record { name = codes "memo"; inum = 17 } ∷ record { name = codes "plan"; inum = 18 } ∷ []

-- A listing of 56 bytes in pages of 10.
read_pages-listing_example :
    read_pages 60 (listing plain_format two_entries) 10 0
    ≡ some (replicate 24 7 ++ (codes "memo" ++ (replicate 24 7 ++ codes "plan")))
unfolding text_from
read_pages-listing_example =
    read_pages-listing plain_format two_entries 10 60 plain_format-IsFormat (omega arith)
      (omega arith)
