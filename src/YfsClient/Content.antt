-- ===== src/YfsClient/Content.antt =====
-- yfs_client.cc: what `setattr`, `read` and `write` make of the content of a file.
pub mod Laws
pub mod Memory
use cse.Base.{
  ℕ, zero, suc, ◌+◌, ◌-◌, ◌%◌, ◌^◌, ◌≡◌, refl, Option, none, some, List, [], ◌∷◌, ◌++◌, arith, ltb,
  leb, ◌==◌, if◌then◌else◌, length, take, drop, replicate,
}
use cse.Base.Bytes.{Bytes, codes}

-- A difference that is stored in an `int` and used as the size of an array: from 2^31 on it is
-- negative there.
abbrev pub int_length : ℕ → Option ℕ
int_length n = if ltb (n % 2 ^ 32) (2 ^ 31) then some (n % 2 ^ 32) else none

-- `file_str.append(fill_str)` with a fill of zeros
abbrev pub fill : Bytes → ℕ → Option Bytes
fill file_str n = elim (int_length n) [ none ↦ none | some k ↦ some (file_str ++ replicate k 0) ]

-- `file_str.erase(pos, n)`, which throws where `pos` is behind the end
abbrev pub erase : Bytes → ℕ → ℕ → Option Bytes
erase file_str pos n =
    if ltb (length file_str) pos then none else some (take pos file_str ++ drop (pos + n) file_str)

-- The new content that `setattr` stores, where the attribute says `old` and `size` is another.
unfoldable pub resized : Bytes → ℕ → ℕ → Option Bytes
resized file_str old size =
    if ltb size old then erase file_str size old else fill file_str (size - old)

-- `read`: `substr(off, size)`, where the offset is not behind the end.
unfoldable pub slice : Bytes → ℕ → ℕ → Bytes
slice file_str size off = if leb (length file_str) off then [] else take size (drop off file_str)

-- `write`: `replace(off, size, data_str)`, or zeros up to the offset and the data. The length of the
-- file is kept in an `int`; a longer file is outside the model.
unfoldable pub written : Bytes → ℕ → ℕ → Bytes → Option Bytes
written file_str size off data_str =
    if leb (2 ^ 31) (length file_str)
    then none
    else if ltb off (length file_str)
    then some (take off file_str ++ (data_str ++ drop (off + size) file_str))
    else elim (fill file_str (off - length file_str)) [
      | none ↦ none
      | some s ↦ some (s ++ take size data_str)
    ]

write_hole : written (codes "ab") 2 4 (codes "xy") ≡ some (97 ∷ 98 ∷ 0 ∷ 0 ∷ codes "xy")
unfolding written
write_hole = refl
