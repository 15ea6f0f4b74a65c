-- ===== src/YfsClient/Paths.antt =====
-- yfs_client.cc: `n2i`, which walks along a path, and `filename`. Nothing calls them. They read a
-- directory with `finddir`, in lines of `name/number`.
use cse.Base.{ℕ, zero, suc, true, false, not, none, some, ◌==◌, if◌then◌else◌, length, get_or}
use cse.Base.Bytes.{Bytes, bytes_empty}
use cse.InodeManager.Files.{t_dir, t_file}
use cse.Directory.{slash, getline, getline_or_empty, finddir}
use cse.Directory.Decimal.{print}
use cse.YfsClient.{ExtentService}
use cse.YfsClient.Operations.{M, ◌>>=◌, return, ec}

module _ {S : Type 0} (E : ExtentService S) where
  -- The loop of `n2i` on what is left of the path. The results of `getattr` and `get` are used whether
  -- or not the calls succeed. Each round takes a byte of the path.
  unfoldable pub n2i_loop : ℕ → Bytes → ℕ → M S ℕ
  n2i_loop zero s finum = return finum
  n2i_loop (suc f) s finum = elim (getline slash s) [
    | none ↦ return finum
    | some (name, r) ↦ elim (bytes_empty name) [
      | true ↦ return finum
      | false ↦ (do
        (got, a) ← ec (E.getattr finum)
        elim (a.type == t_file) [
          | true ↦ return finum
          | false ↦ elim (a.type == t_dir) [
            | true ↦ (do
              (read, directory) ← ec (E.get finum)
              n2i_loop f r (finddir directory name))
            | false ↦ n2i_loop f r finum
          ]
        ])
    ]
  ]

  unfoldable pub n2i : Bytes → M S ℕ
  unfolding n2i_loop getline_or_empty
  n2i n =
      if not (get_or n 0 0 == slash)
      then return 0
      else n2i_loop (suc (length n)) (getline_or_empty slash n).1 1

unfoldable pub filename : ℕ → Bytes
filename inum = print inum
