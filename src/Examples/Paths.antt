-- ===== src/Examples/Paths.antt =====
-- yfs_client.cc: a root directory with one file in a line of its own.
use cse.Base.{ℕ, ◌≡◌, refl, true, Option, some, [], ◌==◌, if◌then◌else◌}
use cse.Base.Bytes.{codes}
use cse.YfsClient.{ExtentService, World}
use cse.YfsClient.Paths.{n2i, filename}

abbrev two_files : ExtentService (Unit {0})
two_files = record {
  get = λ i s. some ((true, if i == 1 then codes "a/7\nb/12\n" else []), s);
  getattr = λ i s. some (
    (true, record { type = if i == 1 then 1 else 2; atime = 0; mtime = 0; ctime = 0; size = 0 }),
    s,
  );
  put = λ i buf s. some (true, s);
  create = λ t s. some ((true, 0), s);
  remove = λ i s. some (true, s);
}

abbrev world : World (Unit {0})
world = record { extents = tt; locks = [] }

b_is_12 : n2i two_files (codes "/b") world ≡ some (12, world)
unfolding n2i cse.Base.Bytes.bytes_empty cse.Directory.finddir cse.Base.Bytes.bytes_eq
    cse.Directory.Decimal.extract
b_is_12 = refl

file_12 : filename 12 ≡ codes "12"
unfolding filename cse.Directory.Decimal.print
file_12 = refl
