-- ===== src/Examples/Extents.antt =====
-- Two clients of the extent service over a storage that is a function from ids to contents.
use cse.Base.{
  ℕ, ◌≡◌, refl, Bool, true, false, none, some, List, [], ◌∷◌, ◌==◌, if◌then◌else◌, arith, All,
  Returns, ◌++◌,
}
use cse.Base.Bytes.{Bytes, codes}
use cse.InodeManager.{Attr}
use cse.Extent.{Storage, System}
use cse.Extent.Protocol.{put_attr, get_attr, IsAttr, Numbers, get_attr-put_attr}
use cse.Extent.Handlers
use cse.Extent.Coherence.{StorageLaws, IsCoherent}
use cse.Extent.Coherence.Operations.{Put, client_put-Returns}
use cse.Extent.Coherence.History.{Request, get, put, answers, run, Allowed, run-answers}

abbrev pub no_attr : Attr
no_attr = record { type = 0; atime = 0; mtime = 0; ctime = 0; size = 0 }

abbrev function_store : Storage
function_store = record {
  State = ℕ → Bytes;
  alloc_inode = λ type s. some (2, s);
  read_file = λ i s. some (s i, s);
  write_file = λ i buf size s. some (tt, λ j. if j == i then buf else s j);
  getattr = λ i s. some (no_attr, s);
  remove_file = λ i s. some (tt, s);
}

abbrev function_laws : StorageLaws function_store
function_laws = record {
  content = λ s. s;
  Serves = λ s i. Unit {0};
  Fits = λ i buf. Unit {0};
  read_lem = λ i s h. (refl, tt, (λ j. refl), (λ j k. k));
  write_lem = λ i buf s h k'. ((λ j. refl), (λ j k. k));
  getattr_lem = λ i s h. ((λ j. refl), (λ j k. k));
}

-- Every address that is not empty has a client.
abbrev pub answering : Bytes → Bool
answering [] = false
answering (c ∷ s) = true

abbrev pub anne : Bytes
anne = codes "a:1"

abbrev pub bert : Bytes
bert = codes "b:2"

abbrev begin : System function_store
begin = record { store = λ i. codes "old"; owner = λ i. none; cache = λ c i. none }

begin-IsCoherent : IsCoherent function_laws answering begin
begin-IsCoherent = record { held = λ c i f k d. absurd (cc); answers = λ c i k. absurd (cc) }

client_put-Returns_example :
    Returns
      (λ r. Put function_laws answering no_attr anne 3 (codes "new") begin r.1)
      (Handlers.client_put function_store answering no_attr anne 3 (codes "new") 7 begin)
client_put-Returns_example =
    client_put-Returns function_laws answering no_attr anne 3 (codes "new") 7 begin (omega arith)
      begin-IsCoherent refl tt tt

-- Anne writes, Bert reads, Bert writes, and both read.
abbrev requests : List Request
requests =
    put anne 3 (codes "one") 7
    ∷ get bert 3 8
    ∷ put bert 3 (codes "two") 9
    ∷ get anne 3 10
    ∷ get anne 4 11
    ∷ []

requests-Allowed : All (Allowed answering no_attr function_laws begin.store) requests
requests-Allowed = (
  (omega arith, refl, tt, tt),
  (
    (omega arith, refl, tt, tt),
    ((omega arith, refl, tt, tt), ((omega arith, refl, tt, tt), ((omega arith, refl, tt, tt), tt))),
  ),
)

run-answers_example :
    Returns
      (λ q. q.0 ≡ codes "one" ∷ codes "two" ∷ codes "old" ∷ [])
      (run answering no_attr requests begin)
unfolding answers
run-answers_example =
    run-answers answering no_attr function_laws requests begin (λ j. codes "old")
      (begin-IsCoherent, (λ j. refl)) requests-Allowed

-- Messages that are lists of numbers.
abbrev get_first : List ℕ → ℕ × List ℕ
get_first [] = (0, [])
get_first (n ∷ ns) = (n, ns)

abbrev put_last : ℕ → List ℕ → List ℕ
put_last n ns = ns ++ (n ∷ [])

first_lem : (n : ℕ) (ns u : List ℕ) → u ≡ n ∷ ns → ((get_first u).0 ≡ n) × ((get_first u).1 ≡ ns)
first_lem n ns u e = rw e (refl, refl)

abbrev lists : Numbers put_last get_first
lists = record {
  written = λ ns. ns;
  pending = λ ns. ns;
  put_lem = λ n m h. refl;
  get_lem = first_lem;
}

abbrev old_file : Attr
old_file = record { type = 2; atime = 7; mtime = 8; ctime = 9; size = 600 }

old_file-IsAttr : IsAttr old_file
old_file-IsAttr = record {
  type_fits = omega arith;
  atime_fits = omega arith;
  mtime_fits = omega arith;
  ctime_fits = omega arith;
  size_fits = omega arith;
}

get_attr-put_attr_example :
    ((get_attr put_last get_first (2 ∷ 7 ∷ 8 ∷ 9 ∷ 600 ∷ 42 ∷ [])).0 ≡ old_file)
    × ((get_attr put_last get_first (2 ∷ 7 ∷ 8 ∷ 9 ∷ 600 ∷ 42 ∷ [])).1 ≡ 42 ∷ [])
unfolding put_attr
get_attr-put_attr_example =
    get_attr-put_attr put_last get_first lists old_file (42 ∷ []) [] (2 ∷ 7 ∷ 8 ∷ 9 ∷ 600 ∷ 42 ∷ [])
      old_file-IsAttr refl refl
