-- ===== src/Fuse/Listing.antt =====
-- fuse.cc: the listing of a directory that `readdir` replies page by page.
use Prim.Native.Nat.{min}
use cse.Base.{
  ℕ, zero, suc, ◌+◌, ◌-◌, ◌<◌, ◌≤◌, ◌≡◌, refl, sym, ◌∙◌, ap, inl, inr, false, true, arith, ltb, leb,
  append-nil, append_assoc, Option, none, some, ◌==◌, if◌then◌else◌, List, [], ◌∷◌, ◌++◌, take,
  drop, length, length-append, Bool-cases,
}
use cse.Base.Bytes.{Bytes}
use cse.Base.Index.{length-take, length-drop}
use cse.InodeManager.Direct.{drop-drop}
use cse.Directory.{Dirent}
use cse.Fuse.{Reply, buffer, DirBuf, DirentFormat}
use cse.Fuse.Handlers.{dirbuf_add, dirbuf_all, reply_buf_limited}

-- libfuse gives the size that an entry has.
abbrev pub IsFormat : DirentFormat → Type 0
IsFormat fmt =
    (name : Bytes) (ino off : ℕ) → length (fmt.dirent name ino off) ≡ fmt.dirent_size (length name)

abbrev pub listing : DirentFormat → List Dirent → DirBuf
listing fmt es = dirbuf_all fmt (record { p = []; size = 0 }) es

-- The size of the buffer is the number of its bytes.
dirbuf_all-size :
    (fmt : DirentFormat) (b : DirBuf) (es : List Dirent)
    → IsFormat fmt
    → b.size ≡ length b.p
    → (dirbuf_all fmt b es).size ≡ length (dirbuf_all fmt b es).p
unfolding dirbuf_all dirbuf_add
dirbuf_all-size fmt b [] h e = e
dirbuf_all-size fmt b (x ∷ es) h e = dirbuf_all-size fmt (dirbuf_add fmt b x.name x.inum) es h (
    omega (
      arith,
      e,
      length-append b.p (fmt.dirent x.name x.inum (b.size + fmt.dirent_size (length x.name))),
      h x.name x.inum (b.size + fmt.dirent_size (length x.name)),
    ))

abbrev page : Reply → Bytes
page (buffer s) = s
page r = []

-- A reader that asks for the listing page by page, each behind the last, until a page is empty. It
-- has `none` where a page reads behind the end of the buffer, or where the fuel runs out before a page
-- is empty.
unfoldable pub read_pages : ℕ → DirBuf → ℕ → ℕ → Option Bytes
read_pages zero b maxsize off = none
read_pages (suc f) b maxsize off = elim (reply_buf_limited b.p b.size off maxsize) [
  | none ↦ none
  | some r ↦
      let rest = read_pages f b maxsize (off + length (page r)) in
      if length (page r) == 0
      then some []
      else elim rest [ none ↦ none | some s ↦ some (page r ++ s) ]
]

-- What the entries are in a listing: each with its name and number, and the place where the next one
-- begins.
unfoldable pub text_from : DirentFormat → ℕ → List Dirent → Bytes
text_from fmt at [] = []
text_from fmt at (e ∷ es) =
    let next = at + fmt.dirent_size (length e.name) in
    fmt.dirent e.name e.inum next ++ text_from fmt next es

dirbuf_all-text :
    (fmt : DirentFormat) (b : DirBuf) (es : List Dirent)
    → (dirbuf_all fmt b es).p ≡ b.p ++ text_from fmt b.size es
unfolding dirbuf_all dirbuf_add text_from
dirbuf_all-text fmt b [] = sym (append-nil b.p)
dirbuf_all-text fmt b (e ∷ es) =
    dirbuf_all-text fmt (dirbuf_add fmt b e.name e.inum) es ∙ append_assoc b.p _ _

take-++-drop : (n : ℕ) (s : Bytes) → take n s ++ drop n s ≡ s
take-++-drop zero s = refl
take-++-drop (suc n) [] = refl
take-++-drop (suc n) (c ∷ s) = ap (λ (l : Bytes). c ∷ l) (take-++-drop n s)

drop_all : (n : ℕ) (s : Bytes) → length s ≤ n → drop n s ≡ []
drop_all zero [] h = refl
drop_all zero (c ∷ s) h = absurd (omega (arith, h))
drop_all (suc n) [] h = refl
drop_all (suc n) (c ∷ s) h = drop_all n s (omega (arith, h))

-- A page within the listing, and the empty page behind its end.
reply-inside :
    (b : DirBuf) (maxsize off : ℕ)
    → b.size ≡ length b.p
    → ltb off b.size ≡ true
    → reply_buf_limited b.p b.size off maxsize
      ≡ some (buffer (take (min (b.size - off) maxsize) (drop off b.p)))
unfolding reply_buf_limited
reply-inside b maxsize off e more =
    let within : leb (off + min (b.size - off) maxsize) (length b.p) ≡ true = ground (arith, e) in
    rw (more, within) refl

reply-behind :
    (b : DirBuf) (maxsize off : ℕ)
    → ltb off b.size ≡ false
    → reply_buf_limited b.p b.size off maxsize ≡ some (buffer [])
unfolding reply_buf_limited
reply-behind b maxsize off out = rw out refl

read_pages-rest :
    (f : ℕ) (b : DirBuf) (maxsize off : ℕ)
    → b.size ≡ length b.p
    → 0 < maxsize
    → off ≤ length b.p
    → length b.p < off + f
    → read_pages f b maxsize off ≡ some (drop off b.p)
unfolding read_pages
read_pages-rest zero b maxsize off e pos inside enough = absurd (omega (arith, inside, enough))
read_pages-rest (suc f) b maxsize off e pos inside enough = elim (Bool-cases (ltb off b.size)) [
  | inr out ↦
      rw (read_pages, reply-behind b maxsize off out)
        (ap some (sym (drop_all off b.p (ground (arith, e)))))
  | inl more ↦
      let n : ℕ = min (b.size - off) maxsize in
      let len : length (take n (drop off b.p)) ≡ n =
        omega (arith, length-take n (drop off b.p), length-drop off b.p, e) in
      let some' : (n == 0) ≡ false = ground (arith, pos) in
      rw
        (
          read_pages,
          reply-inside b maxsize off e more,
          len,
          some',
          read_pages-rest f b maxsize (off + n) e pos (ground (arith, e))
              (ground (arith, enough, pos)),
        )
        (ap (λ s. some (take n (drop off b.p) ++ s)) (sym (drop-drop n off b.p))
          ∙ ap some (take-++-drop n (drop off b.p)))
]

-- With a libfuse that gives the sizes of its entries, and pages of at least one byte: a reader who asks
-- for the pages of a listing one behind the other, until one is empty, gets together the listing of all
-- entries, each with its name, its number and the place where the next one begins. No page reads behind
-- the end of the buffer, and it has ended after at most one page more than the listing has bytes.
pub read_pages-listing :
    (fmt : DirentFormat) (es : List Dirent) (maxsize f : ℕ)
    → IsFormat fmt
    → 0 < maxsize
    → length (text_from fmt 0 es) < f
    → read_pages f (listing fmt es) maxsize 0 ≡ some (text_from fmt 0 es)
read_pages-listing fmt es maxsize f h pos enough =
    let text : (listing fmt es).p ≡ text_from fmt 0 es =
      dirbuf_all-text fmt (record { p = []; size = 0 }) es in
    read_pages-rest f (listing fmt es) maxsize 0
      (dirbuf_all-size fmt (record { p = []; size = 0 }) es h refl) pos (omega arith)
      (omega (arith, enough, ap length text))
    ∙ ap some text
