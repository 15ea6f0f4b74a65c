-- ===== src/Directory/Text.antt =====
-- The text of a directory: what the constructor of `yfs_client::directory` reads back.
use cse.Base.{
  ℕ, zero, suc, ◌+◌, ◌≤◌, ◌<◌, ◌≡◌, refl, some, List, [], ◌∷◌, ◌++◌, append_assoc, ap, arith,
  length, length-append, All, ◌∙◌, Option-cases, inl, inr,
}
use cse.Base.Bytes.{Bytes, Lacks}
use cse.Directory.Decimal.{u64_mod, print, extract, extract-print, print-Lacks}
use cse.Directory.{Dirent, slash, break_at, getline, getline_or_empty, entries, print_entry}

-- The text of a list of entries, in their order.
unfoldable pub serialize : List Dirent → Bytes
serialize [] = []
serialize (e ∷ es) = print_entry e ++ serialize es

pub serialize-append : (xs ys : List Dirent) → serialize (xs ++ ys) ≡ serialize xs ++ serialize ys
unfolding serialize
serialize-append [] ys = refl
serialize-append (x ∷ xs) ys = simp (serialize-append xs, append_assoc)

-- A name without a slash and a number of 64 bits: what the text can hold.
abbrev pub IsEntry : Dirent → Type 0
IsEntry e = Lacks slash e.name × (e.inum < u64_mod)

break_at_lem : (p r : Bytes) → Lacks slash p → break_at slash (p ++ (slash ∷ r)) ≡ (p, r)
unfolding break_at
break_at_lem [] r h = refl
break_at_lem (c ∷ p) r h = ground (arith, break_at_lem p r)

getline_lem : (p r : Bytes) → Lacks slash p → getline slash (p ++ (slash ∷ r)) ≡ some (p, r)
unfolding getline
getline_lem [] r h = ap some (break_at_lem [] r h)
getline_lem (c ∷ p) r h = ap some (break_at_lem (c ∷ p) r h)

getline_or_empty_lem :
    (p r : Bytes) → Lacks slash p → getline_or_empty slash (p ++ (slash ∷ r)) ≡ (p, r)
unfolding getline_or_empty
getline_or_empty_lem p r h = rw (getline_lem p r h, getline_or_empty)

-- The bytes of one entry in front of a text, bracketed to the right.
print_entry_append :
    (e : Dirent) (s : Bytes)
    → print_entry e ++ s ≡ e.name ++ (slash ∷ (print e.inum ++ (slash ∷ s)))
unfolding print_entry
print_entry_append e s = simp append_assoc

entries_step :
    (f finum : ℕ) (e : Dirent) (s : Bytes)
    → IsEntry e
    → entries (suc f) (print_entry e ++ s) finum ≡ e ∷ entries f s e.inum
unfolding entries
entries_step f finum e s h = rw (
  print_entry_append e s,
  getline_lem e.name (print e.inum ++ (slash ∷ s)) h.0,
  entries,
  getline_or_empty_lem (print e.inum) s (print-Lacks e.inum),
  extract-print finum e.inum h.1,
)

length-print_entry : (e : Dirent) → 2 ≤ length (print_entry e)
unfolding print_entry
length-print_entry e = omega (
  arith,
  length-append e.name (slash ∷ (print e.inum ++ (slash ∷ []))),
  length-append (print e.inum) (slash ∷ []),
)

-- With more fuel than bytes the constructor reads all the entries of a serialized list.
pub entries-serialize :
    (es : List Dirent) (f finum : ℕ)
    → All IsEntry es
    → length (serialize es) < f
    → entries f (serialize es) finum ≡ es
unfolding serialize
entries-serialize [] zero finum h lt = elim lt [ ]
entries-serialize [] (suc f) finum h lt = unfold entries getline in refl
entries-serialize (e ∷ es) zero finum h lt = elim lt [ ]
entries-serialize (e ∷ es) (suc f) finum h lt =
    entries_step f finum e (serialize es) h.0
    ∙ ap (λ (l : List Dirent). e ∷ l)
        (entries-serialize es f e.inum h.1
          (omega (arith, length-print_entry e, length-append (print_entry e) (serialize es))))

length-break_at : (d : ℕ) (s : Bytes) → length (break_at d s).1 ≤ length s
unfolding break_at
length-break_at d [] = omega arith
length-break_at d (c ∷ s) = ground (arith, length-break_at d s)

length-getline : (d : ℕ) (s p r : Bytes) → getline d s ≡ some (p, r) → length r + 1 ≤ length s
unfolding getline break_at
length-getline d [] p r h = cc
length-getline d (c ∷ s) p r h = ground (arith, length-break_at d s)

length-getline_or_empty : (d : ℕ) (s : Bytes) → length (getline_or_empty d s).1 ≤ length s
unfolding getline_or_empty getline
length-getline_or_empty d [] = omega arith
length-getline_or_empty d (c ∷ s) = length-break_at d (c ∷ s)

-- The loop ends by itself: any two amounts of fuel above the length of the text agree, on every
-- text.
pub entries_fuel :
    (f g : ℕ) (s : Bytes) (finum : ℕ)
    → length s < f
    → length s < g
    → entries f s finum ≡ entries g s finum
unfolding entries
entries_fuel zero g s finum h k = absurd (omega arith)
entries_fuel (suc f) zero s finum h k = absurd (omega arith)
entries_fuel (suc f) (suc g) s finum h k = elim (Option-cases (getline slash s)) [
  | inl e ↦ rw (e, entries)
  | inr (p, e) ↦
      let b : length (getline_or_empty slash p.1).1 + 1 ≤ length s =
        omega (arith, length-getline slash s p.0 p.1 e, length-getline_or_empty slash p.1) in
      rw (e, entries)
        (ap
          (λ (l : List Dirent).
            record { name = p.0; inum = extract finum (getline_or_empty slash p.1).0 } ∷ l)
          (entries_fuel f g (getline_or_empty slash p.1).1
            (extract finum (getline_or_empty slash p.1).0) (omega arith) (omega arith)))
]
