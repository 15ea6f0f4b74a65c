-- ===== src/YfsClient/Content/Laws.antt =====
-- The bytes of a file after `write` and `setattr`, one by one. A byte behind the end counts as 0.
use Prim.Native.Nat.{max}
use cse.Base.{
  ℕ, ◌+◌, ◌-◌, ◌%◌, ◌^◌, ◌<◌, ◌≤◌, ◌≡◌, ap, none, some, ◌++◌, arith, ltb, leb, ◌&&◌, if◌then◌else◌,
  length, take, drop, replicate, get_or, length-append, length-replicate, Returns, Bool-cases, inl,
  inr, take_all, true, false, Option, ◌∙◌, sym,
}
use cse.Base.Bytes.{Bytes}
use cse.Base.Index.{
  length-take, length-drop, get_or_beyond, get_or-append, get_or-take, get_or-drop,
  get_or-replicate, eq_of_get_or,
}
use cse.YfsClient.Content.{int_length, fill, resized, slice, written}

-- `write` as it should be: `size` bytes from `off` on are the data, all others are as they were, and
-- the file ends where it did or where the data ends.
abbrev pub Written : Bytes → ℕ → ℕ → Bytes → Bytes → Type 0
Written file_str size off content r =
    (length r ≡ max (length file_str) (off + size))
    × ((i : ℕ)
        → get_or r i 0 ≡ (
            if leb off i && ltb i (off + size)
            then get_or content (i - off) 0
            else get_or file_str i 0))

-- The two cases of `write`, each with the bytes at every index.
overwrite-Written :
    (file_str content : Bytes) (size off : ℕ)
    → length content ≡ size
    → off < length file_str
    → Written file_str size off content
        (take off file_str ++ (content ++ drop (off + size) file_str))
overwrite-Written file_str content size off h lt = (
  omega (
    arith,
    length-append (take off file_str) (content ++ drop (off + size) file_str),
    length-append content (drop (off + size) file_str),
    length-take off file_str,
    length-drop (off + size) file_str,
  ),
  λ i. ground (
    arith,
    get_or-append (take off file_str) (content ++ drop (off + size) file_str) i 0,
    get_or-append content (drop (off + size) file_str) (i - length (take off file_str)) 0,
    get_or-take off file_str i 0,
    get_or-drop (off + size) file_str (i - length (take off file_str) - length content) 0,
    length-take off file_str,
  ),
)

extend-Written :
    (file_str content : Bytes) (size off : ℕ)
    → length content ≡ size
    → length file_str ≤ off
    → Written file_str size off content
        ((file_str ++ replicate (off - length file_str) 0) ++ take size content)
extend-Written file_str content size off h le = rw (take_all size content (omega arith)) (
  omega (
    arith,
    length-append (file_str ++ replicate (off - length file_str) 0) content,
    length-append file_str (replicate (off - length file_str) 0),
    length-replicate {A = ℕ} (off - length file_str) 0,
  ),
  λ i. ground (
    arith,
    get_or-append (file_str ++ replicate (off - length file_str) 0) content i 0,
    get_or-append file_str (replicate (off - length file_str) 0) i 0,
    get_or-replicate {A = ℕ} (off - length file_str) 0 (i - length file_str),
    get_or_beyond file_str i 0,
    get_or_beyond content (i - off) 0,
    length-append file_str (replicate (off - length file_str) 0),
    length-replicate {A = ℕ} (off - length file_str) 0,
  ),
)

int_length_lem : (n : ℕ) → n < 2 ^ 31 → int_length n ≡ some n
int_length_lem n h =
    let small : n % 2 ^ 32 ≡ n = omega arith in
    let fits : ltb (n % 2 ^ 32) (2 ^ 31) ≡ true = ground arith in rw fits (ap some small)

fill_lem : (s : Bytes) (n : ℕ) → n < 2 ^ 31 → fill s n ≡ some (s ++ replicate n 0)
fill_lem s n h =
    λ i. elim (int_length_lem n h i) [ none ↦ none | some k ↦ some (s ++ replicate k 0) ]

-- `write` of data of the given size, at any offset up to less than 2^31 bytes behind the end of a
-- file that is shorter than 2^31 bytes, has new content. The new file ends where the old one or the
-- data ends, the bytes from the offset on are the data, and all others are as they were, with zeros
-- in a hole.
pub written-Returns :
    (file_str content : Bytes) (size off : ℕ)
    → length content ≡ size
    → length file_str < 2 ^ 31
    → off < length file_str + 2 ^ 31
    → Returns (Written file_str size off content) (written file_str size off content)
unfolding written
written-Returns file_str content size off h short near =
    elim (Bool-cases (leb (2 ^ 31) (length file_str))) [
      | inl long ↦ absurd (ground arith)
      | inr short' ↦ elim (Bool-cases (ltb off (length file_str))) [
        | inl inside ↦
            rw (short', inside) (overwrite-Written file_str content size off h (ground arith))
        | inr behind ↦
            rw (short', behind, fill_lem file_str (off - length file_str) (ground arith))
              (extend-Written file_str content size off h (ground arith))
      ]
    ]

-- What `write` makes of a file is told by its length and its bytes.
pub written-Written :
    (file_str content r : Bytes) (size off : ℕ)
    → length content ≡ size
    → length file_str < 2 ^ 31
    → off < length file_str + 2 ^ 31
    → Written file_str size off content r
    → written file_str size off content ≡ some r
written-Written file_str content r size off h short near (len, bytes) =
    go (written file_str size off content) (written-Returns file_str content size off h short near)
  where
    go : (o : Option Bytes) → Returns (Written file_str size off content) o → o ≡ some r
    go none w = absurd w
    go (some x) (len', bytes') =
        ap some (eq_of_get_or x r 0 (len' ∙ sym len) (λ i. bytes' i ∙ sym (bytes i)))

-- If a content is what `write` makes of data of a size that is not 0, a `read` with the same size
-- and offset gives the data.
pub slice-Written :
    (file_str content r : Bytes) (size off : ℕ)
    → length content ≡ size
    → 0 < size
    → Written file_str size off content r
    → slice r size off ≡ content
unfolding slice
slice-Written file_str content r size off h pos (len, bytes) =
    elim (Bool-cases (leb (length r) off)) [
      | inl e ↦ absurd (ground arith)
      | inr e ↦ rw e (
          eq_of_get_or (take size (drop off r)) content 0
            (omega (arith, length-take size (drop off r), length-drop off r))
            (λ i. ground (
              arith,
              get_or-take size (drop off r) i 0,
              get_or-drop off r i 0,
              bytes (off + i),
              get_or_beyond content i 0,
            )))
    ]

-- `setattr` as it should be: the size is the new one, the bytes in front of it are as they were, and
-- new bytes are 0.
abbrev pub Resized : Bytes → ℕ → Bytes → Type 0
Resized file_str size r =
    (length r ≡ size) × ((i : ℕ) → get_or r i 0 ≡ (if ltb i size then get_or file_str i 0 else 0))

-- `setattr` to a size less than 2^31 above the length of the content, where the attribute has that
-- length, has new content: of the new size, with the bytes in front of it as they were and zeros
-- after the old end.
pub resized-Returns :
    (file_str : Bytes) (size : ℕ)
    → size < length file_str + 2 ^ 31
    → Returns (Resized file_str size) (resized file_str (length file_str) size)
unfolding resized
resized-Returns file_str size near = elim (Bool-cases (ltb size (length file_str))) [
  | inl less ↦
      let inside : ltb (length file_str) size ≡ false = ground arith in
      rw (less, inside)
        (
          ground (
            arith,
            length-append (take size file_str) (drop (size + length file_str) file_str),
            length-take size file_str,
            length-drop (size + length file_str) file_str,
          ),
          λ i. ground (
            arith,
            get_or-append (take size file_str) (drop (size + length file_str) file_str) i 0,
            get_or-take size file_str i 0,
            get_or-drop (size + length file_str) file_str (i - length (take size file_str)) 0,
            get_or_beyond file_str (size + length file_str + (i - length (take size file_str))) 0,
            length-take size file_str,
          ),
        )
  | inr more ↦
      rw (more, fill_lem file_str (size - length file_str) (ground arith))
        (
          ground (
            arith,
            length-append file_str (replicate (size - length file_str) 0),
            length-replicate {A = ℕ} (size - length file_str) 0,
          ),
          λ i. ground (
            arith,
            get_or-append file_str (replicate (size - length file_str) 0) i 0,
            get_or-replicate {A = ℕ} (size - length file_str) 0 (i - length file_str),
            get_or_beyond file_str i 0,
          ),
        )
]
