-- ===== src/YfsClient/Content/Memory.antt =====
-- The content of a file as a memory of bytes, and what `read` and `write` of yfs_client.cc make of it.
use Prim.Native.Nat.{max, min}
use cse.Base.{
  ℕ, zero, suc, ◌+◌, ◌-◌, ◌^◌, ◌<◌, ◌≡◌, refl, sym, ◌∙◌, inl, inr, arith, ltb, leb, ◌&&◌,
  if◌then◌else◌, some, [], ◌∷◌, take, drop, length, get_or, Bool-cases,
}
use cse.Base.Bytes.{Bytes}
use cse.Base.Index.{length-take, length-drop, get_or-take, get_or-drop, get_or_beyond, eq_of_get_or}
use cse.YfsClient.Content.{slice, written}
use cse.YfsClient.Content.Laws.{Written, written-Written}

-- `n` bytes, each told by its place.
abbrev pub bytes_by : ℕ → (ℕ → ℕ) → Bytes
bytes_by zero byte = []
bytes_by (suc n) byte = byte 0 ∷ bytes_by n (λ k. byte (suc k))

-- The bytes from `off` on that the file has, at most `size`.
abbrev pub read_bytes : Bytes → ℕ → ℕ → Bytes
read_bytes s size off = bytes_by (min size (length s - off)) (λ k. get_or s (off + k) 0)

abbrev pub written_byte : Bytes → ℕ → Bytes → ℕ → ℕ
written_byte s off data_str k =
    if leb off k && ltb k (off + length data_str) then get_or data_str (k - off) 0 else get_or s k 0

-- The file with the data at `off`, and with zeros where nothing was.
abbrev pub write_bytes : Bytes → ℕ → Bytes → Bytes
write_bytes s off data_str =
    bytes_by (max (length s) (off + length data_str)) (written_byte s off data_str)

length-bytes_by : (n : ℕ) (byte : ℕ → ℕ) → length (bytes_by n byte) ≡ n
length-bytes_by zero byte = refl
length-bytes_by (suc n) byte = omega (arith, length-bytes_by n (λ k. byte (suc k)))

get_or-bytes_by :
    (n : ℕ) (byte : ℕ → ℕ) (k : ℕ) → get_or (bytes_by n byte) k 0 ≡ (if ltb k n then byte k else 0)
get_or-bytes_by zero byte k = ground arith
get_or-bytes_by (suc n) byte zero = ground arith
get_or-bytes_by (suc n) byte (suc k) = ground (arith, get_or-bytes_by n (λ i. byte (suc i)) k)

-- `read` gives the bytes of the memory.
pub slice-read_bytes : (s : Bytes) (size off : ℕ) → slice s size off ≡ read_bytes s size off
unfolding slice
slice-read_bytes s size off =
    let n : ℕ = min size (length s - off) in
    let byte : ℕ → ℕ = λ k. get_or s (off + k) 0 in
    elim (Bool-cases (leb (length s) off)) [
      | inl e ↦ rw e (
          eq_of_get_or [] (read_bytes s size off) 0 (sym (length-bytes_by n byte ∙ ground arith))
            (λ k. ground (arith, get_or-bytes_by n byte k)))
      | inr e ↦ rw e (
          eq_of_get_or (take size (drop off s)) (read_bytes s size off) 0
            (ground
              (arith, length-take size (drop off s), length-drop off s, length-bytes_by n byte))
            (λ k. ground (
              arith,
              get_or-take size (drop off s) k 0,
              get_or-drop off s k 0,
              get_or_beyond s (off + k) 0,
              get_or-bytes_by n byte k,
            )))
    ]

write_bytes-IsWritten :
    (s data_str : Bytes) (size off : ℕ)
    → length data_str ≡ size
    → Written s size off data_str (write_bytes s off data_str)
write_bytes-IsWritten s data_str size off h =
    let n : ℕ = max (length s) (off + length data_str) in
    let byte : ℕ → ℕ = written_byte s off data_str in
    (
      length-bytes_by n byte ∙ rw h refl,
      λ k. get_or-bytes_by n byte k ∙ ground (arith, get_or_beyond s k 0, h),
    )

-- What `write` makes of a file is the memory with the data.
pub written-write_bytes :
    (s data_str : Bytes) (size off : ℕ)
    → length data_str ≡ size
    → length s < 2 ^ 31
    → off < length s + 2 ^ 31
    → written s size off data_str ≡ some (write_bytes s off data_str)
written-write_bytes s data_str size off h short near =
    written-Written s data_str (write_bytes s off data_str) size off h short near
      (write_bytes-IsWritten s data_str size off h)

-- A content that is told by its length and its bytes.
pub write_bytes-Written :
    (s data_str r : Bytes) (size off : ℕ)
    → length data_str ≡ size
    → Written s size off data_str r
    → r ≡ write_bytes s off data_str
write_bytes-Written s data_str r size off h (len, bytes) =
    let (len', bytes') = write_bytes-IsWritten s data_str size off h in
    eq_of_get_or r (write_bytes s off data_str) 0 (len ∙ sym len') (λ k. bytes k ∙ sym (bytes' k))
