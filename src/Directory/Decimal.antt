-- ===== src/Directory/Decimal.antt =====
-- The stream operators that `yfs_client::directory` applies to an `inum` (unsigned long long).
use cse.Base.{
  ℕ, zero, suc, ◌+◌, ◌-◌, ◌*◌, ◌/◌, ◌%◌, ◌^◌, ◌≤◌, ◌<◌, ◌≡◌, refl, inl, inr, ◌&&◌, ◌||◌, [], ◌∷◌,
  arith, ltb, leb, ◌==◌, if◌then◌else◌, Bool-cases, Bool,
}
use cse.Base.Bytes.{Bytes, codes, Lacks}

-- `ss << n`: the decimal digits of `n`, the last one first to be found. Each round divides by ten.
unfoldable pub digits_onto : ℕ → ℕ → Bytes → Bytes
digits_onto zero n out = out
digits_onto (suc f) n out =
    let out' = (b'0' + n % 10) ∷ out in
    let more = digits_onto f (n / 10) out' in if n / 10 == 0 then out' else more

-- One round for each unit of `n` and one more is more than the digits need.
unfoldable pub print : ℕ → Bytes
unfolding digits_onto
print n = digits_onto (suc n) n []

abbrev pub is_digit : ℕ → Bool
is_digit c = leb b'0' c && leb c b'9'

abbrev pub is_space : ℕ → Bool
is_space c = c == 32 || leb 9 c && leb c 13

-- The longest run of digits at the front, read in base ten behind `acc`.
unfoldable pub number : ℕ → Bytes → ℕ
number acc [] = acc
number acc (c ∷ s) = if is_digit c then number (acc * 10 + (c - b'0')) s else acc

unfoldable pub skip_spaces : Bytes → Bytes
skip_spaces [] = []
skip_spaces (c ∷ s) = let rest = skip_spaces s in if is_space c then rest else c ∷ s

abbrev pub u64_mod : ℕ
u64_mod = 2 ^ 64

-- A value that does not fit is replaced by the largest one.
abbrev pub saturate : ℕ → ℕ
saturate v = if ltb v u64_mod then v else u64_mod - 1

unfoldable pub signed : Bytes → ℕ
unfolding number
signed [] = 0
signed (c ∷ s) =
    if c == b'-'
    then (if ltb (number 0 s) u64_mod then (u64_mod - number 0 s) % u64_mod else u64_mod - 1)
    else if c == b'+'
    then saturate (number 0 s)
    else saturate (number 0 (c ∷ s))

-- `ss >> n`: at the end of the stream `n` keeps its value, and where no digit stands it becomes 0.
unfoldable pub extract : ℕ → Bytes → ℕ
unfolding skip_spaces signed
extract old s = elim (skip_spaces s) [ [] ↦ old | c ∷ r ↦ signed (c ∷ r) ]

print_2019 : print 2019 ≡ codes "2019"
unfolding print
print_2019 = refl

extract_spaces : extract 7 (codes "  42x") ≡ 42
unfolding extract
extract_spaces = refl

extract_nothing : extract 7 (codes " ") ≡ 7
unfolding extract
extract_nothing = refl

-- Reading on after the digits of `n` is reading on with `n`.
number-digits_onto : (f n : ℕ) (out : Bytes) → n < f → number 0 (digits_onto f n out) ≡ number n out
unfolding number digits_onto
number-digits_onto zero n out h = absurd (omega arith)
number-digits_onto (suc f) n out h =
    ground (arith, number-digits_onto f (n / 10) ((b'0' + n % 10) ∷ out))

abbrev IsDigit : ℕ → Type 0
IsDigit c = (b'0' ≤ c) × (c ≤ b'9')

digits_onto-head :
    (f n : ℕ) (out : Bytes)
    → n < f
    → (c : ℕ) × (r : Bytes) × (digits_onto f n out ≡ c ∷ r) × IsDigit c
unfolding digits_onto
digits_onto-head zero n out h = absurd (omega arith)
digits_onto-head (suc f) n out h = elim (Bool-cases (n / 10 == 0)) [
  | inl e ↦ rw e (b'0' + n % 10, out, refl, (omega arith, omega arith))
  | inr e ↦ rw e (digits_onto-head f (n / 10) ((b'0' + n % 10) ∷ out) (ground arith))
]

extract_digit :
    (old c : ℕ) (r : Bytes) → IsDigit c → extract old (c ∷ r) ≡ saturate (number 0 (c ∷ r))
unfolding extract
extract_digit old c r h = ground arith

number-print : (n : ℕ) → number 0 (print n) ≡ n
unfolding print number
number-print n = number-digits_onto (suc n) n [] (omega arith)

-- What is printed for a number below 2^64 is read back as that number, whatever the variable held
-- before.
pub extract-print : (old n : ℕ) → n < u64_mod → extract old (print n) ≡ n
unfolding print
extract-print old n fits =
    go (print n) (number-print n) (digits_onto-head (suc n) n [] (omega arith))
  where
    go :
        (s : Bytes)
        → number 0 s ≡ n
        → (c : ℕ) × (r : Bytes) × (s ≡ c ∷ r) × IsDigit c
        → extract old s ≡ n
    go s v (c, r, e, d) =
        let v' : number 0 (c ∷ r) ≡ n = rw e at v in
        rw (e, extract_digit old c r d, v') (ground arith)

digits_onto-Lacks : (f n : ℕ) (out : Bytes) → Lacks b'/' out → Lacks b'/' (digits_onto f n out)
unfolding digits_onto
digits_onto-Lacks zero n out h = h
digits_onto-Lacks (suc f) n out h =
    ground (arith, digits_onto-Lacks f (n / 10) ((b'0' + n % 10) ∷ out) ((omega arith), h))

-- A printed number holds no slash.
pub print-Lacks : (n : ℕ) → Lacks b'/' (print n)
unfolding print
print-Lacks n = digits_onto-Lacks (suc n) n [] tt
