-- ===== src/BlockManager/Bits.antt =====
-- The bits of one byte of the bitmap. The facts are checked for every byte and every position.
use Prim.Native.Nat.{bit_or}
use cse.Base.{
  ℕ, zero, suc, ◌/◌, ◌%◌, ◌^◌, ◌<◌, ◌≤◌, ◌≡◌, refl, Bool, true, false, not, ◌&&◌, ◌||◌, arith, ltb,
  leb, ◌==◌,
}
use cse.BlockManager.{complement}

-- Bit `m` of a byte, counted from the lowest.
unfoldable pub bit : ℕ → ℕ → Bool
bit b m = b / 2 ^ m % 2 == 1

-- A test at every number that is less than a bound.
everyone : (ℕ → Bool) → ℕ → Bool
everyone test zero = true
everyone test (suc bound) = everyone test bound && test bound

everyone_passes :
    (test : ℕ → Bool) (bound i : ℕ) → i < bound → everyone test bound ≡ true → test i ≡ true
unfolding everyone
everyone_passes test zero i less ok = absurd (omega arith)
everyone_passes test (suc bound) i less ok = ground (arith, everyone_passes test bound i)

abbrev same : Bool → Bool → Bool
same true b = b
same false b = not b

same_sound : (a b : Bool) → same a b ≡ true → a ≡ b
same_sound a b h = ground arith

-- A test of a byte and two positions, at every byte and every two positions.
abbrev everywhere : (ℕ → ℕ → ℕ → Bool) → Bool
everywhere p = everyone (λ b. everyone (λ k. everyone (λ m. p b k m) 8) 8) 256

everywhere_sound :
    (p : ℕ → ℕ → ℕ → Bool)
    → everywhere p ≡ true
    → (b k m : ℕ) → b < 256
    → k < 8
    → m < 8
    → p b k m ≡ true
everywhere_sound p h b k m hb hk hm =
    let inner : ℕ → ℕ → Bool = λ x y. everyone (λ z. p x y z) 8 in
    everyone_passes (λ z. p b k z) 8 m hm
      (everyone_passes (λ y. inner b y) 8 k hk
        (everyone_passes (λ x. everyone (λ y. inner x y) 8) 256 b hb h))

or_table : everywhere (λ b k m. same (bit (bit_or b (2 ^ k)) m) ((m == k) || bit b m)) ≡ true
unfolding everyone bit
or_table = refl

-- Setting bit `k` sets that bit and no other.
pub bit-or :
    (b k m : ℕ) → b < 256 → k < 8 → m < 8 → bit (bit_or b (2 ^ k)) m ≡ ((m == k) || bit b m)
bit-or b k m hb hk hm = same_sound _ _ (everywhere_sound _ or_table b k m hb hk hm)

clear_table :
    everywhere
      (λ b k m. same (bit (complement (bit_or (complement b) (2 ^ k))) m) (not (m == k) && bit b m))
    ≡ true
unfolding everyone bit
clear_table = refl

-- The double complement clears bit `k` and no other.
pub bit-clear :
    (b k m : ℕ)
    → b < 256
    → k < 8
    → m < 8
    → bit (complement (bit_or (complement b) (2 ^ k))) m ≡ (not (m == k) && bit b m)
bit-clear b k m hb hk hm = same_sound _ _ (everywhere_sound _ clear_table b k m hb hk hm)

size_table : everywhere (λ b k m. ltb (bit_or b (2 ^ k)) 256) ≡ true
unfolding everyone
size_table = refl

pub or-lt : (b k : ℕ) → b < 256 → k < 8 → bit_or b (2 ^ k) < 256
or-lt b k hb hk = ground (arith, everywhere_sound _ size_table b k 0 hb hk (omega arith))

shift_table : everywhere (λ b k m. same ((b / 2 ^ k == 0) && leb k m && bit b m) false) ≡ true
unfolding everyone bit
shift_table = refl

-- A byte that is 0 when shifted by `k` has no bit from `k` on.
pub bit_shifted_out :
    (b k m : ℕ) → b < 256 → k < 8 → m < 8 → (b / 2 ^ k == 0) ≡ true → k ≤ m → bit b m ≡ false
bit_shifted_out b k m hb hk hm z le = ground (arith, everywhere_sound _ shift_table b k m hb hk hm)
