-- ===== src/Base/Sums.antt =====
-- Sums of the first values of a function.
use cse.Base.{
  ℕ, zero, suc, ◌+◌, ◌<◌, ◌≤◌, ◌≡◌, ◌≢◌, refl, ap, inl, inr, arith, ◌==◌, Bool-cases, ==_iff,
}

unfoldable pub total : ℕ → (ℕ → ℕ) → ℕ
total zero f = 0
total (suc n) f = total n f + f n

pub total-same : (n : ℕ) (f h : ℕ → ℕ) → ((i : ℕ) → i < n → f i ≡ h i) → total n f ≡ total n h
unfolding total
total-same zero f h e = refl
total-same (suc n) f h e =
    omega (arith, total-same n f h (λ i lt. e i (omega arith)), e n (omega arith))

-- A sum of which one term is another.
pub total-one :
    (n k : ℕ) (f h : ℕ → ℕ)
    → k < n
    → ((i : ℕ) → i < n → i ≢ k → f i ≡ h i)
    → total n f + h k ≡ total n h + f k
unfolding total
total-one zero k f h lt e = absurd (omega (arith, lt))
total-one (suc n) k f h lt e = elim (Bool-cases (n == k)) [
  | inl hit ↦
      let q : n ≡ k = (==_iff n k).0 hit in
      let s : total n f ≡ total n h =
        total-same n f h (λ i l. e i (omega arith) (omega (arith, q, l))) in
      omega (arith, s, ap f q, ap h q)
  | inr miss ↦
      let q : n ≢ k = ground arith in
      omega (
        arith,
        total-one n k f h (omega (arith, lt, q)) (λ i l. e i (omega arith)),
        e n (omega arith) q,
      )
]

pub total_ones : (n : ℕ) (f : ℕ → ℕ) → ((i : ℕ) → i < n → f i ≤ 1) → total n f ≤ n
unfolding total
total_ones zero f h = omega arith
total_ones (suc n) f h = omega (arith, total_ones n f (λ i l. h i (omega arith)), h n (omega arith))

-- A smaller term of a sum of smaller terms.
pub total-less :
    (n k : ℕ) (f h : ℕ → ℕ)
    → k < n
    → ((i : ℕ) → i < n → f i ≤ h i)
    → (total n f ≤ total n h) × (total n f + h k ≤ total n h + f k)
unfolding total
total-less zero k f h lt e = absurd (omega (arith, lt))
total-less (suc n) k f h lt e = elim (Bool-cases (n == k)) [
  | inl hit ↦
      let q : n ≡ k = (==_iff n k).0 hit in
      let s : total n f ≤ total n h = total_le n f h (λ i l. e i (omega arith)) in
      (omega (arith, s, e n (omega arith)), omega (arith, s, ap f q, ap h q))
  | inr miss ↦
      let q : n ≢ k = ground arith in
      let (a, b) = total-less n k f h (omega (arith, lt, q)) (λ i l. e i (omega arith)) in
      (omega (arith, a, e n (omega arith)), omega (arith, b, e n (omega arith)))
]
  where
    total_le : (n : ℕ) (f h : ℕ → ℕ) → ((i : ℕ) → i < n → f i ≤ h i) → total n f ≤ total n h
    total_le zero f h e = omega arith
    total_le (suc n) f h e =
        omega (arith, total_le n f h (λ i l. e i (omega arith)), e n (omega arith))
