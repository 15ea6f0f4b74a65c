-- ===== src/Base/Tests.antt =====
-- The Boolean tests of C++ expressions, on native numbers, and the conditional.
use Prim.Native.Nat.{ℕ, compare, Ordering}
use mathlib.Core.Path.{◌≡◌, refl}
use mathlib.Core.Logic.{◌↔◌, ◌⊎◌, inl, inr}
use mathlib.Core.Bool.{Bool, true, false}
use mathlib.Core.Option.{Option, none, some}
use native.Mathlib.Omega.{arith}

abbrev pub ltb : ℕ → ℕ → Bool
ltb a b = elim (compare a b) [ Ordering.lt ↦ true | _ ↦ false ]

abbrev pub leb : ℕ → ℕ → Bool
leb a b = elim (compare a b) [ Ordering.gt ↦ false | _ ↦ true ]

infix 50 ◌==◌
abbrev pub ◌==◌ : ℕ → ℕ → Bool
a == b = elim (compare a b) [ Ordering.eq ↦ true | _ ↦ false ]

infix 1 if◌then◌else◌
abbrev pub if◌then◌else◌ {ℓ} : {A : Type ℓ} → Bool → A → A → A
if true then x else y = x
if false then x else y = y

pub ==_iff : (a b : ℕ) → ((a == b) ≡ true) ↔ (a ≡ b)
==_iff a b = ground arith

-- A split on a computed value that keeps the equation.
pub Bool-cases : (b : Bool) → (b ≡ true) ⊎ (b ≡ false)
Bool-cases true = inl refl
Bool-cases false = inr refl

pub Option-cases {ℓ} : {A : Type ℓ} (o : Option A) → (o ≡ none) ⊎ ((a : A) × (o ≡ some a))
Option-cases none = inl refl
Option-cases (some a) = inr (a, refl)

-- A result is there, and the postcondition holds of it.
abbrev pub Returns {ℓ} : {A : Type ℓ} → (A → Type 0) → Option A → Type 0
Returns P none = ⊥
Returns P (some a) = P a

pub Returns-map {ℓ} :
    {A : Type ℓ} (P Q : A → Type 0) (o : Option A)
    → ((a : A) → P a → Q a)
    → Returns P o
    → Returns Q o
Returns-map P Q none f h = h
Returns-map P Q (some a) f h = f a h

-- If there is a result, the postcondition holds of it.
abbrev pub Safely {ℓ} : {A : Type ℓ} → (A → Type 0) → Option A → Type 0
Safely P none = Unit
Safely P (some a) = P a

-- A step in front of the rest of an operation, in a monad of a state and a failure.
pub bind-Returns :
    {T U A B : Type 0} (P : A × T → Type 0) (Q : B × U → Type 0) (o : Option (A × T))
    (f : A → T → Option (B × U))
    → Returns P o
    → ((a : A) (t : T) → P (a, t) → Returns Q (f a t))
    → Returns Q (elim o as (λ _. Option (B × U)) [ none ↦ none | some (a, t) ↦ f a t ])
bind-Returns P Q none f h k = absurd h
bind-Returns P Q (some (a, t)) f h k = k a t h
