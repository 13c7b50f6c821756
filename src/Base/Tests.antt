-- ===== src/Base/Tests.antt =====
-- Boolean tests on the native numbers, the conditional, and splits that keep the equation.
use Prim.Native.Nat.{ℕ, compare, Ordering}
use mathlib.Core.Path.{◌≡◌, refl}
use mathlib.Core.Logic.{◌⊎◌, inl, inr}
use mathlib.Core.Bool.{Bool, true, false}
use mathlib.Core.Option.{Option, none, some}

abbrev pub ltb : ℕ → ℕ → Bool
ltb a b = elim (compare a b) [ Ordering.lt ↦ true | _ ↦ false ]

abbrev pub leb : ℕ → ℕ → Bool
leb a b = elim (compare a b) [ Ordering.gt ↦ false | _ ↦ true ]

infix 50 ◌==◌
abbrev pub ◌==◌ : ℕ → ℕ → Bool
a == b = elim (compare a b) [ Ordering.eq ↦ true | _ ↦ false ]

infix 1 if◌then◌else◌
abbrev pub if◌then◌else◌ {ℓ} : {A : Type ℓ} → Bool → A → A → A
if true then x else y = x
if false then x else y = y

pub Bool-cases : (b : Bool) → (b ≡ true) ⊎ (b ≡ false)
Bool-cases true = inl refl
Bool-cases false = inr refl

pub Option-cases {ℓ} : {A : Type ℓ} (o : Option A) → (o ≡ none) ⊎ ((a : A) × (o ≡ some a))
Option-cases none = inl refl
Option-cases (some a) = inr (a, refl)
