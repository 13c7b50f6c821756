-- ===== src/Base/Lists.antt =====
-- Lists measured and indexed by native numbers, and predicates on their elements.
use Prim.Native.Nat.{ℕ, zero, suc, ◌+◌}
use mathlib.Core.Path.{◌≡◌, refl, ap}
use mathlib.Core.Logic.{◌⊎◌, inl, inr}
use mathlib.Core.Option
use mathlib.Core.Bool.{Bool, true, false}
use mathlib.Core.List.{List, [], ◌∷◌, ◌++◌}
use mathlib.Core.Option.{Option, none, some}
use native.Mathlib.Omega.{arith}

module _ {ℓ} {A : Type ℓ} where
  abbrev pub length : List A → ℕ
  length [] = 0
  length (x ∷ xs) = suc (length xs)

  abbrev pub get_elem? : List A → ℕ → Option A
  get_elem? [] i = none
  get_elem? (x ∷ xs) zero = some x
  get_elem? (x ∷ xs) (suc i) = get_elem? xs i

  -- A write out of bounds changes nothing.
  abbrev pub set : List A → ℕ → A → List A
  set [] i v = []
  set (x ∷ xs) zero v = v ∷ xs
  set (x ∷ xs) (suc i) v = x ∷ set xs i v

  abbrev pub take : ℕ → List A → List A
  take zero xs = []
  take (suc n) [] = []
  take (suc n) (x ∷ xs) = x ∷ take n xs

  abbrev pub replicate : ℕ → A → List A
  replicate zero a = []
  replicate (suc n) a = a ∷ replicate n a

  abbrev pub All {κ} : (A → Type κ) → List A → Type κ
  All P [] = Unit
  All P (x ∷ xs) = P x × All P xs

  pub length-append : (xs ys : List A) → length (xs ++ ys) ≡ length xs + length ys
  length-append [] ys = omega arith
  length-append (x ∷ xs) ys = omega (arith, length-append xs ys)

  pub length-set : (xs : List A) (i : ℕ) (v : A) → length (set xs i v) ≡ length xs
  length-set [] i v = refl
  length-set (x ∷ xs) zero v = refl
  length-set (x ∷ xs) (suc i) v = ap suc (length-set xs i v)

  pub length-replicate : (n : ℕ) (a : A) → length (replicate n a) ≡ n
  length-replicate zero a = refl
  length-replicate (suc n) a = ap suc (length-replicate n a)

-- `a` is among the elements.
abbrev pub Among : {A : Type 0} → A → List A → Type 0
Among a [] = ⊥
Among a (x ∷ xs) = (x ≡ a) ⊎ Among a xs

-- No element occurs twice.
abbrev pub Distinct : {A : Type 0} → List A → Type 0
Distinct [] = Unit
Distinct (x ∷ xs) = (¬ Among x xs) × Distinct xs

pub some-injective : {A : Type 0} {a b : A} → some a ≡ some b → a ≡ b
some-injective {a} e = ap (λ o. elim o [ none ↦ a | some x ↦ x ]) e

pub none-some : {B : Type 0} {b : B} → ¬ (none ≡ some b)
none-some same = cc

pub map-eq-some :
    {A B : Type 0} (f : A → B) (o : Option A) (b : B)
    → Option.map f o ≡ some b
    → (a : A) × (o ≡ some a) × (f a ≡ b)
map-eq-some f none b h = cc
map-eq-some f (some a) b h = (a, refl, cc)

pub differ : (b : Bool) → b ≡ true → b ≡ false → ⊥
differ b p q = cc

-- The last of a list that begins with `x`.
abbrev pub last_of : {A : Type 0} → A → List A → A
last_of x [] = x
last_of x (y ∷ ys) = last_of y ys

pub Among-last_of : {A : Type 0} (x : A) (xs : List A) → Among (last_of x xs) (x ∷ xs)
Among-last_of x [] = inl refl
Among-last_of x (y ∷ ys) = inr (Among-last_of y ys)

pub All-intro :
    {A : Type 0} {P : A → Type 0} (xs : List A) → ((x : A) → Among x xs → P x) → All P xs
All-intro [] f = tt
All-intro (x ∷ xs) f = (f x (inl refl), All-intro xs (λ y a. f y (inr a)))
