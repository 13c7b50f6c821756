-- ===== src/Base/Result.antt =====
-- Runs of the code that may meet a fault: what C++ leaves undefined, or what stops the program.
use mathlib.Core.Path.{◌≡◌, refl, ap}
use mathlib.Core.Bool.{Bool, true, false}
use mathlib.Core.Logic.{◌⊎◌, inl, inr, ite}
use ant_aodv.Base.Tests.{if◌then◌else◌}
use mathlib.Core.Option.{Option, none, some}

pub data Fault : Type 0 where
  -- an array read or written outside its bounds
  out_of_bounds : Fault
  -- a variable read before it has a value
  uninitialized : Fault
  -- a function with a result that ends without `return`
  no_return : Fault
  -- a null pointer followed, or the end of a container read
  null_pointer : Fault
  -- a pointer followed to nothing, or to an object that is deleted
  dangling : Fault
  -- a format and its arguments that disagree
  bad_format : Fault
  -- `exit` and `abort`
  exit : Fault
  -- an `assert` that fails
  assertion_failed : Fault
  -- a loop that draws random numbers has rejected all draws that were given
  no_draw : Fault

-- What a run ends with.
pub data Result {ℓ} (A : Type ℓ) : Type ℓ where
  fault : Fault → Result A
  ok : A → Result A

-- The value of an element that may be missing.
abbrev pub or_fault {ℓ} : {A : Type ℓ} → Option A → Fault → Result A
or_fault (some a) reason = ok a
or_fault none reason = fault reason

-- A run after a run, which a fault ends.
infixl 5 ◌>>=◌
abbrev pub ◌>>=◌ {ℓ κ} : {A : Type ℓ} {B : Type κ} → Result A → (A → Result B) → Result B
fault reason >>= rest = fault reason
ok value >>= rest = rest value

-- `assert`, and other tests that end a run.
abbrev pub guard : Bool → Fault → Result (Unit {0})
guard false reason = fault reason
guard true reason = ok tt

infixl 5 ◌>>◌
abbrev pub ◌>>◌ {ℓ} : {B : Type ℓ} → Result (Unit {0}) → Result B → Result B
fault reason >> rest = fault reason
ok _ >> rest = rest

pub ok-injective {ℓ} : {A : Type ℓ} {a b : A} → ok a ≡ ok b → a ≡ b
ok-injective {a} same = ap (λ r. elim r [ fault _ ↦ a | ok x ↦ x ]) same

-- A bind that gives a value had one from its first run.
pub >>=-eq-ok {ℓ κ} :
    {A : Type ℓ} {B : Type κ} (run : Result A) (rest : A → Result B) {value : B}
    → (run >>= rest) ≡ ok value
    → (mid : A) × (run ≡ ok mid) × (rest mid ≡ ok value)
>>=-eq-ok (fault reason) rest gives = cc
>>=-eq-ok (ok mid) rest gives = (mid, refl, gives)

-- A choice that gives a value has it from one of its branches.
pub ite-eq-ok {ℓ κ} :
    {P : Type ℓ} {A : Type κ} (test : Dec P) (a b : Result A) {value : A}
    → ite test a b ≡ ok value
    → (a ≡ ok value) ⊎ (b ≡ ok value)
ite-eq-ok (yes _) a b gives = inl gives
ite-eq-ok (no _) a b gives = inr gives

pub if-eq-ok {ℓ} :
    {A : Type ℓ} (test : Bool) (a b : Result A) {value : A}
    → (if test then a else b) ≡ ok value
    → (a ≡ ok value) ⊎ (b ≡ ok value)
if-eq-ok true a b gives = inl gives
if-eq-ok false a b gives = inr gives

pub >>-eq-ok {ℓ} :
    {B : Type ℓ} (test : Result (Unit {0})) (rest : Result B) {value : B}
    → (test >> rest) ≡ ok value
    → rest ≡ ok value
>>-eq-ok (fault _) rest gives = cc
>>-eq-ok (ok _) rest gives = gives
