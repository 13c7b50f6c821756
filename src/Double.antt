-- ===== src/Double.antt =====
-- `double`: the operations and comparisons that the code makes of it, over any type of values.
-- `Laws` has the facts that theorems assume of it, and `Milli` and `Whole` are types that
-- meet them.
pub mod Laws
pub mod Milli
pub mod Whole
use ant_aodv.Base.{ℕ, ℤ, Bool}

pub record Double (W : Type 0) : Type 0 where
  -- the `int` or `unsigned` made a `double`
  pub of_int : ℤ → W
  -- a literal, such as 0.45 for `ratio 45 100`
  pub ratio : ℕ → ℕ → W
  pub add : W → W → W
  pub sub : W → W → W
  pub mul : W → W → W
  pub div : W → W → W
  pub sqrt : W → W
  pub lt : W → W → Bool
  pub le : W → W → Bool
  pub eq : W → W → Bool
  -- 0.0 and 1.0
  pub nought : W
  pub one : W

infixl 65 ◌⊕◌ ◌⊖◌
infixl 70 ◌⊗◌ ◌⊘◌
abbrev pub ◌⊕◌ : {W : Type 0} ⦃d : Double W⦄ → W → W → W
◌⊕◌ ⦃d⦄ = d.add

abbrev pub ◌⊖◌ : {W : Type 0} ⦃d : Double W⦄ → W → W → W
◌⊖◌ ⦃d⦄ = d.sub

abbrev pub ◌⊗◌ : {W : Type 0} ⦃d : Double W⦄ → W → W → W
◌⊗◌ ⦃d⦄ = d.mul

abbrev pub ◌⊘◌ : {W : Type 0} ⦃d : Double W⦄ → W → W → W
◌⊘◌ ⦃d⦄ = d.div
