-- ===== src/Double/Laws.antt =====
-- What theorems assume of `double`.
use ant_aodv.Base.{ℕ, suc, pos, ◌≡◌, ◌⊎◌, true, false}
use ant_aodv.Double.{Double, ◌⊕◌, ◌⊖◌, ◌⊗◌, ◌⊘◌}

infix 4 ◌≼◌
abbrev pub ◌≼◌ : {W : Type 0} ⦃d : Double W⦄ → W → W → Type 0
◌≼◌ ⦃d⦄ x y = d.le x y ≡ true

-- `x` lies in [0, 1].
abbrev pub IsUnit : {W : Type 0} ⦃d : Double W⦄ → W → Type 0
IsUnit ⦃d⦄ x = (d.nought ≼ x) × (x ≼ d.one)

-- The order, on which rounding has no effect.
pub record IsOrdered (W : Type 0) ⦃d : Double W⦄ : Type 0 where
  pub le_trans : (x y z : W) → x ≼ y → y ≼ z → x ≼ z
  pub refl_of_le : (x y : W) → x ≼ y → (x ≼ x) × (y ≼ y)
  pub lt_or_le : (x y : W) → x ≼ x → y ≼ y → (d.lt x y ≡ true) ⊎ (y ≼ x)
  pub le_of_lt : (x y : W) → d.lt x y ≡ true → x ≼ y
  pub lt-eq-false : (x y : W) → x ≼ y → d.lt y x ≡ false
  pub nought_unit : IsUnit d.nought
  pub one_unit : IsUnit d.one

-- Arithmetic on [0, 1], rounded: each law is one of IEEE doubles, rounded to the nearest.
pub record IsRounded (W : Type 0) ⦃d : Double W⦄ : Type 0 where
  pub sub_unit : (x : W) → IsUnit x → IsUnit (d.one ⊖ x)
  pub mul_unit : (x y : W) → IsUnit x → IsUnit y → (d.nought ≼ x ⊗ y) × (x ⊗ y ≼ y)
  pub le-add : (x y : W) → d.nought ≼ x → d.nought ≼ y → x ≼ x ⊕ y
  pub add_mono : (x y z : W) → IsUnit x → IsUnit y → IsUnit z → y ≼ z → x ⊕ y ≼ x ⊕ z
  pub add-sub_le : (x : W) → IsUnit x → x ⊕ (d.one ⊖ x) ≼ d.one

-- Exact arithmetic, without rounding: the laws of a commutative ring.
pub record IsExact (W : Type 0) ⦃d : Double W⦄ : Type 0 where
  pub add_comm : (x y : W) → x ⊕ y ≡ y ⊕ x
  pub add_assoc : (x y z : W) → x ⊕ y ⊕ z ≡ x ⊕ (y ⊕ z)
  pub nought_add : (x : W) → d.nought ⊕ x ≡ x
  pub sub-add : (x y : W) → (x ⊖ y) ⊕ y ≡ x
  pub mul_comm : (x y : W) → x ⊗ y ≡ y ⊗ x
  pub mul_nought : (x : W) → x ⊗ d.nought ≡ d.nought
  pub one_mul : (x : W) → d.one ⊗ x ≡ x
  pub mul_add : (x y z : W) → x ⊗ (y ⊕ z) ≡ x ⊗ y ⊕ x ⊗ z
  pub add_mul : (x y z : W) → (x ⊕ y) ⊗ z ≡ x ⊗ z ⊕ y ⊗ z

-- Whole numbers made `double`s, and the division of 1 by the whole number `k`, without rounding.
pub record IsDivided (W : Type 0) ⦃d : Double W⦄ (k : ℕ) : Type 0 where
  pub of_int-zero : d.of_int (pos 0) ≡ d.nought
  pub of_int-suc : (n : ℕ) → d.of_int (pos (suc n)) ≡ d.one ⊕ d.of_int (pos n)
  pub share : d.of_int (pos k) ⊗ (d.one ⊘ d.of_int (pos k)) ≡ d.one
  pub share_unit : IsUnit (d.one ⊘ d.of_int (pos k))
