-- ===== src/Base/Int.antt =====
-- C's `int`, as far as the code compares such values: `nsaddr_t`, `num_forwards_`, node ids.
use Prim.Native.Nat.{ℕ, zero, suc}
use mathlib.Core.Path.{◌≡◌, ap}
use native.Mathlib.Decide.{ℕ_discrete}
use mathlib.Core.Bool.{Bool, true, false}
use ant_aodv.Base.Tests.{ltb}

-- `negsuc n` is -(n + 1).
pub data ℤ : Type 0 where
  pos : ℕ → ℤ
  negsuc : ℕ → ℤ

-- What an address is not, in words that a decision needs.
pos-injective : {a b : ℕ} → pos a ≡ pos b → a ≡ b
pos-injective e = ap (λ z. elim z [ pos n ↦ n | negsuc n ↦ n ]) e

negsuc-injective : {a b : ℕ} → negsuc a ≡ negsuc b → a ≡ b
negsuc-injective e = ap (λ z. elim z [ pos n ↦ n | negsuc n ↦ n ]) e

-- `==` on addresses.
unfoldable pub ℤ_discrete : Discrete ℤ
unfolding ℕ_discrete pos-injective negsuc-injective
ℤ_discrete (pos a) (pos b) = elim (ℕ_discrete a b) [
  | yes e ↦ yes (ap pos e)
  | no n ↦ no (λ e. n (pos-injective e))
]
ℤ_discrete (pos a) (negsuc b) = no (λ e. cc)
ℤ_discrete (negsuc a) (pos b) = no (λ e. cc)
ℤ_discrete (negsuc a) (negsuc b) = elim (ℕ_discrete a b) [
  | yes e ↦ yes (ap negsuc e)
  | no n ↦ no (λ e. n (negsuc-injective e))
]

-- `a < b`, the order of the keys of a `std::map`.
abbrev pub ltb_ℤ : ℤ → ℤ → Bool
ltb_ℤ (pos a) (pos b) = ltb a b
ltb_ℤ (pos a) (negsuc b) = false
ltb_ℤ (negsuc a) (pos b) = true
ltb_ℤ (negsuc a) (negsuc b) = ltb b a

-- `a - 1`.
abbrev pub pred_ℤ : ℤ → ℤ
pred_ℤ (pos zero) = negsuc 0
pred_ℤ (pos (suc n)) = pos n
pred_ℤ (negsuc n) = negsuc (suc n)

-- `0 < a`.
abbrev pub is_pos : ℤ → Bool
is_pos (pos zero) = false
is_pos (pos (suc n)) = true
is_pos (negsuc n) = false

-- `a == 0`.
abbrev pub is_zero : ℤ → Bool
is_zero (pos zero) = true
is_zero (pos (suc n)) = false
is_zero (negsuc n) = false
