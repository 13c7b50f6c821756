-- ===== src/Double/Whole.antt =====
-- A type that meets `IsExact`, `IsOrdered` and `IsRounded`: the integers, on which sums and products are not rounded.
use ant_aodv.Base.{
  ℕ, suc, ◌+◌, ◌-◌, ◌*◌, ◌≡◌, arith, leb, ◌&&◌, if◌then◌else◌, ltb_ℤ, ℤ, pos, negsuc, not, ap, refl,
}
use ant_aodv.Double.{Double}
use ant_aodv.Double.Laws.{IsOrdered, IsRounded, IsExact, IsDivided}

abbrev pos_part : ℤ → ℕ
pos_part (pos n) = n
pos_part (negsuc n) = 0

abbrev neg_part : ℤ → ℕ
neg_part (pos n) = 0
neg_part (negsuc n) = suc n

-- a - b, as an integer.
abbrev sub_ℕ : ℕ → ℕ → ℤ
sub_ℕ a b = if leb b a then pos (a - b) else negsuc (b - a - 1)

unfoldable pub add : ℤ → ℤ → ℤ
add a b = sub_ℕ (pos_part a + pos_part b) (neg_part a + neg_part b)

unfoldable pub sub : ℤ → ℤ → ℤ
sub a b = sub_ℕ (pos_part a + neg_part b) (neg_part a + pos_part b)

unfoldable pub mul : ℤ → ℤ → ℤ
mul a b =
    sub_ℕ (pos_part a * pos_part b + neg_part a * neg_part b)
      (pos_part a * neg_part b + neg_part a * pos_part b)

add_parts :
    (a b : ℤ)
    → pos_part (add a b) + neg_part a + neg_part b ≡ neg_part (add a b) + pos_part a + pos_part b
unfolding add
add_parts a b = ground arith

sub_parts :
    (a b : ℤ)
    → pos_part (sub a b) + neg_part a + pos_part b ≡ neg_part (sub a b) + pos_part a + neg_part b
unfolding sub
sub_parts a b = ground arith

mul_parts :
    (a b : ℤ)
    → pos_part (mul a b) + (pos_part a * neg_part b + neg_part a * pos_part b)
      ≡ neg_part (mul a b) + (pos_part a * pos_part b + neg_part a * neg_part b)
unfolding mul
mul_parts a b = ground arith

eq_of_parts : (a b : ℤ) → pos_part a + neg_part b ≡ pos_part b + neg_part a → a ≡ b
eq_of_parts a b h = ground arith

ruleset laws = (arith, add_parts, sub_parts, mul_parts, eq_of_parts)

mul-add : (x y z : ℤ) → mul x (add y z) ≡ add (mul x y) (mul x z)
mul-add x y z = omega (
  laws,
  ap (λ (n : ℕ). pos_part x * n) (add_parts y z),
  ap (λ (n : ℕ). neg_part x * n) (add_parts y z),
)

mul_comm : (x y : ℤ) → mul x y ≡ mul y x
mul_comm x y = omega laws

add-mul : (x y z : ℤ) → mul (add x y) z ≡ add (mul x z) (mul y z)
add-mul x y z = omega (
  laws,
  ap (λ (n : ℕ). n * pos_part z) (add_parts x y),
  ap (λ (n : ℕ). n * neg_part z) (add_parts x y),
)

-- Division is by 1 only.
instance abbrev pub whole_double : Double ℤ
whole_double = record {
  of_int = λ n. n;
  ratio = λ a b. pos a;
  add = add;
  sub = sub;
  mul = mul;
  div = λ x y. x;
  sqrt = λ x. x;
  lt = ltb_ℤ;
  le = λ x y. not (ltb_ℤ y x);
  eq = λ x y. not (ltb_ℤ x y) && not (ltb_ℤ y x);
  nought = pos 0;
  one = pos 1;
}

pub Whole-IsExact : IsExact ℤ
Whole-IsExact = record {
  add_comm = λ x y. omega laws;
  add_assoc = λ x y z. omega laws;
  nought_add = λ x. omega laws;
  sub-add = λ x y. omega laws;
  mul_comm = mul_comm;
  mul_nought = λ x. omega laws;
  one_mul = λ x. omega laws;
  mul_add = mul-add;
  add_mul = add-mul;
}

pub Whole-IsOrdered : IsOrdered ℤ
Whole-IsOrdered = record {
  le_trans = λ x y z a b. ground arith;
  refl_of_le = λ x y a. ground arith;
  lt_or_le = λ x y a b. ground arith;
  le_of_lt = λ x y a. ground arith;
  lt-eq-false = λ x y a. ground arith;
  nought_unit = (refl, refl);
  one_unit = (refl, refl);
}

pub Whole-IsRounded : IsRounded ℤ
unfolding add sub mul
Whole-IsRounded = record {
  sub_unit = λ x u. ground arith;
  mul_unit = λ x y u v. ground arith;
  le-add = λ x y u v. ground arith;
  add_mono = λ x y z u v w h. ground arith;
  add-sub_le = λ x u. ground arith;
}

-- 1 divided by 1 is a whole number.
pub Whole-IsDivided : IsDivided ℤ 1
unfolding add mul
Whole-IsDivided = record {
  of_int-zero = refl;
  of_int-suc = λ n. ground arith;
  share = refl;
  share_unit = (refl, refl);
}
