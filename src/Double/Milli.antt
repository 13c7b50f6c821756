-- ===== src/Double/Milli.antt =====
-- A type that meets `IsOrdered` and `IsRounded`: thousandths, rounded down and cut off at 0.
use Prim.Native.Nat.{◌/◌}
use ant_aodv.Base.{ℕ, ◌+◌, ◌-◌, ◌*◌, ◌≤◌, ◌≡◌, ℤ, pos, negsuc, true, arith, ltb, leb, ◌==◌}
use ant_aodv.Double.{Double}
use ant_aodv.Double.Laws.{IsOrdered, IsRounded}

abbrev pub Milli : Type 0
Milli = ℕ

abbrev of_int : ℤ → ℕ
of_int (pos n) = 1000 * n
of_int (negsuc n) = 0

instance abbrev pub milli_double : Double Milli
milli_double = record {
  of_int = of_int;
  ratio = λ a b. 1000 * a / b;
  add = λ x y. x + y;
  sub = λ x y. x - y;
  mul = λ x y. x * y / 1000;
  div = λ x y. 1000 * x / y;
  sqrt = λ x. x;
  lt = ltb;
  le = leb;
  eq = ◌==◌;
  nought = 0;
  one = 1000;
}

leb→le : (a b : ℕ) → leb a b ≡ true → a ≤ b
leb→le a b h = ground arith

le→leb : (a b : ℕ) → a ≤ b → leb a b ≡ true
le→leb a b h = ground arith

mul_le : (x y : ℕ) → x ≤ 1000 → x * y / 1000 ≤ y
mul_le x y h = grind arith

pub Milli-IsOrdered : IsOrdered Milli
Milli-IsOrdered = ground arith

pub Milli-IsRounded : IsRounded Milli
Milli-IsRounded = record {
  sub_unit = λ x u. ground arith;
  mul_unit = λ x y u v. (ground arith, le→leb _ _ (mul_le x y (leb→le x 1000 u.1)));
  le-add = λ x y u v. ground arith;
  add_mono = λ x y z u v w h. ground arith;
  add-sub_le = λ x u. ground arith;
}
