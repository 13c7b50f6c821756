-- ===== src/Base/Format.antt =====
-- `sprintf` with the conversions that the code uses: %c %d %x %u %s %f, with width and precision.
pub mod Agree
pub mod Read
use Prim.Native.String.{String}
use Prim.Native.Nat.{ℕ, zero, suc, ◌+◌, ◌-◌, ◌*◌, ◌/◌, ◌%◌, ◌^◌}
use mathlib.Core.Path.{◌≡◌, refl}
use mathlib.Core.Bool.{Bool, true, false, ◌&&◌, ◌||◌}
use mathlib.Core.Option.{Option, none, some}
use mathlib.Core.List.{List, [], ◌∷◌, ◌++◌}
use ant_aodv.Base.Tests.{ltb, leb, ◌==◌, if◌then◌else◌}
use ant_aodv.Base.Int.{ℤ}
use ant_aodv.Base.Lists.{length, replicate, take}
use ant_aodv.Base.Result.{Result, ok, fault, Fault, ◌>>=◌}
use ant_aodv.Base.Text.{codes}

-- An argument: `char`, `int`, `char*` and `double`.
pub data Arg (W : Type 0) : Type 0 where
  chr : ℕ → Arg W
  int : ℤ → Arg W
  text : List ℕ → Arg W
  real : W → Arg W

pub record Spec : Type 0 where
  pub zeros : Bool
  pub width : ℕ
  pub precision : Option ℕ
  pub conversion : ℕ

-- A piece of a format: a character that stands for itself, or a conversion.
pub data Piece : Type 0 where
  itself : ℕ → Piece
  spec : Spec → Piece

abbrev blank_spec : Spec
blank_spec = record { zeros = false; width = 0; precision = none; conversion = 0 }

-- The characters between % and the letter of the conversion.
abbrev is_detail : ℕ → Bool
is_detail c = (leb b'0' c && leb c b'9') || c == b'.'

abbrev with_digit : ℕ → Spec → Spec
with_digit d s = elim (s.precision) [
  | some n ↦ record s { precision = some (n * 10 + d) }
  | none ↦
      if s.width == 0 && d == 0
      then record s { zeros = true }
      else record s { width = s.width * 10 + d }
]

abbrev with_detail : ℕ → Spec → Spec
with_detail c s = if c == b'.' then record s { precision = some 0 } else with_digit (c - b'0') s

-- The pieces of a format, from plain text on or inside a conversion.
unfoldable pub pieces : Option Spec → List ℕ → List Piece
pieces none [] = []
pieces none (c ∷ cs) = elim (c == b'%') [
  | true ↦ pieces (some blank_spec) cs
  | false ↦ Piece.itself c ∷ pieces none cs
]
pieces (some s) [] = Piece.spec s ∷ []
pieces (some s) (c ∷ cs) = elim (is_detail c) [
  | true ↦ pieces (some (with_detail c s)) cs
  | false ↦ Piece.spec (record s { conversion = c }) ∷ pieces none cs
]

unfoldable pub digit : ℕ → ℕ
digit d = if ltb d 10 then b'0' + d else b'a' + (d - 10)

-- The digits of `n` in the base, on fuel: `suc n` is enough.
unfoldable pub digits : (base fuel : ℕ) → ℕ → List ℕ
digits base zero n = []
digits base (suc fuel) n = elim (ltb n base) [
  | true ↦ digit n ∷ []
  | false ↦ digits base fuel (n / base) ++ digit (n % base) ∷ []
]

unfoldable pub show_int : ℤ → List ℕ
unfolding digits
show_int (ℤ.pos n) = digits 10 (suc n) n
show_int (ℤ.negsuc n) = b'-' ∷ digits 10 (suc (suc n)) (suc n)

-- An `int` read as `unsigned int`.
unfoldable pub unsigned : ℤ → ℕ
unsigned (ℤ.pos n) = n % 2 ^ 32
unsigned (ℤ.negsuc n) = 2 ^ 32 - suc (n % 2 ^ 32)

unfoldable pub show_unsigned : (base : ℕ) → ℤ → List ℕ
unfolding digits unsigned
show_unsigned base z = digits base (suc (unsigned z)) (unsigned z)

abbrev pub pad : Spec → List ℕ → List ℕ
pad s cs = replicate (s.width - length cs) (if s.zeros then b'0' else b' ') ++ cs

module _ {W : Type 0} (show_real : (precision : ℕ) → W → List ℕ) where
  -- The text of one conversion, before it is padded; an argument of another type is a fault.
  unfoldable pub convert : Spec → Arg W → Result (List ℕ)
  unfolding show_int show_unsigned
  convert s (Arg.chr c) = if s.conversion == b'c' then ok (c ∷ []) else fault Fault.bad_format
  convert s (Arg.int z) =
      if s.conversion == b'd'
      then ok (show_int z)
      else if s.conversion == b'x'
      then ok (show_unsigned 16 z)
      else if s.conversion == b'u'
      then ok (show_unsigned 10 z)
      else fault Fault.bad_format
  convert s (Arg.text cs) = if s.conversion == b's' then ok cs else fault Fault.bad_format
  convert s (Arg.real x) =
      if s.conversion == b'f'
      then ok (show_real (elim (s.precision) [ none ↦ 6 | some n ↦ n ]) x)
      else fault Fault.bad_format

  -- Arguments that are left over are not looked at.
  unfoldable pub render : List Piece → List (Arg W) → Result (List ℕ)
  unfolding convert
  render [] args = ok []
  render (Piece.itself c ∷ ps) args = do rest ← render ps args; ok (c ∷ rest)
  render (Piece.spec s ∷ ps) [] = fault Fault.bad_format
  render (Piece.spec s ∷ ps) (a ∷ args) = do
    cs ← convert s a
    rest ← render ps args
    ok (pad s cs ++ rest)

  unfoldable pub sprintf : String → List (Arg W) → Result (List ℕ)
  unfolding pieces render
  sprintf format args = render (pieces none (codes format)) args

  -- What is in the buffer after `sprintf(buffer + offset, format, …)`.
  unfoldable pub sprintf_at :
      (offset : ℕ) → String → List (Arg W) → (buffer : List ℕ) → Result (List ℕ)
  unfolding sprintf
  sprintf_at offset format args buffer = do cs ← sprintf format args; ok (take offset buffer ++ cs)
