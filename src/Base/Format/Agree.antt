-- ===== src/Base/Format/Agree.antt =====
-- Arguments that agree with a format: `sprintf` has a text for them.
use Prim.Native.String.{String}
use ant_aodv.Base.{
  ℕ, ◌==◌, ◌||◌, ◌&&◌, ◌≡◌, refl, Bool, true, false, if◌then◌else◌, List, [], ◌∷◌, ◌++◌, none, some,
}
use ant_aodv.Base.Result.{Result, ok, fault, Fault}
use ant_aodv.Base.Text.{codes}
use ant_aodv.Base.Format.{
  Arg, Spec, Piece, pieces, convert, pad, render, sprintf, show_int, show_unsigned,
}

-- The conversion is one for this type of argument.
unfoldable pub fits : {W : Type 0} → Spec → Arg W → Bool
fits s (Arg.chr c) = s.conversion == b'c'
fits s (Arg.int z) = s.conversion == b'd' || s.conversion == b'x' || s.conversion == b'u'
fits s (Arg.text cs) = s.conversion == b's'
fits s (Arg.real x) = s.conversion == b'f'

unfoldable pub agree : {W : Type 0} → List Piece → List (Arg W) → Bool
unfolding fits
agree [] args = true
agree (Piece.itself c ∷ ps) args = agree ps args
agree (Piece.spec s ∷ ps) [] = false
agree (Piece.spec s ∷ ps) (a ∷ args) = fits s a && agree ps args

unfoldable pub agrees : {W : Type 0} → String → List (Arg W) → Bool
unfolding pieces agree
agrees format args = agree (pieces none (codes format)) args

false-true : ¬ (false ≡ true)
false-true e = cc

one_of_three :
    (x y z : List ℕ) (other : Result (List ℕ)) (a b c : Bool)
    → a || b || c ≡ true
    → (cs : List ℕ) × ((if a then ok x else if b then ok y else if c then ok z else other) ≡ ok cs)
one_of_three x y z other true b c e = (x, refl)
one_of_three x y z other false true c e = (y, refl)
one_of_three x y z other false false true e = (z, refl)
one_of_three x y z other false false false e = absurd (false-true e)

both : (x y : Bool) → x && y ≡ true → (x ≡ true) × (y ≡ true)
both true y e = (refl, e)
both false y e = absurd (false-true e)

module _ {W : Type 0} (show_real : (precision : ℕ) → W → List ℕ) where
  convert-fits :
      (s : Spec) (a : Arg W) → fits s a ≡ true → (cs : List ℕ) × (convert show_real s a ≡ ok cs)
  unfolding fits convert
  convert-fits s (Arg.chr c) e = (c ∷ [], rw e refl)
  convert-fits s (Arg.int z) e =
      one_of_three (show_int z) (show_unsigned 16 z) (show_unsigned 10 z) (fault Fault.bad_format)
        (s.conversion == b'd') (s.conversion == b'x') (s.conversion == b'u') e
  convert-fits s (Arg.text cs) e = (cs, rw e refl)
  convert-fits s (Arg.real x) e =
      (show_real (elim (s.precision) [ none ↦ 6 | some n ↦ n ]) x, rw e refl)

  render-agree :
      (ps : List Piece) (args : List (Arg W))
      → agree ps args ≡ true
      → (cs : List ℕ) × (render show_real ps args ≡ ok cs)
  unfolding agree render
  render-agree [] args e = ([], refl)
  render-agree (Piece.itself c ∷ ps) args e =
      let (cs, gives) = render-agree ps args e in (c ∷ cs, rw gives refl)
  render-agree (Piece.spec s ∷ ps) [] e = absurd (false-true e)
  render-agree (Piece.spec s ∷ ps) (a ∷ args) e =
      let (fit, rest) = both (fits s a) (agree ps args) e in
      let (cs, gives) = convert-fits s a fit in
      let (cs', gives') = render-agree ps args rest in (pad s cs ++ cs', rw (gives, gives') refl)

  -- The text of a format that begins with a character and a blank.
  pub render-letter :
      (op : ℕ) (ps : List Piece) (args : List (Arg W))
      → agree ps args ≡ true
      → (cs : List ℕ) × (render show_real
            (Piece.spec (record { zeros = false; width = 0; precision = none; conversion = b'c' })
              ∷ Piece.itself b' '
              ∷ ps)
            (Arg.chr op ∷ args)
          ≡ ok (op ∷ b' ' ∷ cs))
  unfolding render convert
  render-letter op ps args e = let (cs, gives) = render-agree ps args e in (cs, rw gives refl)

  -- Arguments that agree with the format are printed.
  pub sprintf-agrees :
      (format : String) (args : List (Arg W))
      → agrees format args ≡ true
      → (cs : List ℕ) × (sprintf show_real format args ≡ ok cs)
  unfolding agrees sprintf
  sprintf-agrees format args e = render-agree (pieces none (codes format)) args e
