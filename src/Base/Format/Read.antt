-- ===== src/Base/Format/Read.antt =====
-- Integers read back from the text that %d prints.
use Prim.Native.Nat.{◌/◌}
use ant_aodv.Base.{
  ℕ, zero, suc, ◌+◌, ◌-◌, ◌*◌, ◌%◌, ◌<◌, ◌≡◌, refl, sym, ap, ◌∙◌, ◌&&◌, inl, inr, Bool, true, false,
  Bool-cases, ltb, leb, ◌==◌, ℤ, pos, negsuc, List, [], ◌∷◌, ◌++◌, arith,
}
use ant_aodv.Base.Format.{digit, digits, show_int}

unfoldable pub is_digit : ℕ → Bool
is_digit c = leb b'0' c && leb c b'9'

-- The number that the digits in front say, after `n`, and the text behind them.
unfoldable pub scan : ℕ → List ℕ → ℕ × List ℕ
unfolding is_digit
scan n [] = (n, [])
scan n (c ∷ cs) = elim (is_digit c) [ true ↦ scan (n * 10 + (c - b'0')) cs | false ↦ (n, c ∷ cs) ]

unfoldable pub negated : ℕ → ℤ
negated zero = pos 0
negated (suc n) = negsuc n

-- `%d` of `scanf`, without white space in front.
unfoldable pub read_int : List ℕ → ℤ × List ℕ
unfolding scan negated
read_int [] = (pos 0, [])
read_int (c ∷ cs) = elim (c == b'-') [
  | true ↦ let (n, rest) = scan 0 cs in (negated n, rest)
  | false ↦ let (n, rest) = scan 0 (c ∷ cs) in (pos n, rest)
]

append_assoc : {A : Type 0} (xs ys zs : List A) → (xs ++ ys) ++ zs ≡ xs ++ (ys ++ zs)
append_assoc [] ys zs = refl
append_assoc (x ∷ xs) ys zs = ap (λ l. x ∷ l) (append_assoc xs ys zs)

digit-is_digit : (d : ℕ) → d < 10 → is_digit (digit d) ≡ true
unfolding is_digit digit
digit-is_digit d small = ground arith

digit-value : (d : ℕ) → d < 10 → digit d - b'0' ≡ d
unfolding digit
digit-value d small = ground arith

scan-step :
    (n c : ℕ) (cs : List ℕ) → is_digit c ≡ true → scan n (c ∷ cs) ≡ scan (n * 10 + (c - b'0')) cs
unfolding scan
scan-step n c cs e = rw (scan, e) refl

scan-digit :
    (n d m : ℕ) (rest : List ℕ) → d < 10 → n * 10 + d ≡ m → scan n (digit d ∷ rest) ≡ scan m rest
scan-digit n d m rest small sum =
    scan-step n (digit d) rest (digit-is_digit d small)
    ∙ ap (λ x. scan (n * 10 + x) rest) (digit-value d small)
    ∙ ap (λ x. scan x rest) sum

fewer : (fuel n : ℕ) → n < suc fuel → ltb n 10 ≡ false → n / 10 < fuel
fewer fuel n less big = omega (arith, less, not_small n big)
  where
    not_small : (n : ℕ) → ltb n 10 ≡ false → 9 < n
    not_small n big = ground (arith, big)

scan-digits :
    (fuel n : ℕ) (rest : List ℕ) → n < fuel → scan 0 (digits 10 fuel n ++ rest) ≡ scan n rest
unfolding digits
scan-digits zero n rest less = absurd (omega arith)
scan-digits (suc fuel) n rest less = elim (Bool-cases (ltb n 10)) [
  | inl small ↦ rw (digits, small) (scan-digit 0 n n rest (ground (arith, small)) (omega arith))
  | inr big ↦
      rw (digits, big)
        (ap (scan 0) (append_assoc (digits 10 fuel (n / 10)) (digit (n % 10) ∷ []) rest)
          ∙ scan-digits fuel (n / 10) (digit (n % 10) ∷ rest) (fewer fuel n less big)
          ∙ scan-digit (n / 10) (n % 10) n rest (omega arith) (omega arith))
]

digits-cons :
    (fuel n : ℕ)
    → n < fuel
    → (d : ℕ) × (ds : List ℕ) × (digits 10 fuel n ≡ d ∷ ds) × (is_digit d ≡ true)
unfolding digits
digits-cons zero n less = absurd (omega arith)
digits-cons (suc fuel) n less = elim (Bool-cases (ltb n 10)) [
  | inl small ↦ (digit n, [], rw (digits, small) refl, digit-is_digit n (ground (arith, small)))
  | inr big ↦
      let (d, ds, same, is) = digits-cons fuel (n / 10) (fewer fuel n less big) in
      (d, ds ++ digit (n % 10) ∷ [], rw (digits, big, same) refl, is)
]

digit-minus : (d : ℕ) → is_digit d ≡ true → d == b'-' ≡ false
unfolding is_digit
digit-minus d is = ground (arith, is)

scan-stop : (n c : ℕ) (cs : List ℕ) → is_digit c ≡ false → scan n (c ∷ cs) ≡ (n, c ∷ cs)
unfolding scan
scan-stop n c cs e = rw (scan, e) refl

-- A number printed and read back, when no digit follows it.
scan-printed :
    (n c : ℕ) (cs : List ℕ)
    → is_digit c ≡ false
    → scan 0 (digits 10 (suc n) n ++ c ∷ cs) ≡ (n, c ∷ cs)
scan-printed n c cs stops = scan-digits (suc n) n (c ∷ cs) (omega arith) ∙ scan-stop n c cs stops

read_int-minus : (cs : List ℕ) → read_int (b'-' ∷ cs) ≡ (negated (scan 0 cs).0, (scan 0 cs).1)
unfolding read_int
read_int-minus cs = refl

read_int-digit :
    (d : ℕ) (cs : List ℕ)
    → is_digit d ≡ true
    → read_int (d ∷ cs) ≡ (pos (scan 0 (d ∷ cs)).0, (scan 0 (d ∷ cs)).1)
unfolding read_int
read_int-digit d cs is = rw (read_int, digit-minus d is) refl

-- What %d prints is read back as the integer, when no digit follows it.
pub read_int-show_int :
    (z : ℤ) (c : ℕ) (cs : List ℕ)
    → is_digit c ≡ false
    → read_int (show_int z ++ c ∷ cs) ≡ (z, c ∷ cs)
unfolding show_int negated
read_int-show_int (ℤ.pos n) c cs stops =
    let (d, ds, same, is) = digits-cons (suc n) n (omega arith) in
    ap (λ l. read_int (l ++ c ∷ cs)) same
    ∙ read_int-digit d (ds ++ c ∷ cs) is
    ∙ ap (λ l. (pos (scan 0 (l ++ c ∷ cs)).0, (scan 0 (l ++ c ∷ cs)).1)) (sym same)
    ∙ ap (λ r. (pos r.0, r.1)) (scan-printed n c cs stops)
read_int-show_int (ℤ.negsuc n) c cs stops =
    read_int-minus (digits 10 (suc (suc n)) (suc n) ++ c ∷ cs)
    ∙ ap (λ r. (negated r.0, r.1)) (scan-printed (suc n) c cs stops)
