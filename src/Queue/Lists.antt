-- ===== src/Queue/Lists.antt =====
-- Lists of packets: what taking one out leaves, and their last element.

use ant_aodv.Base.{
  ℕ, suc, ◌+◌, ◌-◌, ◌≡◌, refl, sym, ap, subst, ◌⊎◌, inl, inr, if_pos, if_neg, List, [], ◌∷◌, ◌++◌,
  none, some, length, length-append, get_elem?, Among, Distinct, arith,
}
use ant_aodv.Queue.{erase, last?, rest_of}

unfoldable pub head_or : {A : Type 0} → A → List A → A
head_or a [] = a
head_or a (x ∷ xs) = x

pub nil-ne : {n : ℕ} → ¬ (suc n ≡ 0)
nil-ne e = omega arith

module _ {A : Type 0} where
  pub append_nil : (xs : List A) → xs ++ [] ≡ xs
  append_nil [] = refl
  append_nil (x ∷ xs) = rw (append_nil xs)

  pub append_assoc : (xs ys zs : List A) → (xs ++ ys) ++ zs ≡ xs ++ (ys ++ zs)
  append_assoc [] ys zs = refl
  append_assoc (x ∷ xs) ys zs = ap (λ l. x ∷ l) (append_assoc xs ys zs)

  pub last-cases : (xs : List A) → (xs ≡ []) ⊎ ((ys : List A) × (y : A) × (xs ≡ ys ++ y ∷ []))
  last-cases [] = inl refl
  last-cases (x ∷ xs) = elim (last-cases xs) [
    | inl e ↦ inr ([], x, ap (λ l. x ∷ l) e)
    | inr (ys, y, e) ↦ inr (x ∷ ys, y, ap (λ l. x ∷ l) e)
  ]

  pub head-append : (xs : List A) (p : A) → (x : A) × (ys : List A) × (xs ++ p ∷ [] ≡ x ∷ ys)
  head-append [] p = (p, [], refl)
  head-append (x ∷ xs) p = (x, xs ++ p ∷ [], refl)

  pub cons-cases : (xs : List A) → (xs ≡ []) ⊎ ((x : A) × (ys : List A) × (xs ≡ x ∷ ys))
  cons-cases [] = inl refl
  cons-cases (x ∷ xs) = inr (x, xs, refl)

  pub last?-append : (xs : List A) (x : A) → last? (xs ++ x ∷ []) ≡ some x
  last?-append [] x = refl
  last?-append (y ∷ []) x = refl
  last?-append (y ∷ z ∷ xs) x = last?-append (z ∷ xs) x

  pub get_elem?-append :
      (xs : List A) (x : A) (ys : List A) → get_elem? (xs ++ x ∷ ys) (length xs) ≡ some x
  get_elem?-append [] x ys = refl
  get_elem?-append (y ∷ xs) x ys = get_elem?-append xs x ys

  pub get_elem?-end : (xs : List A) → get_elem? xs (length xs) ≡ none
  get_elem?-end [] = refl
  get_elem?-end (x ∷ xs) = get_elem?-end xs

  pub length-snoc : (xs : List A) (x : A) → length (xs ++ x ∷ []) ≡ length xs + 1
  length-snoc xs x = length-append xs (x ∷ [])

  pub length-rest_of : (xs : List A) → length (rest_of xs) ≡ length xs - 1
  length-rest_of [] = omega arith
  length-rest_of (x ∷ xs) = omega arith

  pub Among-middle : (x : A) (xs ys : List A) → Among x (xs ++ x ∷ ys)
  Among-middle x [] ys = inl refl
  Among-middle x (y ∷ xs) ys = inr (Among-middle x xs ys)

  -- Nothing in front of the last of distinct elements is that element.
  pub Distinct-last : (xs : List A) (x : A) → Distinct (xs ++ x ∷ []) → ¬ Among x xs
  Distinct-last [] x u = λ m. m
  Distinct-last (y ∷ xs) x u = elim [
    | inl e ↦ u.0 (subst (λ z. Among z (xs ++ x ∷ [])) (sym e) (Among-middle x xs []))
    | inr m ↦ Distinct-last xs x u.1 m
  ]

  Among-left : (x : A) (xs ys : List A) → Among x xs → Among x (xs ++ ys)
  Among-left x [] ys = λ m. absurd m
  Among-left x (y ∷ xs) ys = elim [ inl e ↦ inl e | inr m ↦ inr (Among-left x xs ys m) ]

  pub Distinct-front : (xs ys : List A) → Distinct (xs ++ ys) → Distinct xs
  Distinct-front [] ys u = tt
  Distinct-front (x ∷ xs) ys u = (λ m. u.0 (Among-left x xs ys m), Distinct-front xs ys u.1)

  Among-snoc : (y x : A) (xs : List A) → Among y (xs ++ x ∷ []) → Among y xs ⊎ (x ≡ y)
  Among-snoc y x [] m = elim m [ inl e ↦ inr e | inr f ↦ absurd f ]
  Among-snoc y x (z ∷ xs) m = elim m [
    | inl e ↦ inl (inl e)
    | inr n ↦ elim (Among-snoc y x xs n) [ inl a ↦ inl (inr a) | inr e ↦ inr e ]
  ]

  pub Distinct-snoc : (xs : List A) (x : A) → Distinct xs → ¬ Among x xs → Distinct (xs ++ x ∷ [])
  Distinct-snoc [] x u out = (λ m. m, tt)
  Distinct-snoc (y ∷ xs) x u out = (
    λ m. elim (Among-snoc y x xs m) [ inl a ↦ u.0 a | inr e ↦ out (inl (sym e)) ],
    Distinct-snoc xs x u.1 (λ m. out (inr m)),
  )

  pub Distinct-rest : (xs : List A) → Distinct xs → Distinct (rest_of xs)
  Distinct-rest [] u = tt
  Distinct-rest (x ∷ xs) u = u.1

module _ {P : Type 0} (same : Discrete P) where
  pub erase-append :
      (p : P) (xs ys : List P) → ¬ Among p xs → erase same p (xs ++ p ∷ ys) ≡ xs ++ ys
  unfolding erase
  erase-append p [] ys out = rw (if_pos _ refl) refl
  erase-append p (x ∷ xs) ys out =
      rw (if_neg _ (λ e. out (inl e)), erase-append p xs ys (λ m. out (inr m)))
