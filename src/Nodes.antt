-- ===== src/Nodes.antt =====
-- Lists of node addresses without repetition, and how long they can be.
use ant_aodv.Base.{
  ℕ, zero, suc, ◌≤◌, ◌<◌, ◌≡◌, ◌≢◌, refl, ap, subst, ◌⊎◌, inl, inr, ℤ, pos, negsuc, ℤ_discrete, ite,
  if_pos, if_neg, List, [], ◌∷◌, ◌++◌, sym, length, Among, Distinct, All, arith,
}

-- The addresses 0 to `k - 1`.
abbrev pub IsNode : ℕ → ℤ → Type 0
IsNode k (pos i) = i < k
IsNode k (negsuc i) = ⊥

pub Among-cases : (a : ℤ) (xs : List ℤ) → Among a xs ⊎ (¬ Among a xs)
Among-cases a [] = inr (λ x. x)
Among-cases a (x ∷ xs) = elim (ℤ_discrete x a) [
  | yes p ↦ inl (inl p)
  | no n ↦ elim (Among-cases a xs) [
    | inl q ↦ inl (inr q)
    | inr m ↦ inr (elim [ inl p ↦ n p | inr q ↦ m q ])
  ]
]

-- The list without `a`.
without : ℤ → List ℤ → List ℤ
without a [] = []
without a (x ∷ xs) = ite (ℤ_discrete x a) (without a xs) (x ∷ without a xs)

without_none : (a : ℤ) (xs : List ℤ) → ¬ Among a xs → without a xs ≡ xs
unfolding without
without_none a [] m = refl
without_none a (x ∷ xs) m = rw (if_neg _ (λ e. m (inl e)), without_none a xs (λ q. m (inr q)))

Among-without : (a x : ℤ) (xs : List ℤ) → Among x (without a xs) → Among x xs
unfolding without
Among-without a x [] m = m
Among-without a x (y ∷ xs) m = ground (arith, Among-without a x xs)

without-Distinct : (a : ℤ) (xs : List ℤ) → Distinct xs → Distinct (without a xs)
unfolding without
without-Distinct a [] u = tt
without-Distinct a (x ∷ xs) u = elim (ℤ_discrete x a) [
  | yes e ↦ rw (if_pos _ e) (without-Distinct a xs u.1)
  | no n ↦ rw (if_neg _ n) (λ m. u.0 (Among-without a x xs m), without-Distinct a xs u.1)
]

length-without : (a : ℤ) (xs : List ℤ) → Distinct xs → length xs ≤ suc (length (without a xs))
unfolding without
length-without a [] u = omega arith
length-without a (x ∷ xs) u = elim (ℤ_discrete x a) [
  | yes e ↦ rw (if_pos _ e, without_none a xs (subst (λ z. ¬ Among z xs) e u.0)) (omega arith)
  | no n ↦ rw (if_neg _ n) (omega (arith, length-without a xs u.1))
]

IsNode-down : (k : ℕ) (x : ℤ) → IsNode (suc k) x → x ≢ pos k → IsNode k x
IsNode-down k (pos i) h n = let ne : i ≢ k = λ e. n (ap pos e) in omega arith
IsNode-down k (negsuc i) h n = h

without-All : (k : ℕ) (xs : List ℤ) → All (IsNode (suc k)) xs → All (IsNode k) (without (pos k) xs)
unfolding without
without-All k [] h = tt
without-All k (x ∷ xs) h = elim (ℤ_discrete x (pos k)) [
  | yes e ↦ rw (if_pos _ e) (without-All k xs h.1)
  | no n ↦ rw (if_neg _ n) (IsNode-down k x h.0 n, without-All k xs h.1)
]

IsNode-zero : (x : ℤ) → ¬ IsNode 0 x
IsNode-zero (pos i) h = omega arith
IsNode-zero (negsuc i) h = h

-- Distinct nodes out of `k` are at most `k`.
pub length-le : (k : ℕ) (xs : List ℤ) → Distinct xs → All (IsNode k) xs → length xs ≤ k
length-le zero [] u h = omega arith
length-le zero (x ∷ xs) u h = absurd (IsNode-zero x h.0)
length-le (suc k) xs u h = omega (
  arith,
  length-without (pos k) xs u,
  length-le k (without (pos k) xs) (without-Distinct (pos k) xs u) (without-All k xs h),
)

pub Among-append : (x : ℤ) (xs ys : List ℤ) → Among x ys → Among x (xs ++ ys)
Among-append x [] ys m = m
Among-append x (z ∷ xs) ys m = inr (Among-append x xs ys m)

pub Distinct-behind : (a : ℤ) (pre post : List ℤ) → Distinct (pre ++ a ∷ post) → Distinct (a ∷ post)
Distinct-behind a [] post u = u
Distinct-behind a (x ∷ pre) post u = Distinct-behind a pre post u.1

pub Distinct-ahead : (a : ℤ) (pre post : List ℤ) → Distinct (pre ++ a ∷ post) → ¬ Among a pre
Distinct-ahead a [] post u m = m
Distinct-ahead a (x ∷ pre) post u (inl e) = u.0 (Among-append x pre (a ∷ post) (inl (sym e)))
Distinct-ahead a (x ∷ pre) post u (inr m) = Distinct-ahead a pre post u.1 m
