-- ===== src/Traffic/Least.antt =====
-- The best trip time of a window is its least.
use ant_aodv.Base.{
  differ, ◌≡◌, refl, sym, subst, inl, inr, true, false, if◌then◌else◌, Bool-cases, List, [], ◌∷◌,
  ◌++◌, All, Among,
}
use ant_aodv.Base.Result.{ok}
use ant_aodv.Double.{Double}
use ant_aodv.Double.Laws.{◌≼◌, IsOrdered}
use ant_aodv.Traffic.{min_from, min_tt}

module _ {W : Type 0} ⦃d : Double W⦄ (order : IsOrdered W) where
  open order use {le_trans, lt_or_le, le_of_lt}

  -- The value is in the list or was the least before, and is at most each of them.
  abbrev IsLeast : (m : W) → (xs : List W) → (best : W) → Type 0
  IsLeast m xs best = Among best (m ∷ xs) × (best ≼ m) × All (λ x. best ≼ x) xs

  IsLeast-less :
      (m x : W) (xs : List W)
      → d.lt x m ≡ true
      → IsLeast x xs (min_from x xs)
      → IsLeast m (x ∷ xs) (min_from m (x ∷ xs))
  unfolding min_from
  IsLeast-less m x xs less (among, below, all) =
      subst (λ b. IsLeast m (x ∷ xs) (min_from (if b then x else m) xs)) (sym less)
        (inr among, le_trans _ _ _ below (le_of_lt x m less), (below, all))

  IsLeast-kept :
      (m x : W) (xs : List W)
      → d.lt x m ≡ false
      → m ≼ x
      → IsLeast m xs (min_from m xs)
      → IsLeast m (x ∷ xs) (min_from m (x ∷ xs))
  unfolding min_from
  IsLeast-kept m x xs kept up (among, below, all) =
      subst (λ b. IsLeast m (x ∷ xs) (min_from (if b then x else m) xs)) (sym kept)
        (elim among [ inl e ↦ inl e | inr b ↦ inr (inr b) ], below, (le_trans _ _ _ below up, all))

  IsLeast-none : (m : W) → m ≼ m → IsLeast m [] (min_from m [])
  unfolding min_from
  IsLeast-none m p = (inl refl, p, tt)

  min_from_lem : (m : W) (xs : List W) → m ≼ m → All (λ x. x ≼ x) xs → IsLeast m xs (min_from m xs)
  min_from_lem m [] p a = IsLeast-none m p
  min_from_lem m (x ∷ xs) p a = elim (Bool-cases (d.lt x m)) [
    | inl less ↦ IsLeast-less m x xs less (min_from_lem x xs a.0 a.1)
    | inr more ↦
        let up : m ≼ x = elim (lt_or_le x m a.0 p) [
          | inl less ↦ absurd (differ (d.lt x m) less more)
          | inr le ↦ le
        ] in
        IsLeast-kept m x xs more up (min_from_lem m xs p a.1)
  ]

  -- `min_tt` of a window that is not empty returns one of its trip times, which is at most each of
  -- them. The trip times are numbers (each is at most itself).
  pub min_tt_lem :
      (x : W) (xs : List W)
      → All (λ y. y ≼ y) (x ∷ xs)
      → (m : W) × (min_tt (x ∷ xs) ≡ ok m) × Among m (x ∷ xs) × All (λ y. m ≼ y) (x ∷ xs)
  unfolding min_tt
  min_tt_lem x xs a =
      let (among, below, all) = min_from_lem x (x ∷ xs) a.0 a in
      (min_from x (x ∷ xs), refl, elim among [ inl e ↦ inl e | inr b ↦ b ], all)

  -- The same of a window that has got a trip time at its end.
  pub min_tt-snoc :
      (w : List W) (time : W)
      → All (λ y. y ≼ y) (w ++ time ∷ [])
      → (m : W) × (min_tt (w ++ time ∷ []) ≡ ok m)
        × Among m (w ++ time ∷ [])
        × All (λ y. m ≼ y) (w ++ time ∷ [])
  min_tt-snoc [] time a = min_tt_lem time [] a
  min_tt-snoc (x ∷ w) time a = min_tt_lem x (w ++ time ∷ []) a

module _ {W : Type 0} ⦃d : Double W⦄ where
  pub min_tt_total : (w : List W) (time : W) → (m : W) × (min_tt (w ++ time ∷ []) ≡ ok m)
  unfolding min_tt
  min_tt_total [] time = (min_from time (time ∷ []), refl)
  min_tt_total (x ∷ w) time = (min_from x (x ∷ w ++ time ∷ []), refl)
