-- ===== src/StdMap.antt =====
-- `std::map<nsaddr_t, V>` as the code uses it: `find`, `m[k] = v`, a write through an iterator, and
-- iteration by rising keys.
use mathlib.Core.Option
use ant_aodv.Base.{
  All, subst, sym, ◌∙◌, if_pos, if_neg, some-injective, ℤ, ℤ_discrete, ltb_ℤ, ite, if◌then◌else◌,
  ◌≡◌, refl, List, [], ◌∷◌, Option, none, some, arith,
}

abbrev pub Map : Type 0 → Type 0
Map V = List (ℤ × V)

module _ {V : Type 0} where
  unfoldable pub find : ℤ → Map V → Option V
  find k [] = none
  find k ((j, v) ∷ m) = ite (ℤ_discrete k j) (some v) (find k m)

  -- `m[k] = v`: the entry of `k` gets the value, or a new entry takes its place in the order.
  unfoldable pub insert : ℤ → V → Map V → Map V
  insert k v [] = (k, v) ∷ []
  insert k v ((j, w) ∷ m) =
      ite (ℤ_discrete k j) ((k, v) ∷ m)
        (if ltb_ℤ k j then (k, v) ∷ (j, w) ∷ m else (j, w) ∷ insert k v m)

  -- `(*find(k)).second = f (*find(k)).second`, where the key is found.
  unfoldable pub adjust : ℤ → (V → V) → Map V → Map V
  adjust k f [] = []
  adjust k f ((j, w) ∷ m) = ite (ℤ_discrete k j) ((j, f w) ∷ m) ((j, w) ∷ adjust k f m)

  -- What holds of all values holds of a value found.
  pub find-All :
      (P : V → Type 0) (k : ℤ) (m : Map V) (v : V) → All (λ (j, w). P w) m → find k m ≡ some v → P v
  unfolding find
  find-All P k [] v all f = cc
  find-All P k ((j, w) ∷ m) v all f = elim (ℤ_discrete k j) [
    | yes e ↦ subst P (some-injective (sym (if_pos (ℤ_discrete k j) e _ _) ∙ f)) all.0
    | no n ↦ find-All P k m v all.1 (sym (if_neg (ℤ_discrete k j) n _ _) ∙ f)
  ]

  pub find-insert :
      (j k : ℤ) (v : V) (m : Map V)
      → find j (insert k v m) ≡ ite (ℤ_discrete j k) (some v) (find j m)
  unfolding find insert
  find-insert j k v [] = refl
  find-insert j k v ((i, w) ∷ m) = ground (arith, find-insert j k v m)

  pub find-adjust :
      (j k : ℤ) (f : V → V) (m : Map V)
      → find j (adjust k f m) ≡ ite (ℤ_discrete j k) (Option.map f (find j m)) (find j m)
  unfolding find adjust
  find-adjust j k f [] = ground arith
  find-adjust j k f ((i, w) ∷ m) = ground (arith, find-adjust j k f m)
