-- ===== src/Rtable/Shares.antt =====
-- Tables whose rows share 1 among the node's neighbours, and `calc_next` on them.

use ant_aodv.Base.{
  map-eq-some, differ, ◌≡◌, refl, sym, ap, subst, ◌∙◌, ◌⊎◌, inl, inr, true, false, Bool-cases, ℤ,
  ℤ_discrete, if_pos, if_neg, List, [], ◌∷◌, ◌++◌, some, arith, All, Among, Distinct,
}
use ant_aodv.Base.Result.{ok}
use ant_aodv.Double.{Double, ◌⊕◌}
use ant_aodv.Double.Laws.{◌≼◌, IsUnit, IsOrdered, IsRounded, IsExact}
use ant_aodv.StdMap.{find, find-adjust}
use ant_aodv.Rtable.{
  NsAddr, PheromoneMatrix, AntnetRtable, Links, neighbors, reinforce, update_row, update, within,
  dead_end, parent_link, choose, calc_next,
}
use ant_aodv.Rtable.Choice.{calc_next-eq-choose}
use ant_aodv.Rtable.Progress.{row_sum, IsNonneg, calc_next_total}
use ant_aodv.Rtable.Update.{AreUnits, update_row_lem, total, total-update_row}

module _ {W : Type 0} ⦃d : Double W⦄ where
  -- The row has the neighbours `nbs`, with values of [0, 1] that add up to 1.
  pub record IsShared (nbs : List ℤ) (row : PheromoneMatrix W) : Type 0 where
    pub same : neighbors row ≡ nbs
    pub units : AreUnits row
    pub whole : total row ≡ d.one

  abbrev pub AreShared : List ℤ → AntnetRtable W → Type 0
  AreShared nbs t = (j : ℤ) (row : PheromoneMatrix W) → find j t.rt ≡ some row → IsShared nbs row

  neighbors-update_row :
      (r : W) (next : NsAddr) (row : PheromoneMatrix W)
      → neighbors (update_row r next row) ≡ neighbors row
  unfolding update_row reinforce
  neighbors-update_row r next [] = refl
  neighbors-update_row r next (e ∷ row) = ground (arith, neighbors-update_row r next row)

  row_sum-eq-add :
      (exact : IsExact W) (l : W) (row : PheromoneMatrix W) → row_sum l row ≡ l ⊕ total row
  unfolding row_sum total
  row_sum-eq-add exact l [] = sym (exact.add_comm l d.nought ∙ exact.nought_add l)
  row_sum-eq-add exact l (e ∷ row) =
      row_sum-eq-add exact (l ⊕ e.phvalue) row ∙ exact.add_assoc l e.phvalue (total row)

  row_sum-eq-total :
      (exact : IsExact W) (row : PheromoneMatrix W) → row_sum d.nought row ≡ total row
  row_sum-eq-total exact row = row_sum-eq-add exact d.nought row ∙ exact.nought_add (total row)

  AreUnits-IsNonneg : (row : PheromoneMatrix W) → AreUnits row → IsNonneg row
  AreUnits-IsNonneg [] u = tt
  AreUnits-IsNonneg (e ∷ row) u = (u.0.0, AreUnits-IsNonneg row u.1)

  module _ (order : IsOrdered W) (rounded : IsRounded W) (exact : IsExact W) (r : W) (ur : IsUnit r)
      (nbs : List ℤ) (apart : Distinct nbs) where
    update_row-IsShared :
        (next : NsAddr) (row : PheromoneMatrix W)
        → Among next nbs
        → IsShared nbs row
        → IsShared nbs (update_row r next row)
    update_row-IsShared next row a v = record {
      same = neighbors-update_row r next row ∙ v.same;
      units = (update_row_lem order rounded r ur next row v.units).0;
      whole =
          total-update_row exact r next row (subst Distinct (sym v.same) apart)
            (subst (Among next) (sym v.same) a)
          ∙ ap (λ x. d.add (d.mul (d.sub d.one r) x) r) v.whole
          ∙ ap (λ x. d.add x r) (exact.mul_comm _ _ ∙ exact.one_mul _)
          ∙ exact.sub-add d.one r;
    }

    -- `update` of a link of the node.
    pub update-AreShared :
        (t : AntnetRtable W) (dest next : NsAddr)
        → Among next nbs
        → AreShared nbs t
        → AreShared nbs (update r t dest next)
    unfolding update
    update-AreShared t dest next a v j row' f =
        let found = sym (find-adjust j dest (update_row r next) t.rt) ∙ f in
        elim (ℤ_discrete j dest) [
          | yes e ↦
              let (row, old, new) =
                map-eq-some (update_row r next) (find j t.rt) row'
                  (sym (if_pos (ℤ_discrete j dest) e _ _) ∙ found) in
              subst (IsShared nbs) new (update_row-IsShared next row a (v j row old))
          | no n ↦ v j row' (sym (if_neg (ℤ_discrete j dest) n _ _) ∙ found)
        ]

  -- The draws that `uniform(1.0)` gives lie in [0, 1).
  abbrev pub AreFractions : List W → Type 0
  AreFractions = All λ x. (d.nought ≼ x) × (d.lt x d.one ≡ true)

  -- Some draw lets `calc_next` return: one outside the parent's range, if that is not all of [0, 1).
  abbrev pub CanChoose : Links → (source parent : NsAddr) → PheromoneMatrix W → List W → Type 0
  CanChoose links source parent row xs =
      let s = parent_link links source parent row in
      (dead_end s ≡ true) ⊎ (x : W) × Among x xs × (within s.lrange s.urange x ≡ false)

  -- The first draw outside a range, and those before it.
  abbrev FirstOutside : (l u : W) → List W → Type 0
  FirstOutside l u xs =
      (pre : List W) × (x : W) × (post : List W) × (xs ≡ pre ++ x ∷ post)
      × All (λ y. within l u y ≡ true) pre
      × (within l u x ≡ false)
      × (d.nought ≼ x)
      × (d.lt x d.one ≡ true)

  first_outside :
      (l u : W) (xs : List W) (x : W)
      → AreFractions xs
      → Among x xs
      → within l u x ≡ false
      → FirstOutside l u xs
  first_outside l u [] x a among out = elim among [ ]
  first_outside l u (y ∷ xs) x a among out = elim (Bool-cases (within l u y)) [
    | inr free ↦ ([], y, xs, refl, tt, free, a.0.0, a.0.1)
    | inl kept ↦ elim among [
      | inl e ↦ absurd (differ (within l u y) kept (subst (λ z. within l u z ≡ false) (sym e) out))
      | inr later ↦
          let (pre, z, post, split, before, free, low, high) =
            first_outside l u xs x a.1 later out in
          (y ∷ pre, z, post, ap (◌∷◌ y) split, (kept, before), free, low, high)
    ]
  ]

  calc_next_back :
      (links : Links) (t : AntnetRtable W) (source dest parent : NsAddr) (row : PheromoneMatrix W)
      → find dest t.rt ≡ some row
      → dead_end (parent_link links source parent row) ≡ true
      → calc_next links t source dest parent ≡ ok (parent, t)
  unfolding choose parent_link
  calc_next_back links t source dest parent row f dead =
      rw (calc_next-eq-choose links t source dest parent row f, dead)

  module _ (order : IsOrdered W) (rounded : IsRounded W) (exact : IsExact W) where
    -- On a shared row `calc_next` returns, and changes no row.
    pub calc_next_live :
        (links : Links) (t : AntnetRtable W) (source dest parent : NsAddr) (nbs : List ℤ)
        (row : PheromoneMatrix W)
        → find dest t.rt ≡ some row
        → IsShared nbs row
        → AreFractions t.rnum.doubles
        → CanChoose links source parent row t.rnum.doubles
        → (a : NsAddr) × (t' : AntnetRtable W) × (calc_next links t source dest parent ≡ ok (a, t'))
          × (t'.rt ≡ t.rt)
    calc_next_live links t source dest parent nbs row f v draws can =
        let s = parent_link links source parent row in
        elim (Bool-cases (dead_end s)) [
          | inl dead ↦ (parent, t, calc_next_back links t source dest parent row f dead, refl)
          | inr live ↦ elim can [
            | inl dead ↦ absurd (differ (dead_end s) dead live)
            | inr (x, among, out) ↦
                let (pre, z, post, split, before, free, low, high) =
                  first_outside s.lrange s.urange t.rnum.doubles x draws among out in
                let (a, returns) =
                  calc_next_total order rounded links t source dest parent row pre z post f
                    (AreUnits-IsNonneg row v.units) live split before free low
                    (subst (λ y. d.lt z y ≡ true) (sym (row_sum-eq-total exact row ∙ v.whole))
                      high) in
                (a, _, returns, refl)
          ]
        ]
