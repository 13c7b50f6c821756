-- ===== src/Rtable/Update.antt =====
-- What `update` does to the table.
use ant_aodv.Base.{
  ◌≡◌, ◌≢◌, refl, sym, ap, ◌∙◌, ◌⊎◌, inl, inr, if_pos, if_neg, subst, [], ◌∷◌, some, arith, All,
  Among, Distinct, ℤ_discrete,
}
use ant_aodv.Double.{Double, ◌⊕◌, ◌⊖◌, ◌⊗◌}
use ant_aodv.Double.Laws.{◌≼◌, IsUnit, IsOrdered, IsRounded, IsExact}
use ant_aodv.StdMap.{Map, find-All, find, adjust, find-adjust}
use ant_aodv.Rtable.{
  NsAddr, Pheromone, PheromoneMatrix, AntnetRtable, neighbors, reinforce, update_row, update,
}

module _ {W : Type 0} ⦃d : Double W⦄ where
  -- The neighbour's value has gone up by `r` times what it lacks of 1 where it is `next`, and elsewhere
  -- it has gone down to its part `1 - r`.
  abbrev IsMoved : W → NsAddr → Pheromone W → Pheromone W → Type 0
  IsMoved r next e e' =
      (e'.neighbor ≡ e.neighbor)
      × (e.neighbor ≡ next
          → (e'.phvalue ≡ e.phvalue ⊕ r ⊗ (d.one ⊖ e.phvalue)) × (e.phvalue ≼ e'.phvalue))
      × (e.neighbor ≢ next → (e'.phvalue ≡ (d.one ⊖ r) ⊗ e.phvalue) × (e'.phvalue ≼ e.phvalue))

  -- Entry by entry.
  abbrev pub AreMoved : W → NsAddr → PheromoneMatrix W → PheromoneMatrix W → Type 0
  AreMoved r next [] [] = Unit
  AreMoved r next (e ∷ row) (e' ∷ row') = IsMoved r next e e' × AreMoved r next row row'
  AreMoved r next _ _ = ⊥

  abbrev pub AreUnits : PheromoneMatrix W → Type 0
  AreUnits = All λ e. IsUnit e.phvalue

  -- Every row of the table holds values of [0, 1].
  abbrev pub IsValid : AntnetRtable W → Type 0
  IsValid t = All (λ (k, row). AreUnits row) t.rt

  module _ (order : IsOrdered W) (rounded : IsRounded W) (r : W) (ur : IsUnit r)
      (next : NsAddr) where
    open order use {le_trans, nought_unit}
    open rounded use {sub_unit, mul_unit, le-add, add_mono, add-sub_le}

    -- `p + r * (1 - p)`
    raise_unit : (p : W) → IsUnit p → (p ≼ p ⊕ r ⊗ (d.one ⊖ p)) × (p ⊕ r ⊗ (d.one ⊖ p) ≼ d.one)
    raise_unit p u =
        let v = sub_unit p u in
        let (low, high) = mul_unit r (d.one ⊖ p) ur v in
        (
          le-add p _ u.0 low,
          le_trans _ _ _ (add_mono p _ _ u (low, le_trans _ _ _ high v.1) v high) (add-sub_le p u),
        )

    reinforce_lem :
        (e : Pheromone W)
        → IsUnit e.phvalue
        → IsUnit (reinforce r next e).phvalue × IsMoved r next e (reinforce r next e)
    unfolding reinforce
    reinforce_lem e u =
        let (up, top) = raise_unit e.phvalue u in
        let (low, high) = mul_unit (d.one ⊖ r) e.phvalue (sub_unit r ur) u in
        ground (
          arith,
          le_trans d.nought e.phvalue (e.phvalue ⊕ r ⊗ (d.one ⊖ e.phvalue)) u.0 up,
          le_trans ((d.one ⊖ r) ⊗ e.phvalue) e.phvalue d.one high u.1,
        )

    pub update_row_lem :
        (row : PheromoneMatrix W)
        → AreUnits row
        → AreUnits (update_row r next row) × AreMoved r next row (update_row r next row)
    unfolding update_row
    update_row_lem [] u = (tt, tt)
    update_row_lem (e ∷ row) u =
        let (a, b) = reinforce_lem e u.0 in
        let (as', bs) = update_row_lem row u.1 in ((a, as'), (b, bs))

    adjust-IsValid :
        (dest : NsAddr) (m : Map (PheromoneMatrix W))
        → All (λ (k, row). AreUnits row) m
        → All (λ (k, row). AreUnits row) (adjust dest (update_row r next) m)
    unfolding adjust
    adjust-IsValid dest [] v = tt
    adjust-IsValid dest ((k, w) ∷ m) v =
        ground (arith, adjust-IsValid dest m v.1, update_row_lem w v.0)

    -- With a reinforcement `r` in [0, 1], `update` keeps every pheromone value in [0, 1].
    pub update-IsValid :
        (t : AntnetRtable W) (dest : NsAddr) → IsValid t → IsValid (update r t dest next)
    unfolding update
    update-IsValid t dest v = adjust-IsValid dest t.rt v

    -- In the row of the destination the value `p` of the link `next` becomes `p + r (1 - p)`, which is
    -- not below `p`, and every other value `p` becomes `(1 - r) p`, which is not above `p`; the
    -- neighbours are as before, and every other row is as before. `r` and the values lie in [0, 1].
    pub update_lem :
        (t : AntnetRtable W) (dest j : NsAddr) (row : PheromoneMatrix W)
        → IsValid t
        → find j t.rt ≡ some row
        → (row' : PheromoneMatrix W) × (find j (update r t dest next).rt ≡ some row')
          × ((j ≡ dest) × AreMoved r next row row' ⊎ (j ≢ dest) × (row' ≡ row))
    unfolding update
    update_lem t dest j row v f = elim (ℤ_discrete j dest) [
      | yes e ↦ (
        update_row r next row,
        rw (find-adjust, if_pos _ e, f),
        inl (e, (update_row_lem row (find-All AreUnits j t.rt row v f)).1),
      )
      | no ne ↦ (row, rw (find-adjust, if_neg _ ne, f), inr (ne, refl))
    ]

  -- The sum of a row's pheromone values.
  unfoldable pub total : PheromoneMatrix W → W
  total [] = d.nought
  total (e ∷ row) = e.phvalue ⊕ total row

  module _ (exact : IsExact W) (r : W) (next : NsAddr) where
    open exact use {
      add_comm, add_assoc, nought_add, sub-add, mul_comm, mul_nought, one_mul, mul_add, add_mul,
    }

    keep_rest : (x : W) → (d.one ⊖ r) ⊗ x ⊕ r ⊗ x ≡ x
    keep_rest x = sym (add_mul _ _ x) ∙ ap (λ y. y ⊗ x) (sub-add d.one r) ∙ one_mul x

    raise-eq : (p : W) → p ⊕ r ⊗ (d.one ⊖ p) ≡ (d.one ⊖ r) ⊗ p ⊕ r
    raise-eq p =
        let whole : r ⊗ p ⊕ r ⊗ (d.one ⊖ p) ≡ r =
          sym (mul_add r p _)
          ∙ ap (◌⊗◌ r) (add_comm p _ ∙ sub-add d.one p)
          ∙ mul_comm r d.one
          ∙ one_mul r in
        ap (λ x. x ⊕ r ⊗ (d.one ⊖ p)) (sym (keep_rest p))
        ∙ add_assoc _ _ _
        ∙ ap (◌⊕◌ ((d.one ⊖ r) ⊗ p)) whole

    reinforce_hit :
        (e : Pheromone W)
        → e.neighbor ≡ next
        → (reinforce r next e).phvalue ≡ e.phvalue ⊕ r ⊗ (d.one ⊖ e.phvalue)
    unfolding reinforce
    reinforce_hit e p = ground arith

    reinforce_miss :
        (e : Pheromone W)
        → e.neighbor ≢ next
        → (reinforce r next e).phvalue ≡ (d.one ⊖ r) ⊗ e.phvalue
    unfolding reinforce
    reinforce_miss e n = ground arith

    total-update_row_none :
        (row : PheromoneMatrix W)
        → ¬ Among next (neighbors row)
        → total (update_row r next row) ≡ (d.one ⊖ r) ⊗ total row
    unfolding total update_row
    total-update_row_none [] out = sym (mul_nought _)
    total-update_row_none (e ∷ row) out =
        rw (reinforce_miss e (λ p. out (inl p)), total-update_row_none row (λ p. out (inr p)))
          (sym (mul_add _ _ _))

    pub total-update_row :
        (row : PheromoneMatrix W)
        → Distinct (neighbors row)
        → Among next (neighbors row)
        → total (update_row r next row) ≡ (d.one ⊖ r) ⊗ total row ⊕ r
    unfolding total update_row
    total-update_row [] u a = elim a [ ]
    total-update_row (e ∷ row) u (inl p) =
        let out : ¬ Among next (neighbors row) = subst (λ x. ¬ Among x (neighbors row)) p u.0 in
        rw (reinforce_hit e p, total-update_row_none row out, raise-eq e.phvalue, mul_add)
          (add_assoc _ _ _ ∙ ap (◌⊕◌ _) (add_comm _ _) ∙ sym (add_assoc _ _ _))
    total-update_row (e ∷ row) u (inr a) =
        let ne : e.neighbor ≢ next = λ p. u.0 (subst (λ x. Among x (neighbors row)) (sym p) a) in
        rw (reinforce_miss e ne, total-update_row row u.1 a, mul_add) (sym (add_assoc _ _ _))

    -- In exact arithmetic `update` keeps the sum of the destination's row at 1, where the link `next`
    -- stands in the row and the neighbours of the row are distinct.
    pub total-update :
        (t : AntnetRtable W) (dest : NsAddr) (row : PheromoneMatrix W)
        → find dest t.rt ≡ some row
        → Distinct (neighbors row)
        → Among next (neighbors row)
        → total row ≡ d.one
        → (row' : PheromoneMatrix W) × (find dest (update r t dest next).rt ≡ some row')
          × (total row' ≡ d.one)
    unfolding update
    total-update t dest row f u a e = (
      update_row r next row,
      rw (find-adjust, if_pos _ refl, f),
      total-update_row row u a
          ∙ ap (λ x. (d.one ⊖ r) ⊗ x ⊕ r) e
          ∙ ap (λ x. x ⊕ r) (mul_comm _ _ ∙ one_mul _)
          ∙ sub-add d.one r,
    )
