-- ===== src/Rtable/Heuristic.antt =====
-- What the lengths of the interface queues do to the choice of `calc_next`.
use mathlib.Core.Path.{fun_ext}
use ant_aodv.Base.{◌≡◌, refl, ap, sym, ◌∙◌, [], ◌∷◌, none, arith, Option-cases, inl, inr}
use ant_aodv.Base.Result.{ok, fault, Fault, ◌>>=◌}
use ant_aodv.Double.{Double, ◌⊕◌}
use ant_aodv.StdMap.{find}
use ant_aodv.Rtable.{
  NsAddr, Pheromone, PheromoneMatrix, AntnetRtable, Links, Range, parent_range, pick, draw_outside,
  fix_urange, dead_end, sample, choose, calc_next, start, heuristic_prob,
}
use ant_aodv.Rtable.Choice.{calc_next-eq-choose}

module _ {W : Type 0} ⦃d : Double W⦄ (links links' : Links) (source : NsAddr) where
  prob : Links → W → Pheromone W → W
  prob l q e = heuristic_prob q l.n (l.queue_length source e.neighbor) e.phvalue

  -- Two ranges with the same ends.
  abbrev SameEnds : Range W → Range W → Type 0
  SameEnds s s' = (s.lrange ≡ s'.lrange) × (s.urange ≡ s'.urange)

  pick-SameEnds :
      (q q' x : W) (s s' : Range W) (row : PheromoneMatrix W)
      → SameEnds s s'
      → pick links source q x s row ≡ pick links' source q' x s' row
  unfolding pick prob
  pick-SameEnds q q' x s s' [] e = refl
  pick-SameEnds q q' x s s' (p ∷ row) e =
      let u = s.urange ⊕ p.phvalue in
      let u' = s'.urange ⊕ p.phvalue in
      ground (
        arith,
        pick-SameEnds q q' x (record { lrange = u; urange = u; thisprob = prob links q p })
            (record { lrange = u'; urange = u'; thisprob = prob links' q' p }) row,
      )

  parent_range-SameEnds :
      (parent : NsAddr) (q q' : W) (s s' : Range W) (row : PheromoneMatrix W)
      → SameEnds s s'
      → SameEnds
          (parent_range links source parent q s row)
          (parent_range links' source parent q' s' row)
  unfolding parent_range prob
  parent_range-SameEnds parent q q' s s' [] e = e
  parent_range-SameEnds parent q q' s s' (p ∷ row) e = ground (
    arith,
    parent_range-SameEnds parent q q'
        (record s { lrange = s.lrange ⊕ p.phvalue; thisprob = prob links q p })
        (record s' { lrange = s'.lrange ⊕ p.phvalue; thisprob = prob links' q' p }) row,
  )

  fix_urange-SameEnds : (s s' : Range W) → SameEnds s s' → SameEnds (fix_urange s) (fix_urange s')
  unfolding fix_urange
  fix_urange-SameEnds s s' e = ground arith

  sample-SameEnds :
      (t : AntnetRtable W) (q q' : W) (s s' : Range W) (row : PheromoneMatrix W)
      → SameEnds s s'
      → sample links t source q s row ≡ sample links' t source q' s' row
  unfolding sample
  sample-SameEnds t q q' s s' row e =
      rw (e.0, e.1)
        (ap (λ f. draw_outside s'.lrange s'.urange t.rnum.doubles >>= f)
          (fun_ext λ p.
            ap
              (λ m. m >>= λ next.
                ok (next, record t { rnum = record { ints = t.rnum.ints; doubles = p.1 } }))
              (pick-SameEnds q q' p.0 start start row (refl, refl))))

  choose-eq :
      (t : AntnetRtable W) (parent : NsAddr) (q q' : W) (row : PheromoneMatrix W)
      → choose links t source parent q row ≡ choose links' t source parent q' row
  unfolding choose dead_end
  choose-eq t parent q q' row =
      let s = fix_urange (parent_range links source parent q start row) in
      let s' = fix_urange (parent_range links' source parent q' start row) in
      let e =
        fix_urange-SameEnds (parent_range links source parent q start row)
          (parent_range links' source parent q' start row)
          (parent_range-SameEnds parent q q' start start row (refl, refl)) in
      ground (arith, e, sample-SameEnds t q q' s s' row e)

  -- Whatever the lengths of the interface queues and the number of neighbours, `calc_next` makes the
  -- same choice: `thisprob`, into which they go, decides nothing.
  pub calc_next-queues :
      (t : AntnetRtable W) (dest parent : NsAddr)
      → calc_next links t source dest parent ≡ calc_next links' t source dest parent
  unfolding calc_next
  calc_next-queues t dest parent = elim (Option-cases (find dest t.rt)) [
    | inl e ↦ calc_next-none links e ∙ sym (calc_next-none links' e)
    | inr (row, e) ↦
        calc_next-eq-choose links t source dest parent row e
        ∙ choose-eq t parent _ _ row
        ∙ sym (calc_next-eq-choose links' t source dest parent row e)
  ]
    where
      calc_next-none :
          (l : Links)
          → find dest t.rt ≡ none
          → calc_next l t source dest parent ≡ fault Fault.no_return
      calc_next-none l e = rw (e, calc_next)
