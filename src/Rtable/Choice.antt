-- ===== src/Rtable/Choice.antt =====
-- Where `calc_next` sends an ant.
use ant_aodv.Base.{
  ◌≡◌, ◌≢◌, inl, inr, true, false, List, [], ◌∷◌, some, arith, All, Among, Distinct, Bool-cases,
}
use ant_aodv.Base.Result.{Result, ok, >>=-eq-ok}
use ant_aodv.Double.{Double, ◌⊕◌}
use ant_aodv.StdMap.{find}
use ant_aodv.Rtable.{
  NsAddr, PheromoneMatrix, AntnetRtable, Links, Range, neighbors, parent_range, pick, within,
  draw_outside, fix_urange, dead_end, parent_link, sample, choose, calc_next, start, queue_total,
  nonzero_total, heuristic_prob,
}

module _ {W : Type 0} ⦃d : Double W⦄ where
  pick-Among :
      (links : Links) (source : NsAddr) (q x : W) (s : Range W) (row : PheromoneMatrix W)
      (a : NsAddr)
      → pick links source q x s row ≡ ok a
      → Among a (neighbors row)
  unfolding pick
  pick-Among links source q x s [] a h = cc
  pick-Among links source q x s (e ∷ row) a h =
      let u = s.urange ⊕ e.phvalue in
      let prob = heuristic_prob q links.n (links.queue_length source e.neighbor) e.phvalue in
      ground (
        arith,
        pick-Among links source q x (record { lrange = u; urange = u; thisprob = prob }) row a,
      )

  -- The loops over the row add up the same sums, so that the range kept out is the parent's own.
  pick_parent :
      (links : Links) (source parent : NsAddr) (q x : W) (s t : Range W) (row : PheromoneMatrix W)
      → Distinct (neighbors row)
      → s.lrange ≡ t.lrange
      → t.lrange ≡ t.urange
      → pick links source q x t row ≡ ok parent
      → let found = parent_range links source parent q s row in
        within found.lrange found.urange x ≡ true
  unfolding pick parent_range
  pick_parent links source parent q x s t [] u l e h = cc
  pick_parent links source parent q x s t (p ∷ row) u l e h =
      let u' = t.urange ⊕ p.phvalue in
      let prob = heuristic_prob q links.n (links.queue_length source p.neighbor) p.phvalue in
      let t' : Range W = record { lrange = u'; urange = u'; thisprob = prob } in
      let s' : Range W = record s { lrange = s.lrange ⊕ p.phvalue; thisprob = prob } in
      ground (
        arith,
        pick-Among links source q x t' row parent,
        pick_parent links source parent q x s' t' row u.1,
      )

  -- The draws that `uniform(1.0)` gives lie below 1.
  abbrev pub AreDraws : List W → Type 0
  AreDraws = All λ x. d.lt x d.one ≡ true

  draw_outside_lem :
      (l u : W) (xs : List W) (x : W) (ys : List W)
      → AreDraws xs
      → draw_outside l u xs ≡ ok (x, ys)
      → (within l u x ≡ false) × (d.lt x d.one ≡ true) × AreDraws ys
  unfolding draw_outside
  draw_outside_lem l u [] x ys a h = cc
  draw_outside_lem l u (z ∷ xs) x ys a h = ground (arith, draw_outside_lem l u xs x ys a.1)

  -- What becomes of a choice: the parent again, for the reason that its range is all of [0, 1), or
  -- another neighbour of the row. The table stays as it is.
  pub data Chosen (links : Links) (source parent : NsAddr) (row : PheromoneMatrix W) (a : NsAddr)
      : Type 0 where
    back :
        a ≡ parent
        → dead_end (parent_link links source parent row) ≡ true
        → Chosen links source parent row a
    onward : a ≢ parent → Among a (neighbors row) → Chosen links source parent row a

  pick-ne-parent :
      (links : Links) (source parent : NsAddr) (q x : W) (row : PheromoneMatrix W) (a : NsAddr)
      → Distinct (neighbors row)
      → d.lt x d.one ≡ true
      → let s = fix_urange (parent_range links source parent q start row) in
        within s.lrange s.urange x ≡ false → pick links source q x start row ≡ ok a → a ≢ parent
  unfolding fix_urange
  pick-ne-parent links source parent q x row a u below out h e =
      ground (arith, pick_parent links source parent q x start start row u)

  pub calc_next-eq-choose :
      (links : Links) (t : AntnetRtable W) (source dest parent : NsAddr) (row : PheromoneMatrix W)
      → find dest t.rt ≡ some row
      → calc_next links t source dest parent
        ≡ choose links t source parent (nonzero_total (queue_total links source d.nought row)) row
  unfolding calc_next
  calc_next-eq-choose links t source dest parent row f = rw (f, calc_next)

  sample_lem :
      (links : Links) (t : AntnetRtable W) (source parent : NsAddr) (q : W)
      (row : PheromoneMatrix W) (a : NsAddr) (t' : AntnetRtable W)
      → Distinct (neighbors row)
      → AreDraws t.rnum.doubles
      → let s = fix_urange (parent_range links source parent q start row) in
        sample links t source q s row ≡ ok (a, t')
        → (a ≢ parent) × Among a (neighbors row) × (t'.rt ≡ t.rt)
  unfolding sample
  sample_lem links t source parent q row a t' u draws h =
      let s = fix_urange (parent_range links source parent q start row) in
      let ((x, ys), drawn, picks) = >>=-eq-ok (draw_outside s.lrange s.urange t.rnum.doubles) _ h in
      let (b, picked, same) = >>=-eq-ok (pick links source q x start row) _ picks in
      let (out, below, _) = draw_outside_lem s.lrange s.urange t.rnum.doubles x ys draws drawn in
      ground (
        arith,
        pick-ne-parent links source parent q x row b u below out picked,
        pick-Among links source q x start row b picked,
      )

  -- Where the destination has a row and `calc_next` returns, it returns a neighbour of the destination's row other than the parent, or it returns
  -- the parent where the parent's range is all of [0, 1); and it changes no row. The neighbours of
  -- the row are distinct, and the generator's draws are below 1.
  pub calc_next_lem :
      (links : Links) (t : AntnetRtable W) (source dest parent : NsAddr) (row : PheromoneMatrix W)
      (a : NsAddr) (t' : AntnetRtable W)
      → find dest t.rt ≡ some row
      → Distinct (neighbors row)
      → AreDraws t.rnum.doubles
      → calc_next links t source dest parent ≡ ok (a, t')
      → Chosen links source parent row a × (t'.rt ≡ t.rt)
  unfolding choose parent_link
  calc_next_lem links t source dest parent row a t' f u draws h =
      let q = nonzero_total (queue_total links source d.nought row) in
      let e : choose links t source parent q row ≡ ok (a, t') =
        rw (calc_next-eq-choose links t source dest parent row f) at h in
      elim (Bool-cases (dead_end (parent_link links source parent row))) [
        | inl dead ↦
            let gone : ◌≡◌ {A = Result (NsAddr × AntnetRtable W)} (ok (parent, t)) (ok (a, t')) =
              rw (dead, choose, parent_link) at e in
            (back (ground arith) dead, ground arith)
        | inr live ↦
            let (ne, among, same) =
              sample_lem links t source parent q row a t' u draws
                (rw (live, choose, parent_link) at e) in
            (onward ne among, same)
      ]
