-- ===== src/Rtable/Progress.antt =====
-- When `calc_next` returns, and when it runs off its end.
use ant_aodv.Base.{◌≡◌, refl, inl, inr, true, false, List, [], ◌∷◌, ◌++◌, some, arith, All}
use ant_aodv.Base.Result.{ok, fault, Fault, ◌>>=◌}
use ant_aodv.Double.{Double, ◌⊕◌}
use ant_aodv.Double.Laws.{◌≼◌, IsOrdered, IsRounded}
use ant_aodv.StdMap.{find}
use ant_aodv.Rtable.{
  NsAddr, PheromoneMatrix, AntnetRtable, Links, Range, parent_range, pick, within, draw_outside,
  fix_urange, dead_end, parent_link, sample, choose, calc_next, start, queue_total, nonzero_total,
  heuristic_prob,
}
use ant_aodv.Rtable.Choice.{calc_next-eq-choose}

module _ {W : Type 0} ⦃d : Double W⦄ where
  -- The sum of the pheromone values, added up from the left.
  unfoldable pub row_sum : W → PheromoneMatrix W → W
  row_sum l [] = l
  row_sum l (e ∷ row) = row_sum (l ⊕ e.phvalue) row

  abbrev pub IsNonneg : PheromoneMatrix W → Type 0
  IsNonneg = All λ e. d.nought ≼ e.phvalue

  draw_outside-append :
      (l u x : W) (pre post : List W)
      → All (λ y. within l u y ≡ true) pre
      → within l u x ≡ false
      → draw_outside l u (pre ++ x ∷ post) ≡ ok (x, post)
  unfolding draw_outside
  draw_outside-append l u x [] post a h = rw h
  draw_outside-append l u x (y ∷ pre) post a h = rw a.0 (draw_outside-append l u x pre post a.1 h)

  module _ (order : IsOrdered W) (rounded : IsRounded W) where
    open order use {le_trans, refl_of_le, lt_or_le, lt-eq-false}
    open rounded use {le-add}

    le-row_sum : (l : W) (row : PheromoneMatrix W) → d.nought ≼ l → IsNonneg row → l ≼ row_sum l row
    unfolding row_sum
    le-row_sum l [] p a = (refl_of_le _ _ p).1
    le-row_sum l (e ∷ row) p a =
        let up = le-add l e.phvalue p a.0 in
        le_trans _ _ _ up (le-row_sum (l ⊕ e.phvalue) row (le_trans _ _ _ p up) a.1)

    pick_total :
        (links : Links) (source : NsAddr) (q x : W) (s : Range W) (row : PheromoneMatrix W)
        → s.lrange ≡ s.urange
        → d.nought ≼ s.urange
        → IsNonneg row
        → s.urange ≼ x
        → d.lt x (row_sum s.urange row) ≡ true
        → (a : NsAddr) × (pick links source q x s row ≡ ok a)
    unfolding pick row_sum
    pick_total links source q x s [] e p a up below = ground (arith, lt-eq-false s.urange x up)
    pick_total links source q x s (e ∷ row) same p a up below =
        let u = s.urange ⊕ e.phvalue in
        let prob = heuristic_prob q links.n (links.queue_length source e.neighbor) e.phvalue in
        let grows = le-add s.urange e.phvalue p a.0 in
        elim (lt_or_le x u (refl_of_le _ _ up).1 (refl_of_le _ _ grows).1) [
          | inl lt ↦ (e.neighbor, ground arith)
          | inr le ↦
              let (b, picks) =
                pick_total links source q x (record { lrange = u; urange = u; thisprob = prob }) row
                  refl (le_trans _ _ _ p grows) a.1 le below in
              (b, ground (arith, lt-eq-false u x le))
        ]

    pick_no_return :
        (links : Links) (source : NsAddr) (q x : W) (s : Range W) (row : PheromoneMatrix W)
        → d.nought ≼ s.urange
        → IsNonneg row
        → row_sum s.urange row ≼ x
        → pick links source q x s row ≡ fault Fault.no_return
    unfolding pick row_sum
    pick_no_return links source q x s [] p a above = refl
    pick_no_return links source q x s (e ∷ row) p a above =
        let u = s.urange ⊕ e.phvalue in
        let prob = heuristic_prob q links.n (links.queue_length source e.neighbor) e.phvalue in
        let p' = le_trans _ _ _ p (le-add s.urange e.phvalue p a.0) in
        ground (
          arith,
          lt-eq-false u x (le_trans _ _ _ (le-row_sum u row p' a.1) above),
          pick_no_return links source q x (record { lrange = u; urange = u; thisprob = prob }) row
              p' a.1 above,
        )

    module _ (links : Links) (t : AntnetRtable W) (source dest parent : NsAddr)
        (row : PheromoneMatrix W) (pre : List W) (x : W) (post : List W)
        (f : find dest t.rt ≡ some row) (p : IsNonneg row)
        (live : dead_end (parent_link links source parent row) ≡ false)
        (drawn : t.rnum.doubles ≡ pre ++ x ∷ post)
        (rejected : All
          (λ y.
            within
              (parent_link links source parent row).lrange
              (parent_link links source parent row).urange
              y
            ≡ true)
          pre)
        (accepted : within
            (parent_link links source parent row).lrange
            (parent_link links source parent row).urange
            x
          ≡ false) where
      abbrev after : AntnetRtable W
      after = record t { rnum = record { ints = t.rnum.ints; doubles = post } }

      calc_next-eq-pick : calc_next links t source dest parent ≡ (
          pick links source (nonzero_total (queue_total links source d.nought row)) x start row
          >>= λ next. ok (next, after))
      unfolding choose sample parent_link
      calc_next-eq-pick =
          let q = nonzero_total (queue_total links source d.nought row) in
          let s = fix_urange (parent_range links source parent q start row) in
          rw (
            calc_next-eq-choose links t source dest parent row f,
            live,
            drawn,
            draw_outside-append s.lrange s.urange x pre post rejected accepted,
          )

      -- If the first draw outside the parent's range lies below the sum of the row's pheromone
      -- values, none of which is negative, and the parent's range is not all of [0, 1), then
      -- `calc_next` returns, and has used up the draws up to that one.
      pub calc_next_total :
          d.nought ≼ x
          → d.lt x (row_sum d.nought row) ≡ true
          → (a : NsAddr) × (calc_next links t source dest parent ≡ ok (a, after))
      calc_next_total above below =
          let q = nonzero_total (queue_total links source d.nought row) in
          let (a, picks) =
            pick_total links source q x start row refl order.nought_unit.0 p above below in
          (a, rw (calc_next-eq-pick, picks))

      -- If that draw does not lie below the sum, `calc_next` ends without `return`.
      pub calc_next_no_return :
          row_sum d.nought row ≼ x → calc_next links t source dest parent ≡ fault Fault.no_return
      calc_next_no_return above =
          let q = nonzero_total (queue_total links source d.nought row) in
          rw (
            calc_next-eq-pick,
            pick_no_return links source q x start row order.nought_unit.0 p above,
          )
