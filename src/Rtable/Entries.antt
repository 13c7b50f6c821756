-- ===== src/Rtable/Entries.antt =====
-- What `add_entry` puts into the table, and the destinations that `calc_destination` draws.
use ant_aodv.Base.{
  ℤ, ℤ_discrete, ◌≡◌, ◌≢◌, refl, sym, ◌∙◌, inl, inr, ite, List, [], ◌∷◌, ◌++◌, Option, none, some,
  arith, Among, if_pos, if_neg,
}
use ant_aodv.Base.Result.{ok}
use ant_aodv.StdMap.{find, find-insert, find-adjust}
use ant_aodv.Rtable.{
  NsAddr, PheromoneMatrix, AntnetRtable, entry, add_entry, draw_destination, calc_destination,
}

draw_destination_lem :
    (source x : ℤ) (xs : List ℤ)
    → Among x xs
    → x ≢ source
    → (dest : ℤ) × (ys : List ℤ) × (draw_destination source xs ≡ ok (dest, ys))
      × (dest ≢ source)
      × Among dest xs
unfolding draw_destination
draw_destination_lem source x [] a n = elim a [ ]
draw_destination_lem source x (z ∷ xs) (inl p) n =
    let ne : z ≢ source = λ e. n (sym p ∙ e) in (z, xs, rw (if_neg _ ne), ne, inl refl)
draw_destination_lem source x (z ∷ xs) (inr a) n = elim (ℤ_discrete z source) [
  | yes e ↦
      let (dest, ys, drawn, ne, among) = draw_destination_lem source x xs a n in
      (dest, ys, rw (if_pos _ e) drawn, ne, inr among)
  | no ne ↦ (z, xs, rw (if_neg _ ne), ne, inl refl)
]

module _ {W : Type 0} where
  -- The row of a destination; an empty one if the table has none.
  abbrev or_empty : Option (PheromoneMatrix W) → PheromoneMatrix W
  or_empty none = []
  or_empty (some row) = row

  -- `add_entry` puts the link at the end of the destination's row, which begins empty if there is
  -- none, and leaves every other row and the generator as they are.
  pub find-add_entry :
      (t : AntnetRtable W) (dest next j : NsAddr) (phvalue : W)
      → (find j (add_entry t dest next phvalue).rt
          ≡ ite
              (ℤ_discrete j dest)
              (some (or_empty (find dest t.rt) ++ entry next phvalue ∷ []))
              (find j t.rt))
        × ((add_entry t dest next phvalue).rnum ≡ t.rnum)
  unfolding add_entry
  find-add_entry t dest next j phvalue = ground (
    arith,
    find-insert j dest (entry next phvalue ∷ []) t.rt,
    find-adjust j dest (λ temp. temp ++ entry next phvalue ∷ []) t.rt,
  )

  -- If some draw differs from the source, `calc_destination` returns one that does, and changes no
  -- row.
  pub calc_destination_lem :
      (t : AntnetRtable W) (source x : NsAddr)
      → Among x t.rnum.ints
      → x ≢ source
      → (dest : NsAddr) × (t' : AntnetRtable W) × (calc_destination t source ≡ ok (dest, t'))
        × (dest ≢ source)
        × Among dest t.rnum.ints
        × (t'.rt ≡ t.rt)
  unfolding calc_destination
  calc_destination_lem t source x a n =
      let (dest, ys, drawn, ne, among) = draw_destination_lem source x t.rnum.ints a n in
      (
        dest,
        record t { rnum = record { ints = ys; doubles = t.rnum.doubles } },
        rw drawn,
        ne,
        among,
        refl,
      )
