-- ===== src/Examples/Routing.antt =====
-- The routing table's theorems at concrete tables.
use ant_aodv.Base.{
  ℤ_discrete, ◌≡◌, ◌≢◌, refl, inl, inr, ℤ, pos, [], ◌∷◌, ◌⊎◌, some, Distinct, arith,
}
use ant_aodv.Base.Result.{ok, fault, Fault}
use ant_aodv.StdMap.{find}
use ant_aodv.Double.Milli.{Milli, milli_double, Milli-IsOrdered, Milli-IsRounded}
use ant_aodv.Double.Whole.{add, whole_double, Whole-IsExact}
use ant_aodv.Rtable.{
  dead_end, parent_link, fix_urange, parent_range, NsAddr, PheromoneMatrix, AntnetRtable, Links,
  calc_next, update, neighbors,
}
use ant_aodv.Rtable.Choice.{Chosen, calc_next_lem}
use ant_aodv.Rtable.Heuristic.{calc_next-queues}
use ant_aodv.Rtable.Progress.{row_sum, calc_next_total, calc_next_no_return}
use ant_aodv.Rtable.Update.{IsValid, AreMoved, update-IsValid, update_lem, total, total-update}
use ant_aodv.Examples.{link, row_of_5, table, short_table, quiet}

abbrev after_draws : AntnetRtable Milli
after_draws = record {
  rt = table.rt;
  rnum = record { ints = pos 0 ∷ pos 4 ∷ []; doubles = 999 ∷ [] };
}

row_of_5-Distinct : Distinct (neighbors row_of_5)
row_of_5-Distinct = ground arith

chooses : calc_next quiet table (pos 0) (pos 5) (pos 1) ≡ ok (pos 2, after_draws)
unfolding calc_next find ℤ_discrete
chooses = refl

calc_next_lem_example : Chosen quiet (pos 0) (pos 1) row_of_5 (pos 2) × (after_draws.rt ≡ table.rt)
unfolding find ℤ_discrete
calc_next_lem_example =
    calc_next_lem quiet table (pos 0) (pos 5) (pos 1) row_of_5 (pos 2) after_draws refl
      row_of_5-Distinct (refl, (refl, (refl, tt))) chooses

calc_next_total_example :
    (a : NsAddr) × (calc_next quiet table (pos 0) (pos 5) (pos 1) ≡ ok (a, after_draws))
unfolding find ℤ_discrete dead_end parent_link fix_urange parent_range row_sum
calc_next_total_example =
    calc_next_total Milli-IsOrdered Milli-IsRounded quiet table (pos 0) (pos 5) (pos 1) row_of_5
      (100 ∷ []) 450 (999 ∷ []) refl (refl, (refl, (refl, tt))) refl refl (refl, tt) refl refl refl

calc_next_no_return_example :
    calc_next quiet short_table (pos 0) (pos 5) (pos 1) ≡ fault Fault.no_return
unfolding find ℤ_discrete dead_end parent_link fix_urange parent_range row_sum
calc_next_no_return_example =
    calc_next_no_return Milli-IsOrdered Milli-IsRounded quiet short_table (pos 0) (pos 5) (pos 1)
      (link (pos 1) 200 ∷ link (pos 2) 700 ∷ []) [] 950 [] refl (refl, (refl, tt)) refl refl tt refl
      refl

abbrev busy : Links
busy = record { n = pos 7; queue_length = λ a b. pos 20 }

calc_next-queues_example :
    calc_next quiet table (pos 0) (pos 5) (pos 1) ≡ calc_next busy table (pos 0) (pos 5) (pos 1)
unfolding find ℤ_discrete
calc_next-queues_example = calc_next-queues quiet busy (pos 0) table (pos 5) (pos 1)

table-IsValid : IsValid table
table-IsValid = (((refl, refl), ((refl, refl), ((refl, refl), tt))), (((refl, refl), tt), tt))

update-IsValid_example : IsValid (update 400 table (pos 5) (pos 2))
unfolding find ℤ_discrete
update-IsValid_example =
    update-IsValid Milli-IsOrdered Milli-IsRounded 400 (refl, refl) (pos 2) table (pos 5)
      table-IsValid

update_lem_example :
    (row' : PheromoneMatrix Milli) × (find (pos 5) (update 400 table (pos 5) (pos 2)).rt
      ≡ some row')
    × ((pos 5 ≡ pos 5) × AreMoved 400 (pos 2) row_of_5 row' ⊎ (pos 5 ≢ pos 5) × (row' ≡ row_of_5))
unfolding find ℤ_discrete
update_lem_example =
    update_lem Milli-IsOrdered Milli-IsRounded 400 (refl, refl) (pos 2) table (pos 5) (pos 5)
      row_of_5 table-IsValid refl

-- Whole numbers: the row holds 1, 0 and 0.
abbrev whole_row : PheromoneMatrix ℤ
whole_row =
    record { neighbor = pos 1; phvalue = pos 1 } ∷ record { neighbor = pos 2; phvalue = pos 0 } ∷ []

abbrev whole_table : AntnetRtable ℤ
whole_table = record { rt = (pos 5, whole_row) ∷ []; rnum = record { ints = []; doubles = [] } }

total-update_example :
    (row' : PheromoneMatrix ℤ) × (find (pos 5) (update (pos 3) whole_table (pos 5) (pos 2)).rt
      ≡ some row')
    × (total row' ≡ pos 1)
unfolding find ℤ_discrete total add
total-update_example =
    total-update Whole-IsExact (pos 3) (pos 2) whole_table (pos 5) whole_row refl (ground arith)
      (inr (inl refl)) refl
