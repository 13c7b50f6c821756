-- ===== src/Examples/Lessons.antt =====
-- The theorem on the traffic model at a concrete ant.
use ant_aodv.Base.{◌≡◌, refl, inl, pos, ℤ_discrete, [], ◌∷◌, arith}
use ant_aodv.Base.Result.{ok}
use ant_aodv.Double.Milli.{Milli, milli_double, Milli-IsOrdered}
use ant_aodv.StdMap.{find}
use ant_aodv.Ant.{HdrAntPkt, memory, IsValid}
use ant_aodv.Traffic.{Traffic, update_traffic}
use ant_aodv.Traffic.Learned.{HasLearned, IsKept, IsEarned, update_traffic_lem}
use ant_aodv.Examples.{filled, ant}

-- One trip to 1 and one to 0 were seen before.
abbrev seen : Traffic Milli
seen = record {
  window = (pos 0, 4 ∷ []) ∷ (pos 1, 7 ∷ []) ∷ [];
  state = (pos 1, record { mean_tt = 7; var_tt = 7; best_tt = 7 }) ∷ [];
}

-- The ant was at 0, 3, 1 and 5.
abbrev walker : HdrAntPkt Milli
walker =
    ant (pos 5) (pos 0)
      (filled 12
        (memory (pos 0) 0 ∷ memory (pos 3) 10 ∷ memory (pos 1) 15 ∷ memory (pos 5) 30 ∷ []))
      4

walker-IsValid : IsValid walker
walker-IsValid = record { array = refl; used = omega arith }

-- At 3 it teaches the trip times 5 to 1 and 20 to 5.
update_traffic_lem_example :
    (t' : Traffic Milli) × (r' : Milli) × (update_traffic (pos 3) seen 400 walker ≡ ok (t', r'))
    × HasLearned seen t' (pos 1) 5
    × IsKept (pos 1 ∷ pos 5 ∷ []) seen t' (pos 0)
    × IsEarned seen (pos 5) 20 r'
unfolding ℤ_discrete find
update_traffic_lem_example =
    update_traffic_lem Milli-IsOrdered seen 400 walker (memory (pos 0) 0 ∷ []) (memory (pos 3) 10)
      (memory (pos 1) 15) (memory (pos 5) 30 ∷ []) (memory (pos 1) 15) (pos 0) walker-IsValid refl
      (ground arith) (inl refl) (refl, (refl, tt))
