-- ===== src/Examples/Agents.antt =====
-- The agent's theorems at a network of concrete nodes.

use ant_aodv.Base.{◌≡◌, ◌≢◌, refl, ℤ, pos, ℤ_discrete, [], ◌∷◌, Distinct, arith}
use ant_aodv.Base.Result.{ok}
use ant_aodv.StdMap.{find}
use ant_aodv.Double.Milli.{Milli, milli_double}
use ant_aodv.Packet.{Dir}
use ant_aodv.Rtable.{AntnetRtable, calc_next}
use ant_aodv.Ant.{HdrAntPkt, Packet, memory, path, IsValid}
use ant_aodv.Ant.Bounds.{IsSmall}
use ant_aodv.Ant.Visits.{visit}
use ant_aodv.Agent.{links, Sim, with_rtable, get_num_neighbors}
use ant_aodv.Agent.Receive.{recv, update_table}
use ant_aodv.Agent.Receive.Learning.{IsLearned, update_table_lem}
use ant_aodv.Agent.Receive.Backward.{IsBackward, IsAt}
use ant_aodv.Agent.Receive.Journey.{Travels, Travels-back}
use ant_aodv.Agent.Receive.Turning.{IsForward, round_trip}
use ant_aodv.Agent.Receive.Forward.{Forwarded, recv_onward}
use ant_aodv.Examples.{filled, ant, packet, env, node, row_of_5, table}

abbrev at : (a : ℤ) → IsAt (node a) a
at a = record { addr = refl; ra_addr = refl }

-- The ant went from 0 by way of 3 and 1 to 5; now it goes back.
abbrev back : (saddr daddr : ℤ) → Packet Milli
back saddr daddr = packet Dir.up saddr daddr (
    ant (pos 5) (pos 0)
      (filled 12
        (memory (pos 0) 0 ∷ memory (pos 3) 10 ∷ memory (pos 1) 20 ∷ memory (pos 5) 30 ∷ []))
      4)

back-IsValid : (a b : ℤ) → IsValid (back a b).ant
back-IsValid a b = record { array = refl; used = omega arith }

path-Distinct : Distinct (pos 0 ∷ pos 3 ∷ pos 1 ∷ pos 5 ∷ [])
path-Distinct = ground arith

update_table_lem_example :
    (t : AntnetRtable Milli) × (update_table env (node (pos 3)) (back (pos 1) (pos 3))
      ≡ ok (
          with_rtable t (record (node (pos 3)) {
            globals = record ((node (pos 3)).globals) { n = pos (get_num_neighbors env (pos 3)) };
          })))
    × IsLearned 400 (pos 1) (pos 1 ∷ pos 5 ∷ []) table t (pos 5)
update_table_lem_example =
    update_table_lem env (node (pos 3)) (back (pos 1) (pos 3)) (pos 0 ∷ []) (pos 1) (pos 5 ∷ [])
      (pos 5) (back-IsValid (pos 1) (pos 3)) refl path-Distinct

back-IsBackward : IsBackward (back (pos 5) (pos 1)) (pos 1)
back-IsBackward = record {
  ptype = refl;
  direction = refl;
  sport = refl;
  dport = refl;
  other = ground arith;
  valid = back-IsValid (pos 5) (pos 1);
}

Travels-back_example : Travels env node (pos 1) (back (pos 5) (pos 1)) (pos 1 ∷ pos 3 ∷ pos 0 ∷ [])
Travels-back_example =
    Travels-back env node at (pos 3 ∷ pos 0 ∷ []) (pos 1) (pos 5) [] (back (pos 5) (pos 1))
      back-IsBackward refl path-Distinct refl

-- The ant that has been at 0, 3 and 1 and comes to `here` from 1.
abbrev onward : (here : ℤ) → Packet Milli
onward here = packet Dir.down (pos 1) here (
    ant (pos 0) (pos 5) (filled 13 (memory (pos 0) 0 ∷ memory (pos 3) 10 ∷ memory (pos 1) 20 ∷ []))
      3)

onward-IsValid : (here : ℤ) → IsValid (onward here).ant
onward-IsValid here = record { array = refl; used = omega arith }

onward-IsForward : (here : ℤ) → pos 1 ≢ here → IsForward (onward here) here
onward-IsForward here ne = record {
  ptype = refl;
  direction = refl;
  sport = refl;
  dport = refl;
  other = ne;
  valid = onward-IsValid here;
}

round_trip_example : Travels env node (pos 5) (onward (pos 5)) (pos 5 ∷ pos 1 ∷ pos 3 ∷ pos 0 ∷ [])
round_trip_example =
    round_trip env node at (pos 1) (pos 3 ∷ pos 0 ∷ []) (pos 5) (onward (pos 5))
      (onward-IsForward (pos 5) (ground arith)) refl (ground arith) (ground arith) (omega arith)
      refl refl

abbrev drawn : AntnetRtable Milli
drawn = record { rt = table.rt; rnum = record { ints = table.rnum.ints; doubles = 999 ∷ [] } }

chooses : calc_next (links env (node (pos 4))) table (pos 4) (pos 5) (pos 1) ≡ ok (pos 2, drawn)
unfolding calc_next find ℤ_discrete
chooses = refl

onward-IsSmall : IsSmall (onward (pos 4)).ant
onward-IsSmall = record {
  valid = onward-IsValid (pos 4);
  distinct = ground arith;
  small = ground arith;
}

recv_onward_example :
    (s' : Sim Milli) × (h : HdrAntPkt Milli) × (recv env (node (pos 4)) (onward (pos 4)) ≡ ok s')
    × (path h ≡ visit (pos 4) (pos 0 ∷ pos 3 ∷ pos 1 ∷ []))
    × IsSmall h
    × Forwarded (node (pos 4)) (record (onward (pos 4)) { ant = h }) row_of_5 (pos 2) s'
    × (s'.agent.rtable.rt ≡ table.rt)
unfolding find ℤ_discrete
recv_onward_example =
    recv_onward env (node (pos 4)) (onward (pos 4)) row_of_5 (pos 2) drawn (at (pos 4))
      (onward-IsForward (pos 4) (ground arith)) onward-IsSmall (omega arith) (ground arith) refl
      (ground arith) (refl, (refl, (refl, tt))) chooses
