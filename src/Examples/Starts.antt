-- ===== src/Examples/Starts.antt =====
-- The theorems on the first routing table at a concrete node.
use ant_aodv.Base.{◌≡◌, refl, pos, ℤ_discrete, [], ◌∷◌, some, arith}
use ant_aodv.StdMap.{find}
use ant_aodv.Double.Milli.{Milli, milli_double}
use ant_aodv.Base.Result.{ok}
use ant_aodv.Rtable.{AntnetRtable, calc_next, calc_destination}
use ant_aodv.Agent.{Sim, links}
use ant_aodv.Agent.Send.{send_ant_pkt}
use ant_aodv.Agent.Send.Launch.{Launched, send_ant_pkt_lem}
use ant_aodv.Agent.Start.{initialize_rtable}
use ant_aodv.Agent.Start.Rows.{even, initialize_rtable_lem}
use ant_aodv.Examples.{env, node, table, row_of_5}

-- A node before its start.
abbrev fresh : Sim Milli
fresh =
    let s = node (pos 0) in
    record s {
      agent = record (s.agent) {
        rtable = record { rt = []; rnum = record { ints = []; doubles = [] } };
      };
    }

initialize_rtable_lem_example :
    find (pos 5) (initialize_rtable env fresh).agent.rtable.rt
    ≡ some (even 333 (pos 1 ∷ pos 2 ∷ pos 3 ∷ []))
unfolding find ℤ_discrete
initialize_rtable_lem_example =
    initialize_rtable_lem env fresh (pos 1) (pos 2 ∷ pos 3 ∷ []) 5 refl (omega arith) (ground arith)
      refl

-- The node 0 that draws 0 and then 5 as a destination.
abbrev launcher : Sim Milli
launcher =
    let s = node (pos 0) in
    record s {
      agent = record (s.agent) {
        rtable = record {
          rt = table.rt;
          rnum = record { ints = pos 0 ∷ pos 5 ∷ []; doubles = 100 ∷ 450 ∷ [] };
        };
      };
    }

abbrev drawn : AntnetRtable Milli
drawn = record { rt = table.rt; rnum = record { ints = []; doubles = 100 ∷ 450 ∷ [] } }

abbrev chosen : AntnetRtable Milli
chosen = record { rt = table.rt; rnum = record { ints = []; doubles = 450 ∷ [] } }

draws_five : calc_destination launcher.agent.rtable (pos 0) ≡ ok (pos 5, drawn)
unfolding calc_destination ℤ_discrete
draws_five = refl

chooses_one : calc_next (links env launcher) drawn (pos 0) (pos 5) (pos 0) ≡ ok (pos 1, chosen)
unfolding calc_next find ℤ_discrete
chooses_one = refl

send_ant_pkt_lem_example :
    (s' : Sim Milli) × (send_ant_pkt env launcher ≡ ok s')
    × Launched launcher (pos 5) (pos 1) row_of_5 s'
    × (s'.agent.ant_seq_num ≡ 1)
    × (s'.agent.rtable.rt ≡ table.rt)
unfolding find ℤ_discrete
send_ant_pkt_lem_example =
    send_ant_pkt_lem env launcher (pos 5) (pos 1) drawn chosen row_of_5 refl (omega arith)
      draws_five refl (ground arith) (refl, (refl, tt)) chooses_one
