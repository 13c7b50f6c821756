-- ===== src/Examples/Live.antt =====
-- A started node, over whole numbers: the node 4, whose one neighbour is 1, in a network of 7 nodes.
use ant_aodv.Base.{
  subst, some-injective, suc, sym, ap, ◌≡◌, ◌≢◌, refl, inl, inr, ℤ, pos, ℤ_discrete, [], ◌∷◌,
  replicate, true, none, some, arith,
}
use ant_aodv.Base.Result.{ok, ok-injective}
use ant_aodv.Rtable.Shares.{CanChoose}
use ant_aodv.StdMap.{find-All, find}
use ant_aodv.Double.Whole.{
  add, sub, mul, whole_double, Whole-IsExact, Whole-IsOrdered, Whole-IsRounded, Whole-IsDivided,
}
use ant_aodv.Packet.{Dir}
use ant_aodv.Rtable.{AntnetRtable, PheromoneMatrix, neighbors, calc_destination, calc_next}
use ant_aodv.Ant.{HdrAntPkt, Packet, Memory, memory, path}
use ant_aodv.Ant.Bounds.{IsSmall}
use ant_aodv.Ant.Visits.{visit}
use ant_aodv.Rtable.{update, add_entry, dead_end, parent_link, fix_urange, parent_range}
use ant_aodv.StdMap.{insert, adjust}
use ant_aodv.Ant.{find_here, read, entries_from, find_back, before}
use ant_aodv.Agent.Receive.{
  recv_ant_pkt, is_rt_port, recv_by_direction, recv_backward, update_table, backward_ant_pkt,
  update_dests,
}
use ant_aodv.Agent.Start.{add_destinations, add_neighbors}
use ant_aodv.Agent.{links, get_num_neighbors, upwards, Env, Sim, Globals, Action}
use ant_aodv.Agent.Start.{initialize_rtable}
use ant_aodv.Agent.Send.{expire, reset_ant_timer}
use ant_aodv.Agent.Send.Launch.{Launched}
use ant_aodv.Agent.Receive.{recv}
use ant_aodv.Agent.Receive.Turning.{IsForward}
use ant_aodv.Agent.Receive.Forward.{Forwarded}
use ant_aodv.Agent.Ready.{Step, Steps, IsLinked}
use ant_aodv.Agent.Live.{IsFresh, recv_live, expire_live}
use ant_aodv.Examples.{ant_at, packet_at}

abbrev at_node : ℤ → Memory ℤ
at_node a = memory a (pos 0)

abbrev whole_env : Env ℤ
whole_env = record {
  clock = pos 9;
  neighbor_list = λ a. pos 1 ∷ [];
  queue_length = λ a b. pos 2;
  blank =
      packet_at (pos 0) Dir.down (pos 0) (pos 0)
        (ant_at (pos 0) (pos 0) (pos 0) (replicate 16 (at_node (pos 0))) 0);
  ip_hdr_len = 20;
  exists = λ name. true;
}

-- The draws to come are the destinations 4 and 5, and 0.
abbrev new_node : Sim ℤ
new_node = record {
  agent = record {
    addr = pos 4;
    ra_addr = pos 4;
    rtable = record { rt = []; rnum = record { ints = pos 4 ∷ pos 5 ∷ []; doubles = pos 0 ∷ [] } };
    traffic = record { state = []; window = [] };
    ant_seq_num = 255;
    r_factor = pos 1;
    timer_ant = pos 30;
    num_nodes = 7;
    num_nodes_x = 0;
    num_nodes_y = 0;
    dmux = none;
    logtarget = none;
  };
  globals = record { r = pos 0; n = pos 0; num_nodes = 0 };
  actions = [];
}

new_node-IsFresh : IsFresh whole_env new_node (pos 1) []
new_node-IsFresh = record {
  at = record { addr = refl; ra_addr = refl };
  empty = refl;
  linked = refl;
  apart = ground arith;
  unit = (refl, refl);
}

-- An ant that went from 0 by way of 4 and 1 to 5, on its way back.
abbrev back : Packet ℤ
back = packet_at (pos 0) Dir.up (pos 1) (pos 4) (
    ant_at (pos 0) (pos 5) (pos 0)
      (at_node (pos 0)
        ∷ at_node (pos 4)
        ∷ at_node (pos 1)
        ∷ at_node (pos 5)
        ∷ replicate 12 (at_node (pos 0)))
      4)

back-IsLinked : IsLinked (pos 4) (pos 1 ∷ []) back
unfolding find_here read ℤ_discrete
back-IsLinked up i e found reads =
    let next : ok (at_node (pos 1)) ≡ ok e =
      subst (λ k. read back.ant.pkt_memory (suc k) ≡ ok e) (sym (ok-injective found)) reads in
    inl (ap (λ z. z.node_addr) (ok-injective next))

abbrev taught : Sim ℤ
taught = record (initialize_rtable whole_env new_node) {
  globals = record { r = pos 1; n = pos 1; num_nodes = 7 };
  actions = Action.truncate ∷ Action.send (upwards (pos 4) (pos 0) back) ∷ [];
}

learns : recv whole_env (initialize_rtable whole_env new_node) back ≡ ok taught
unfolding recv recv_ant_pkt is_rt_port recv_by_direction recv_backward update_table find_here read
    entries_from backward_ant_pkt find_back before add_destinations update_dests get_num_neighbors
    add_neighbors update add_entry insert adjust find ℤ_discrete initialize_rtable add sub mul
learns = refl

-- Another agent counts its three neighbours.
abbrev counted : Globals ℤ
counted = record { r = pos 1; n = pos 3; num_nodes = 7 }

abbrev later : Sim ℤ
later = record taught { globals = counted }

runs : Steps (pos 4) (pos 1 ∷ []) (initialize_rtable whole_env new_node) later
runs =
    Steps.more (Step.receives whole_env back back-IsLinked learns)
      (Steps.more (Step.others counted (refl, refl)) Steps.none)

-- The ant that has been at 0 and 2 and comes from 2, on its way to 5; its one way on is 1.
abbrev onward : Packet ℤ
onward = packet_at (pos 0) Dir.down (pos 2) (pos 4) (
    ant_at (pos 0) (pos 0) (pos 5)
      (at_node (pos 0) ∷ at_node (pos 2) ∷ replicate 14 (at_node (pos 0))) 2)

onward-IsForward : IsForward onward (pos 4)
onward-IsForward = record {
  ptype = refl;
  direction = refl;
  sport = refl;
  dport = refl;
  other = ground arith;
  valid = record { array = refl; used = omega arith };
}

onward-IsSmall : IsSmall onward.ant
onward-IsSmall = record {
  valid = onward-IsForward.valid;
  distinct = ground arith;
  small = ground arith;
}

-- No range is kept out for 2, to which there is no link.
free_of_2 :
    CanChoose
      (links whole_env later)
      (pos 4)
      (pos 2)
      (record { neighbor = pos 1; phvalue = pos 1 } ∷ [])
      (pos 0 ∷ [])
unfolding dead_end parent_link fix_urange parent_range add ℤ_discrete
free_of_2 = inr (pos 0, inl refl, refl)

recv_live_example :
    (row : PheromoneMatrix ℤ) × (next : ℤ) × (t : AntnetRtable ℤ) × (s' : Sim ℤ) × (h : HdrAntPkt ℤ)
    × (recv whole_env later onward ≡ ok s')
    × (find (pos 5) later.agent.rtable.rt ≡ some row)
    × (neighbors row ≡ pos 1 ∷ [])
    × (calc_next (links whole_env later) later.agent.rtable (pos 4) (pos 5) (pos 2) ≡ ok (next, t))
    × (path h ≡ visit (pos 4) (path onward.ant))
    × Forwarded later (record onward { ant = h }) row next s'
unfolding initialize_rtable add_destinations ℤ_discrete add_neighbors add_entry find insert dead_end
    parent_link fix_urange parent_range add
recv_live_example =
    recv_live Whole-IsOrdered Whole-IsRounded Whole-IsExact whole_env new_node (pos 1) []
      new_node-IsFresh Whole-IsDivided later runs ((refl, refl), tt) (omega arith) whole_env onward
      5 onward-IsForward onward-IsSmall refl (omega arith) (ground arith)
      (λ row f.
        subst
          (λ r. CanChoose (links whole_env later) (pos 4) (pos 2) r later.agent.rtable.rnum.doubles)
          (some-injective f) free_of_2)

-- The draw 0 lies outside the range that is kept out for the node itself.
free :
    CanChoose
      (links whole_env later)
      (pos 4)
      (pos 4)
      (record { neighbor = pos 1; phvalue = pos 1 } ∷ [])
      (pos 0 ∷ [])
unfolding dead_end parent_link fix_urange parent_range add ℤ_discrete
free = inr (pos 0, inl refl, refl)

expire_live_example :
    (dest next : ℤ) × (t t' : AntnetRtable ℤ) × (row : PheromoneMatrix ℤ) × (s' : Sim ℤ) × (expire
        whole_env later
      ≡ ok (reset_ant_timer s'))
    × (calc_destination later.agent.rtable (pos 4) ≡ ok (dest, t))
    × (dest ≢ pos 4)
    × (find dest t.rt ≡ some row)
    × (neighbors row ≡ pos 1 ∷ [])
    × (calc_next (links whole_env later) t (pos 4) dest (pos 4) ≡ ok (next, t'))
    × Launched later dest next row s'
    × (s'.agent.ant_seq_num ≡ 0)
unfolding initialize_rtable add_destinations ℤ_discrete add_neighbors add_entry find insert dead_end
    parent_link fix_urange parent_range add
expire_live_example =
    expire_live Whole-IsOrdered Whole-IsRounded Whole-IsExact whole_env new_node (pos 1) []
      new_node-IsFresh Whole-IsDivided later runs ((refl, refl), tt) (omega arith) whole_env (pos 5)
      refl (ground arith) (inr (inl refl)) (ground arith)
      (λ j row f.
        find-All
          (λ r. CanChoose (links whole_env later) (pos 4) (pos 4) r later.agent.rtable.rnum.doubles)
          j later.agent.rtable.rt row (free, (free, (free, (free, (free, (free, tt)))))) f)
