-- ===== src/Agent/Live.antt =====
-- Ants are not held up: from its start on, a node passes on every forward ant and launches its own.
use ant_aodv.Base.{
  negsuc, inl, inr, ℕ, suc, ◌<◌, ◌≡◌, ◌≢◌, refl, sym, ap, subst, ◌∙◌, ℤ, pos, List, [], ◌∷◌, length,
  some, Among, Distinct, All, ◌+◌, ◌%◌, ◌^◌,
}
use ant_aodv.Base.Result.{ok}
use ant_aodv.Double.{Double}
use ant_aodv.Double.Laws.{IsUnit, IsOrdered, IsRounded, IsExact, IsDivided}
use ant_aodv.StdMap.{find}
use ant_aodv.Nodes.{IsNode}
use ant_aodv.Rtable.{AntnetRtable, PheromoneMatrix, neighbors, calc_destination, calc_next}
use ant_aodv.Rtable.Choice.{AreDraws}
use ant_aodv.Rtable.Shares.{AreFractions, CanChoose, calc_next_live}
use ant_aodv.Rtable.Kept.{calc_destination-doubles}
use ant_aodv.Rtable.Entries.{calc_destination_lem}
use ant_aodv.Ant.{Packet, HdrAntPkt, path, max_num_nodes}
use ant_aodv.Ant.Bounds.{IsSmall}
use ant_aodv.Ant.Visits.{visit}
use ant_aodv.Agent.{Env, Sim, links}
use ant_aodv.Agent.Start.{initialize_rtable}
use ant_aodv.Agent.Start.Rows.{even, initialize_rtable_lem}
use ant_aodv.Agent.Start.Shares.{initialize_rtable-AreShared}
use ant_aodv.Agent.Send.{expire, reset_ant_timer}
use ant_aodv.Agent.Send.Launch.{Launched, send_ant_pkt_lem}
use ant_aodv.Agent.Receive.{recv}
use ant_aodv.Agent.Receive.Backward.{IsAt}
use ant_aodv.Agent.Receive.Turning.{IsForward}
use ant_aodv.Agent.Receive.Forward.{Forwarded, recv_onward}
use ant_aodv.Agent.Ready.{IsReady, Steps}
use ant_aodv.Agent.Ready.Kept.{Steps-IsReady}

-- A draw from the numbers of the nodes.
number :
    (n : ℕ) (a : ℤ) (xs : List ℤ) → All (IsNode n) xs → Among a xs → (m : ℕ) × (m < n) × (a ≡ pos m)
number n a [] nodes among = elim among [ ]
number n a (x ∷ xs) nodes (inl e) = node_number x nodes.0 e
  where
    node_number : (z : ℤ) → IsNode n z → z ≡ a → (m : ℕ) × (m < n) × (a ≡ pos m)
    node_number (pos m) lt same = (m, lt, sym same)
    node_number (negsuc m) none same = absurd none
number n a (x ∷ xs) nodes (inr among) = number n a xs nodes.1 among

module _ {W : Type 0} ⦃d : Double W⦄ where
  AreFractions-AreDraws : (xs : List W) → AreFractions xs → AreDraws xs
  AreFractions-AreDraws [] a = tt
  AreFractions-AreDraws (x ∷ xs) a = (a.0.1, AreFractions-AreDraws xs a.1)

  -- A node before its start: its table is empty, and it has the neighbours `nb ∷ nbs`.
  pub record IsFresh (env : Env W) (s : Sim W) (nb : ℤ) (nbs : List ℤ) : Type 0 where
    pub at : IsAt s s.agent.addr
    pub empty : s.agent.rtable.rt ≡ []
    pub linked : env.neighbor_list s.agent.addr ≡ nb ∷ nbs
    pub apart : Distinct (nb ∷ nbs)
    pub unit : IsUnit s.agent.r_factor

  module _ (order : IsOrdered W) (rounded : IsRounded W) (exact : IsExact W) where
    initialize_rtable-IsReady :
        (env : Env W) (s : Sim W) (nb : ℤ) (nbs : List ℤ)
        → IsFresh env s nb nbs
        → IsDivided W (suc (length nbs))
        → IsReady s.agent.addr (nb ∷ nbs) s.agent.num_nodes (initialize_rtable env s)
    unfolding initialize_rtable find
    initialize_rtable-IsReady env s nb nbs v div = record {
      at = record { addr = refl; ra_addr = v.at.ra_addr };
      unit = v.unit;
      shared = initialize_rtable-AreShared exact env s nb nbs div v.linked v.empty;
      rows = λ m lt ne. (
        even (d.div d.one (d.of_int (pos (suc (length nbs))))) (nb ∷ nbs),
        initialize_rtable_lem env s nb nbs m v.linked lt ne (ap (find (pos m)) v.empty),
      );
    }

    module _ (env0 : Env W) (s0 : Sim W) (nb : ℤ) (nbs : List ℤ) (fresh : IsFresh env0 s0 nb nbs)
        (div : IsDivided W (suc (length nbs))) (s : Sim W)
        (run : Steps s0.agent.addr (nb ∷ nbs) (initialize_rtable env0 s0) s)
        (draws : AreFractions s.agent.rtable.rnum.doubles)
        (small : IsNode max_num_nodes s0.agent.addr) where
      ready : IsReady s0.agent.addr (nb ∷ nbs) s0.agent.num_nodes s
      ready =
          Steps-IsReady order rounded exact (nb ∷ nbs) fresh.apart run
            (initialize_rtable-IsReady env0 s0 nb nbs fresh div)

      here-eq : s.agent.addr ≡ s0.agent.addr
      here-eq = ready.at.addr

      at : IsAt s s.agent.addr
      at = record { addr = refl; ra_addr = ready.at.ra_addr ∙ sym here-eq }

      -- A node starts with an empty table and distinct neighbours, and receives packets and launches
      -- ants in any order after that, while other agents set the globals; backward ants come for links
      -- of the node. Then `recv` of a forward ant on its way to another node of the network returns:
      -- `calc_next` draws a hop, and the ant remembers the visit and is sent to this hop, a neighbour of
      -- this node; it is released only when the hop is this node or the one it came from. The ant's memory and the node are within `MAX_NUM_NODES`; the draws are
      -- fractions, and one of them is outside the range of the link to the node it came from, if that
      -- range is not all of [0, 1). `r` lies in [0, 1], the arithmetic is exact, and 1 is divided by the
      -- number of neighbours without rounding.
      pub recv_live :
          (env : Env W) (p : Packet W) (m : ℕ)
          → IsForward p s.agent.addr
          → IsSmall p.ant
          → p.ant.pkt_dst ≡ pos m
          → m < s0.agent.num_nodes
          → s.agent.addr ≢ pos m
          → ((row : PheromoneMatrix W)
              → find (pos m) s.agent.rtable.rt ≡ some row
              → CanChoose (links env s) s.agent.addr p.ip.saddr row s.agent.rtable.rnum.doubles)
          → (row : PheromoneMatrix W) × (next : ℤ) × (t : AntnetRtable W) × (s' : Sim W)
            × (h : HdrAntPkt W) × (recv env s p ≡ ok s')
            × (find (pos m) s.agent.rtable.rt ≡ some row)
            × (neighbors row ≡ nb ∷ nbs)
            × (calc_next (links env s) s.agent.rtable s.agent.addr (pos m) p.ip.saddr
                ≡ ok (next, t))
            × (path h ≡ visit s.agent.addr (path p.ant))
            × Forwarded s (record p { ant = h }) row next s'
      recv_live env p m f ok_memory to lt far can =
          let (row, found) = ready.rows m lt (λ e. far (here-eq ∙ e)) in
          let shared = ready.shared (pos m) row found in
          let (next, t, chosen, _) =
            calc_next_live order rounded exact (links env s) s.agent.rtable s.agent.addr (pos m)
              p.ip.saddr (nb ∷ nbs) row found shared draws (can row found) in
          let (s', h, returns, grown, _, done, _) =
            recv_onward env s p row next t at f ok_memory
              (subst (IsNode max_num_nodes) (sym here-eq) small) (λ e. far (e ∙ to))
              (ap (λ z. find z s.agent.rtable.rt) to ∙ found)
              (subst Distinct (sym shared.same) fresh.apart)
              (AreFractions-AreDraws s.agent.rtable.rnum.doubles draws)
              (ap (λ z. calc_next (links env s) s.agent.rtable s.agent.addr z p.ip.saddr) to
                ∙ chosen) in
          (row, next, t, s', h, returns, found, shared.same, chosen, grown, done)

      -- After a start and steps like those of `recv_live`, `expire` of the ants' timer returns: it
      -- launches a new forward ant to the destination drawn, another node, which is sent to the hop that
      -- `calc_next` draws, a neighbour of this node, and is released only when this hop is the node
      -- itself; it counts the sequence number up modulo 256, and sets the timer again. The destinations drawn are nodes of
      -- the network and not all this node; of the draws of fractions one is outside the range kept out,
      -- if that is not all of [0, 1). The node and the blank packet's memory are within
      -- `MAX_NUM_NODES`, `r` lies in [0, 1], the arithmetic is exact, and 1 is divided by the number of
      -- neighbours without rounding.
      pub expire_live :
          (env : Env W) (x : ℤ)
          → length env.blank.ant.pkt_memory ≡ max_num_nodes
          → All (IsNode s0.agent.num_nodes) s.agent.rtable.rnum.ints
          → Among x s.agent.rtable.rnum.ints
          → x ≢ s.agent.addr
          → ((j : ℤ) (row : PheromoneMatrix W)
              → find j s.agent.rtable.rt ≡ some row
              → CanChoose (links env s) s.agent.addr s.agent.addr row s.agent.rtable.rnum.doubles)
          → (dest next : ℤ) × (t t' : AntnetRtable W) × (row : PheromoneMatrix W) × (s' : Sim W)
            × (expire env s ≡ ok (reset_ant_timer s'))
            × (calc_destination s.agent.rtable s.agent.addr ≡ ok (dest, t))
            × (dest ≢ s.agent.addr)
            × (find dest t.rt ≡ some row)
            × (neighbors row ≡ nb ∷ nbs)
            × (calc_next (links env s) t s.agent.addr dest s.agent.addr ≡ ok (next, t'))
            × Launched s dest next row s'
            × (s'.agent.ant_seq_num ≡ (s.agent.ant_seq_num + 1) % 2 ^ 8)
      unfolding expire
      expire_live env x blank nodes among other can =
          let (dest, t, drawn, ne, member, rt) =
            calc_destination_lem s.agent.rtable s.agent.addr x among other in
          let doubles = calc_destination-doubles s.agent.rtable s.agent.addr dest t drawn in
          let (m, lt, is) = number s0.agent.num_nodes dest _ nodes member in
          let (row, found) = ready.rows m lt (λ e. ne (is ∙ sym (here-eq ∙ e))) in
          let there : find dest s.agent.rtable.rt ≡ some row =
            ap (λ z. find z s.agent.rtable.rt) is ∙ found in
          let there' : find dest t.rt ≡ some row = ap (find dest) rt ∙ there in
          let shared = ready.shared dest row there in
          let fractions : AreFractions t.rnum.doubles = subst AreFractions (sym doubles) draws in
          let (next, t', chosen, _) =
            calc_next_live order rounded exact (links env s) t s.agent.addr dest s.agent.addr
              (nb ∷ nbs) row there' shared fractions
              (subst (CanChoose (links env s) s.agent.addr s.agent.addr row) (sym doubles)
                (can dest row there)) in
          let (s', sent, launched, seq, _) =
            send_ant_pkt_lem env s dest next t t' row blank
              (subst (IsNode max_num_nodes) (sym here-eq) small) drawn there'
              (subst Distinct (sym shared.same) fresh.apart)
              (AreFractions-AreDraws t.rnum.doubles fractions) chosen in
          (
            dest,
            next,
            t,
            t',
            row,
            s',
            rw (sent, expire),
            drawn,
            ne,
            there',
            shared.same,
            chosen,
            launched,
            seq,
          )
