-- ===== src/Agent/Receive/Forward.antt =====
-- A forward ant on its way: what the node between source and destination does with it.
use mathlib.Core.Path.{ap₂}
use ant_aodv.Base.{
  ◌≡◌, ◌≢◌, ◌⊎◌, inl, inr, refl, sym, ap, ◌∙◌, ℤ, ℤ_discrete, if_neg, [], ◌∷◌, ◌++◌, some, Among,
  Distinct, arith,
}
use ant_aodv.Base.Result.{ok}
use ant_aodv.Double.{Double}
use ant_aodv.StdMap.{find}
use ant_aodv.Rtable.{AntnetRtable, PheromoneMatrix, neighbors, calc_next, Links}
use ant_aodv.Rtable.Choice.{AreDraws, Chosen, calc_next_lem}
use ant_aodv.Nodes.{IsNode}
use ant_aodv.Ant.{Packet, HdrAntPkt, path, max_num_nodes}
use ant_aodv.Ant.Bounds.{IsSmall, memorize-IsSmall}
use ant_aodv.Ant.Visits.{visit}
use ant_aodv.Agent.{Env, Sim, Action, does, towards, links, with_rtable}
use ant_aodv.Agent.Receive.{memorize_here, pass_on, forward_ant_pkt, recv_forward, recv}
use ant_aodv.Agent.Receive.Backward.{IsAt}
use ant_aodv.Agent.Receive.Turning.{IsForward, recv-eq-recv_forward}

module _ {W : Type 0} ⦃d : Double W⦄ where
  -- What becomes of the ant `p`, for the row of its destination and the hop `next` that was chosen: it
  -- is sent there, and is released only when `next` is this node or the one that the ant came from.
  pub data Forwarded (s : Sim W) (p : Packet W) (row : PheromoneMatrix W) (next : ℤ) (s' : Sim W)
      : Type 0 where
    released :
        (next ≡ s.agent.addr) ⊎ (next ≡ p.ip.saddr)
        → s'.actions ≡ s.actions ++ Action.free p ∷ []
        → Forwarded s p row next s'
    sent :
        next ≢ s.agent.addr
        → next ≢ p.ip.saddr
        → Among next (neighbors row)
        → s'.actions ≡ s.actions ++ Action.send (towards s.agent.addr next p) ∷ []
        → Forwarded s p row next s'

  pass_on-here :
      (s : Sim W) (p : Packet W) (next : ℤ)
      → next ≡ s.agent.addr
      → pass_on s p next ≡ does (Action.free p) s
  unfolding pass_on
  pass_on-here s p next e = ground arith

  pass_on-parent :
      (s : Sim W) (p : Packet W) (next : ℤ)
      → next ≢ s.agent.addr
      → next ≡ p.ip.saddr
      → pass_on s p next ≡ does (Action.free p) s
  unfolding pass_on
  pass_on-parent s p next n e = ground arith

  pass_on-send :
      (s : Sim W) (p : Packet W) (next : ℤ)
      → next ≢ s.agent.addr
      → next ≢ p.ip.saddr
      → pass_on s p next ≡ does (Action.send (towards s.agent.addr next p)) s
  unfolding pass_on
  pass_on-send s p next n m = rw (if_neg _ n) (rw (if_neg _ m))

  pass_on_lem :
      (s : Sim W) (p : Packet W) (row : PheromoneMatrix W) (next : ℤ)
      → (next ≢ p.ip.saddr → Among next (neighbors row))
      → Forwarded s p row next (pass_on s p next)
  pass_on_lem s p row next among = elim (ℤ_discrete next s.agent.addr) [
    | yes e ↦ rw (pass_on-here s p next e) (released (inl e) refl)
    | no n ↦ elim (ℤ_discrete next p.ip.saddr) [
      | yes e ↦ rw (pass_on-parent s p next n e) (released (inr e) refl)
      | no m ↦ rw (pass_on-send s p next n m) (sent n m (among m) refl)
    ]
  ]

  pass_on-rt :
      (s : Sim W) (p : Packet W) (next : ℤ) → (pass_on s p next).agent.rtable ≡ s.agent.rtable
  unfolding pass_on
  pass_on-rt s p next = ground arith

  Forwarded-from :
      {s : Sim W} {p : Packet W} {row : PheromoneMatrix W} {next : ℤ} {s' : Sim W} (s0 : Sim W)
      → s.actions ≡ s0.actions
      → s.agent.addr ≡ s0.agent.addr
      → Forwarded s p row next s'
      → Forwarded s0 p row next s'
  Forwarded-from {p = p} {s' = s'} s0 e a (released why acts) =
      released (elim why [ inl here ↦ inl (here ∙ a) | inr back ↦ inr back ]) (rw e at acts)
  Forwarded-from {p = p} {next = next} {s' = s'} s0 e a (sent n m among acts) =
      sent (λ q. n (q ∙ sym a)) m among
        (acts ∙ ap₂ (λ l z. l ++ Action.send (towards z next p) ∷ []) e a)

  pub onward-Among :
      {l : Links} {source parent a : ℤ} {row : PheromoneMatrix W}
      → Chosen l source parent row a
      → a ≢ parent
      → Among a (neighbors row)
  onward-Among (Chosen.back e _) n = absurd (n e)
  onward-Among (Chosen.onward _ among) n = among

  -- Where `calc_next` gives a hop, `forward_ant_pkt` returns: it sends the ant to that hop, a
  -- neighbour of the destination's row, unless the hop is this node or the one that the ant came
  -- from: then it releases the ant; and it changes no row. The neighbours of the row are distinct, and the draws are below 1.
  pub forward_ant_pkt_lem :
      (env : Env W) (s : Sim W) (p : Packet W) (row : PheromoneMatrix W) (next : ℤ)
      (t : AntnetRtable W)
      → find p.ant.pkt_dst s.agent.rtable.rt ≡ some row
      → Distinct (neighbors row)
      → AreDraws s.agent.rtable.rnum.doubles
      → calc_next (links env s) s.agent.rtable s.agent.addr p.ant.pkt_dst p.ip.saddr ≡ ok (next, t)
      → (s' : Sim W) × (forward_ant_pkt env s p ≡ ok s')
        × Forwarded s p row next s'
        × (s'.agent.rtable.rt ≡ s.agent.rtable.rt)
  unfolding forward_ant_pkt
  forward_ant_pkt_lem env s p row next t f u draws chosen =
      let parent = p.ip.saddr in
      let (choice, same) =
        calc_next_lem (links env s) s.agent.rtable s.agent.addr p.ant.pkt_dst parent row next t f u
          draws chosen in
      (
        pass_on (with_rtable t s) p next,
        rw (forward_ant_pkt, chosen) refl,
        Forwarded-from s refl refl (pass_on_lem (with_rtable t s) p row next (onward-Among choice)),
        ap (λ z. z.rt) (pass_on-rt (with_rtable t s) p next) ∙ same,
      )

  -- A node that is not its destination receives a forward ant for the ants' port from another node, in
  -- a network whose nodes are numbered below `MAX_NUM_NODES`; the ant's memory holds distinct nodes of
  -- it, the agent has the node's address, the destination has a row of distinct neighbours, and the
  -- draws are below 1. Where `calc_next` gives a hop, `recv` returns: the ant remembers the visit, and
  -- is sent to this very hop, a neighbour of that row, unless the hop is this node or the one that the
  -- ant came from: then, and only then, the ant is released. The table keeps its rows.
  pub recv_onward :
      (env : Env W) (s : Sim W) (p : Packet W) (row : PheromoneMatrix W) (next : ℤ)
      (t : AntnetRtable W)
      → IsAt s s.agent.addr
      → IsForward p s.agent.addr
      → IsSmall p.ant
      → IsNode max_num_nodes s.agent.addr
      → s.agent.addr ≢ p.ant.pkt_dst
      → find p.ant.pkt_dst s.agent.rtable.rt ≡ some row
      → Distinct (neighbors row)
      → AreDraws s.agent.rtable.rnum.doubles
      → calc_next (links env s) s.agent.rtable s.agent.addr p.ant.pkt_dst p.ip.saddr ≡ ok (next, t)
      → (s' : Sim W) × (h : HdrAntPkt W) × (recv env s p ≡ ok s')
        × (path h ≡ visit s.agent.addr (path p.ant))
        × IsSmall h
        × Forwarded s (record p { ant = h }) row next s'
        × (s'.agent.rtable.rt ≡ s.agent.rtable.rt)
  unfolding recv_forward memorize_here
  recv_onward env s p row next t at f small node far row_of u draws chosen =
      let here = s.agent.addr in
      let (ah, m, kept, grown, same) = memorize-IsSmall env.clock here p.ant small node in
      let p' = record p { ant = ah } in
      let goes : recv env s p ≡ forward_ant_pkt env s p' =
        rw (recv-eq-recv_forward env s p at f, m) (rw (if_neg _ far)) in
      let to = λ (z : ℤ). calc_next (links env s) s.agent.rtable here z p.ip.saddr in
      let (s', returns, done, rows) =
        forward_ant_pkt_lem env s p' row next t (ap (λ z. find z s.agent.rtable.rt) same.2 ∙ row_of)
          u draws (ap to same.2 ∙ chosen) in
      (s', ah, goes ∙ returns, grown, kept, done, rows)
