-- ===== src/Agent/Receive/Backward.antt =====
-- The way back of an ant: one hop, and the whole journey from the destination to the source.
use mathlib.Core.List.{append_assoc}
use ant_aodv.Base.{
  suc, ◌+◌, ◌≡◌, ◌≢◌, refl, sym, ap, subst, ◌∙◌, ℤ, pos, if_pos, if_neg, List, [], ◌∷◌, ◌++◌,
  length, length-append, some, Among, Distinct, true, arith,
}
use ant_aodv.Nodes.{Distinct-behind}
use ant_aodv.Base.Result.{ok}
use ant_aodv.Double.{Double}
use ant_aodv.Packet.{Dir, rt_port}
use ant_aodv.Packet.Types.{pt_ant}
use ant_aodv.Ant.{Packet, path, IsValid, find_back, before}
use ant_aodv.Ant.Bounds.{length-path}
use ant_aodv.Ant.Reads.{read_lem, find_back_lem}
use ant_aodv.Agent.{Env, Sim, Action, does, upwards, with_rtable, get_num_neighbors}
use ant_aodv.Agent.Receive.{
  backward_ant_pkt, recv_backward, recv_by_direction, recv_ant_pkt, recv, is_rt_port,
}
use ant_aodv.Agent.Receive.Learning.{update_table_lem}

pub is_rt_port_lem : (port : ℤ) → port ≡ rt_port → is_rt_port port ≡ true
unfolding is_rt_port
is_rt_port_lem port e = ground arith

module _ {W : Type 0} ⦃d : Double W⦄ where
  -- On the path of a valid memory, on which this node comes last behind `prev`, `backward_ant_pkt` sends the ant to `prev`.
  pub backward_ant_pkt_lem :
      (s : Sim W) (p : Packet W) (ahead : List ℤ) (prev : ℤ) (behind : List ℤ)
      → IsValid p.ant
      → path p.ant ≡ ahead ++ prev ∷ s.agent.addr ∷ behind
      → ¬ Among s.agent.addr behind
      → backward_ant_pkt s p ≡ ok (does (Action.send (upwards s.agent.addr prev p)) s)
  unfolding backward_ant_pkt before
  backward_ant_pkt_lem s p ahead prev behind v h out =
      let here = s.agent.addr in
      let m = p.ant.pkt_memory in
      let n = p.ant.pkt_mem_size in
      let split : path p.ant ≡ (ahead ++ prev ∷ []) ++ here ∷ behind =
        h ∙ sym (append_assoc ahead (prev ∷ []) (here ∷ behind)) in
      let len : length (ahead ++ prev ∷ []) ≡ suc (length ahead) =
        omega (arith, length-append ahead (prev ∷ [])) in
      let whole : length (path p.ant) ≡ length ahead + suc (suc (length behind)) =
        ap length h ∙ length-append ahead (prev ∷ here ∷ behind) in
      let (e, r, a) = read_lem ahead prev (here ∷ behind) m n h in
      let found : find_back here m n ≡ ok (some (suc (length ahead))) =
        subst (λ i. find_back here m n ≡ ok (some i)) len
          (find_back_lem (ahead ++ prev ∷ []) here behind m n split (omega (arith, v.array, v.used))
            (omega (arith, len, whole, length-path p.ant v)) out) in
      rw (found, r, a)

  -- What every hop of a backward ant keeps, as the node `here` receives it.
  pub record IsBackward (p : Packet W) (here : ℤ) : Type 0 where
    pub ptype : p.cmn.ptype ≡ pt_ant
    pub direction : p.cmn.direction ≡ Dir.up
    pub sport : p.ip.sport ≡ rt_port
    pub dport : p.ip.dport ≡ rt_port
    pub other : p.ip.saddr ≢ here
    pub valid : IsValid p.ant

  -- The agent at `a` has this address, in its base class and as its own.
  pub record IsAt (s : Sim W) (a : ℤ) : Type 0 where
    pub addr : s.agent.addr ≡ a
    pub ra_addr : s.agent.ra_addr ≡ a

  recv-eq-recv_backward :
      (env : Env W) (s : Sim W) (p : Packet W)
      → IsAt s s.agent.addr
      → IsBackward p s.agent.addr
      → recv env s p ≡ recv_backward env s p
  unfolding recv recv_ant_pkt recv_by_direction
  recv-eq-recv_backward env s p at b =
      ground (arith, is_rt_port_lem p.ip.sport b.sport, is_rt_port_lem p.ip.dport b.dport)

  -- One hop of a backward ant that is not at its destination yet.
  pub recv_hop :
      (env : Env W) (s : Sim W) (p : Packet W) (ahead : List ℤ) (prev next : ℤ) (behind : List ℤ)
      → IsAt s s.agent.addr
      → IsBackward p s.agent.addr
      → path p.ant ≡ ahead ++ prev ∷ s.agent.addr ∷ next ∷ behind
      → Distinct (path p.ant)
      → s.agent.addr ≢ p.ant.pkt_dst
      → (s' : Sim W) × (recv env s p ≡ ok s')
        × (s'.actions ≡ s.actions ++ Action.send (upwards s.agent.addr prev p) ∷ [])
  unfolding recv_backward
  recv_hop env s p ahead prev next behind at b h u far =
      let here = s.agent.addr in
      let split : path p.ant ≡ (ahead ++ prev ∷ []) ++ here ∷ next ∷ behind =
        h ∙ sym (append_assoc ahead (prev ∷ []) (here ∷ next ∷ behind)) in
      let (t, taught, _) =
        update_table_lem env s p (ahead ++ prev ∷ []) next behind here b.valid split u in
      let s' =
        with_rtable t
          (record s { globals = record (s.globals) { n = pos (get_num_neighbors env here) } }) in
      let out : ¬ Among here (next ∷ behind) =
        (Distinct-behind here (ahead ++ prev ∷ []) (next ∷ behind) (subst Distinct split u)).0 in
      (
        does (Action.send (upwards here prev p)) s',
        rw (recv-eq-recv_backward env s p at b, taught)
            (rw (if_neg _ far)
              (backward_ant_pkt_lem s' p ahead prev (next ∷ behind) b.valid h out)),
        refl,
      )

  -- Its arrival.
  pub recv_home :
      (env : Env W) (s : Sim W) (p : Packet W) (next : ℤ) (behind : List ℤ)
      → IsAt s s.agent.addr
      → IsBackward p s.agent.addr
      → path p.ant ≡ s.agent.addr ∷ next ∷ behind
      → Distinct (path p.ant)
      → s.agent.addr ≡ p.ant.pkt_dst
      → (s' : Sim W) × (recv env s p ≡ ok s') × (s'.actions ≡ s.actions ++ Action.free p ∷ [])
  unfolding recv_backward
  recv_home env s p next behind at b h u home =
      let here = s.agent.addr in
      let (t, taught, _) = update_table_lem env s p [] next behind here b.valid h u in
      let s' =
        with_rtable t
          (record s { globals = record (s.globals) { n = pos (get_num_neighbors env here) } }) in
      (
        does (Action.free p) s',
        rw (recv-eq-recv_backward env s p at b, taught) (rw (if_pos _ home) refl),
        refl,
      )
