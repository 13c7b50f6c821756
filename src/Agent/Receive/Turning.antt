-- ===== src/Agent/Receive/Turning.antt =====
-- The ant at its destination: it is remembered, turned round, and sent back.
use mathlib.Core.List.{append_assoc, reverse, reverse-cons}
use ant_aodv.Base.{
  ℕ, suc, ◌<◌, ◌≡◌, ◌≢◌, refl, sym, ap, subst, ◌∙◌, inl, ℤ, if_pos, List, [], ◌∷◌, ◌++◌, length,
  length-append, Among, Distinct, arith,
}
use ant_aodv.Nodes.{Among-append}
use ant_aodv.Base.Result.{ok}
use ant_aodv.Double.{Double}
use ant_aodv.Packet.{Dir, rt_port}
use ant_aodv.Packet.Types.{pt_ant}
use ant_aodv.Ant.{Packet, HdrAntPkt, Memory, path, IsValid, max_num_nodes, last_second}
use ant_aodv.Ant.Bounds.{length-path}
use ant_aodv.Ant.Reads.{Holds, read_lem}
use ant_aodv.Ant.Visits.{visit_new, visit-Distinct, memorize_lem}
use ant_aodv.Agent.{Env, Sim, Action, does, upwards}
use ant_aodv.Agent.Receive.{
  memorize_here, create_backward_ant_pkt, recv_forward, recv_by_direction, recv_ant_pkt, recv,
}
use ant_aodv.Agent.Receive.Backward.{IsAt, is_rt_port_lem}
use ant_aodv.Agent.Receive.Journey.{Travels, Travels-back, last_of}

module _ {W : Type 0} ⦃d : Double W⦄ where
  last_second_lem :
      (ahead : List ℤ) (prev here : ℤ) (m : List (Memory W)) (n : ℕ)
      → Holds m n (ahead ++ prev ∷ here ∷ [])
      → n ≡ suc (suc (length ahead))
      → (e : Memory W) × (last_second m n ≡ ok e) × (e.node_addr ≡ prev)
  unfolding last_second
  last_second_lem ahead prev here m n h len =
      let (e, r, a) = read_lem ahead prev (here ∷ []) m n h in
      (e, subst (λ z. last_second m z ≡ ok e) (sym len) r, a)

  -- A forward ant, as the node `here` receives it.
  pub record IsForward (p : Packet W) (here : ℤ) : Type 0 where
    pub ptype : p.cmn.ptype ≡ pt_ant
    pub direction : p.cmn.direction ≡ Dir.down
    pub sport : p.ip.sport ≡ rt_port
    pub dport : p.ip.dport ≡ rt_port
    pub other : p.ip.saddr ≢ here
    pub valid : IsValid p.ant

  pub recv-eq-recv_forward :
      (env : Env W) (s : Sim W) (p : Packet W)
      → IsAt s s.agent.addr
      → IsForward p s.agent.addr
      → recv env s p ≡ recv_forward env s p
  unfolding recv recv_ant_pkt recv_by_direction
  recv-eq-recv_forward env s p at b =
      ground (arith, is_rt_port_lem p.ip.sport b.sport, is_rt_port_lem p.ip.dport b.dport)

  -- The packet that goes back: turned, and sent to the node before this one.
  abbrev turned : Packet W → HdrAntPkt W → Packet W
  turned p h = record p { ant = record h { pkt_src = h.pkt_dst; pkt_dst = h.pkt_src } }

  recv_turn :
      (env : Env W) (s : Sim W) (p : Packet W) (ahead : List ℤ) (prev : ℤ)
      → IsAt s s.agent.addr
      → IsForward p s.agent.addr
      → path p.ant ≡ ahead ++ prev ∷ []
      → ¬ Among s.agent.addr (path p.ant)
      → p.ant.pkt_mem_size < max_num_nodes
      → p.ant.pkt_dst ≡ s.agent.addr
      → (s' : Sim W) × (h : HdrAntPkt W) × (recv env s p ≡ ok s')
        × (s'.actions ≡ s.actions ++ Action.send (upwards s.agent.addr prev (turned p h)) ∷ [])
        × (path h ≡ ahead ++ prev ∷ s.agent.addr ∷ [])
        × IsValid h
        × (h.pkt_src ≡ p.ant.pkt_src)
  unfolding recv_forward memorize_here create_backward_ant_pkt
  recv_turn env s p ahead prev at f e out room home =
      let here = s.agent.addr in
      let (h, m, visited, v, same) = memorize_lem env.clock here p.ant f.valid (inl room) in
      let grown : path h ≡ ahead ++ prev ∷ here ∷ [] =
        visited
        ∙ visit_new here (path p.ant) out
        ∙ ap (λ l. l ++ here ∷ []) e
        ∙ append_assoc ahead (prev ∷ []) (here ∷ []) in
      let len : h.pkt_mem_size ≡ suc (suc (length ahead)) =
        omega (arith, length-path h v, ap length grown, length-append ahead (prev ∷ here ∷ [])) in
      let (en, r, a) = last_second_lem ahead prev here h.pkt_memory h.pkt_mem_size grown len in
      (
        does (Action.send (upwards here prev (turned p h))) s,
        h,
        rw (recv-eq-recv_forward env s p at f, m) (rw (if_pos _ (sym home)) (rw (r, a))),
        refl,
        grown,
        v,
        same.1,
      )

  -- A forward ant for the ants' port reaches its destination `a` from another node, with a valid
  -- memory, whose path has no repetition, begins at its source, does not hold `a`, and leaves room for
  -- it; the agent of each node has the node's address. Then it travels back from `a` along the path to
  -- the source, where it is released.
  pub round_trip :
      (env : Env W) (node : ℤ → Sim W)
      → ((b : ℤ) → IsAt (node b) b)
      → (prev : ℤ) (back : List ℤ) (a : ℤ) (p : Packet W) → IsForward p a
      → path p.ant ≡ reverse (prev ∷ back)
      → Distinct (path p.ant)
      → ¬ Among a (path p.ant)
      → p.ant.pkt_mem_size < max_num_nodes
      → p.ant.pkt_dst ≡ a
      → p.ant.pkt_src ≡ last_of prev back
      → Travels env node a p (a ∷ prev ∷ back)
  round_trip env node at prev back a p f e u out room dst src =
      let here : a ≡ (node a).agent.addr = sym (at a).addr in
      let split : path p.ant ≡ reverse back ++ prev ∷ [] = e ∙ reverse-cons prev back in
      let (s, h, r, sent, grown, v, src') =
        recv_turn env (node a) p (reverse back) prev (subst (IsAt (node a)) here (at a))
          (subst (IsForward p) here f) split (subst (λ z. ¬ Among z (path p.ant)) here out) room
          (dst ∙ here) in
      let p' = upwards (node a).agent.addr prev (turned p h) in
      let grown' : path h ≡ reverse back ++ prev ∷ a ∷ [] =
        subst (λ z. path h ≡ reverse back ++ prev ∷ z ∷ []) (sym here) grown in
      let once : Distinct (path h) =
        subst Distinct
          (visit_new a (path p.ant) out
            ∙ ap (λ l. l ++ a ∷ []) split
            ∙ append_assoc (reverse back) (prev ∷ []) (a ∷ [])
            ∙ sym grown')
          (visit-Distinct a (path p.ant) u) in
      let other : (node a).agent.addr ≢ prev = λ q. out (
        subst (Among a) (sym split)
          (Among-append a (reverse back) (prev ∷ []) (inl (sym q ∙ sym here)))) in
      Travels.hop prev p' s r sent refl (
        Travels-back env node at back prev a [] p'
          (record {
            ptype = refl;
            direction = refl;
            sport = f.sport;
            dport = f.dport;
            other = other;
            valid = record { array = v.array; used = v.used };
          })
          grown' once (src' ∙ src))
