-- ===== src/Agent/Send/Launch.antt =====
-- What `send_ant_pkt` sends.
use ant_aodv.Base.{
  ◌+◌, ◌*◌, ◌%◌, ◌^◌, ◌≡◌, ◌≢◌, refl, sym, ◌∙◌, ℤ, pos, ℤ_discrete, if_pos, if_neg, List, [], ◌∷◌,
  ◌++◌, length, set, length-set, some, Among, Distinct, All, arith, take, map, ltb, true, subst,
}
use ant_aodv.Base.Result.{ok}
use ant_aodv.Double.{Double}
use ant_aodv.StdMap.{find}
use ant_aodv.Packet.{Dir, NsAf}
use ant_aodv.Packet.Types.{pt_ant}
use ant_aodv.Rtable.{AntnetRtable, PheromoneMatrix, neighbors, calc_next, calc_destination}
use ant_aodv.Rtable.Choice.{AreDraws, calc_next_lem}
use ant_aodv.Nodes.{IsNode}
use ant_aodv.Ant.{Packet, Memory, memory, forward_ant, ant_size, path, write, max_num_nodes}
use ant_aodv.Ant.Bounds.{IsSmall}
use ant_aodv.Agent.Receive.Forward.{onward-Among}
use ant_aodv.Agent.{Env, Sim, Action, does, links}
use ant_aodv.Agent.Send.{launch, send_ant_pkt}

module _ {W : Type 0} ⦃d : Double W⦄ where
  -- A new forward ant from `here` to `dest`.
  pub record IsLaunched (here dest : ℤ) (p : Packet W) : Type 0 where
    pub ptype : p.cmn.ptype ≡ pt_ant
    pub direction : p.cmn.direction ≡ Dir.down
    pub src : p.ant.pkt_src ≡ here
    pub dst : p.ant.pkt_dst ≡ dest
    pub start : path p.ant ≡ here ∷ []

  path_first :
      (a : ℤ) (t : W) (m : List (Memory W))
      → length m ≡ max_num_nodes
      → (map (λ (e : Memory W). e.node_addr) (take 1 (set m 0 (memory a t))) ≡ a ∷ [])
  path_first a t [] e = absurd (omega arith)
  path_first a t (x ∷ m) e = refl

  launch_lem :
      (env : Env W) (s : Sim W) (dest : ℤ)
      → length env.blank.ant.pkt_memory ≡ max_num_nodes
      → IsNode max_num_nodes s.agent.addr
      → (p : Packet W) × (launch env s dest ≡ ok p) × IsLaunched s.agent.addr dest p × IsSmall p.ant
  unfolding launch write
  launch_lem env s dest e node =
      let m = env.blank.ant.pkt_memory in
      let m' = set m 0 (memory s.agent.addr d.nought) in
      let below : ltb 0 (length m) ≡ true = ground (arith, e) in
      let first = path_first s.agent.addr d.nought m e in
      (
        record (env.blank) {
          ant = record (env.blank.ant) {
            pkt_type = forward_ant;
            pkt_src = s.agent.addr;
            pkt_len = ant_size;
            pkt_seq_num = s.agent.ant_seq_num;
            pkt_start_time = env.clock;
            pkt_dst = dest;
            pkt_memory = m';
            pkt_mem_size = 1;
          };
          cmn = record (env.blank.cmn) {
            ptype = pt_ant;
            direction = Dir.down;
            size = pos (env.ip_hdr_len + ant_size);
            error = pos 0;
            addr_type = NsAf.ns_af_inet;
          };
        },
        rw (launch, write, below) refl,
        record { ptype = refl; direction = refl; src = refl; dst = refl; start = first },
        record {
          valid = record {
            array = length-set m 0 (memory s.agent.addr d.nought) ∙ e;
            used = omega arith;
          };
          distinct = subst Distinct (sym first) (λ x. x, tt);
          small = subst (All (IsNode max_num_nodes)) (sym first) (node, tt);
        },
      )

  -- What a launch adds to the actions: the new ant is released, if the choice is this node itself, or
  -- sent to the neighbour chosen.
  pub data Launched (s : Sim W) (dest next : ℤ) (row : PheromoneMatrix W) (s' : Sim W)
      : Type 0 where
    released :
        (p : Packet W)
        → next ≡ s.agent.addr
        → IsLaunched s.agent.addr dest p
        → s'.actions ≡ s.actions ++ Action.free p ∷ []
        → Launched s dest next row s'
    sent :
        (p : Packet W)
        → next ≢ s.agent.addr
        → Among next (neighbors row)
        → IsLaunched s.agent.addr dest p
        → IsSmall p.ant
        → p.ip.saddr ≡ s.agent.addr
        → p.ip.daddr ≡ next
        → s'.actions ≡ s.actions ++ Action.send p ∷ []
        → Launched s dest next row s'

  -- Where the table gives a destination with a row and a next hop, `send_ant_pkt` returns: it sends a
  -- new forward ant, whose path is this node alone, to a neighbour of the row, or releases it if the
  -- next hop is this node; the sequence number wraps at 256. The node and the blank packet's memory
  -- are within `MAX_NUM_NODES`, the neighbours of the row are distinct, and the draws are below 1.
  pub send_ant_pkt_lem :
      (env : Env W) (s : Sim W) (dest next : ℤ) (t t' : AntnetRtable W) (row : PheromoneMatrix W)
      → length env.blank.ant.pkt_memory ≡ max_num_nodes
      → IsNode max_num_nodes s.agent.addr
      → calc_destination s.agent.rtable s.agent.addr ≡ ok (dest, t)
      → find dest t.rt ≡ some row
      → Distinct (neighbors row)
      → AreDraws t.rnum.doubles
      → calc_next (links env s) t s.agent.addr dest s.agent.addr ≡ ok (next, t')
      → (s' : Sim W) × (send_ant_pkt env s ≡ ok s')
        × Launched s dest next row s'
        × (s'.agent.ant_seq_num ≡ (s.agent.ant_seq_num + 1) % 2 ^ 8)
        × (s'.agent.rtable.rt ≡ t.rt)
  unfolding send_ant_pkt
  send_ant_pkt_lem env s dest next t t' row e node drawn f u draws chosen =
      let here = s.agent.addr in
      let (p, made, launched, small) = launch_lem env s dest e node in
      let s1 = record s {
        agent = record (s.agent) { rtable = t'; ant_seq_num = (s.agent.ant_seq_num + 1) % 2 ^ 8 };
      } in
      let q = record p {
        cmn = record (p.cmn) { next_hop = next };
        ip = record (p.ip) { saddr = here; daddr = next; ttl = pos (2 * s.globals.num_nodes) };
      } in
      let (choice, same) =
        calc_next_lem (links env s) t here dest here row next t' f u draws chosen in
      elim (ℤ_discrete next here) [
        | yes y ↦ (
          does (Action.free p) s1,
          rw (send_ant_pkt, drawn, made, chosen, if_pos _ y) refl,
          Launched.released p y launched refl,
          refl,
          same,
        )
        | no n ↦ (
          does (Action.send q) s1,
          rw (send_ant_pkt, drawn, made, chosen, if_neg _ n) refl,
          Launched.sent q n (onward-Among choice n)
              (record {
                ptype = launched.ptype;
                direction = launched.direction;
                src = launched.src;
                dst = launched.dst;
                start = launched.start;
              })
              small refl refl refl,
          refl,
          same,
        )
      ]
