-- ===== src/Agent/Receive.antt =====
-- `recv` of AntNet/antnet.cc and the methods that it calls.
pub mod Learning
pub mod Backward
pub mod Forward
pub mod Journey
pub mod Turning
use Prim.Native.String.{String}
use ant_aodv.Base.{
  ℕ, zero, suc, ◌+◌, ◌-◌, ◌*◌, ◌%◌, ◌^◌, ℤ, ℤ_discrete, is_pos, ite, if◌then◌else◌, Bool, true,
  false, ◌&&◌, ◌||◌, ◌==◌, List, [], ◌∷◌, ◌++◌, Option, none, some, length,
}
use ant_aodv.Base.Result.{Result, ok, fault, Fault, ◌>>=◌, ◌>>◌, guard, or_fault}
use ant_aodv.Base.Text.{same_text, same_text_nocase}
use ant_aodv.Double.{Double, ◌⊘◌}
use ant_aodv.Packet.{HdrCmn, HdrIp, Dir, NsAf, rt_port}
use ant_aodv.Packet.Types.{pt_ant}
use ant_aodv.Ant.{
  Packet, HdrAntPkt, Memory, forward_ant, ant_size, memory, write, memorize, read, find_here,
  entries_from, find_back, before, last_second,
}
use ant_aodv.Rtable.{AntnetRtable, Links, calc_destination, calc_next, add_entry, update, print}
use ant_aodv.Agent.{
  Globals, Antnet, Env, Action, Sim, does, with_rtable, links, get_num_neighbors, towards, upwards,
  drop_rtr_route_loop,
}

-- `sport() == RT_PORT`
unfoldable pub is_rt_port : ℤ → Bool
is_rt_port port = ite (ℤ_discrete port rt_port) true false

module _ {W : Type 0} ⦃d : Double W⦄ where
  unfoldable pub memorize_here : Env W → Sim W → Packet W → Result (Packet W)
  unfolding memorize
  memorize_here env s p = do ah ← memorize env.clock s.agent.addr p.ant; ok (record p { ant = ah })

  -- The end of `forward_ant_pkt`, for the next hop found: back to the parent or to this node itself
  -- is a dead end.
  unfoldable pub pass_on : Sim W → Packet W → (next : ℤ) → Sim W
  pass_on s p next =
      let here = s.agent.addr in
      ite (ℤ_discrete next here) (does (Action.free p) s) (
        ite (ℤ_discrete next p.ip.saddr) (does (Action.free p) s)
          (does (Action.send (towards here next p)) s))

  unfoldable pub forward_ant_pkt : Env W → Sim W → Packet W → Result (Sim W)
  unfolding pass_on
  forward_ant_pkt env s p = do
    (next, t) ← calc_next (links env s) s.agent.rtable s.agent.addr p.ant.pkt_dst p.ip.saddr
    ok (pass_on (with_rtable t s) p next)

  unfoldable pub create_backward_ant_pkt : Sim W → Packet W → Result (Sim W)
  create_backward_ant_pkt s p = do
    e ← last_second p.ant.pkt_memory p.ant.pkt_mem_size
    let turned = record p {
      ant = record (p.ant) { pkt_src = p.ant.pkt_dst; pkt_dst = p.ant.pkt_src };
    }
    ok (does (Action.send (upwards s.agent.addr e.node_addr turned)) s)

  unfoldable pub backward_ant_pkt : Sim W → Packet W → Result (Sim W)
  backward_ant_pkt s p = do
    found ← find_back s.agent.addr p.ant.pkt_memory p.ant.pkt_mem_size
    e ← before p.ant.pkt_memory found
    ok (does (Action.send (upwards s.agent.addr e.node_addr p)) s)

  -- The loop of `update_table` over the destinations.
  unfoldable pub update_dests :
      (r : W) → (next : ℤ) → List (Memory W) → AntnetRtable W → AntnetRtable W
  update_dests r next [] t = t
  update_dests r next (e ∷ m) t = update_dests r next m (update r t e.node_addr next)

  unfoldable pub update_table : Env W → Sim W → Packet W → Result (Sim W)
  update_table env s p =
      let ah = p.ant in
      do
        i ← find_here s.agent.addr ah.pkt_memory
        next ← read ah.pkt_memory (suc i)
        visited ← entries_from ah.pkt_memory (suc i) (ah.pkt_mem_size - suc i)
        let counted = record s {
          globals = record (s.globals) { n = ℤ.pos (get_num_neighbors env s.agent.addr) };
        }
        ok (with_rtable (update_dests s.globals.r next.node_addr visited s.agent.rtable) counted)

  unfoldable pub recv_forward : Env W → Sim W → Packet W → Result (Sim W)
  recv_forward env s p = do
    p' ← memorize_here env s p
    ite (ℤ_discrete s.agent.addr p.ant.pkt_dst) (create_backward_ant_pkt s p')
        (forward_ant_pkt env s p')

  unfoldable pub recv_backward : Env W → Sim W → Packet W → Result (Sim W)
  recv_backward env s p = do
    s' ← update_table env s p
    ite (ℤ_discrete s.agent.addr p.ant.pkt_dst) (ok (does (Action.free p) s'))
        (backward_ant_pkt s' p)

  -- By the direction of the packet.
  unfoldable pub recv_by_direction : Dir → Env W → Sim W → Packet W → Result (Sim W)
  recv_by_direction Dir.down env s p = recv_forward env s p
  recv_by_direction Dir.none env s p = ok s
  recv_by_direction Dir.up env s p = recv_backward env s p

  unfoldable pub recv_ant_pkt : Env W → Sim W → Packet W → Result (Sim W)
  recv_ant_pkt env s p = do
    guard (is_rt_port p.ip.sport) Fault.assertion_failed
    guard (is_rt_port p.ip.dport) Fault.assertion_failed
    recv_by_direction p.cmn.direction env s p

  unfoldable pub recv : Env W → Sim W → Packet W → Result (Sim W)
  recv env s p =
      ite (ℤ_discrete p.ip.saddr s.agent.ra_addr)
        (ok (if is_pos p.cmn.num_forwards then does (Action.drop p drop_rtr_route_loop) s else s))
        (if p.cmn.ptype == pt_ant
          then recv_ant_pkt env s p
          else ok (does (Action.drop p drop_rtr_route_loop) s))
