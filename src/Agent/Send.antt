-- ===== src/Agent/Send.antt =====
-- `send_ant_pkt`, `reset_ant_timer` and the timer's `expire` of AntNet/antnet.cc.

pub mod Launch
use ant_aodv.Base.{◌+◌, ◌*◌, ◌%◌, ◌^◌, ℤ, ℤ_discrete, ite}
use ant_aodv.Base.Result.{Result, ok, ◌>>=◌}
use ant_aodv.Double.{Double}
use ant_aodv.Packet.{Dir, NsAf}
use ant_aodv.Packet.Types.{pt_ant}
use ant_aodv.Ant.{Packet, forward_ant, ant_size, memory, write}
use ant_aodv.Rtable.{calc_destination, calc_next}
use ant_aodv.Agent.{Env, Action, Sim, does, links}

module _ {W : Type 0} ⦃d : Double W⦄ where
  -- `reset_ant_timer`
  unfoldable pub reset_ant_timer : Sim W → Sim W
  reset_ant_timer s = does (Action.resched s.agent.timer_ant) s

  -- The header of a new forward ant.
  unfoldable pub launch : Env W → Sim W → (dest : ℤ) → Result (Packet W)
  launch env s dest =
      let ah = env.blank.ant in
      do
        m ← write ah.pkt_memory 0 (memory s.agent.addr d.nought)
        ok (record (env.blank) {
          ant = record ah {
            pkt_type = forward_ant;
            pkt_src = s.agent.addr;
            pkt_len = ant_size;
            pkt_seq_num = s.agent.ant_seq_num;
            pkt_start_time = env.clock;
            pkt_dst = dest;
            pkt_memory = m;
            pkt_mem_size = 1;
          };
          cmn = record (env.blank.cmn) {
            ptype = pt_ant;
            direction = Dir.down;
            size = ℤ.pos (env.ip_hdr_len + ant_size);
            error = ℤ.pos 0;
            addr_type = NsAf.ns_af_inet;
          };
        })

  unfoldable pub send_ant_pkt : Env W → Sim W → Result (Sim W)
  send_ant_pkt env s =
      let here = s.agent.addr in
      do
        (dest, t) ← calc_destination s.agent.rtable here
        p ← launch env s dest
        (next, t') ← calc_next (links env s) t here dest here
        let s' = record s {
          agent = record (s.agent) { rtable = t'; ant_seq_num = (s.agent.ant_seq_num + 1) % 2 ^ 8 };
        }
        ok (
            ite (ℤ_discrete next here) (does (Action.free p) s') (
              does
                (Action.send (record p {
                  cmn = record (p.cmn) { next_hop = next };
                  ip = record (p.ip) {
                    saddr = here;
                    daddr = next;
                    ttl = ℤ.pos (2 * s.globals.num_nodes);
                  };
                }))
                s'))

  -- `Ant_timer::expire`
  unfoldable pub expire : Env W → Sim W → Result (Sim W)
  expire env s = do s' ← send_ant_pkt env s; ok (reset_ant_timer s')
