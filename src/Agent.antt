-- ===== src/Agent.antt =====
-- AntNet/antnet.h and antnet.cc: the routing agent `Antnet`. Here is the state that its methods run
-- in; the children have the methods. A method takes the surroundings and the state, and returns the
-- new state, in which the effects on the rest of the simulator are listed, oldest first.
pub mod Send
pub mod Receive
pub mod Start
pub mod Command
pub mod Ready
pub mod Live
use Prim.Native.String.{String}
use ant_aodv.Base.{
  ℕ, zero, suc, ◌+◌, ◌-◌, ◌*◌, ◌%◌, ◌^◌, ℤ, ℤ_discrete, is_pos, ite, if◌then◌else◌, Bool, true,
  false, ◌&&◌, ◌||◌, ◌==◌, List, [], ◌∷◌, ◌++◌, Option, none, some, length,
}
use ant_aodv.Base.Result.{Result, ok, fault, Fault, ◌>>=◌, ◌>>◌, guard, or_fault}
use ant_aodv.Base.Text.{same_text, same_text_nocase}
use ant_aodv.Double.{Double, ◌⊘◌}
use ant_aodv.Packet.{HdrCmn, HdrIp, Dir, NsAf, rt_port}
use ant_aodv.Packet.Types.{pt_ant}
use ant_aodv.Ant.{
  Packet, HdrAntPkt, Memory, forward_ant, ant_size, memory, write, memorize, read, find_here,
  entries_from, find_back, before, last_second,
}
use ant_aodv.Rtable.{AntnetRtable, Links, calc_destination, calc_next, add_entry, update, print}
use ant_aodv.Traffic.{Traffic}

-- `#define DROP_RTR_ROUTE_LOOP "LOOP"`
abbrev pub drop_rtr_route_loop : String
drop_rtr_route_loop = "LOOP"

-- The globals `r`, `N` and `NUM_NODES`, which all agents share.
pub record Globals (W : Type 0) : Type 0 where
  pub r : W
  pub n : ℤ
  pub num_nodes : ℕ

-- The members of `Antnet`; `addr` is the address that its base class holds.
pub record Antnet (W : Type 0) : Type 0 where
  pub addr : ℤ
  pub ra_addr : ℤ
  pub rtable : AntnetRtable W
  pub traffic : Traffic W
  pub ant_seq_num : ℕ
  pub r_factor : W
  pub timer_ant : W
  pub num_nodes : ℕ
  pub num_nodes_x : ℕ
  pub num_nodes_y : ℕ
  pub dmux : Option String
  pub logtarget : Option String

-- What the rest of the simulator gives: the clock, the nodes' neighbour lists, the queue lengths,
-- the packet that `allocpkt` returns, `IP_HDR_LEN`, and the objects that Tcl names.
pub record Env (W : Type 0) : Type 0 where
  pub clock : W
  pub neighbor_list : ℤ → List ℤ
  pub queue_length : ℤ → ℤ → ℤ
  pub blank : Packet W
  pub ip_hdr_len : ℕ
  pub exists : String → Bool

-- What a method does to the rest of the simulator.
pub data Action (W : Type 0) : Type 0 where
  -- `target_->recv(p)`
  send : Packet W → Action W
  -- `drop(p, why)`
  drop : Packet W → String → Action W
  -- `Packet::free(p)`
  free : Packet W → Action W
  -- `ant_timer_.resched(delay)` and `ant_timer_.cancel()`
  resched : W → Action W
  cancel : Action W
  -- the file of routing tables emptied, or lines appended to it behind a heading for this node
  truncate : Action W
  append_table : ℤ → List (ℤ × ℤ × W) → Action W
  -- `a->addNeighbor(b)`
  add_neighbor : String → String → Action W

pub record Sim (W : Type 0) : Type 0 where
  pub agent : Antnet W
  pub globals : Globals W
  pub actions : List (Action W)

module _ {W : Type 0} where
  abbrev pub does : Action W → Sim W → Sim W
  does a s = record s { actions = s.actions ++ a ∷ [] }

  abbrev pub with_rtable : AntnetRtable W → Sim W → Sim W
  with_rtable t s = record s { agent = record (s.agent) { rtable = t } }

  -- What `calc_next` reads at this point.
  abbrev pub links : Env W → Sim W → Links
  links env s = record { n = s.globals.n; queue_length = env.queue_length }

  unfoldable pub get_num_neighbors : Env W → ℤ → ℕ
  get_num_neighbors env a = length (env.neighbor_list a)

  -- The next hop goes into the common and the IP header, and this node becomes the IP source.
  abbrev pub towards : ℤ → ℤ → Packet W → Packet W
  towards here next p = record p {
    cmn = record (p.cmn) { next_hop = next };
    ip = record (p.ip) { saddr = here; daddr = next };
  }

  -- The same for a backward ant.
  abbrev pub upwards : ℤ → ℤ → Packet W → Packet W
  upwards here next p = record p {
    cmn = record (p.cmn) { next_hop = next; direction = Dir.up; ptype = pt_ant };
    ip = record (p.ip) { saddr = here; daddr = next };
  }
