-- ===== src/Examples.antt =====
-- Examples: each general theorem applied to concrete states, and what the fixtures share.
mod Routing
mod Ants
mod Lessons
mod Agents
mod Live
mod Names
mod Pools
mod Traces
mod Animations
mod Starts
mod Queues
use ant_aodv.Base.{
  ℕ, ◌+◌, ◌-◌, ◌≡◌, refl, ℤ, pos, negsuc, List, [], ◌∷◌, ◌++◌, replicate, length, true, some, none,
}
use ant_aodv.Packet.{HdrCmn, HdrIp, Dir, NsAf, ModulationScheme, rt_port}
use ant_aodv.Packet.Types.{pt_ant}
use ant_aodv.Ant.{HdrAntPkt, Packet, Memory, memory, forward_ant}
use ant_aodv.Traffic.{Traffic}
use ant_aodv.Agent.{Antnet, Globals, Env, Sim}
use ant_aodv.Double.Milli.{Milli, milli_double}
use ant_aodv.Rtable.{Pheromone, PheromoneMatrix, AntnetRtable, Links}

abbrev pub link : ℤ → Milli → Pheromone Milli
link a w = record { neighbor = a; phvalue = w }

-- Node 5 by way of 1, 2 and 3.
abbrev pub row_of_5 : PheromoneMatrix Milli
row_of_5 = link (pos 1) 200 ∷ link (pos 2) 300 ∷ link (pos 3) 500 ∷ []

abbrev pub table : AntnetRtable Milli
table = record {
  rt = (pos 5, row_of_5) ∷ (pos 6, link (pos 1) 1000 ∷ []) ∷ [];
  rnum = record { ints = pos 0 ∷ pos 4 ∷ []; doubles = 100 ∷ 450 ∷ 999 ∷ [] };
}

-- A row whose values add up to 900 thousandths, and a draw above that.
abbrev pub short_table : AntnetRtable Milli
short_table = record {
  rt = (pos 5, link (pos 1) 200 ∷ link (pos 2) 700 ∷ []) ∷ [];
  rnum = record { ints = []; doubles = 950 ∷ [] };
}

abbrev pub quiet : Links
quiet = record { n = pos 3; queue_length = λ a b. pos 0 }

-- A memory of the visits listed, filled up to the size of the array.
abbrev pub filled : ℕ → List (Memory Milli) → List (Memory Milli)
filled free visits = visits ++ replicate free (memory (pos 0) 0)

abbrev pub ant_at : {W : Type 0} → (start : W) → (src dst : ℤ) → List (Memory W) → ℕ → HdrAntPkt W
ant_at start src dst memory n = record {
  pkt_type = forward_ant;
  pkt_src = src;
  pkt_dst = dst;
  pkt_len = 7;
  pkt_seq_num = 0;
  pkt_start_time = start;
  pkt_memory = memory;
  pkt_mem_size = n;
}

abbrev pub ant : (src dst : ℤ) → (memory : List (Memory Milli)) → ℕ → HdrAntPkt Milli
ant = ant_at 0

-- An ant packet on its way from `saddr`; all times are `start`.
abbrev pub packet_at : {W : Type 0} → (start : W) → Dir → (saddr daddr : ℤ) → HdrAntPkt W → Packet W
packet_at start dir saddr daddr h = record {
  cmn = record {
    ptype = pt_ant;
    size = pos 27;
    uid = pos 0;
    error = pos 0;
    errbitcnt = pos 0;
    fecsize = pos 0;
    ts = start;
    iface = negsuc 1;
    direction = dir;
    src_rt_valid = pos 0;
    ts_arr = start;
    prev_hop = saddr;
    next_hop = daddr;
    addr_type = NsAf.ns_af_inet;
    last_hop = pos 0;
    aomdv_salvage_count = pos 0;
    xmit_reason = pos 0;
    num_forwards = pos 0;
    opt_num_forwards = pos 0;
    txtime = start;
    mod_scheme = ModulationScheme.bpsk;
  };
  ip = record { saddr = saddr; daddr = daddr; sport = rt_port; dport = rt_port; ttl = pos 100 };
  ant = h;
}

abbrev pub packet : Dir → (saddr daddr : ℤ) → HdrAntPkt Milli → Packet Milli
packet = packet_at 0

abbrev pub env : Env Milli
env = record {
  clock = 40;
  neighbor_list = λ a. pos 1 ∷ pos 2 ∷ pos 3 ∷ [];
  queue_length = λ a b. pos 2;
  blank = packet Dir.down (pos 0) (pos 0) (ant (pos 0) (pos 0) (filled 16 []) 0);
  ip_hdr_len = 20;
  exists = λ name. true;
}

-- The agent of the node `a`, with the routing table above.
abbrev pub node : ℤ → Sim Milli
node a = record {
  agent = record {
    addr = a;
    ra_addr = a;
    rtable = table;
    traffic = record { state = []; window = [] };
    ant_seq_num = 0;
    r_factor = 400;
    timer_ant = 30;
    num_nodes = 7;
    num_nodes_x = 0;
    num_nodes_y = 0;
    dmux = none;
    logtarget = none;
  };
  globals = record { r = 400; n = pos 3; num_nodes = 7 };
  actions = [];
}
