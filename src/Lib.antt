-- ===== src/Lib.antt =====
-- ANT-AODV: the AntNet routing agent for ns-2 (AntNet/) and the queues and packet headers that were
-- changed for it (Ns2.35Files/).
--
-- Parts of the program and how they interact. A timer makes the agent of a node (AntNet/antnet.cc)
-- launch forward ants. A forward ant goes from node to node; at each the agent remembers the visit in
-- the ant's header (AntNet/ant_pkt.h) and asks the routing table (AntNet/antnet_rtable.cc) for the
-- next hop. At its destination the ant is turned round; it goes back along its memory, and each
-- agent on the way raises the pheromone value of the link that the ant went out by. Packets wait in
-- a drop-tail queue (Ns2.35Files/drop-tail.cc) or in a priority queue built on it
-- (Ns2.35Files/priqueue.cc), which sends routing packets first.
--
-- Files and code:
--   Base, StdMap       names and lemmas shared by all; results with faults; `std::map`
--   Double             `double`: its operations as an interface, laws assumed of it, two types that
--                      meet them
--   Rtable             AntNet/antnet_rtable.{h,cc}: class `antnet_rtable`
--   Packet             Ns2.35Files/packet.h: packet types, `hdr_cmn`, `p_info`
--                      and the classifiers; Pool has class `Packet`, Data has `PacketData`
--   Ant                AntNet/ant_pkt.h and `Antnet::memorize`; the loops that read the memory
--   Traffic            AntNet/antnet_traffic.h, `get_win_size`, `update_traffic`
--   Nodes              lists of addresses without repetition
--   Agent              AntNet/antnet.{h,cc}, AntNet/antnet_common.cc: class `Antnet`; Send, Receive,
--                      Start and Command have its methods; Ready has the runs of a node, and what they
--                      keep, and Live what follows for ants
--   Queue              the interface of ns-2's `PacketQueue`; DropTail and PriQueue have the queues
--   Trace              Ns2.35Files/cmu-trace.{h,cc}: class `CMUTrace` and the chain of `PacketTracer`s;
--                      State, Mac, Formats, Routing, Sctp, Mdart and Nam (lines for the animator) have
--                      the methods, Base/Format `sprintf`
--   Examples           the theorems at concrete states
-- A method of a class is a function of the same name in snake case. It takes the state as a record
-- and returns the new state; what it does to the rest of the simulator (a packet sent, dropped or
-- released, the timer set, a line printed) is appended to a list of actions or effects. A read or
-- write outside an array, a null pointer and an end without `return` are faults of `Result`.
--
-- Bounds and fuel. The ant's memory is a list of length `max_num_nodes` = 16; reads and writes beyond
-- it are faults. `ant_seq_num` wraps at 2 ^ 8. `shrink_loop`, `filter_loop` and `terminate_loop` run
-- on fuel that is the length of the queue, or one more: each round takes a packet or advances by one,
-- so that this is enough; so is it for `find_hop`, whose last round finds the end. The draws of the
-- random number generator are lists of the values to come; a loop that draws until a value fits ends
-- with the fault `no_draw` when the list does not have one.
--
-- Not in the repository and so a parameter: ns-2's `PacketQueue`, whose documented behaviour is
-- `IsFifo`; `Queue::recv`; the neighbour lists of the nodes and the queue lengths that Tcl gives; the
-- clock; the packet that `allocpkt` returns; Tcl's objects; of the header bits what class `Packet` reads
-- (`Headers`), whose fields lie apart (`IsHeaders`); the classes `Event`, `PacketStamp`, `DCCPOptions`
-- and the kinds of `AppData` other than `PacketData`. A packet, its data and its options are pointers
-- into heaps (Base/Heap); a read or `delete` of what is not there is a fault. For the trace: the
-- headers of ns-2's other protocols with their constants (Trace/Headers), its nodes and their energy,
-- the links that 802.15.4 marks, Tcl's numbers, `pow`, and how a `double` and the time are printed
-- (`World`). The laws assumed of `double` are `IsOrdered` and `IsRounded`; the theorems on the exact sum
-- of a row and on ants that are never held up assume `IsExact` besides, and the latter `IsDivided`;
-- `double`, which rounds, does not have these two.
--
-- Not modelled: `print_neighbors` and packet.h's `dump_header`, which only print; the size of the
-- buffers that the trace writes its lines to; the bound of `int` on the product
-- `qlim_ * mean_pktsize_` of the queues; `PacketHeaderClass` in packet.h, whose methods are ns-2's; the
-- Tcl, awk, perl and Python scripts. A stray `/` in two statements of the sources is read
-- as if it were not there.
pub mod Base
pub mod StdMap
pub mod Double
pub mod Rtable
pub mod Nodes
pub mod Packet
pub mod Ant
pub mod Traffic
pub mod Trace
pub mod Agent
pub mod Queue
pub mod Examples
