-- ===== src/Trace.antt =====
-- Ns2.35Files/cmu-trace.h and cmu-trace.cc: class `CMUTrace`, which writes a line for each packet, and
-- the chain of tracers for other packets. The children write the parts of a line.
pub mod Headers
pub mod State
pub mod Formats
pub mod Routing
pub mod Sctp
pub mod Mac
pub mod Nam
pub mod Mdart
pub mod Written
pub mod Added
pub mod Lines
pub mod Given
pub mod Ants
use Prim.Native.String.{String}
use ant_aodv.Base.{
  ℕ, ◌==◌, ◌||◌, ◌&&◌, ℤ, Bool, true, false, if◌then◌else◌, List, [], ◌∷◌, ◌++◌, length, Option,
  none, some,
}
use ant_aodv.Base.Result.{Result, ok, fault, Fault, ◌>>=◌, ◌>>◌, guard}
use ant_aodv.Base.Text.{codes, same_text}
use ant_aodv.Packet.{HdrCmn}
use ant_aodv.Packet.Types.{
  PacketT, pt_mac, pt_smac, pt_arp, pt_aodv, pt_ant, pt_aomdv, pt_tora, pt_imep, pt_dsr, pt_message,
  pt_udp, pt_tcp, pt_ack, pt_sctp, pt_cbr, pt_diff, pt_gaf, pt_ping,
}
use State.{World, CmuTrace, PacketTracer, Effect, Energy, drop, sent, is_agent, does, with_buffer}
use Formats.{format_arp, format_ip, format_antnet, format_imep, format_dsr, format_tcp, format_rtp}
use Routing.{format_aodv, format_aomdv, format_tora}
use Sctp.{format_sctp}
use Mac.{format_mac_common, node_model}
use Nam.{nam_format}

module _ {P : Type 0} where
  -- The first tracer of the chain that knows the packet ends the search; those before it may have
  -- written to the buffer too.
  unfoldable pub format_unknow :
      List (PacketTracer P) → P → (offset : ℕ) → (newtrace : ℤ) → List ℕ → Bool × List ℕ
  format_unknow [] p offset newtrace buffer = (false, buffer)
  format_unknow (tracer ∷ next) p offset newtrace buffer =
      let (known, buffer') = tracer p offset newtrace buffer in
      elim known [ true ↦ (true, buffer') | false ↦ format_unknow next p offset newtrace buffer' ]

  -- A null pointer, `none`, adds nothing.
  unfoldable pub add_packet_tracer :
      Option (PacketTracer P) → List (PacketTracer P) → List (PacketTracer P)
  add_packet_tracer none tracers = tracers
  add_packet_tracer (some tracer) tracers = tracer ∷ tracers

module _ {W P : Type 0} (w : World W P) where
  -- The inner `switch` of `format`, by the type of the packet.
  unfoldable pub format_payload : CmuTrace W P → P → ℕ → Result (CmuTrace W P)
  format_payload s p offset =
      let type = (w.headers.cmn p).ptype in
      if type == pt_aodv
      then format_aodv w s p offset
      else if type == pt_ant
      then format_antnet w s p offset
      else if type == pt_aomdv
      then format_aomdv w s p offset
      else if type == pt_tora
      then format_tora w s p offset
      else if type == pt_imep
      then format_imep w s p offset
      else if type == pt_dsr
      then format_dsr w s p offset
      else if type == pt_message || type == pt_udp
      then ok s
      else if type == pt_tcp || type == pt_ack
      then format_tcp w s p offset
      else if type == pt_sctp
      then format_sctp w s p offset
      else if type == pt_cbr
      then format_rtp w s p offset
      else if type == pt_diff || type == pt_gaf || type == pt_ping
      then ok s
      else ok (with_buffer s (format_unknow s.tracers p offset s.newtrace s.buffer).1)

  -- The outer `switch` of `format`; `offset` is where the MAC header ends.
  unfoldable pub format_rest : CmuTrace W P → P → ℕ → Result (CmuTrace W P)
  format_rest s p offset =
      let type = (w.headers.cmn p).ptype in
      if type == pt_mac || type == pt_smac
      then ok s
      else if type == pt_arp
      then format_arp w s p offset
      else (do s' ← format_ip w s p offset; format_payload s' p (length s'.buffer))

  unfoldable pub format : CmuTrace W P → P → (why : List ℕ) → Result (CmuTrace W P)
  format s p why = do
    s1 ← format_mac_common w s p why 0
    s2 ← if s1.nam.channel then nam_format w s1 p else ok s1
    format_rest s2 p (length s2.buffer)

  unfoldable pub node_energy : CmuTrace W P → Bool
  unfolding node_model
  node_energy s = elim (node_model w s.src) [ none ↦ true | some e ↦ w.above_zero e.energy ]

  unfoldable pub is_initialized : CmuTrace W P → Bool
  is_initialized s = elim (s.node) [ none ↦ false | some _ ↦ true ]

  -- `God` stamps what an agent sends.
  unfoldable pub stamped : CmuTrace W P → P → CmuTrace W P
  stamped s p = if is_agent s.tracetype && s.type == sent then does (Effect.stamp p) s else s

  abbrev pub dumped : CmuTrace W P → CmuTrace W P
  dumped s = does (Effect.dump s.buffer) s

  unfoldable pub recv : CmuTrace W P → P → Result (CmuTrace W P)
  recv s p =
      if node_energy s
      then (do
        guard (is_initialized s) Fault.assertion_failed
        s' ← format (stamped s p) p (codes "---")
        ok (does (if s.target then Effect.send p else Effect.free p) (dumped s')))
      else ok (does (Effect.free p) s)

  -- `recv(p, why)`, for a packet that is dropped
  unfoldable pub recv_why : CmuTrace W P → P → String → Result (CmuTrace W P)
  recv_why s p why = do
    guard (is_initialized s && s.type == drop) Fault.assertion_failed
    if node_energy s
        then (do s' ← format s p (codes why); ok (does (Effect.free p) (dumped s')))
        else ok (does (Effect.free p) s)

-- What a command returns; `parent` where it is the base class's to answer.
pub data Answer : Type 0 where
  tcl_ok tcl_error parent : Answer

module _ {W P : Type 0} (lookup : String → Option (W × W × W)) (atoi : String → ℤ) where
  -- `argv` without the command's own name.
  unfoldable pub command : CmuTrace W P → List String → CmuTrace W P × Answer
  command s (verb ∷ name ∷ []) =
      if same_text verb "node"
      then (
        record s { node = lookup name },
        elim (lookup name) [ none ↦ Answer.tcl_error | some _ ↦ Answer.tcl_ok ],
      )
      else if same_text verb "newtrace"
      then (record s { newtrace = atoi name }, Answer.tcl_ok)
      else (s, Answer.parent)
  command s _ = (s, Answer.parent)
