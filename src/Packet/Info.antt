-- ===== src/Packet/Info.antt =====
-- `p_info` and `PacketClassifier` of Ns2.35Files/packet.h: the names and the classes of packet types.
pub mod Names
use Prim.Native.String.{String}
use ant_aodv.Base.{
  ℕ, zero, suc, ◌≡◌, arith, ◌+◌, ◌-◌, ◌==◌, ◌||◌, Bool, true, false, ltb, leb, if◌then◌else◌, List,
  [], ◌∷◌, Option, none, some, set, replicate, get_elem?,
}
use ant_aodv.Base.Result.{Result, ok, fault, Fault, ◌>>=◌, or_fault}
use ant_aodv.Base.Text.{same_text}
use ant_aodv.Packet.Types.{
  PacketT, pt_tcp, pt_udp, pt_cbr, pt_audio, pt_video, pt_ack, pt_start, pt_stop, pt_prune,
  pt_graft, pt_graftack, pt_join, pt_assert, pt_message, pt_rtcp, pt_rtp, pt_rtproto_dv,
  pt_ctr_mcast_encap, pt_ctr_mcast_decap, pt_srm, pt_request, pt_accept, pt_confirm, pt_teardown,
  pt_live, pt_reject, pt_telnet, pt_ftp, pt_pareto, pt_exp, pt_inval, pt_http, pt_encapsulated,
  pt_mftp, pt_arp, pt_mac, pt_tora, pt_dsr, pt_aodv, pt_imep, pt_rap_data, pt_rap_ack, pt_tfrc,
  pt_tfrc_ack, pt_ping, pt_pbc, pt_diff, pt_rtproto_ls, pt_ldp, pt_gaf, pt_realaudio, pt_pushback,
  pt_pgm, pt_lms, pt_lms_setup, pt_sctp, pt_sctp_app1, pt_smac, pt_xcp, pt_hdlc, pt_bltrace,
  pt_aomdv, pt_puma, pt_dccp, pt_dccp_req, pt_dccp_resp, pt_dccp_ack, pt_dccp_data, pt_dccp_dataack,
  pt_dccp_close, pt_dccp_closereq, pt_dccp_reset, pt_mdart, pt_ant, pt_ntype,
}

-- `enum packetClass`
pub data PacketClass : Type 0 where
  unclassified routing data_pkt : PacketClass

-- A chain of classifiers, each by its `getClass`; `next_` is the rest of the chain.
unfoldable pub chain_class : List (PacketT → PacketClass) → PacketT → PacketClass
chain_class [] type = PacketClass.unclassified
chain_class (get_class ∷ next) type = elim (get_class type) [
  | PacketClass.unclassified ↦ chain_class next type
  | PacketClass.routing ↦ PacketClass.routing
  | PacketClass.data_pkt ↦ PacketClass.data_pkt
]

-- The static members: `name` has an entry for each element of the array, `none` where nothing was
-- assigned to it.
pub record PInfo : Type 0 where
  pub name : List (Option String)
  pub n_pkt : ℕ
  pub pc : List (PacketT → PacketClass)

unfoldable pub is_routing : PacketT → Bool
is_routing type =
    type == pt_dsr
    || type == pt_message
    || type == pt_tora
    || type == pt_puma
    || type == pt_aodv
    || type == pt_mdart

unfoldable pub data_packet : PacketT → Bool
data_packet type =
    type == pt_tcp
    || type == pt_telnet
    || type == pt_cbr
    || type == pt_audio
    || type == pt_video
    || type == pt_ack
    || type == pt_sctp
    || type == pt_sctp_app1
    || type == pt_hdlc

-- The macro `DATA_PACKET`
unfoldable pub is_data_packet : PacketT → Bool
is_data_packet type =
    type == pt_tcp
    || type == pt_telnet
    || type == pt_cbr
    || type == pt_audio
    || type == pt_video
    || type == pt_ack
    || type == pt_sctp
    || type == pt_sctp_app1

-- The classifier's own list has HDLC packets besides those of the macro.
data_packet-macro : (type : PacketT) → data_packet type ≡ is_data_packet type || type == pt_hdlc
unfolding data_packet is_data_packet
data_packet-macro type =
    or_last (type == pt_tcp) (type == pt_telnet) (type == pt_cbr) (type == pt_audio)
      (type == pt_video) (type == pt_ack) (type == pt_sctp) (type == pt_sctp_app1) (type == pt_hdlc)
  where
    or_last :
        (a b c d e f g h i : Bool)
        → (a || b || c || d || e || f || g || h || i)
          ≡ ((a || b || c || d || e || f || g || h) || i)
    or_last a b c d e f g h i = ground arith

unfoldable pub classify : PInfo → PacketT → PacketClass
unfolding is_routing data_packet chain_class
classify s type =
    if is_routing type
    then PacketClass.routing
    else if data_packet type
    then PacketClass.data_pkt
    else chain_class s.pc type

-- A null pointer, `none`, adds nothing.
unfoldable pub add_packet_classifier : Option (PacketT → PacketClass) → PInfo → PInfo
add_packet_classifier none s = s
add_packet_classifier (some pc) s = record s { pc = pc ∷ s.pc }

-- The strings that `initName` assigns, in its order.
abbrev pub assigned : List (PacketT × String)
assigned =
    (pt_tcp, "tcp")
    ∷ (pt_udp, "udp")
    ∷ (pt_cbr, "cbr")
    ∷ (pt_audio, "audio")
    ∷ (pt_video, "video")
    ∷ (pt_ack, "ack")
    ∷ (pt_start, "start")
    ∷ (pt_stop, "stop")
    ∷ (pt_prune, "prune")
    ∷ (pt_graft, "graft")
    ∷ (pt_graftack, "graftAck")
    ∷ (pt_join, "join")
    ∷ (pt_assert, "assert")
    ∷ (pt_message, "message")
    ∷ (pt_rtcp, "rtcp")
    ∷ (pt_rtp, "rtp")
    ∷ (pt_rtproto_dv, "rtProtoDV")
    ∷ (pt_ctr_mcast_encap, "CtrMcast_Encap")
    ∷ (pt_ctr_mcast_decap, "CtrMcast_Decap")
    ∷ (pt_srm, "SRM")
    ∷ (pt_request, "sa_req")
    ∷ (pt_accept, "sa_accept")
    ∷ (pt_confirm, "sa_conf")
    ∷ (pt_teardown, "sa_teardown")
    ∷ (pt_live, "live")
    ∷ (pt_reject, "sa_reject")
    ∷ (pt_ant, "Ant")
    ∷ (pt_telnet, "telnet")
    ∷ (pt_ftp, "ftp")
    ∷ (pt_pareto, "pareto")
    ∷ (pt_exp, "exp")
    ∷ (pt_inval, "httpInval")
    ∷ (pt_http, "http")
    ∷ (pt_encapsulated, "encap")
    ∷ (pt_mftp, "mftp")
    ∷ (pt_arp, "ARP")
    ∷ (pt_mac, "MAC")
    ∷ (pt_tora, "TORA")
    ∷ (pt_dsr, "DSR")
    ∷ (pt_aodv, "AODV")
    ∷ (pt_mdart, "MDART")
    ∷ (pt_imep, "IMEP")
    ∷ (pt_rap_data, "rap_data")
    ∷ (pt_rap_ack, "rap_ack")
    ∷ (pt_tfrc, "tcpFriend")
    ∷ (pt_tfrc_ack, "tcpFriendCtl")
    ∷ (pt_ping, "ping")
    ∷ (pt_pbc, "PBC")
    ∷ (pt_diff, "diffusion")
    ∷ (pt_rtproto_ls, "rtProtoLS")
    ∷ (pt_ldp, "LDP")
    ∷ (pt_gaf, "gaf")
    ∷ (pt_realaudio, "ra")
    ∷ (pt_pushback, "pushback")
    ∷ (pt_pgm, "PGM")
    ∷ (pt_lms, "LMS")
    ∷ (pt_lms_setup, "LMS_SETUP")
    ∷ (pt_sctp, "sctp")
    ∷ (pt_sctp_app1, "sctp_app1")
    ∷ (pt_smac, "smac")
    ∷ (pt_hdlc, "HDLC")
    ∷ (pt_xcp, "xcp")
    ∷ (pt_bltrace, "BellLabsTrace")
    ∷ (pt_aomdv, "AOMDV")
    ∷ (pt_puma, "PUMA")
    ∷ (pt_dccp, "DCCP")
    ∷ (pt_dccp_req, "DCCP_Request")
    ∷ (pt_dccp_resp, "DCCP_Response")
    ∷ (pt_dccp_ack, "DCCP_Ack")
    ∷ (pt_dccp_data, "DCCP_Data")
    ∷ (pt_dccp_dataack, "DCCP_DataAck")
    ∷ (pt_dccp_close, "DCCP_Close")
    ∷ (pt_dccp_closereq, "DCCP_CloseReq")
    ∷ (pt_dccp_reset, "DCCP_Reset")
    ∷ (pt_ntype, "undefined")
    ∷ []

unfoldable pub assign : List (PacketT × String) → List (Option String) → List (Option String)
assign [] names = names
assign ((p, s) ∷ ps) names = assign ps (set names p (some s))

-- The loop that copies `n` names from index `i` on.
unfoldable pub copy_names :
    (i n : ℕ) → (old names : List (Option String)) → Result (List (Option String))
copy_names i zero old names = ok names
copy_names i (suc n) old names = do
  s ← or_fault (get_elem? old i) Fault.out_of_bounds
  copy_names (suc i) n old (set names i s)

unfoldable pub init_name : PInfo → Result PInfo
unfolding assign copy_names
init_name s = if leb (pt_ntype + 1) s.n_pkt then ok s else (do
  copied ← copy_names (pt_smac + 1) (s.n_pkt - (pt_smac + 1)) s.name (replicate (pt_ntype + 1) none)
  ok (record s { name = assign assigned copied; n_pkt = pt_ntype + 1 }))

-- `name_[p]`
unfoldable pub name_at : PInfo → ℕ → Result String
name_at s p = do
  entry ← or_fault (get_elem? s.name p) Fault.out_of_bounds
  or_fault entry Fault.uninitialized

-- Null, `none`, for a type above `nPkt_`.
unfoldable pub name_of : PInfo → PacketT → Result (Option String)
unfolding name_at
name_of s p = if leb p s.n_pkt then (do n ← name_at s p; ok (some n)) else ok none

-- The loop of `getType` over the `n` indices from `i` on.
unfoldable pub type_from : PInfo → String → (i n : ℕ) → Result PacketT
unfolding name_at
type_from s name i zero = ok pt_ntype
type_from s name i (suc n) = do
  other ← name_at s i
  let rest = type_from s name (suc i) n
  if same_text name other then ok i else rest

unfoldable pub get_type : PInfo → String → Result PacketT
unfolding type_from
get_type s name = type_from s name 0 s.n_pkt
