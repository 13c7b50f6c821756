-- ===== src/Trace/Headers.antt =====
-- Headers that the trace reads and that ns-2 declares elsewhere: the fields that are read, and the
-- constants that they are compared with.
use ant_aodv.Base.{ℕ, ℤ, List, Bool}
use ant_aodv.Packet.{HdrCmn, HdrIp}
use ant_aodv.Ant.{HdrAntPkt}

-- `hdr_arp`
pub record HdrArp : Type 0 where
  pub arp_op : ℤ
  pub arp_sha : ℤ
  pub arp_spa : ℤ
  pub arp_tha : ℤ
  pub arp_tpa : ℤ

-- `hdr_tcp`
pub record HdrTcp : Type 0 where
  pub seqno : ℤ
  pub ackno : ℤ

-- An element of `SctpTrace()`
pub record SctpChunk : Type 0 where
  pub chunk_type : ℤ
  pub tsn : ℤ
  pub stream_id : ℤ
  pub stream_seq_num : ℤ

-- `hdr_smac`
pub record HdrSmac (W : Type 0) : Type 0 where
  pub smac_type : ℤ
  pub src_addr : ℤ
  pub dst_addr : ℤ
  pub duration : W

-- `hdr_mac802_11`: the addresses as `ETHER_ADDR` gives them, the type as `GET_ETHER_TYPE` does.
pub record HdrMac : Type 0 where
  pub fc_type : ℤ
  pub fc_subtype : ℤ
  pub dh_duration : ℤ
  pub dh_ra : ℤ
  pub dh_ta : ℤ
  pub ether_type : ℤ

-- `hdr_imep`, with the flags of `imep_block_flags` apart
pub record HdrImep : Type 0 where
  pub ack : Bool
  pub hello : Bool
  pub object : Bool
  pub imep_length : ℤ

-- `hdr_tora`, `hdr_tora_qry`, `hdr_tora_upd` and `hdr_tora_clr`
pub record HdrTora (W : Type 0) : Type 0 where
  pub th_type : ℤ
  pub tq_type : ℤ
  pub tq_dst : ℤ
  pub tu_type : ℤ
  pub tu_dst : ℤ
  pub tu_tau : W
  pub tu_oid : ℤ
  pub tu_r : ℤ
  pub tu_delta : ℤ
  pub tu_id : ℤ
  pub tc_type : ℤ
  pub tc_dst : ℤ
  pub tc_tau : W
  pub tc_oid : ℤ

-- `hdr_aodv` with its request and reply; `hdr_aomdv` is alike and has the last two as well.
pub record HdrRouting (W : Type 0) : Type 0 where
  pub ah_type : ℤ
  pub rq_type : ℤ
  pub rq_hop_count : ℤ
  pub rq_bcast_id : ℤ
  pub rq_dst : ℤ
  pub rq_dst_seqno : ℤ
  pub rq_src : ℤ
  pub rq_src_seqno : ℤ
  pub rp_type : ℤ
  pub rp_hop_count : ℤ
  pub rp_dst : ℤ
  pub rp_dst_seqno : ℤ
  pub rp_lifetime : W
  pub rp_bcast_id : ℤ
  pub rp_first_hop : ℤ

-- `hdr_mdart_hello`, `hdr_mdart_darq`, `hdr_mdart_darp` or `hdr_mdart_daup`, which have some of these
pub record HdrMdart : Type 0 where
  pub md_type : ℤ
  pub dst_add : ℤ
  pub src_add : ℤ
  pub dst_id : ℤ
  pub src_id : ℤ
  pub for_add : ℤ
  pub for_id : ℤ
  pub req_add : ℤ
  pub req_id : ℤ
  pub seq_num : ℤ

-- An element of `down_links()`
pub record DownLink : Type 0 where
  pub tell_addr : ℤ
  pub from_addr : ℤ
  pub to_addr : ℤ

-- `hdr_sr`, with the `addr` of each element of `reply_addrs()`
pub record HdrSr : Type 0 where
  pub num_addrs : ℤ
  pub route_request : ℤ
  pub rtreq_seq : ℤ
  pub route_reply : ℤ
  pub route_reply_len : ℤ
  pub reply_addrs : List ℤ
  pub route_error : ℤ
  pub num_route_errors : ℤ
  pub down_links : List DownLink

-- The subtypes of MAC frames
pub record Subtypes : Type 0 where
  pub rts : ℤ
  pub cts : ℤ
  pub ack : ℤ
  pub beacon : ℤ
  pub command_asso_req : ℤ
  pub command_asso_rsp : ℤ
  pub command_dass_ntf : ℤ
  pub command_data_req : ℤ
  pub command_pidc_ntf : ℤ
  pub command_orph_ntf : ℤ
  pub command_bcon_req : ℤ
  pub command_coor_rea : ℤ
  pub command_gts_req : ℤ
  pub beacon_80211 : ℤ
  pub assoc_req : ℤ
  pub assoc_rep : ℤ
  pub auth : ℤ
  pub probe_req : ℤ
  pub probe_rep : ℤ

-- The types of SMAC packets
pub record SmacTypes : Type 0 where
  pub rts_pkt : ℤ
  pub cts_pkt : ℤ
  pub ack_pkt : ℤ
  pub sync_pkt : ℤ

-- The types of SCTP chunks
pub record SctpTypes : Type 0 where
  pub chunk_init : ℤ
  pub chunk_init_ack : ℤ
  pub chunk_cookie_echo : ℤ
  pub chunk_cookie_ack : ℤ
  pub chunk_data : ℤ
  pub chunk_sack : ℤ
  pub chunk_forward_tsn : ℤ
  pub chunk_hb : ℤ
  pub chunk_hb_ack : ℤ

-- `AODVTYPE_…`, or `AOMDVTYPE_…`
pub record RoutingTypes : Type 0 where
  pub rreq : ℤ
  pub rrep : ℤ
  pub rerr : ℤ
  pub hello : ℤ

-- `MDART_TYPE_…`, and `ADDR_SIZE`, at most 32
pub record MdartConstants : Type 0 where
  pub hello : ℤ
  pub darq : ℤ
  pub darp : ℤ
  pub daup : ℤ
  pub dabr : ℤ
  pub addr_size : ℕ

pub record Constants : Type 0 where
  pub arpop_request : ℤ
  pub mac_type_control : ℤ
  pub mac_type_management : ℤ
  pub subtypes : Subtypes
  pub smac : SmacTypes
  pub sctp : SctpTypes
  pub toratype_qry : ℤ
  pub toratype_upd : ℤ
  pub toratype_clr : ℤ
  pub aodv : RoutingTypes
  pub aomdv : RoutingTypes
  pub mdart : MdartConstants

-- `HDR_CMN(p)` and its like
pub record TraceHeaders (W P : Type 0) : Type 0 where
  pub cmn : P → HdrCmn W
  pub ip : P → HdrIp
  pub flowid : P → ℤ
  pub ant : P → HdrAntPkt W
  pub arp : P → HdrArp
  pub tcp : P → HdrTcp
  pub sctp : P → List SctpChunk
  pub rtp_seqno : P → ℤ
  pub smac : P → HdrSmac W
  pub mac : P → HdrMac
  pub imep : P → HdrImep
  pub sr : P → HdrSr
  pub tora : P → HdrTora W
  pub aodv : P → HdrRouting W
  pub aomdv : P → HdrRouting W
  pub mdart_type : P → ℤ
  pub mdart_hello : P → HdrMdart
  pub mdart_darq : P → HdrMdart
  pub mdart_darp : P → HdrMdart
  pub mdart_daup : P → HdrMdart
