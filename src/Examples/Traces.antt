-- ===== src/Examples/Traces.antt =====
-- The theorems on the trace at the packet of an ant.

use ant_aodv.Base.{
  ℕ, ◌≡◌, refl, sym, pos, ltb, true, false, List, [], ◌∷◌, ◌++◌, replicate, none, some, arith,
}
use ant_aodv.Base.Result.{ok}
use ant_aodv.Base.Format.{digit}
use ant_aodv.Base.Text.{codes, same_codes}
use ant_aodv.Double.Milli.{Milli, milli_double}
use ant_aodv.Packet.{Dir}
use ant_aodv.Packet.Info.{name_of, name_at}
use ant_aodv.Ant.{Packet}
use ant_aodv.Examples.{ant, packet}
use ant_aodv.Trace.{format, format_unknow, recv, recv_why, node_energy}
use ant_aodv.Trace.Headers.{HdrMdart, SctpChunk, Constants, TraceHeaders}
use ant_aodv.Trace.State.{World, CmuTrace, TraceType, Effect, drop, sent, type_name, with_buffer}
use ant_aodv.Trace.Mac.{packet_name, is_smac}
use ant_aodv.Trace.Nam.{nam_ptype, copy_ptype}
use ant_aodv.Trace.Formats.{format_antnet}
use ant_aodv.Trace.Sctp.{format_chunk, format_chunks, chunk_letter}
use ant_aodv.Trace.Sctp.Last.{format_chunks-last}
use ant_aodv.Trace.Written.{IsTraced, append_nil}
use ant_aodv.Trace.Lines.{IsTraceable, Appends, Writes, IsHeaded, format_total}
use ant_aodv.Trace.Given.{Recorded, recv_lem, recv_why_lem}
use ant_aodv.Trace.Ants.{read_ant, format_antnet-read}

abbrev init_chunk : SctpChunk
init_chunk = record { chunk_type = pos 0; tsn = pos 7; stream_id = pos 1; stream_seq_num = pos 2 }

abbrev data_chunk : SctpChunk
data_chunk = record { chunk_type = pos 4; tsn = pos 8; stream_id = pos 1; stream_seq_num = pos 2 }

abbrev message : HdrMdart
message = record {
  md_type = pos 0;
  dst_add = pos 1;
  src_add = pos 2;
  dst_id = pos 3;
  src_id = pos 4;
  for_add = pos 5;
  for_id = pos 6;
  req_add = pos 7;
  req_id = pos 8;
  seq_num = pos 9;
}

abbrev pub headers : TraceHeaders Milli (Packet Milli)
headers = record {
  cmn = λ p. p.cmn;
  ip = λ p. p.ip;
  flowid = λ p. pos 0;
  ant = λ p. p.ant;
  arp = λ p. record {
    arp_op = pos 0;
    arp_sha = pos 1;
    arp_spa = pos 2;
    arp_tha = pos 3;
    arp_tpa = pos 4;
  };
  tcp = λ p. record { seqno = pos 0; ackno = pos 1 };
  sctp = λ p. init_chunk ∷ data_chunk ∷ [];
  rtp_seqno = λ p. pos 0;
  smac = λ p. record { smac_type = pos 0; src_addr = pos 1; dst_addr = pos 2; duration = 0 };
  mac = λ p. record {
    fc_type = pos 0;
    fc_subtype = pos 1;
    dh_duration = pos 2;
    dh_ra = pos 3;
    dh_ta = pos 4;
    ether_type = pos 5;
  };
  imep = λ p. record { ack = true; hello = true; object = true; imep_length = pos 3 };
  sr = λ p. record {
    num_addrs = pos 0;
    route_request = pos 1;
    rtreq_seq = pos 2;
    route_reply = pos 3;
    route_reply_len = pos 4;
    reply_addrs = [];
    route_error = pos 6;
    num_route_errors = pos 7;
    down_links = [];
  };
  tora = λ p. record {
    th_type = pos 0;
    tq_type = pos 1;
    tq_dst = pos 2;
    tu_type = pos 3;
    tu_dst = pos 4;
    tu_tau = 0;
    tu_oid = pos 6;
    tu_r = pos 7;
    tu_delta = pos 8;
    tu_id = pos 9;
    tc_type = pos 10;
    tc_dst = pos 11;
    tc_tau = 0;
    tc_oid = pos 13;
  };
  aodv = λ p. record {
    ah_type = pos 0;
    rq_type = pos 1;
    rq_hop_count = pos 2;
    rq_bcast_id = pos 3;
    rq_dst = pos 4;
    rq_dst_seqno = pos 5;
    rq_src = pos 6;
    rq_src_seqno = pos 7;
    rp_type = pos 8;
    rp_hop_count = pos 9;
    rp_dst = pos 10;
    rp_dst_seqno = pos 11;
    rp_lifetime = 0;
    rp_bcast_id = pos 13;
    rp_first_hop = pos 14;
  };
  aomdv = λ p. record {
    ah_type = pos 0;
    rq_type = pos 1;
    rq_hop_count = pos 2;
    rq_bcast_id = pos 3;
    rq_dst = pos 4;
    rq_dst_seqno = pos 5;
    rq_src = pos 6;
    rq_src_seqno = pos 7;
    rp_type = pos 8;
    rp_hop_count = pos 9;
    rp_dst = pos 10;
    rp_dst_seqno = pos 11;
    rp_lifetime = 0;
    rp_bcast_id = pos 13;
    rp_first_hop = pos 14;
  };
  mdart_type = λ p. pos 0;
  mdart_hello = λ p. message;
  mdart_darq = λ p. message;
  mdart_darp = λ p. message;
  mdart_daup = λ p. message;
}

abbrev pub constants : Constants
constants = record {
  arpop_request = pos 0;
  mac_type_control = pos 1;
  mac_type_management = pos 2;
  subtypes = record {
    rts = pos 0;
    cts = pos 1;
    ack = pos 2;
    beacon = pos 3;
    command_asso_req = pos 4;
    command_asso_rsp = pos 5;
    command_dass_ntf = pos 6;
    command_data_req = pos 7;
    command_pidc_ntf = pos 8;
    command_orph_ntf = pos 9;
    command_bcon_req = pos 10;
    command_coor_rea = pos 11;
    command_gts_req = pos 12;
    beacon_80211 = pos 13;
    assoc_req = pos 14;
    assoc_rep = pos 15;
    auth = pos 16;
    probe_req = pos 17;
    probe_rep = pos 18;
  };
  smac = record { rts_pkt = pos 0; cts_pkt = pos 1; ack_pkt = pos 2; sync_pkt = pos 3 };
  sctp = record {
    chunk_init = pos 0;
    chunk_init_ack = pos 1;
    chunk_cookie_echo = pos 2;
    chunk_cookie_ack = pos 3;
    chunk_data = pos 4;
    chunk_sack = pos 5;
    chunk_forward_tsn = pos 6;
    chunk_hb = pos 7;
    chunk_hb_ack = pos 8;
  };
  toratype_qry = pos 6;
  toratype_upd = pos 7;
  toratype_clr = pos 8;
  aodv = record { rreq = pos 0; rrep = pos 1; rerr = pos 2; hello = pos 3 };
  aomdv = record { rreq = pos 0; rrep = pos 1; rerr = pos 2; hello = pos 3 };
  mdart = record {
    hello = pos 0;
    darq = pos 1;
    darp = pos 2;
    daup = pos 3;
    dabr = pos 4;
    addr_size = 4;
  };
}

-- Numbers of thousandths are printed as `?`, as the theorems do not say how.
abbrev pub world : World Milli (Packet Milli)
world = record {
  headers = headers;
  constants = constants;
  packet_info = record { name = replicate 80 (some "ant"); n_pkt = 79; pc = [] };
  show_real = λ precision x. b'?' ∷ [];
  show_time = λ x. b'?' ∷ [];
  above_zero = λ x. ltb 0 x;
  minus_one = 0;
  clock = 0;
  mac_type = codes "Mac/802_11";
  get_nodeaddr = λ a. a;
  get_node_by_address = λ a. some (record { node_id = a; energy_model = none });
  double = milli_double;
  nam = record {
    nam_status = false;
    find_attr_link = λ t a b. none;
    find_attr_link_any = λ t. none;
    mac_sa = λ p. pos 0;
    mac_da = λ p. pos 0;
    mess_type = λ p. pos 0;
    data_message = pos 0;
    ip_broadcast = 4294967295;
    tcl_number = λ name. 1000;
    pow = λ x y. x;
  };
}

-- The trace of what the router at node 2 sends, with a line of before in the buffer.
abbrev pub router : CmuTrace Milli (Packet Milli)
router = record {
  tracename = codes "RTR";
  tracetype = TraceType.tr_router;
  type = sent;
  src = pos 2;
  node = some (0, 0, 0);
  newtrace = pos 0;
  tagged = false;
  buffer = codes "old";
  target = true;
  tracers = [];
  nam = record {
    channel = true;
    node_color = λ i. 3;
    bradius = 0;
    radius_scaling_factor = 0;
    duration_scaling_factor = 0;
  };
  effects = [];
}

abbrev drops : CmuTrace Milli (Packet Milli)
drops = record router { type = drop; target = false }

abbrev pub an_ant : Packet Milli
an_ant = packet Dir.down (pos 1) (pos 5) (ant (pos 1) (pos 5) [] 0)

router-IsTraceable : IsTraceable world router an_ant
unfolding type_name name_of name_at packet_name is_smac same_codes nam_ptype copy_ptype
router-IsTraceable = record {
  location = (0, 0, 0);
  placed = refl;
  named = (codes "ant", refl);
  mac_name = codes "ant";
  mac_named = refl;
  aodv_known = λ e. cc;
  aomdv_known = λ e. cc;
  routed = λ e. cc;
  lettered = λ e. cc;
  there = λ e. cc;
  namable = λ on. record {
    open_trace = refl;
    ptype = codes "ant";
    short = refl;
    numbered = λ has. (2, refl, refl);
  };
}

drops-IsTraceable : IsTraceable world drops an_ant
drops-IsTraceable = record {
  location = (0, 0, 0);
  placed = refl;
  named = router-IsTraceable.named;
  mac_name = router-IsTraceable.mac_name;
  mac_named = router-IsTraceable.mac_named;
  aodv_known = router-IsTraceable.aodv_known;
  aomdv_known = router-IsTraceable.aomdv_known;
  routed = router-IsTraceable.routed;
  lettered = router-IsTraceable.lettered;
  there = router-IsTraceable.there;
  namable = λ on.
      let v = router-IsTraceable.namable on in
      record { open_trace = refl; ptype = v.ptype; short = v.short; numbered = v.numbered };
}

format_total_example :
    (s' : CmuTrace Milli (Packet Milli)) × (format world router an_ant (codes "---") ≡ ok s')
    × IsTraced router s'
    × IsHeaded world router s' an_ant
unfolding Appends Writes format_unknow
format_total_example =
    format_total world router an_ant (codes "---") router-IsTraceable
      (λ buffer. ([], sym (append_nil buffer)))

recv_lem_example :
    (s' : CmuTrace Milli (Packet Milli)) × (recv world router an_ant ≡ ok s')
    × Recorded true (Effect.send an_ant) an_ant router s'
unfolding node_energy
recv_lem_example = recv_lem world router an_ant router-IsTraceable

recv_why_lem_example :
    (s' : CmuTrace Milli (Packet Milli)) × (recv_why world drops an_ant "LOOP" ≡ ok s')
    × Recorded true (Effect.free an_ant) an_ant drops s'
unfolding node_energy
recv_why_lem_example = recv_why_lem world drops an_ant "LOOP" refl drops-IsTraceable

format_antnet-read_example :
    (text : List ℕ) × (format_antnet world router an_ant 3
      ≡ ok (with_buffer router (codes "old" ++ text)))
    × (read_ant text ≡ some (pos 1, pos 0, pos 7))
format_antnet-read_example = format_antnet-read world router an_ant refl refl

-- The line of an ant that node 2 forwards, as it stands in the buffer.
ant_line : format_antnet world router an_ant 3 ≡ ok (with_buffer router (codes "old[ant 1 0 7] "))
unfolding format_antnet digit
ant_line = refl

format_chunks-last_example :
    format_chunks world 2 router an_ant 3 (init_chunk ∷ data_chunk ∷ [])
    ≡ format_chunk world 2 router an_ant 3 data_chunk
unfolding chunk_letter
format_chunks-last_example =
    format_chunks-last world 2 an_ant 3 router (init_chunk ∷ []) data_chunk (omega arith)
      ((b'I', refl), ((b'D', refl), tt))
