-- ===== src/Trace/Formats.antt =====
-- The methods of `CMUTrace` that write one header each, but those of routing protocols. `offset` is
-- where in the buffer the text starts; what the buffer holds after it is lost.
use Prim.Native.String.{String}
use ant_aodv.Base.{
  ℕ, suc, ◌==◌, ◌||◌, ◌&&◌, not, ℤ, pos, ltb_ℤ, Bool, if◌then◌else◌, List, [], ◌∷◌, get_elem?, none,
  some,
}
use ant_aodv.Base.Result.{Result, ok, Fault, ◌>>=◌, or_fault}
use ant_aodv.Base.Text.{codes}
use ant_aodv.Base.Format.{Arg}
use ant_aodv.Packet.Types.{pt_mac}
use ant_aodv.Trace.Headers.{HdrSr, DownLink}
use ant_aodv.Trace.State.{World, CmuTrace, Effect, does, style, write, type_name, same_int}

-- The index of the last of `n` elements, or 0.
unfoldable pub last_index : ℤ → ℕ
last_index (ℤ.pos (suc (suc n))) = suc n
last_index _ = 0

module _ {W P : Type 0} (w : World W P) where
  unfoldable pub format_phy : CmuTrace W P → P → ℕ → Result (CmuTrace W P)
  unfolding write
  format_phy s p offset = write w s offset " " []

  unfoldable pub print_ether_type : P → Bool
  unfolding same_int
  print_ether_type p =
      let c = w.constants in
      let m = w.headers.mac p in
      not (
        (w.headers.cmn p).ptype == pt_mac
        && (same_int m.fc_type c.mac_type_control || same_int m.fc_type c.mac_type_management))

  unfoldable pub format_mac : CmuTrace W P → P → ℕ → Result (CmuTrace W P)
  unfolding write style print_ether_type
  format_mac s p offset =
      let m = w.headers.mac p in
      write w s offset
        (style s "-M:dur %x -M:s %x -M:d %x -M:t %x " "-Ma %x -Md %x -Ms %x -Mt %x "
          " [%x %x %x %x] ")
        (Arg.int m.dh_duration
          ∷ Arg.int m.dh_ra
          ∷ Arg.int m.dh_ta
          ∷ Arg.int (if print_ether_type p then m.ether_type else pos 0)
          ∷ [])

  abbrev pub smac_args : P → List (Arg W)
  smac_args p =
      let h = w.headers.smac p in Arg.real h.duration ∷ Arg.int h.dst_addr ∷ Arg.int h.src_addr ∷ []

  unfoldable pub format_smac : CmuTrace W P → P → ℕ → Result (CmuTrace W P)
  unfolding write
  format_smac s p offset = write w s offset " [%.2f %d %d] " (smac_args p)

  -- The arguments of the formats that name the type of the packet, and of the old one.
  abbrev pub ip_named : P → (name : List ℕ) → List (Arg W)
  ip_named p name =
      let ch = w.headers.cmn p in
      let ih = w.headers.ip p in
      Arg.int (w.get_nodeaddr ih.saddr)
      ∷ Arg.int ih.sport
      ∷ Arg.int (w.get_nodeaddr ih.daddr)
      ∷ Arg.int ih.dport
      ∷ Arg.text name
      ∷ Arg.int ch.size
      ∷ Arg.int (w.headers.flowid p)
      ∷ Arg.int ch.uid
      ∷ Arg.int ih.ttl
      ∷ []

  abbrev pub ip_old : P → List (Arg W)
  ip_old p =
      let next_hop = (w.headers.cmn p).next_hop in
      let ih = w.headers.ip p in
      Arg.int (w.get_nodeaddr ih.saddr)
      ∷ Arg.int ih.sport
      ∷ Arg.int (w.get_nodeaddr ih.daddr)
      ∷ Arg.int ih.dport
      ∷ Arg.int ih.ttl
      ∷ Arg.int (if ltb_ℤ next_hop (pos 0) then pos 0 else next_hop)
      ∷ []

  unfoldable pub ip_with_name : CmuTrace W P → P → ℕ → String → Result (CmuTrace W P)
  unfolding write type_name
  ip_with_name s p offset format = do
    name ← type_name w (w.headers.cmn p).ptype
    write w s offset format (ip_named p name)

  unfoldable pub format_ip : CmuTrace W P → P → ℕ → Result (CmuTrace W P)
  unfolding write style ip_with_name
  format_ip s p offset =
      style s
        (ip_with_name s p offset
          "-IP:s %d -IP:sp %d -IP:d %d -IP:dp %d -p %s -e %d -c %d -i %d -IP:ttl %d ")
        (ip_with_name s p offset "-Is %d.%d -Id %d.%d -It %s -Il %d -If %d -Ii %d -Iv %d ")
        (write w s offset "------- [%d:%d %d:%d %d %d] " (ip_old p))

  unfoldable pub format_antnet : CmuTrace W P → P → ℕ → Result (CmuTrace W P)
  unfolding write style
  format_antnet s p offset =
      let ah = w.headers.ant p in
      write w s offset
        (style s "-ant:o %d -ant:s %d -ant:l %d " "-P ant -Po %d -Ps %d -Pl %d " "[ant %d %d %d] ")
        (Arg.int ah.pkt_src ∷ Arg.int (pos ah.pkt_seq_num) ∷ Arg.int (pos ah.pkt_len) ∷ [])

  unfoldable pub format_arp : CmuTrace W P → P → ℕ → Result (CmuTrace W P)
  unfolding write style same_int
  format_arp s p offset =
      let ah = w.headers.arp p in
      write w s offset
        (style s "-arp:op %s -arp:ms %d -arp:s %d -arp:md %d -arp:d %d "
          "-P arp -Po %s -Pms %d -Ps %d -Pmd %d -Pd %d " "------- [%s %d/%d %d/%d]")
        (Arg.text
            (codes (if same_int ah.arp_op w.constants.arpop_request then "REQUEST" else "REPLY"))
          ∷ Arg.int ah.arp_sha
          ∷ Arg.int ah.arp_spa
          ∷ Arg.int ah.arp_tha
          ∷ Arg.int ah.arp_tpa
          ∷ [])

  abbrev pub dsr_args : HdrSr → (head last : ℤ) → DownLink → List (Arg W)
  dsr_args h head last link =
      Arg.int h.num_addrs
      ∷ Arg.int h.route_request
      ∷ Arg.int h.rtreq_seq
      ∷ Arg.int h.route_reply
      ∷ Arg.int h.rtreq_seq
      ∷ Arg.int h.route_reply_len
      ∷ Arg.int head
      ∷ Arg.int last
      ∷ Arg.int h.route_error
      ∷ Arg.int h.num_route_errors
      ∷ Arg.int link.tell_addr
      ∷ Arg.int link.from_addr
      ∷ Arg.int link.to_addr
      ∷ []

  unfoldable pub format_dsr : CmuTrace W P → P → ℕ → Result (CmuTrace W P)
  unfolding write style last_index
  format_dsr s p offset = do
    let h = w.headers.sr p
    head ← or_fault (get_elem? h.reply_addrs 0) Fault.out_of_bounds
    last ← or_fault (get_elem? h.reply_addrs (last_index h.route_reply_len)) Fault.out_of_bounds
    link ← or_fault (get_elem? h.down_links (last_index h.num_route_errors)) Fault.out_of_bounds
    write w s offset
        (style s
          "-dsr:h %d -dsr:q %d -dsr:s %d -dsr:p %d -dsr:n %d -dsr:l %d -dsr:e {%d %d} -dsr:w %d -dsr:m %d -dsr:c %d -dsr:b {%d %d} "
          "-P dsr -Ph %d -Pq %d -Ps %d -Pp %d -Pn %d -Pl %d -Pe %d->%d -Pw %d -Pm %d -Pc %d -Pb %d->%d "
          "%d [%d %d] [%d %d %d %d->%d] [%d %d %d %d->%d]")
        (dsr_args h head last link)

  unfoldable pub format_tcp : CmuTrace W P → P → ℕ → Result (CmuTrace W P)
  unfolding write style
  format_tcp s p offset =
      let ch = w.headers.cmn p in
      let th = w.headers.tcp p in
      write w s offset
        (style s "-tcp:s %d -tcp:a %d -tcp:f %d -tcp:o %d " "-Pn tcp -Ps %d -Pa %d -Pf %d -Po %d "
          "[%d %d] %d %d")
        (Arg.int th.seqno
          ∷ Arg.int th.ackno
          ∷ Arg.int ch.num_forwards
          ∷ Arg.int ch.opt_num_forwards
          ∷ [])

  -- A node that has just received data of its own is marked, when it saves power.
  unfoldable pub mark_in_route : CmuTrace W P → P → Result (CmuTrace W P)
  unfolding same_int
  mark_in_route s p =
      if same_int (w.get_nodeaddr (w.headers.ip p).daddr) s.src
      then (do
        node ← or_fault (w.get_node_by_address s.src) Fault.null_pointer
        elim (node.energy_model) [
          | none ↦ ok s
          | some e ↦ ok (if e.powersaving then does (Effect.in_route s.src) s else s)
        ])
      else ok s

  abbrev pub rtp_args : P → List (Arg W)
  rtp_args p =
      let ch = w.headers.cmn p in
      Arg.int (w.headers.rtp_seqno p) ∷ Arg.int ch.num_forwards ∷ Arg.int ch.opt_num_forwards ∷ []

  unfoldable pub format_rtp : CmuTrace W P → P → ℕ → Result (CmuTrace W P)
  unfolding write style mark_in_route
  format_rtp s p offset = do
    s' ← mark_in_route s p
    write w s' offset
        (style s' "-cbr:s %d -cbr:f %d -cbr:o %d " "-Pn cbr -Pi %d -Pf %d -Po %d " "[%d] %d %d")
        (rtp_args p)

  unfoldable pub format_imep : CmuTrace W P → P → ℕ → Result (CmuTrace W P)
  unfolding write style
  format_imep s p offset =
      let im = w.headers.imep p in
      write w s offset
        (style s "-imep:a %c -imep:h %c -imep:o %c -imep:l %04x "
          "-P imep -Pa %c -Ph %c -Po %c -Pl 0x%04x ] " "[%c %c %c 0x%04x] ")
        (Arg.chr (if im.ack then b'A' else b'-')
          ∷ Arg.chr (if im.hello then b'H' else b'-')
          ∷ Arg.chr (if im.object then b'O' else b'-')
          ∷ Arg.int im.imep_length
          ∷ [])
