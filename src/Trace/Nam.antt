-- ===== src/Trace/Nam.antt =====
-- `nam_format` of Ns2.35Files/cmu-trace.cc: the lines for the
-- network animator. The text of each line starts at the front of `nbuffer`.
pub mod Broadcast
pub mod Shown
pub mod Lines
pub mod Overflow
use Prim.Native.String.{String}
use ant_aodv.Base.{
  ℕ, ◌+◌, ◌==◌, ◌||◌, ◌&&◌, not, ltb, leb, ℤ, pos, negsuc, Bool, true, false, if◌then◌else◌, List,
  [], ◌∷◌, ◌++◌, length, Option, none, some,
}
use ant_aodv.Base.Result.{Result, ok, fault, Fault, ◌>>=◌, ◌>>◌, guard}
use ant_aodv.Base.Text.{codes, same_codes}
use ant_aodv.Base.Format.{Arg, sprintf, unsigned}
use ant_aodv.Double.{Double, ◌⊗◌, ◌⊘◌}
use ant_aodv.Packet.Types.{PacketT, pt_mac, pt_diff}
use ant_aodv.Trace.Headers.{Subtypes}
use ant_aodv.Trace.State.{
  World, NamWorld, Nam, CmuTrace, Effect, Energy, drop, sent, received, eot, max_node, is_router,
  does, type_name, same_int,
}
use ant_aodv.Trace.Nam.Broadcast.{calculate_broadcast_parameters, broadcast_range}
use ant_aodv.Trace.Mac.{named, node_model, energy_of, next_id}

abbrev pub subtype_names : Subtypes → List (ℤ × String)
subtype_names c =
    (c.rts, "RTS")
    ∷ (c.cts, "CTS")
    ∷ (c.ack, "ACK")
    ∷ (c.beacon, "BCN")
    ∷ (c.assoc_req, "ACRQ")
    ∷ (c.assoc_rep, "ACRP")
    ∷ (c.command_asso_req, "CM1")
    ∷ (c.command_asso_rsp, "CM2")
    ∷ (c.command_dass_ntf, "CM3")
    ∷ (c.command_data_req, "CM4")
    ∷ (c.command_pidc_ntf, "CM5")
    ∷ (c.command_orph_ntf, "CM6")
    ∷ (c.command_bcon_req, "CM7")
    ∷ (c.command_coor_rea, "CM8")
    ∷ (c.command_gts_req, "CM9")
    ∷ []

-- `char ptype[11]` and its `strcpy`, which writes one byte more than the name has.
abbrev pub ptype_size : ℕ
ptype_size = 11

unfoldable pub copy_ptype : List ℕ → Result (List ℕ)
copy_ptype name = if ltb (length name) ptype_size then ok name else fault Fault.out_of_bounds

abbrev pub colors : ℕ → String
colors level =
    if level == 0
    then "-c black -o red"
    else if level == 1
    then "-c red -o yellow"
    else if level == 2
    then "-c yellow -o green"
    else "-c green -o black"

unfoldable pub nam_op : ℕ → ℕ
nam_op op = if op == sent then b'h' else if op == drop then b'd' else op

module _ {W : Type 0} ⦃d : Double W⦄ where
  -- The three tests, each of which may overwrite the level before.
  unfoldable pub energy_level : (energy initial l1 l2 : W) → ℕ
  energy_level energy initial l1 l2 =
      let left = energy ⊘ initial in
      let high = if d.le left d.one && d.le l1 left then 3 else 0 in
      let middle = if d.le l2 left && d.lt left l1 then 2 else high in
      if d.lt d.nought left && d.lt left l2 then 1 else middle

module _ {W P : Type 0} (w : World W P) where
  unfoldable pub nam_ptype : P → Result (List ℕ)
  nam_ptype p = do
    let type = (w.headers.cmn p).ptype
    name ←
        if type == pt_mac
        then ok (codes (named (subtype_names w.constants.subtypes) (w.headers.mac p).fc_subtype))
        else type_name w type
    copy_ptype name

  -- `energyLevel` of the node at `src_`; without an energy model it is computed from the values that
  -- the variables begin with.
  unfoldable pub node_level : (src : ℤ) → ℕ
  node_level src = elim (node_model w src) [
    | none ↦
        energy_level ⦃d = w.double⦄ w.minus_one w.minus_one (w.double.ratio 5 10)
          (w.double.ratio 2 10)
    | some e ↦ energy_level ⦃d = w.double⦄ e.energy e.initial_energy e.level1 e.level2
  ]

  -- The attribute of the link, 0 if there is none.
  unfoldable pub link_attribute : P → ℕ
  link_attribute p =
      let type = (w.headers.cmn p).ptype in
      let mac = type == pt_mac in
      let src = if mac then w.nam.mac_sa p else (w.headers.ip p).saddr in
      let dst = if mac then w.nam.mac_da p else (w.headers.ip p).daddr in
      elim (w.nam.find_attr_link type src dst) [
        | some a ↦ a
        | none ↦ elim (w.nam.find_attr_link_any type) [ some a ↦ a | none ↦ 0 ]
      ]

  -- The attribute is written into the packet.
  unfoldable pub mark_attribute : CmuTrace W P → P → CmuTrace W P
  unfolding link_attribute
  mark_attribute s p =
      if w.nam.nam_status then does (Effect.set_attribute p (link_attribute p)) s else s

  -- `pkt_color`
  unfoldable pub packet_color : P → ℤ
  unfolding link_attribute same_int
  packet_color p =
      let diffusion =
        (w.headers.cmn p).ptype == pt_diff
        && not (same_int (w.nam.mess_type p) w.nam.data_message) in
      if w.nam.nam_status && leb 32 (link_attribute p)
      then pos (link_attribute p)
      else if diffusion
      then pos 1
      else pos 0

  abbrev pub nam_args : CmuTrace W P → P → (ptype : List ℕ) → List (Arg W)
  nam_args s p ptype =
      let ch = w.headers.cmn p in
      Arg.real w.clock
      ∷ Arg.int s.src
      ∷ Arg.int (next_id w ch.next_hop)
      ∷ Arg.text ptype
      ∷ Arg.int ch.size
      ∷ Arg.int (packet_color p)
      ∷ Arg.int ch.uid
      ∷ Arg.text s.tracename
      ∷ []

  unfoldable pub write_nam : CmuTrace W P → String → List (Arg W) → Result (CmuTrace W P)
  write_nam s format args = do
    line ← sprintf w.show_real format args
    ok (does (Effect.namdump line) s)

  -- The two lines of a packet that is sent.
  unfoldable pub nam_sent : CmuTrace W P → P → (ptype : List ℕ) → Result (CmuTrace W P)
  nam_sent s p ptype =
      if nam_op s.type == b'h'
      then (do
        s' ←
            write_nam s "+ -t %.9f -s %d -d %d -p %s -e %d -c 2 -a %d -i %d -k %3s "
              (nam_args s p ptype)
        write_nam s' "- -t %.9f -s %d -d %d -p %s -e %d -c 2 -a %d -i %d -k %3s"
            (nam_args s p ptype))
      else ok s

  abbrev pub with_color : ℕ → ℕ → CmuTrace W P → CmuTrace W P
  with_color i level s = record s {
    nam = record (s.nam) { node_color = λ j. if i == j then level else s.nam.node_color j };
  }

  -- The line for a color that changes, with `nodeColor[i]` set.
  unfoldable pub color_at : ℕ → (level : ℕ) → CmuTrace W P → Result (CmuTrace W P)
  color_at i level s = if s.nam.node_color i == level then ok s else (do
    s' ←
        write_nam s "n -t %.9f -s %d -S COLOR %s"
          (Arg.real w.clock ∷ Arg.int s.src ∷ Arg.text (codes (colors level)) ∷ [])
    ok (with_color i level s'))

  -- An address beyond `nodeColor` ends the program.
  unfoldable pub color_node : (src : ℤ) → (level : ℕ) → CmuTrace W P → Result (CmuTrace W P)
  color_node (pos i) level s = if ltb i max_node then color_at i level s else fault Fault.exit
  color_node (negsuc i) level s = fault Fault.out_of_bounds

  -- The color of the node, where it has an energy model.
  unfoldable pub nam_color : CmuTrace W P → Result (CmuTrace W P)
  nam_color s =
      if w.double.eq (energy_of w s.src) w.minus_one
      then ok s
      else color_node s.src (node_level s.src) s

  unfoldable pub is_broadcast : P → Bool
  unfolding unsigned
  is_broadcast p = unsigned (w.headers.ip p).daddr == w.nam.ip_broadcast

  -- Whether the extra fields of a broadcast are printed.
  unfoldable pub has_range : CmuTrace W P → P → Bool
  unfolding same_codes is_broadcast same_int nam_op
  has_range s p =
      w.nam.nam_status
      && (not (same_codes s.tracename (codes "AGT")) || is_broadcast p)
      && same_int (next_id w (w.headers.cmn p).next_hop) (negsuc 0)
      && nam_op s.type == b'h'

  -- `if (bradius == 0.0) calculate_broadcast_parameters();`
  unfoldable pub with_parameters : CmuTrace W P → CmuTrace W P
  with_parameters s =
      if w.double.eq s.nam.bradius w.double.nought
      then record s { nam = calculate_broadcast_parameters ⦃d = w.double⦄ w.nam s.nam }
      else s

  -- The line of the packet, with the range of a broadcast behind it.
  unfoldable pub nam_packet : CmuTrace W P → P → (ptype : List ℕ) → Result (CmuTrace W P)
  nam_packet s p ptype = do
    line ←
        sprintf w.show_real "%c -t %.9f -s %d -d %d -p %s -e %d -c 2 -a %d -i %d -k %3s"
          (Arg.chr (nam_op s.type) ∷ nam_args s p ptype)
    if has_range s p
        then (do
          let s' = with_parameters s
          let (radius, duration) = broadcast_range ⦃d = w.double⦄ w.nam s'.nam
          range ← sprintf w.show_real " -R %.2f -D %.2f" (Arg.real radius ∷ Arg.real duration ∷ [])
          ok (does (Effect.namdump (line ++ range)) s'))
        else ok (does (Effect.namdump line) s)

  -- What a router receives is not shown, but for broadcasts.
  unfoldable pub is_hidden : CmuTrace W P → P → Bool
  unfolding same_int
  is_hidden s p =
      is_router s.tracetype
      && s.type == received
      && not (same_int (w.get_nodeaddr (w.headers.ip p).daddr) (negsuc 0))

  unfoldable pub nam_format : CmuTrace W P → P → Result (CmuTrace W P)
  nam_format s p = do
    guard (not (s.type == eot)) Fault.assertion_failed
    ptype ← nam_ptype p
    s1 ← nam_sent (mark_attribute s p) p ptype
    if is_hidden s p then ok s1 else (do s2 ← nam_color s1; nam_packet s2 p ptype)
