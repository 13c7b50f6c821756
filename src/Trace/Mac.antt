-- ===== src/Trace/Mac.antt =====
-- `format_mac_common` of Ns2.35Files/cmu-trace.cc: the start of each line, with the MAC header.
pub mod Started
use Prim.Native.String.{String}
use ant_aodv.Base.{
  ℕ, ◌==◌, ◌&&◌, not, ℤ, pos, negsuc, Bool, true, false, if◌then◌else◌, List, [], ◌∷◌, ◌++◌, length,
  take, Option, none, some,
}
use ant_aodv.Base.Result.{Result, ok, fault, Fault, ◌>>=◌, or_fault}
use ant_aodv.Base.Text.{codes, same_codes}
use ant_aodv.Base.Format.{Arg, sprintf_at}
use ant_aodv.Packet.{HdrCmn, HdrIp}
use ant_aodv.Packet.Types.{pt_mac, pt_smac}
use ant_aodv.Trace.Headers.{HdrSmac, HdrMac, TraceHeaders, Constants, Subtypes, SmacTypes}
use ant_aodv.Trace.State.{
  World, CmuTrace, Node, Energy, drop, sent, forwarded, is_router, is_phy, is_new, write,
  with_buffer, type_name, same_int,
}
use ant_aodv.Trace.Formats.{format_phy, format_mac, format_smac}

-- The name of the first type in the list that is `t`.
unfoldable pub named : List (ℤ × String) → ℤ → String
unfolding same_int
named [] t = "UNKN"
named ((u, name) ∷ names) t = if same_int t u then name else named names t

abbrev pub control_names : Subtypes → List (ℤ × String)
control_names c =
    (c.rts, "RTS")
    ∷ (c.cts, "CTS")
    ∷ (c.ack, "ACK")
    ∷ (c.beacon, "BCN")
    ∷ (c.command_asso_req, "CM1")
    ∷ (c.command_asso_rsp, "CM2")
    ∷ (c.command_dass_ntf, "CM3")
    ∷ (c.command_data_req, "CM4")
    ∷ (c.command_pidc_ntf, "CM5")
    ∷ (c.command_orph_ntf, "CM6")
    ∷ (c.command_bcon_req, "CM7")
    ∷ (c.command_coor_rea, "CM8")
    ∷ (c.command_gts_req, "CM9")
    ∷ []

abbrev pub management_names : Subtypes → List (ℤ × String)
management_names c =
    (c.beacon_80211, "BCN")
    ∷ (c.assoc_req, "ACRQ")
    ∷ (c.assoc_rep, "ACRP")
    ∷ (c.auth, "AUTH")
    ∷ (c.probe_req, "PRRQ")
    ∷ (c.probe_rep, "PRRP")
    ∷ []

abbrev pub smac_names : SmacTypes → List (ℤ × String)
smac_names c =
    (c.rts_pkt, "RTS") ∷ (c.cts_pkt, "CTS") ∷ (c.ack_pkt, "ACK") ∷ (c.sync_pkt, "SYNC") ∷ []

module _ {W P : Type 0} (w : World W P) where
  -- The header of which `strcmp` on the type of MAC has set the pointer: `sh`, else `mh`.
  unfoldable pub is_smac : Bool
  unfolding same_codes
  is_smac = same_codes w.mac_type (codes "Mac/SMAC")

  -- `strncmp(mactype, "Mac/SMAC", 8) == 0`
  unfoldable pub starts_smac : Bool
  unfolding same_codes
  starts_smac = same_codes (take 8 w.mac_type) (codes "Mac/SMAC")

  -- The name of the packet in the old format. `mh` and `sh` are read only where they are set.
  unfoldable pub packet_name : P → Result (List ℕ)
  unfolding is_smac named same_int type_name
  packet_name p =
      let type = (w.headers.cmn p).ptype in
      let c = w.constants in
      let m = w.headers.mac p in
      if type == pt_mac
      then if is_smac
        then fault Fault.uninitialized
        else ok (
            codes (
              if same_int m.fc_type c.mac_type_control
              then named (control_names c.subtypes) m.fc_subtype
              else if same_int m.fc_type c.mac_type_management
              then named (management_names c.subtypes) m.fc_subtype
              else "UNKN"))
      else if type == pt_smac
      then if is_smac
        then ok (codes (named (smac_names c.smac) (w.headers.smac p).smac_type))
        else fault Fault.uninitialized
      else type_name w type

  -- `energy`: -1 for a node that is not there or has no energy model.
  unfoldable pub node_model : ℤ → Option (Energy W)
  node_model a = elim (w.get_node_by_address a) [ none ↦ none | some n ↦ n.energy_model ]

  unfoldable pub energy_of : ℤ → W
  unfolding node_model
  energy_of a = elim (node_model a) [ none ↦ w.minus_one | some e ↦ e.energy ]

  -- `op`: a packet that a router sends for another node is forwarded.
  unfoldable pub operation : CmuTrace W P → P → ℕ
  unfolding same_int
  operation s p =
      if is_router s.tracetype
        && s.type == sent
        && not (same_int s.src (w.get_nodeaddr (w.headers.ip p).saddr))
      then forwarded
      else s.type

  unfoldable pub mac_or_smac : Bool → CmuTrace W P → P → Result (CmuTrace W P)
  unfolding format_smac format_mac
  mac_or_smac smac s p =
      if smac then format_smac w s p (length s.buffer) else format_mac w s p (length s.buffer)

  unfoldable pub tagged_op : ℕ → ℕ
  tagged_op op =
      if op == drop then b'd' else if op == sent then b'+' else if op == forwarded then b'h' else op

  -- `next_hop`: -1 for an address without a node
  unfoldable pub next_id : ℤ → ℤ
  next_id a = elim (w.get_node_by_address a) [ none ↦ negsuc 0 | some n ↦ n.node_id ]

  abbrev pub tagged_args : CmuTrace W P → P → (name : List ℕ) → (x y z : W) → List (Arg W)
  tagged_args s p name x y z =
      Arg.int s.src
      ∷ Arg.int (next_id (w.headers.cmn p).next_hop)
      ∷ Arg.text name
      ∷ Arg.text s.tracename
      ∷ Arg.int (w.headers.cmn p).uid
      ∷ Arg.real x
      ∷ Arg.real y
      ∷ Arg.real z
      ∷ Arg.real (energy_of s.src)
      ∷ []

  -- `TIME_FORMAT` stands between two parts of the format.
  unfoldable pub mac_tagged_at :
      CmuTrace W P → P → ℕ → (location : W × W × W) → Result (CmuTrace W P)
  mac_tagged_at s p offset (x, y, z) = do
    name ← type_name w (w.headers.cmn p).ptype
    start ← sprintf_at w.show_real offset "%c " (Arg.chr (tagged_op (operation s p)) ∷ []) s.buffer
    let timed = start ++ w.show_time w.clock
    line ←
        sprintf_at w.show_real (length timed)
          " -s %d -d %d -p %s -k %3s -i %d -N:loc {%.2f %.2f %.2f} -N:en %f "
          (tagged_args s p name x y z) timed
    mac_or_smac is_smac (with_buffer s line) p

  unfoldable pub mac_tagged : CmuTrace W P → P → ℕ → Result (CmuTrace W P)
  mac_tagged s p offset = or_fault s.node Fault.null_pointer >>= mac_tagged_at s p offset

  unfoldable pub new_op : ℕ → ℕ
  new_op op = if op == drop then b'd' else op

  abbrev pub new_args : CmuTrace W P → P → (why : List ℕ) → (x y z : W) → List (Arg W)
  new_args s p why x y z =
      Arg.chr (new_op (operation s p))
      ∷ Arg.real w.clock
      ∷ Arg.int s.src
      ∷ Arg.int (w.headers.cmn p).next_hop
      ∷ Arg.int s.src
      ∷ Arg.real x
      ∷ Arg.real y
      ∷ Arg.real z
      ∷ Arg.real (energy_of s.src)
      ∷ Arg.text s.tracename
      ∷ Arg.text why
      ∷ []

  unfoldable pub mac_new_at :
      CmuTrace W P → P → (why : List ℕ) → ℕ → (location : W × W × W) → Result (CmuTrace W P)
  mac_new_at s p why offset (x, y, z) = do
    s' ←
        write w s offset
          "%c -t %.9f -Hs %d -Hd %d -Ni %d -Nx %.2f -Ny %.2f -Nz %.2f -Ne %f -Nl %3s -Nw %s "
          (new_args s p why x y z)
    mac_or_smac is_smac s' p

  unfoldable pub mac_new : CmuTrace W P → P → (why : List ℕ) → ℕ → Result (CmuTrace W P)
  mac_new s p why offset = or_fault s.node Fault.null_pointer >>= mac_new_at s p why offset

  abbrev pub energy_args : Energy W → List (Arg W)
  energy_args e =
      Arg.real e.energy ∷ Arg.real e.ei ∷ Arg.real e.es ∷ Arg.real e.et ∷ Arg.real e.er ∷ []

  -- The energy of the node, at the end of a line of the old format.
  unfoldable pub write_energy : CmuTrace W P → Result (CmuTrace W P)
  unfolding node_model write
  write_energy s = elim (node_model s.src) [
    | none ↦ ok s
    | some e ↦
        write w s (length s.buffer) "[energy %f ei %.3f es %.3f et %.3f er %.3f] " (energy_args e)
  ]

  -- What follows the common part of a line of the old format.
  unfoldable pub mac_end : CmuTrace W P → P → Result (CmuTrace W P)
  unfolding format_phy mac_or_smac starts_smac write_energy
  mac_end s p =
      if is_phy s.tracetype
      then format_phy w s p (length s.buffer)
      else (do s' ← mac_or_smac starts_smac s p; write_energy s')

  abbrev pub old_args : CmuTrace W P → P → (why name : List ℕ) → List (Arg W)
  old_args s p why name =
      Arg.chr (operation s p)
      ∷ Arg.real w.clock
      ∷ Arg.int s.src
      ∷ Arg.text s.tracename
      ∷ Arg.text why
      ∷ Arg.int (w.headers.cmn p).uid
      ∷ Arg.text name
      ∷ Arg.int (w.headers.cmn p).size
      ∷ []

  -- The old format, as it is without `LOG_POSITION`.
  unfoldable pub mac_old : CmuTrace W P → P → (why : List ℕ) → ℕ → Result (CmuTrace W P)
  mac_old s p why offset = do
    name ← packet_name p
    s' ← write w s offset "%c %.9f _%d_ %3s %4s %d %s %d" (old_args s p why name)
    mac_end s' p

  unfoldable pub format_mac_common : CmuTrace W P → P → (why : List ℕ) → ℕ → Result (CmuTrace W P)
  unfolding mac_tagged mac_new mac_old
  format_mac_common s p why offset =
      if s.tagged
      then mac_tagged s p offset
      else if is_new s
      then mac_new s p why offset
      else mac_old s p why offset
