-- ===== src/Trace/Routing.antt =====
-- The methods of `CMUTrace` for TORA, AODV and AOMDV packets.

use ant_aodv.Base.{ℕ, ◌||◌, ℤ, Bool, if◌then◌else◌, List, [], ◌∷◌}
use ant_aodv.Base.Result.{Result, ok, fault, Fault}
use ant_aodv.Base.Text.{codes}
use ant_aodv.Base.Format.{Arg}
use ant_aodv.Trace.Headers.{HdrRouting, RoutingTypes}
use ant_aodv.Trace.State.{World, CmuTrace, style, write, same_int}

-- `REPLY`, `ERROR` or `HELLO`, by the type of a reply.
unfoldable pub reply_name : RoutingTypes → ℤ → List ℕ
unfolding same_int
reply_name c t =
    codes (if same_int t c.rrep then "REPLY" else if same_int t c.rerr then "ERROR" else "HELLO")

unfoldable pub is_reply : RoutingTypes → ℤ → Bool
unfolding same_int
is_reply c t = same_int t c.rrep || same_int t c.hello || same_int t c.rerr

module _ {W P : Type 0} (w : World W P) where
  abbrev pub request_args : HdrRouting W → List (Arg W)
  request_args h =
      Arg.int h.rq_type
      ∷ Arg.int h.rq_hop_count
      ∷ Arg.int h.rq_bcast_id
      ∷ Arg.int h.rq_dst
      ∷ Arg.int h.rq_dst_seqno
      ∷ Arg.int h.rq_src
      ∷ Arg.int h.rq_src_seqno
      ∷ []

  -- The arguments of a reply, and those that follow its name.
  abbrev pub reply_args : HdrRouting W → (name : List ℕ) → List (Arg W) → List (Arg W)
  reply_args h name more =
      Arg.int h.rp_type
      ∷ Arg.int h.rp_hop_count
      ∷ Arg.int h.rp_dst
      ∷ Arg.int h.rp_dst_seqno
      ∷ Arg.real h.rp_lifetime
      ∷ Arg.text name
      ∷ more

  unfoldable pub tora_query : CmuTrace W P → P → ℕ → Result (CmuTrace W P)
  unfolding write style
  tora_query s p offset =
      let h = w.headers.tora p in
      write w s offset
        (style s "-tora:t %x -tora:d %d -tora:c QUERY" "-P tora -Pt 0x%x -Pd %d -Pc QUERY "
          "[0x%x %d] (QUERY)")
        (Arg.int h.tq_type ∷ Arg.int h.tq_dst ∷ [])

  unfoldable pub tora_update : CmuTrace W P → P → ℕ → Result (CmuTrace W P)
  unfolding write style
  tora_update s p offset =
      let h = w.headers.tora p in
      write w s offset
        (style s
          "-tora:t %x -tora:d %d -tora:a %f -tora:o %d -tora:r %d -tora:e %d -tora:i %d -tora:c UPDATE"
          "-P tora -Pt 0x%x -Pd %d (%f %d %d %d %d) -Pc UPDATE "
          "-Pt 0x%x -Pd %d -Pa %f -Po %d -Pr %d -Pe %d -Pi %d -Pc UPDATE ")
        (Arg.int h.tu_type
          ∷ Arg.int h.tu_dst
          ∷ Arg.real h.tu_tau
          ∷ Arg.int h.tu_oid
          ∷ Arg.int h.tu_r
          ∷ Arg.int h.tu_delta
          ∷ Arg.int h.tu_id
          ∷ [])

  unfoldable pub tora_clear : CmuTrace W P → P → ℕ → Result (CmuTrace W P)
  unfolding write style
  tora_clear s p offset =
      let h = w.headers.tora p in
      write w s offset
        (style s "-tora:t %x -tora:d %d -tora:a %f -tora:o %d -tora:c CLEAR "
          "-P tora -Pt 0x%x -Pd %d -Pa %f -Po %d -Pc CLEAR " "[0x%x %d %f %d] (CLEAR)")
        (Arg.int h.tc_type ∷ Arg.int h.tc_dst ∷ Arg.real h.tc_tau ∷ Arg.int h.tc_oid ∷ [])

  -- A packet of another type writes nothing.
  unfoldable pub format_tora : CmuTrace W P → P → ℕ → Result (CmuTrace W P)
  unfolding tora_query tora_update tora_clear same_int
  format_tora s p offset =
      let type = (w.headers.tora p).th_type in
      let c = w.constants in
      if same_int type c.toratype_qry
      then tora_query s p offset
      else if same_int type c.toratype_upd
      then tora_update s p offset
      else if same_int type c.toratype_clr
      then tora_clear s p offset
      else ok s

  unfoldable pub aodv_request : CmuTrace W P → P → ℕ → Result (CmuTrace W P)
  unfolding write style
  aodv_request s p offset =
      let h = w.headers.aodv p in
      write w s offset
        (style s
          "-aodv:t %x -aodv:h %d -aodv:b %d -aodv:d %d -aodv:ds %d -aodv:s %d -aodv:ss %d -aodv:c REQUEST "
          "-P aodv -Pt 0x%x -Ph %d -Pb %d -Pd %d -Pds %d -Ps %d -Pss %d -Pc REQUEST "
          "[0x%x %d %d [%d %d] [%d %d]] (REQUEST)")
        (request_args h)

  unfoldable pub aodv_reply : CmuTrace W P → P → ℕ → Result (CmuTrace W P)
  unfolding write style reply_name
  aodv_reply s p offset =
      let h = w.headers.aodv p in
      write w s offset
        (style s "-aodv:t %x -aodv:h %d -aodv:d %d -adov:ds %d -aodv:l %f -aodv:c %s "
          "-P aodv -Pt 0x%x -Ph %d -Pd %d -Pds %d -Pl %f -Pc %s " "[0x%x %d [%d %d] %f] (%s)")
        (reply_args h (reply_name w.constants.aodv h.rp_type) [])

  unfoldable pub format_aodv : CmuTrace W P → P → ℕ → Result (CmuTrace W P)
  unfolding aodv_request aodv_reply same_int is_reply
  format_aodv s p offset =
      let type = (w.headers.aodv p).ah_type in
      let c = w.constants.aodv in
      if same_int type c.rreq
      then aodv_request s p offset
      else if is_reply c type
      then aodv_reply s p offset
      else fault Fault.exit

  unfoldable pub aomdv_request : CmuTrace W P → P → ℕ → Result (CmuTrace W P)
  unfolding write style
  aomdv_request s p offset =
      let h = w.headers.aomdv p in
      write w s offset
        (style s
          "-aomdv:t %x -aomdv:h %d -aomdv:b %d -aomdv:d %d -aomdv:ds %d -aomdv:s %d -aomdv:ss %d -aomdv:c REQUEST "
          "-P aomdv -Pt 0x%x -Ph %d -Pb %d -Pd %d -Pds %d -Ps %d -Pss %d -Pc REQUEST "
          "[0x%x %d %d [%d %d] [%d %d]] (REQUEST)")
        (request_args h)

  -- The old format names the reply by the types of AODV.
  unfoldable pub aomdv_reply : CmuTrace W P → P → ℕ → Result (CmuTrace W P)
  unfolding write style reply_name
  aomdv_reply s p offset =
      let h = w.headers.aomdv p in
      let name = reply_name w.constants.aomdv h.rp_type in
      let name' = reply_name w.constants.aodv h.rp_type in
      style s
        (write w s offset
          "-aomdv:t %x -aomdv:h %d -aomdv:d %d -admov:ds %d -aomdv:l %f -aomdv:c %s "
          (reply_args h name []))
        (write w s offset "-P aomdv -Pt 0x%x -Ph %d -Pd %d -Pds %d -Pl %f -Pc %s "
          (reply_args h name []))
        (write w s offset "[0x%x %d [%d %d] %f] (%s) [%d %d]"
          (reply_args h name' (Arg.int h.rp_bcast_id ∷ Arg.int h.rp_first_hop ∷ [])))

  unfoldable pub format_aomdv : CmuTrace W P → P → ℕ → Result (CmuTrace W P)
  unfolding aomdv_request aomdv_reply same_int is_reply
  format_aomdv s p offset =
      let type = (w.headers.aomdv p).ah_type in
      let c = w.constants.aomdv in
      if same_int type c.rreq
      then aomdv_request s p offset
      else if is_reply c type
      then aomdv_reply s p offset
      else fault Fault.exit
