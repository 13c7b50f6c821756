-- ===== src/Trace/Added.antt =====
-- Every method of Trace/Formats and Trace/Routing adds text to the line, on its conditions.
use Prim.Native.String.{String}
use ant_aodv.Base.{
  ◌+◌, arith, ℕ, ◌≡◌, refl, sym, ap, ◌∙◌, inl, inr, Bool, true, false, Bool-cases, ◌||◌, ℤ,
  if◌then◌else◌, List, [], ◌∷◌, length, get_elem?, some, Option-cases,
}
use ant_aodv.Base.Result.{Result, ok}
use ant_aodv.Base.Format.{Arg, pieces}
use ant_aodv.Base.Format.Agree.{agrees, agree, fits}
use ant_aodv.Trace.Headers.{DownLink, HdrRouting, RoutingTypes}
use ant_aodv.Trace.State.{World, CmuTrace, Effect, Node, does, type_name, same_int}
use ant_aodv.Trace.Formats.{
  format_phy, format_mac, format_smac, smac_args, format_ip, ip_named, ip_old, ip_with_name,
  format_antnet, format_arp, format_dsr, dsr_args, rtp_args, last_index, format_tcp, mark_in_route,
  format_rtp, format_imep,
}
use ant_aodv.Trace.Routing.{
  format_tora, tora_query, tora_update, tora_clear, aodv_request, aodv_reply, aomdv_request,
  aomdv_reply, format_aodv, format_aomdv, is_reply, reply_args, reply_name,
}
use ant_aodv.Trace.Written.{
  IsAdded, IsKept, IsAdded-after, append_nil, handed, handed-append, write-IsAdded, style-IsAdded,
  style-each, if-each,
}

plus_zero : {n : ℕ} → n + 0 ≡ n
plus_zero = omega arith

false-true : ¬ (false ≡ true)
false-true e = cc

module _ {W P : Type 0} (w : World W P) where
  pub format_phy-IsAdded :
      (s : CmuTrace W P) (p : P) → IsAdded s (format_phy w s p (length s.buffer))
  unfolding format_phy agrees pieces agree fits
  format_phy-IsAdded s p = write-IsAdded w s " " [] refl

  pub format_mac-IsAdded :
      (s : CmuTrace W P) (p : P) → IsAdded s (format_mac w s p (length s.buffer))
  unfolding format_mac agrees pieces agree fits
  format_mac-IsAdded s p = style-IsAdded w s _ _ _ _ refl refl refl

  pub format_smac-IsAdded :
      (s : CmuTrace W P) (p : P) → IsAdded s (format_smac w s p (length s.buffer))
  unfolding format_smac agrees pieces agree fits
  format_smac-IsAdded s p = write-IsAdded w s " [%.2f %d %d] " (smac_args w p) refl

  pub format_antnet-IsAdded :
      (s : CmuTrace W P) (p : P) → IsAdded s (format_antnet w s p (length s.buffer))
  unfolding format_antnet agrees pieces agree fits
  format_antnet-IsAdded s p = style-IsAdded w s _ _ _ _ refl refl refl

  pub format_arp-IsAdded :
      (s : CmuTrace W P) (p : P) → IsAdded s (format_arp w s p (length s.buffer))
  unfolding format_arp agrees pieces agree fits
  format_arp-IsAdded s p = style-IsAdded w s _ _ _ _ refl refl refl

  pub format_tcp-IsAdded :
      (s : CmuTrace W P) (p : P) → IsAdded s (format_tcp w s p (length s.buffer))
  unfolding format_tcp agrees pieces agree fits
  format_tcp-IsAdded s p = style-IsAdded w s _ _ _ _ refl refl refl

  pub format_imep-IsAdded :
      (s : CmuTrace W P) (p : P) → IsAdded s (format_imep w s p (length s.buffer))
  unfolding format_imep agrees pieces agree fits
  format_imep-IsAdded s p = style-IsAdded w s _ _ _ _ refl refl refl

  -- The type of the packet has a name.
  abbrev pub IsNamed : P → Type 0
  IsNamed p = (name : List ℕ) × (type_name w (w.headers.cmn p).ptype ≡ ok name)

  pub format_ip-IsAdded :
      (s : CmuTrace W P) (p : P) → IsNamed p → IsAdded s (format_ip w s p (length s.buffer))
  unfolding format_ip ip_with_name agrees pieces agree fits
  format_ip-IsAdded s p (name, known) =
      style-each (IsAdded s) s _ _ _
        (named "-IP:s %d -IP:sp %d -IP:d %d -IP:dp %d -p %s -e %d -c %d -i %d -IP:ttl %d " refl)
        (named "-Is %d.%d -Id %d.%d -It %s -Il %d -If %d -Ii %d -Iv %d " refl)
        (write-IsAdded w s "------- [%d:%d %d:%d %d %d] " (ip_old w p) refl)
    where
      named :
          (format : String)
          → agrees format (ip_named w p name) ≡ true
          → IsAdded s (ip_with_name w s p (length s.buffer) format)
      named format e = rw known (write-IsAdded w s format (ip_named w p name) e)

  -- The arrays of the source route reach to the elements that are printed.
  pub record IsRouted (p : P) : Type 0 where
    pub head : ℤ
    pub last : ℤ
    pub link : DownLink
    pub has_head : get_elem? (w.headers.sr p).reply_addrs 0 ≡ some head
    pub has_last :
        get_elem? (w.headers.sr p).reply_addrs (last_index (w.headers.sr p).route_reply_len)
        ≡ some last
    pub has_link :
        get_elem? (w.headers.sr p).down_links (last_index (w.headers.sr p).num_route_errors)
        ≡ some link

  pub format_dsr-IsAdded :
      (s : CmuTrace W P) (p : P) → IsRouted p → IsAdded s (format_dsr w s p (length s.buffer))
  unfolding format_dsr agrees pieces agree fits
  format_dsr-IsAdded s p r =
      rw (r.has_head, r.has_last, r.has_link)
        (style-IsAdded w s _ _ _ (dsr_args w (w.headers.sr p) r.head r.last r.link) refl refl refl)

  -- A node that receives its own data is there.
  abbrev pub IsThere : CmuTrace W P → P → Type 0
  IsThere s p =
      same_int (w.get_nodeaddr (w.headers.ip p).daddr) s.src ≡ true
      → (node : Node W) × (w.get_node_by_address s.src ≡ some node)

  mark_in_route-lem :
      (s : CmuTrace W P) (p : P)
      → IsThere s p
      → (s' : CmuTrace W P) × (mark_in_route w s p ≡ ok s') × IsKept s s' × (s'.buffer ≡ s.buffer)
  unfolding mark_in_route handed
  mark_in_route-lem s p there =
      elim (Bool-cases (same_int (w.get_nodeaddr (w.headers.ip p).daddr) s.src)) [
        | inr differs ↦ (s, rw differs refl, record { kept = refl; quiet = refl }, refl)
        | inl here ↦
            let (node, found) = there here in
            elim (Option-cases node.energy_model) [
              | inl none_there ↦
                  (s, rw (here, found, none_there) refl, record { kept = refl; quiet = refl }, refl)
              | inr (e, model) ↦
                  let marked = does (Effect.in_route s.src) s in
                  (
                    if e.powersaving then marked else s,
                    rw (here, found, model) refl,
                    if-each (IsKept s) e.powersaving marked s
                        (record { kept = refl; quiet = handed-append s.effects _ ∙ plus_zero })
                        (record { kept = refl; quiet = refl }),
                    if-each (λ t. t.buffer ≡ s.buffer) e.powersaving marked s refl refl,
                  )
            ]
      ]

  pub format_rtp-IsAdded :
      (s : CmuTrace W P) (p : P) → IsThere s p → IsAdded s (format_rtp w s p (length s.buffer))
  unfolding format_rtp agrees pieces agree fits
  format_rtp-IsAdded s p there =
      let (s', gives, k, same) = mark_in_route-lem s p there in
      rw (gives, sym (ap length same))
        (IsAdded-after k ([], same ∙ sym (append_nil s.buffer))
          (style-IsAdded w s' _ _ _ (rtp_args w p) refl refl refl))

  tora_query-IsAdded : (s : CmuTrace W P) (p : P) → IsAdded s (tora_query w s p (length s.buffer))
  unfolding tora_query agrees pieces agree fits
  tora_query-IsAdded s p = style-IsAdded w s _ _ _ _ refl refl refl

  tora_update-IsAdded : (s : CmuTrace W P) (p : P) → IsAdded s (tora_update w s p (length s.buffer))
  unfolding tora_update agrees pieces agree fits
  tora_update-IsAdded s p = style-IsAdded w s _ _ _ _ refl refl refl

  tora_clear-IsAdded : (s : CmuTrace W P) (p : P) → IsAdded s (tora_clear w s p (length s.buffer))
  unfolding tora_clear agrees pieces agree fits
  tora_clear-IsAdded s p = style-IsAdded w s _ _ _ _ refl refl refl

  aodv_request-IsAdded :
      (s : CmuTrace W P) (p : P) → IsAdded s (aodv_request w s p (length s.buffer))
  unfolding aodv_request agrees pieces agree fits
  aodv_request-IsAdded s p = style-IsAdded w s _ _ _ _ refl refl refl

  aodv_reply-IsAdded : (s : CmuTrace W P) (p : P) → IsAdded s (aodv_reply w s p (length s.buffer))
  unfolding aodv_reply agrees pieces agree fits
  aodv_reply-IsAdded s p = style-IsAdded w s _ _ _ _ refl refl refl

  aomdv_request-IsAdded :
      (s : CmuTrace W P) (p : P) → IsAdded s (aomdv_request w s p (length s.buffer))
  unfolding aomdv_request agrees pieces agree fits
  aomdv_request-IsAdded s p = style-IsAdded w s _ _ _ _ refl refl refl

  aomdv_reply-IsAdded : (s : CmuTrace W P) (p : P) → IsAdded s (aomdv_reply w s p (length s.buffer))
  unfolding aomdv_reply agrees pieces agree fits
  aomdv_reply-IsAdded s p =
      let h = w.headers.aomdv p in
      let args = reply_args w h (reply_name w.constants.aomdv h.rp_type) [] in
      style-each (IsAdded s) s _ _ _
        (write-IsAdded w s
          "-aomdv:t %x -aomdv:h %d -aomdv:d %d -admov:ds %d -aomdv:l %f -aomdv:c %s " args refl)
        (write-IsAdded w s "-P aomdv -Pt 0x%x -Ph %d -Pd %d -Pds %d -Pl %f -Pc %s " args refl)
        (write-IsAdded w s "[0x%x %d [%d %d] %f] (%s) [%d %d]"
          (reply_args w h (reply_name w.constants.aodv h.rp_type)
            (Arg.int h.rp_bcast_id ∷ Arg.int h.rp_first_hop ∷ []))
          refl)

  pub format_tora-IsAdded :
      (s : CmuTrace W P) (p : P) → IsAdded s (format_tora w s p (length s.buffer))
  unfolding format_tora
  format_tora-IsAdded s p =
      let type = (w.headers.tora p).th_type in
      let c = w.constants in
      if-each (IsAdded s) (same_int type c.toratype_qry) _ _ (tora_query-IsAdded s p) (
        if-each (IsAdded s) (same_int type c.toratype_upd) _ _ (tora_update-IsAdded s p) (
          if-each (IsAdded s) (same_int type c.toratype_clr) _ _ (tora_clear-IsAdded s p)
            (s, refl, record { kept = refl; quiet = refl }, ([], sym (append_nil s.buffer)))))

  -- The packet has a type that the method knows.
  abbrev pub IsRequestOrReply : RoutingTypes → HdrRouting W → Type 0
  IsRequestOrReply c h = same_int h.ah_type c.rreq || is_reply c h.ah_type ≡ true

  -- The tests of a request and of a reply, one of which holds.
  one_of :
      {s : CmuTrace W P} (request reply : Bool) (x y z : Result (CmuTrace W P))
      → request || reply ≡ true
      → IsAdded s x
      → IsAdded s y
      → IsAdded s (if request then x else if reply then y else z)
  one_of true reply x y z e added added' = added
  one_of false true x y z e added added' = added'
  one_of false false x y z e added added' = absurd (false-true e)

  pub format_aodv-IsAdded :
      (s : CmuTrace W P) (p : P)
      → IsRequestOrReply w.constants.aodv (w.headers.aodv p)
      → IsAdded s (format_aodv w s p (length s.buffer))
  unfolding format_aodv
  format_aodv-IsAdded s p e =
      let type = (w.headers.aodv p).ah_type in
      let c = w.constants.aodv in
      one_of (same_int type c.rreq) (is_reply c type) _ _ _ e (aodv_request-IsAdded s p)
        (aodv_reply-IsAdded s p)

  pub format_aomdv-IsAdded :
      (s : CmuTrace W P) (p : P)
      → IsRequestOrReply w.constants.aomdv (w.headers.aomdv p)
      → IsAdded s (format_aomdv w s p (length s.buffer))
  unfolding format_aomdv
  format_aomdv-IsAdded s p e =
      let type = (w.headers.aomdv p).ah_type in
      let c = w.constants.aomdv in
      one_of (same_int type c.rreq) (is_reply c type) _ _ _ e (aomdv_request-IsAdded s p)
        (aomdv_reply-IsAdded s p)
