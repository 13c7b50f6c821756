-- ===== src/Trace/Lines.antt =====
-- `format`, `recv` and `recv(why)` of Ns2.35Files/cmu-trace.cc: a line for a packet.

use ant_aodv.Base.{
  Bool-cases, inl, inr, ◌∙◌, ℕ, ◌≡◌, refl, sym, ap, subst, ◌==◌, ◌||◌, Bool, true, false,
  if◌then◌else◌, ℤ, List, [], ◌∷◌, ◌++◌, length, some, All,
}
use ant_aodv.Base.Result.{Result, ok}
use ant_aodv.Packet.Types.{
  pt_mac, pt_smac, pt_arp, pt_aodv, pt_ant, pt_aomdv, pt_tora, pt_imep, pt_dsr, pt_message, pt_udp,
  pt_tcp, pt_ack, pt_sctp, pt_cbr, pt_diff, pt_gaf, pt_ping,
}
use ant_aodv.Trace.{PacketTracer, format_payload, format_rest, format, format_unknow}
use ant_aodv.Trace.State.{World, CmuTrace, Node, same_int, with_buffer}
use ant_aodv.Trace.Mac.{packet_name}
use ant_aodv.Trace.Mac.Started.{HasLetter-added, letter, format_mac_common-IsStarted}
use ant_aodv.Trace.Nam.{nam_format}
use ant_aodv.Trace.Nam.Lines.{IsNamable, marked, marked-quiet, due_lines, nam_format_lem}
use ant_aodv.Trace.Nam.Shown.{adds, adds-quiet}
use ant_aodv.Trace.Sctp.Last.{IsLettered, format_sctp-IsAdded}
use ant_aodv.Trace.Written.{
  append_nil, IsAdded, append_assoc, IsKept, IsKept-trans, IsTraced, IsTraced-kept, IsTraced-trans,
  if-each,
}
use ant_aodv.Trace.Added.{
  IsNamed, IsRouted, IsThere, IsRequestOrReply, format_ip-IsAdded, format_antnet-IsAdded,
  format_arp-IsAdded, format_dsr-IsAdded, format_tcp-IsAdded, format_rtp-IsAdded,
  format_imep-IsAdded, format_tora-IsAdded, format_aodv-IsAdded, format_aomdv-IsAdded,
}

if-case :
    {A : Type 0} (Q : A → Type 0) (b : Bool) (x y : A)
    → (b ≡ true → Q x)
    → Q y
    → Q (if b then x else y)
if-case Q true x y e f = e refl
if-case Q false x y e f = f

module _ {W P : Type 0} (w : World W P) where
  -- The chain of tracers has a text for the packet, which it writes behind what is in the buffer.
  unfoldable pub Writes : P → List (PacketTracer P) → (newtrace : ℤ) → (buffer : List ℕ) → Type 0
  Writes p tracers newtrace buffer =
      (text : List ℕ) × ((format_unknow tracers p (length buffer) newtrace buffer).1
        ≡ buffer ++ text)

  unfoldable pub Appends : CmuTrace W P → P → Type 0
  unfolding Writes
  Appends s p = (buffer : List ℕ) → Writes p s.tracers s.newtrace buffer

  -- What the methods rely on for a packet: the trace has a node, and the type of the packet a name;
  -- the header for its type holds what the method for it knows.
  pub record IsTraceable (s : CmuTrace W P) (p : P) : Type 0 where
    pub location : W × W × W
    pub placed : s.node ≡ some location
    pub named : IsNamed w p
    pub mac_name : List ℕ
    pub mac_named : packet_name w p ≡ ok mac_name
    pub aodv_known :
        (w.headers.cmn p).ptype == pt_aodv ≡ true
        → IsRequestOrReply w w.constants.aodv (w.headers.aodv p)
    pub aomdv_known :
        (w.headers.cmn p).ptype == pt_aomdv ≡ true
        → IsRequestOrReply w w.constants.aomdv (w.headers.aomdv p)
    pub routed : (w.headers.cmn p).ptype == pt_dsr ≡ true → IsRouted w p
    pub lettered : (w.headers.cmn p).ptype == pt_sctp ≡ true → All (IsLettered w) (w.headers.sctp p)
    pub there : (w.headers.cmn p).ptype == pt_cbr ≡ true → IsThere w s p
    pub namable : s.nam.channel ≡ true → IsNamable w s p

  -- Given `A` the run adds text; it returns anyway.
  abbrev AddsIf : (A : Type 0) → CmuTrace W P → Result (CmuTrace W P) → Type 0
  AddsIf A s run =
      (s' : CmuTrace W P) × (run ≡ ok s')
      × IsKept s s'
      × (A → (text : List ℕ) × (s'.buffer ≡ s.buffer ++ text))

  surely :
      {A : Type 0} {s : CmuTrace W P} {run : Result (CmuTrace W P)} → IsAdded s run → AddsIf A s run
  surely (s', gives, k, more) = (s', gives, k, λ _. more)

  AddsIf-after :
      {A : Type 0} {s s' : CmuTrace W P} {run : Result (CmuTrace W P)}
      → IsKept s s'
      → (text : List ℕ) × (s'.buffer ≡ s.buffer ++ text)
      → AddsIf A s' run
      → AddsIf A s run
  AddsIf-after {s = s} k (text, adds) (s'', gives, l, later) = (
    s'',
    gives,
    IsKept-trans k l,
    λ a.
        let (text', adds') = later a in
        (text ++ text', adds' ∙ ap (λ b. b ++ text') adds ∙ append_assoc s.buffer text text'),
  )

  unchanged : {A : Type 0} {s : CmuTrace W P} → AddsIf A s (ok s)
  unchanged {s = s} =
      (s, refl, record { kept = refl; quiet = refl }, λ _. ([], sym (append_nil s.buffer)))

  -- The tracers of the chain write behind what is in the buffer.
  traced :
      (s s' : CmuTrace W P) (p : P)
      → IsTraced s s'
      → AddsIf (Appends s p) s' (
          ok (
            with_buffer s' (format_unknow s'.tracers p (length s'.buffer) s'.newtrace s'.buffer).1))
  unfolding Appends Writes
  traced s s' p k = (
    with_buffer s' (format_unknow s'.tracers p (length s'.buffer) s'.newtrace s'.buffer).1,
    refl,
    record { kept = refl; quiet = refl },
    λ appends.
        subst {A = CmuTrace W P} (λ r. Writes p r.tracers r.newtrace s'.buffer) (sym k.kept)
          (appends s'.buffer),
  )

  IsThere-traced : {s s' : CmuTrace W P} (p : P) → IsTraced s s' → IsThere w s p → IsThere w s' p
  IsThere-traced {s} {s'} p k there =
      subst
        (λ a.
          same_int (w.get_nodeaddr (w.headers.ip p).daddr) a ≡ true
          → (node : Node W) × (w.get_node_by_address a ≡ some node))
        (sym (ap (λ r. r.src) k.kept)) there

  format_payload-AddsIf :
      (s s' : CmuTrace W P) (p : P)
      → IsTraceable s p
      → IsTraced s s'
      → AddsIf (Appends s p) s' (format_payload w s' p (length s'.buffer))
  unfolding format_payload
  format_payload-AddsIf s s' p t k =
      let type = (w.headers.cmn p).ptype in
      if-case (AddsIf (Appends s p) s') (type == pt_aodv) _ _
        (λ e. surely (format_aodv-IsAdded w s' p (t.aodv_known e)))
        (if-each (AddsIf (Appends s p) s') (type == pt_ant) _ _
          (surely (format_antnet-IsAdded w s' p))
          (if-case (AddsIf (Appends s p) s') (type == pt_aomdv) _ _
            (λ e. surely (format_aomdv-IsAdded w s' p (t.aomdv_known e)))
            (if-each (AddsIf (Appends s p) s') (type == pt_tora) _ _
              (surely (format_tora-IsAdded w s' p))
              (if-each (AddsIf (Appends s p) s') (type == pt_imep) _ _
                (surely (format_imep-IsAdded w s' p))
                (if-case (AddsIf (Appends s p) s') (type == pt_dsr) _ _
                  (λ e. surely (format_dsr-IsAdded w s' p (t.routed e)))
                  (if-each (AddsIf (Appends s p) s') (type == pt_message || type == pt_udp) _ _
                    unchanged
                    (if-each (AddsIf (Appends s p) s') (type == pt_tcp || type == pt_ack) _ _
                      (surely (format_tcp-IsAdded w s' p))
                      (if-case (AddsIf (Appends s p) s') (type == pt_sctp) _ _
                        (λ e. surely (format_sctp-IsAdded w s' p (t.lettered e)))
                        (if-case (AddsIf (Appends s p) s') (type == pt_cbr) _ _
                          (λ e. surely (format_rtp-IsAdded w s' p (IsThere-traced p k (t.there e))))
                          (if-each (AddsIf (Appends s p) s')
                            (type == pt_diff || type == pt_gaf || type == pt_ping) _ _ unchanged
                            (traced s s' p k)))))))))))

  format_rest-AddsIf :
      (s s' : CmuTrace W P) (p : P)
      → IsTraceable s p
      → IsTraced s s'
      → AddsIf (Appends s p) s' (format_rest w s' p (length s'.buffer))
  unfolding format_rest
  format_rest-AddsIf s s' p t k =
      let type = (w.headers.cmn p).ptype in
      if-each (AddsIf (Appends s p) s') (type == pt_mac || type == pt_smac) _ _ unchanged (
        if-each (AddsIf (Appends s p) s') (type == pt_arp) _ _ (surely (format_arp-IsAdded w s' p))
          (let (s'', gives, l, more) = format_ip-IsAdded w s' p t.named in
            rw gives (
              AddsIf-after l more
                (format_payload-AddsIf s s'' p t (IsTraced-trans k (IsTraced-kept l))))))

  -- What is relied on for the animator is not in the line.
  IsNamable-kept : {s s' : CmuTrace W P} (p : P) → IsKept s s' → IsNamable w s p → IsNamable w s' p
  IsNamable-kept {s} {s'} p k v =
      subst (λ r. IsNamable w r p) (sym k.kept)
        (record {
          open_trace = v.open_trace;
          ptype = v.ptype;
          short = v.short;
          numbered = v.numbered;
        })

  for_nam :
      (s : CmuTrace W P) (p : P)
      → (s.nam.channel ≡ true → IsNamable w s p)
      → (s' : CmuTrace W P) × ((if s.nam.channel then nam_format w s p else ok s) ≡ ok s')
        × IsTraced s s'
        × (s'.buffer ≡ s.buffer)
  for_nam s p v = elim (Bool-cases s.nam.channel) [
    | inl on ↦
        let (m, gives, _, _) = nam_format_lem w s p (v on) in
        let lines = due_lines w s m p (v on).ptype in
        let es = marked w s.effects p in
        (
          record s { effects = adds es lines; nam = m },
          ap (λ b. if b then nam_format w s p else ok s) on ∙ gives,
          record { kept = refl; quiet = adds-quiet es lines ∙ marked-quiet w s.effects p },
          refl,
        )
    | inr off ↦ (
      s,
      ap (λ b. if b then nam_format w s p else ok s) off,
      record { kept = refl; quiet = refl },
      refl,
    )
  ]

  -- The line begins with the letter of the event and a blank.
  abbrev pub IsHeaded : (s s' : CmuTrace W P) → P → Type 0
  IsHeaded s s' p = (text : List ℕ) × (s'.buffer ≡ letter w s p ∷ b' ' ∷ text)

  -- `format` returns, and where the tracers append its line has a head.
  pub format_returns :
      (s : CmuTrace W P) (p : P) (why : List ℕ)
      → IsTraceable s p
      → (s' : CmuTrace W P) × (format w s p why ≡ ok s')
        × IsTraced s s'
        × (Appends s p → IsHeaded s s' p)
  unfolding format
  format_returns s p why t =
      let (s1, gives, k, starts) =
        format_mac_common-IsStarted w s p why t.mac_name t.location t.placed t.named t.mac_named in
      let (s2, gives', l, same) =
        for_nam s1 p
          λ on. IsNamable-kept p k (t.namable (sym (ap (λ r. r.nam.channel) k.kept) ∙ on)) in
      let behind = IsTraced-trans (IsTraced-kept k) l in
      let (s3, gives'', m, later) = format_rest-AddsIf s s2 p t behind in
      (
        s3,
        rw (gives, gives', gives'') refl,
        IsTraced-trans behind (IsTraced-kept m),
        λ appends.
            let (text, more) = later appends in
            HasLetter-added (letter w s p) s1 s3 starts (text, more ∙ ap (λ b. b ++ text) same),
      )

  -- `format` returns for every packet for which the methods have what they rely on (`IsTraceable`), with
  -- a line that begins with the letter of the event and a blank: no conversion meets an argument of
  -- another type or a missing one, no table is read out of bounds, no null pointer is followed, and no
  -- assertion fails, in each of the three formats of the trace, with a channel for the animator and
  -- without one. It changes only the line, the effects and what is kept for the animator, and gives no
  -- packet on. Tracers of the chain are taken to write behind what is in the buffer (`Appends`). That
  -- the line fits into the buffers of the trace is not said.
  pub format_total :
      (s : CmuTrace W P) (p : P) (why : List ℕ)
      → IsTraceable s p
      → Appends s p
      → (s' : CmuTrace W P) × (format w s p why ≡ ok s') × IsTraced s s' × IsHeaded s s' p
  format_total s p why t appends =
      let (s', gives, k, headed) = format_returns s p why t in (s', gives, k, headed appends)
