-- ===== src/Trace/Nam/Lines.antt =====
-- What `nam_format` shows: its lines for the animator, and the color of the node behind it.

use ant_aodv.Base.{
  differ, arith, ℕ, ◌≡◌, ◌⊎◌, refl, sym, ap, subst, ◌∙◌, inl, inr, ltb, ◌==◌, pos, true, false,
  Bool-cases, if◌then◌else◌, List, [], ◌∷◌, ◌++◌,
}
use ant_aodv.Base.Result.{Result, ok, ◌>>=◌}
use ant_aodv.Base.Text.{codes}
use ant_aodv.Base.Format.{Arg}
use ant_aodv.Trace.State.{World, Nam, CmuTrace, Effect, eot, max_node}
use ant_aodv.Trace.Written.{handed, handed-append, append_nil}
use ant_aodv.Trace.Mac.{energy_of}
use ant_aodv.Trace.Nam.{
  nam_ptype, node_level, mark_attribute, link_attribute, colors, nam_color, nam_packet, is_hidden,
  has_range, nam_format,
}
use ant_aodv.Trace.Nam.Shown.{
  adds, adds-adds, adds-none, text, repaints-at, with_effects, sent_lines, color_lines, packet_line,
  nam_sent_lem, color_at_lem, nam_color-none, nam_color-some, nam_packet_lem,
}

pos-injective : {i j : ℕ} → pos i ≡ pos j → i ≡ j
pos-injective e = cc

module _ {W P : Type 0} (w : World W P) where
  -- The address of a node with an energy model is below `MAX_NODE`.
  abbrev pub IsNumbered : CmuTrace W P → Type 0
  IsNumbered s =
      w.double.eq (energy_of w s.src) w.minus_one ≡ false
      → (i : ℕ) × (s.src ≡ pos i) × (ltb i max_node ≡ true)

  -- What `nam_format` relies on: the trace is not one of an end; the name of the type has at most ten
  -- characters; the address of a node with an energy model is below `MAX_NODE`.
  pub record IsNamable (s : CmuTrace W P) (p : P) : Type 0 where
    pub open_trace : s.type == eot ≡ false
    pub ptype : List ℕ
    pub short : nam_ptype w p ≡ ok ptype
    pub numbered : IsNumbered s

  -- The effects with the attribute of the link written into the packet, where nam is on.
  unfoldable pub marked : List (Effect P) → P → List (Effect P)
  marked es p =
      if w.nam.nam_status then es ++ Effect.set_attribute p (link_attribute w p) ∷ [] else es

  mark_attribute_lem :
      (s : CmuTrace W P) (p : P) → mark_attribute w s p ≡ with_effects w (marked s.effects p) s
  unfolding mark_attribute marked
  mark_attribute_lem s p = elim (Bool-cases w.nam.nam_status) [
    | inl on ↦ rw on refl
    | inr off ↦ rw off refl
  ]

  pub marked-quiet : (es : List (Effect P)) (p : P) → handed (marked es p) ≡ handed es
  unfolding marked handed link_attribute
  marked-quiet es p = elim (Bool-cases w.nam.nam_status) [
    | inl on ↦
        rw on (omega (arith, handed-append es (Effect.set_attribute p (link_attribute w p) ∷ [])))
    | inr off ↦ rw off refl
  ]

  -- The state behind a line: the effects, and what is kept for the animator.
  abbrev pub with_nam : List (Effect P) → Nam W → CmuTrace W P → CmuTrace W P
  with_nam es m s = record s { effects = es; nam = m }

  -- The color kept for a node with an energy model is that of its energy.
  abbrev pub IsColored : CmuTrace W P → Nam W → Type 0
  IsColored s m =
      (i : ℕ)
      → w.double.eq (energy_of w s.src) w.minus_one ≡ false
      → s.src ≡ pos i
      → m.node_color i ≡ node_level w s.src

  nam_color_lem :
      (s : CmuTrace W P)
      → IsNumbered s
      → (m : Nam W) × (nam_color w s ≡ ok (with_nam (adds s.effects (color_lines w s)) m s))
        × IsColored s m
        × (m.channel ≡ s.nam.channel)
  unfolding color_lines
  nam_color_lem s v = elim (Bool-cases (w.double.eq (energy_of w s.src) w.minus_one)) [
    | inl free ↦ (
      s.nam,
      nam_color-none w s free ∙ rw free (ap (λ es. ok (with_effects w es s)) (adds-none s.effects)),
      λ i has at. absurd (differ (w.double.eq (energy_of w s.src) w.minus_one) free has),
      refl,
    )
    | inr has ↦
        let (i, at, small) = v has in
        let level = node_level w s.src in
        let (m, runs, colored, channel) = color_at_lem w s i level in
        let line =
          text w "n -t %.9f -s %d -S COLOR %s"
            (Arg.real w.clock ∷ Arg.int s.src ∷ Arg.text (codes (colors level)) ∷ []) in
        (
          m,
          nam_color-some w s i has at small
              ∙ runs
              ∙ rw has (
                  ap (λ lines. ok (with_nam (adds s.effects lines) m s))
                    (sym (repaints-at s.src i level s.nam.node_color line at))),
          λ j has' at'. subst (λ k. m.node_color k ≡ level) (pos-injective (sym at ∙ at')) colored,
          channel,
        )
  ]

  -- What is left to do for a packet that is shown.
  abbrev shown_rest : CmuTrace W P → P → (ptype : List ℕ) → Result (CmuTrace W P)
  shown_rest s p ptype = do s2 ← nam_color w s; nam_packet w s2 p ptype

  -- The lines of a packet that is shown, where `m` is kept behind them.
  abbrev shown_lines : CmuTrace W P → Nam W → P → (ptype : List ℕ) → List (List ℕ)
  shown_lines s m p ptype = color_lines w s ++ packet_line w s m p ptype ∷ []

  packet_line-with :
      (s : CmuTrace W P) (es : List (Effect P)) (n m : Nam W) (p : P) (ptype : List ℕ)
      → packet_line w (with_nam es n s) m p ptype ≡ packet_line w s m p ptype
  unfolding packet_line has_range
  packet_line-with s es n m p ptype = refl

  shown_rest_lem :
      (s : CmuTrace W P) (p : P) (ptype : List ℕ)
      → IsNumbered s
      → (m : Nam W) × (shown_rest s p ptype
          ≡ ok (with_nam (adds s.effects (shown_lines s m p ptype)) m s))
        × IsColored s m
        × (m.channel ≡ s.nam.channel)
  shown_rest_lem s p ptype v =
      let (m, runs, colored, channel) = nam_color_lem s v in
      let es = adds s.effects (color_lines w s) in
      let (m', runs', same, channel') = nam_packet_lem w (with_nam es m s) p ptype in
      let lines =
        ap (λ line. adds es (line ∷ [])) (packet_line-with s es m m' p ptype)
        ∙ adds-adds s.effects (color_lines w s) (packet_line w s m' p ptype ∷ []) in
      (
        m',
        rw (runs, runs') (ap (λ es. ok (with_nam es m' s)) lines),
        λ i has at. ap (λ f. f i) same ∙ colored i has at,
        channel' ∙ channel,
      )

  -- The lines due for a packet: two if it is sent; and, unless it is hidden, one for the color of the
  -- node, where it changes, and one for the packet.
  abbrev pub due_lines : CmuTrace W P → Nam W → P → (ptype : List ℕ) → List (List ℕ)
  due_lines s m p ptype =
      sent_lines w s p ptype ++ (if is_hidden w s p then [] else shown_lines s m p ptype)

  color_lines-with :
      (s : CmuTrace W P) (es : List (Effect P))
      → color_lines w (with_effects w es s) ≡ color_lines w s
  unfolding color_lines
  color_lines-with s es = refl

  pub nam_format_lem :
      (s : CmuTrace W P) (p : P) (v : IsNamable s p)
      → (m : Nam W) × (nam_format w s p
          ≡ ok (with_nam (adds (marked s.effects p) (due_lines s m p v.ptype)) m s))
        × (m.channel ≡ s.nam.channel)
        × ((is_hidden w s p ≡ true) ⊎ IsColored s m)
  unfolding nam_format color_lines packet_line has_range sent_lines
  nam_format_lem s p v =
      let marks = mark_attribute_lem s p in
      let es0 = marked s.effects p in
      let sends = nam_sent_lem w (with_effects w es0 s) p v.ptype in
      let sent = sent_lines w s p v.ptype in
      let es1 = adds es0 sent in
      let s1 = with_effects w es1 s in
      elim (Bool-cases (is_hidden w s p)) [
        | inl hidden ↦ (
          s.nam,
          rw (v.open_trace, v.short, marks, sends, hidden)
              (ap (λ lines. ok (with_nam (adds es0 lines) s.nam s)) (sym (append_nil sent))),
          refl,
          inl hidden,
        )
        | inr seen ↦
            let (m, runs, colored, channel) = shown_rest_lem s1 p v.ptype v.numbered in
            (
              m,
              rw (v.open_trace, v.short, marks, sends, seen)
                  (runs
                    ∙ ap (λ es. ok (with_nam es m s))
                        (adds-adds es0 sent (shown_lines s m p v.ptype))),
              channel,
              inr colored,
            )
      ]
