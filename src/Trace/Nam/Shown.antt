-- ===== src/Trace/Nam/Shown.antt =====
-- The parts of `nam_format`: each returns, and writes the lines that are due for the animator.
use Prim.Native.String.{String}
use ant_aodv.Base.{
  arith, ℕ, ◌≡◌, refl, sym, ap, ◌∙◌, inl, inr, ltb, ◌==◌, ℤ, pos, negsuc, true, false, Bool-cases,
  if◌then◌else◌, List, [], ◌∷◌, ◌++◌,
}
use ant_aodv.Base.Result.{ok, fault}
use ant_aodv.Base.Text.{codes}
use ant_aodv.Base.Format.{Arg, pieces, sprintf}
use ant_aodv.Base.Format.Agree.{agrees, agree, fits, sprintf-agrees}
use ant_aodv.Trace.State.{World, Nam, CmuTrace, Effect, max_node, does}
use ant_aodv.Trace.Written.{handed, handed-append, append_nil, append_assoc}
use ant_aodv.Trace.Mac.{energy_of}
use ant_aodv.Trace.Nam.Broadcast.{calculate_broadcast_parameters, broadcast_range}
use ant_aodv.Trace.Nam.{
  nam_op, node_level, nam_args, write_nam, nam_sent, colors, with_color, color_at, nam_color,
  color_node, has_range, with_parameters, nam_packet,
}

abbrev shown : {P : Type 0} → List (List ℕ) → List (Effect P)
shown [] = []
shown (line ∷ lines) = Effect.namdump line ∷ shown lines

-- The lines behind the effects that were there.
abbrev pub adds : {P : Type 0} → List (Effect P) → List (List ℕ) → List (Effect P)
adds es lines = es ++ shown lines

handed-lines : (P : Type 0) (lines : List (List ℕ)) → handed (shown {P = P} lines) ≡ 0
unfolding handed
handed-lines P [] = refl
handed-lines P (x ∷ lines) = handed-lines P lines

module _ {P : Type 0} where
  shown-append : (xs ys : List (List ℕ)) → shown {P = P} (xs ++ ys) ≡ shown xs ++ shown ys
  shown-append [] ys = refl
  shown-append (x ∷ xs) ys = ap (λ l. Effect.namdump x ∷ l) (shown-append xs ys)

  pub adds-adds :
      (es : List (Effect P)) (xs ys : List (List ℕ)) → adds (adds es xs) ys ≡ adds es (xs ++ ys)
  adds-adds es xs ys =
      append_assoc es (shown xs) (shown ys) ∙ ap (λ l. es ++ l) (sym (shown-append xs ys))

  pub adds-none : (es : List (Effect P)) → es ≡ adds es []
  adds-none es = sym (append_nil es)

  -- Lines for the animator give no packet on.
  pub adds-quiet :
      (es : List (Effect P)) (lines : List (List ℕ)) → handed (adds es lines) ≡ handed es
  adds-quiet es lines = omega (arith, handed-append es (shown lines), handed-lines P lines)

-- Where the color kept for a node is another one, the line is due.
unfoldable pub repaints : ℤ → (level : ℕ) → (ℕ → ℕ) → List ℕ → List (List ℕ)
repaints (pos i) level colors line = if colors i == level then [] else line ∷ []
repaints (negsuc i) level colors line = []

pub repaints-at :
    (a : ℤ) (i level : ℕ) (colors : ℕ → ℕ) (line : List ℕ)
    → a ≡ pos i
    → repaints a level colors line ≡ (if colors i == level then [] else line ∷ [])
unfolding repaints
repaints-at a i level colors line at = rw at refl

module _ {W P : Type 0} (w : World W P) where
  -- The text of a format with arguments that agree with it.
  unfoldable pub text : String → List (Arg W) → List ℕ
  text format args = elim (sprintf w.show_real format args) [ ok t ↦ t | fault _ ↦ [] ]

  sprintf-text :
      (format : String) (args : List (Arg W))
      → agrees format args ≡ true
      → sprintf w.show_real format args ≡ ok (text format args)
  unfolding text
  sprintf-text format args e =
      let (line, gives) = sprintf-agrees w.show_real format args e in
      gives ∙ ap ok (sym (ap (λ r. elim r [ ok t ↦ t | fault _ ↦ [] ]) gives))

  -- The two lines for a packet that is sent.
  unfoldable pub sent_lines : CmuTrace W P → P → (ptype : List ℕ) → List (List ℕ)
  sent_lines s p ptype =
      if nam_op s.type == b'h'
      then text "+ -t %.9f -s %d -d %d -p %s -e %d -c 2 -a %d -i %d -k %3s " (nam_args w s p ptype)
        ∷ text "- -t %.9f -s %d -d %d -p %s -e %d -c 2 -a %d -i %d -k %3s" (nam_args w s p ptype)
        ∷ []
      else []

  -- The line for the color of a node, if it has an energy model and the color changes.
  unfoldable pub color_lines : CmuTrace W P → List (List ℕ)
  color_lines s =
      if w.double.eq (energy_of w s.src) w.minus_one
      then []
      else repaints s.src (node_level w s.src) s.nam.node_color (
          text "n -t %.9f -s %d -S COLOR %s" (
            Arg.real w.clock ∷ Arg.int s.src ∷ Arg.text (codes (colors (node_level w s.src))) ∷ []))

  -- The line of the packet; a broadcast that is sent has its range and duration behind it.
  unfoldable pub packet_line : CmuTrace W P → Nam W → P → (ptype : List ℕ) → List ℕ
  packet_line s m p ptype =
      let r = broadcast_range ⦃d = w.double⦄ w.nam m in
      text "%c -t %.9f -s %d -d %d -p %s -e %d -c 2 -a %d -i %d -k %3s"
        (Arg.chr (nam_op s.type) ∷ nam_args w s p ptype)
      ++ (if has_range w s p
          then text " -R %.2f -D %.2f" (Arg.real r.0 ∷ Arg.real r.1 ∷ [])
          else [])

  abbrev pub with_effects : List (Effect P) → CmuTrace W P → CmuTrace W P
  with_effects es s = record s { effects = es }

  write_nam_lem :
      (s : CmuTrace W P) (format : String) (args : List (Arg W))
      → agrees format args ≡ true
      → write_nam w s format args ≡ ok (does (Effect.namdump (text format args)) s)
  unfolding write_nam
  write_nam_lem s format args e = rw (sprintf-text format args e) refl

  pub nam_sent_lem :
      (s : CmuTrace W P) (p : P) (ptype : List ℕ)
      → nam_sent w s p ptype ≡ ok (with_effects (adds s.effects (sent_lines s p ptype)) s)
  unfolding nam_sent sent_lines agrees pieces agree fits
  nam_sent_lem s p ptype =
      let plus =
        text "+ -t %.9f -s %d -d %d -p %s -e %d -c 2 -a %d -i %d -k %3s " (nam_args w s p ptype) in
      let minus =
        text "- -t %.9f -s %d -d %d -p %s -e %d -c 2 -a %d -i %d -k %3s" (nam_args w s p ptype) in
      elim (Bool-cases (nam_op s.type == b'h')) [
        | inr other ↦ rw other (ap (λ es. ok (with_effects es s)) (adds-none s.effects))
        | inl sends ↦
            let writes =
              write_nam_lem s "+ -t %.9f -s %d -d %d -p %s -e %d -c 2 -a %d -i %d -k %3s "
                (nam_args w s p ptype) refl in
            let writes' =
              write_nam_lem (does (Effect.namdump plus) s)
                "- -t %.9f -s %d -d %d -p %s -e %d -c 2 -a %d -i %d -k %3s" (nam_args w s p ptype)
                refl in
            rw (sends, writes, writes')
              (ap (λ es. ok (with_effects es s)) (adds-adds s.effects (plus ∷ []) (minus ∷ [])))
      ]

  pub color_at_lem :
      (s : CmuTrace W P) (i level : ℕ)
      → let line =
          text "n -t %.9f -s %d -S COLOR %s"
            (Arg.real w.clock ∷ Arg.int s.src ∷ Arg.text (codes (colors level)) ∷ []) in
        (m : Nam W) × (color_at w i level s
          ≡ ok (record s {
            effects = adds s.effects (if s.nam.node_color i == level then [] else line ∷ []);
            nam = m;
          }))
        × (m.node_color i ≡ level)
        × (m.channel ≡ s.nam.channel)
  unfolding color_at agrees pieces agree fits
  color_at_lem s i level = elim (Bool-cases (s.nam.node_color i == level)) [
    | inl same ↦ (
      s.nam,
      rw same (ap (λ es. ok (with_effects es s)) (adds-none s.effects)),
      ground (arith, same),
      refl,
    )
    | inr other ↦
        let writes =
          write_nam_lem s "n -t %.9f -s %d -S COLOR %s"
            (Arg.real w.clock ∷ Arg.int s.src ∷ Arg.text (codes (colors level)) ∷ []) refl in
        ((with_color w i level s).nam, rw (other, writes) refl, ground arith, refl)
  ]

  pub nam_color-none :
      (s : CmuTrace W P) → w.double.eq (energy_of w s.src) w.minus_one ≡ true → nam_color w s ≡ ok s
  unfolding nam_color
  nam_color-none s e = rw e refl

  color_node-at :
      (s : CmuTrace W P) (a : ℤ) (i level : ℕ)
      → a ≡ pos i
      → ltb i max_node ≡ true
      → color_node w a level s ≡ color_at w i level s
  unfolding color_node
  color_node-at s a i level at small = rw at (rw small refl)

  pub nam_color-some :
      (s : CmuTrace W P) (i : ℕ)
      → w.double.eq (energy_of w s.src) w.minus_one ≡ false
      → s.src ≡ pos i
      → ltb i max_node ≡ true
      → nam_color w s ≡ color_at w i (node_level w s.src) s
  unfolding nam_color
  nam_color-some s i e at small = rw e (color_node-at s s.src i (node_level w s.src) at small)

  with_parameters_lem :
      (s : CmuTrace W P)
      → (m : Nam W) × (with_parameters w s ≡ record s { nam = m })
        × (m.node_color ≡ s.nam.node_color)
        × (m.channel ≡ s.nam.channel)
  unfolding with_parameters calculate_broadcast_parameters
  with_parameters_lem s = elim (Bool-cases (w.double.eq s.nam.bradius w.double.nought)) [
    | inl empty ↦
        (calculate_broadcast_parameters ⦃d = w.double⦄ w.nam s.nam, rw empty refl, refl, refl)
    | inr full ↦ (s.nam, rw full refl, refl, refl)
  ]

  pub nam_packet_lem :
      (s : CmuTrace W P) (p : P) (ptype : List ℕ)
      → (m : Nam W) × (nam_packet w s p ptype
          ≡ ok (record s { effects = adds s.effects (packet_line s m p ptype ∷ []); nam = m }))
        × (m.node_color ≡ s.nam.node_color)
        × (m.channel ≡ s.nam.channel)
  unfolding nam_packet packet_line agrees pieces agree fits
  nam_packet_lem s p ptype =
      let format : String = "%c -t %.9f -s %d -d %d -p %s -e %d -c 2 -a %d -i %d -k %3s" in
      let args : List (Arg W) = Arg.chr (nam_op s.type) ∷ nam_args w s p ptype in
      let writes = sprintf-text format args refl in
      elim (Bool-cases (has_range w s p)) [
        | inr plain ↦ (
          s.nam,
          rw (writes, plain)
              (ap (λ line. ok (with_effects (adds s.effects (line ∷ [])) s))
                (sym (append_nil (text format args)))),
          refl,
          refl,
        )
        | inl wide ↦
            let (m, sets, same, channel) = with_parameters_lem s in
            let r = broadcast_range ⦃d = w.double⦄ w.nam m in
            let writes' = sprintf-text " -R %.2f -D %.2f" (Arg.real r.0 ∷ Arg.real r.1 ∷ []) refl in
            (m, rw (writes, wide, sets, writes') refl, same, channel)
      ]
