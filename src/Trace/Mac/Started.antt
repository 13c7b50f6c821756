-- ===== src/Trace/Mac/Started.antt =====
-- `format_mac_common` starts a line.

use ant_aodv.Base.{
  ℕ, ◌≡◌, refl, sym, ap, ◌∙◌, subst, inl, inr, Bool, true, false, if◌then◌else◌, List, [], ◌∷◌,
  ◌++◌, length, none, some, Option-cases,
}
use ant_aodv.Base.Result.{Result, ok, Fault, or_fault, ◌>>=◌}
use ant_aodv.Base.Text.{codes}
use ant_aodv.Base.Format.{Arg, Piece, pieces, convert, render, sprintf, sprintf_at}
use ant_aodv.Base.Format.Agree.{agrees, agree, fits, render-letter}
use ant_aodv.Queue.{rest_of}
use ant_aodv.Trace.State.{World, CmuTrace, write, with_buffer, is_new, is_phy}
use ant_aodv.Trace.Mac.{
  packet_name, operation, tagged_op, mac_or_smac, mac_tagged, mac_tagged_at, mac_new, mac_new_at,
  new_op, mac_old, mac_end, write_energy, node_model, is_smac, starts_smac, format_mac_common,
  tagged_args, new_args, energy_args, old_args,
}
use ant_aodv.Trace.Written.{
  IsAdded, IsKept, IsKept-trans, IsAdded-after, if-each, append_nil, write-IsAdded, write-ok,
  sprintf_at-adds,
}
use ant_aodv.Trace.Added.{format_phy-IsAdded, format_mac-IsAdded, format_smac-IsAdded, IsNamed}

module _ {W P : Type 0} where
  -- A line that begins with the letter and a blank.
  abbrev pub HasLetter : ℕ → CmuTrace W P → Type 0
  HasLetter letter s = (text : List ℕ) × (s.buffer ≡ letter ∷ b' ' ∷ text)

  -- The run ends with a line that begins so, whatever the buffer held.
  abbrev pub IsStarted : ℕ → CmuTrace W P → Result (CmuTrace W P) → Type 0
  IsStarted letter s run = (s' : CmuTrace W P) × (run ≡ ok s') × IsKept s s' × HasLetter letter s'

  pub HasLetter-added :
      (letter : ℕ) (s s' : CmuTrace W P)
      → HasLetter letter s
      → (text : List ℕ) × (s'.buffer ≡ s.buffer ++ text)
      → HasLetter letter s'
  HasLetter-added letter s s' (text, starts) (more, adds) =
      (text ++ more, adds ∙ ap (λ b. b ++ more) starts)

  pub IsStarted-then :
      {letter : ℕ} {s s' : CmuTrace W P} {run : Result (CmuTrace W P)}
      → IsKept s s'
      → HasLetter letter s'
      → IsAdded s' run
      → IsStarted letter s run
  IsStarted-then {letter = letter} {s' = s'} k starts (s'', gives, l, adds) =
      (s'', gives, IsKept-trans k l, HasLetter-added letter s' s'' starts adds)

  -- A run after one that gives a value.
  pub bind-IsStarted :
      {A : Type 0} {letter : ℕ} {s : CmuTrace W P} {run : Result A}
      (rest : A → Result (CmuTrace W P)) {mid : A}
      → run ≡ ok mid
      → IsStarted letter s (rest mid)
      → IsStarted letter s (run >>= rest)
  bind-IsStarted {letter = letter} {s = s} rest gives started =
      subst (λ r. IsStarted letter s (r >>= rest)) (sym gives) started

module _ {W P : Type 0} (w : World W P) where
  mac_or_smac-IsAdded :
      (smac : Bool) (s : CmuTrace W P) (p : P) → IsAdded s (mac_or_smac w smac s p)
  unfolding mac_or_smac
  mac_or_smac-IsAdded smac s p =
      if-each (IsAdded s) smac _ _ (format_smac-IsAdded w s p) (format_mac-IsAdded w s p)

  write_energy-IsAdded : (s : CmuTrace W P) → IsAdded s (write_energy w s)
  unfolding write_energy agrees pieces agree fits
  write_energy-IsAdded s = elim (Option-cases (node_model w s.src)) [
    | inl none_there ↦ (
      s,
      rw (none_there, write_energy) refl,
      record { kept = refl; quiet = refl },
      ([], sym (append_nil s.buffer)),
    )
    | inr (e, model) ↦
        rw (model, write_energy)
          (write-IsAdded w s "[energy %f ei %.3f es %.3f et %.3f er %.3f] " (energy_args w e) refl)
  ]

  mac_end-IsAdded : (s : CmuTrace W P) (p : P) → IsAdded s (mac_end w s p)
  unfolding mac_end
  mac_end-IsAdded s p = if-each (IsAdded s) (is_phy s.tracetype) _ _ (format_phy-IsAdded w s p) (
      let (s', gives, k, adds) = mac_or_smac-IsAdded (starts_smac w) s p in
      rw gives (IsAdded-after k adds (write_energy-IsAdded s')))

  start-writes :
      (s : CmuTrace W P) (op : ℕ)
      → sprintf_at w.show_real 0 "%c " (Arg.chr op ∷ []) s.buffer ≡ ok (op ∷ b' ' ∷ [])
  unfolding sprintf_at sprintf pieces render convert
  start-writes s op = refl

  tagged-writes :
      (s : CmuTrace W P) (p : P) (name : List ℕ) (x y z : W) (timed : List ℕ)
      → (cs : List ℕ) × (sprintf_at w.show_real
            (length timed)
            " -s %d -d %d -p %s -k %3s -i %d -N:loc {%.2f %.2f %.2f} -N:en %f "
            (tagged_args w s p name x y z)
            timed
          ≡ ok (timed ++ cs))
  unfolding agrees pieces agree fits
  tagged-writes s p name x y z timed =
      sprintf_at-adds w " -s %d -d %d -p %s -k %3s -i %d -N:loc {%.2f %.2f %.2f} -N:en %f "
        (tagged_args w s p name x y z) timed refl

  mac_tagged_at-IsStarted :
      (s : CmuTrace W P) (p : P) (location : W × W × W)
      → IsNamed w p
      → IsStarted (tagged_op w (operation w s p)) s (mac_tagged_at w s p 0 location)
  unfolding mac_tagged_at
  mac_tagged_at-IsStarted s p (x, y, z) (name, known) =
      let op = tagged_op w (operation w s p) in
      let timed = op ∷ b' ' ∷ w.show_time w.clock in
      let (cs, ends) = tagged-writes s p name x y z timed in
      let line = timed ++ cs in
      bind-IsStarted _ known (
        bind-IsStarted _ (start-writes s op) (
          bind-IsStarted _ ends (
            IsStarted-then (record { kept = refl; quiet = refl }) (w.show_time w.clock ++ cs, refl)
              (mac_or_smac-IsAdded (is_smac w) (with_buffer s line) p))))

  mac_tagged-IsStarted :
      (s : CmuTrace W P) (p : P) (location : W × W × W)
      → s.node ≡ some location
      → IsNamed w p
      → IsStarted (tagged_op w (operation w s p)) s (mac_tagged w s p 0)
  unfolding mac_tagged
  mac_tagged-IsStarted s p location placed known =
      subst
        (λ o.
          IsStarted (tagged_op w (operation w s p)) s
            (or_fault o Fault.null_pointer >>= mac_tagged_at w s p 0))
        (sym placed) (mac_tagged_at-IsStarted s p location known)

  new-writes :
      (s : CmuTrace W P) (p : P) (why : List ℕ) (x y z : W)
      → (cs : List ℕ) × (write w s 0
            "%c -t %.9f -Hs %d -Hd %d -Ni %d -Nx %.2f -Ny %.2f -Nz %.2f -Ne %f -Nl %3s -Nw %s "
            (new_args w s p why x y z)
          ≡ ok (with_buffer s (new_op w (operation w s p) ∷ b' ' ∷ cs)))
  unfolding sprintf pieces agree fits
  new-writes s p why x y z =
      let tail : List Piece =
        pieces none (
          codes "-t %.9f -Hs %d -Hd %d -Ni %d -Nx %.2f -Ny %.2f -Nz %.2f -Ne %f -Nl %3s -Nw %s ") in
      let (cs, gives) =
        render-letter w.show_real (new_op w (operation w s p)) tail
          (rest_of (new_args w s p why x y z)) refl in
      (
        cs,
        write-ok w s 0
            "%c -t %.9f -Hs %d -Hd %d -Ni %d -Nx %.2f -Ny %.2f -Nz %.2f -Ne %f -Nl %3s -Nw %s "
            (new_args w s p why x y z) gives,
      )

  mac_new-IsStarted :
      (s : CmuTrace W P) (p : P) (why : List ℕ) (location : W × W × W)
      → s.node ≡ some location
      → IsStarted (new_op w (operation w s p)) s (mac_new w s p why 0)
  unfolding mac_new mac_new_at
  mac_new-IsStarted s p why (x, y, z) placed =
      let (cs, gives) = new-writes s p why x y z in
      let line = new_op w (operation w s p) ∷ b' ' ∷ cs in
      subst
        (λ o.
          IsStarted (new_op w (operation w s p)) s
            (or_fault o Fault.null_pointer >>= mac_new_at w s p why 0))
        (sym placed)
        (bind-IsStarted _ gives (
          IsStarted-then (record { kept = refl; quiet = refl }) (cs, refl)
            (mac_or_smac-IsAdded (is_smac w) (with_buffer s line) p)))

  old-writes :
      (s : CmuTrace W P) (p : P) (why name : List ℕ)
      → (cs : List ℕ) × (write w s 0 "%c %.9f _%d_ %3s %4s %d %s %d" (old_args w s p why name)
          ≡ ok (with_buffer s (operation w s p ∷ b' ' ∷ cs)))
  unfolding sprintf pieces agree fits
  old-writes s p why name =
      let tail : List Piece = pieces none (codes "%.9f _%d_ %3s %4s %d %s %d") in
      let (cs, gives) =
        render-letter w.show_real (operation w s p) tail (rest_of (old_args w s p why name)) refl in
      (cs, write-ok w s 0 "%c %.9f _%d_ %3s %4s %d %s %d" (old_args w s p why name) gives)

  mac_old-IsStarted :
      (s : CmuTrace W P) (p : P) (why name : List ℕ)
      → packet_name w p ≡ ok name
      → IsStarted (operation w s p) s (mac_old w s p why 0)
  unfolding mac_old
  mac_old-IsStarted s p why name known =
      let (cs, gives) = old-writes s p why name in
      let line = operation w s p ∷ b' ' ∷ cs in
      bind-IsStarted _ known (
        bind-IsStarted _ gives (
          IsStarted-then (record { kept = refl; quiet = refl }) (cs, refl)
            (mac_end-IsAdded (with_buffer s line) p)))

  -- The letter of the event, in each of the three formats.
  unfoldable pub letter : CmuTrace W P → P → ℕ
  letter s p =
      if s.tagged
      then tagged_op w (operation w s p)
      else if is_new s
      then new_op w (operation w s p)
      else operation w s p

  if-IsStarted :
      {s : CmuTrace W P} (b : Bool) (x y : ℕ) (run run' : Result (CmuTrace W P))
      → IsStarted x s run
      → IsStarted y s run'
      → IsStarted (if b then x else y) s (if b then run else run')
  if-IsStarted true x y run run' f g = f
  if-IsStarted false x y run run' f g = g

  pub format_mac_common-IsStarted :
      (s : CmuTrace W P) (p : P) (why name : List ℕ) (location : W × W × W)
      → s.node ≡ some location
      → IsNamed w p
      → packet_name w p ≡ ok name
      → IsStarted (letter s p) s (format_mac_common w s p why 0)
  unfolding format_mac_common letter
  format_mac_common-IsStarted s p why name location placed known known' =
      if-IsStarted s.tagged _ _ _ _ (mac_tagged-IsStarted s p location placed known) (
        if-IsStarted (is_new s) _ _ _ _ (mac_new-IsStarted s p why location placed)
          (mac_old-IsStarted s p why name known'))
