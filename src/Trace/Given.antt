-- ===== src/Trace/Given.antt =====
-- `recv` and `recv(why)` of Ns2.35Files/cmu-trace.cc: a packet is traced and given on.
use Prim.Native.String.{String}
use ant_aodv.Base.{
  ℕ, ◌+◌, ◌≡◌, refl, ◌∙◌, ◌==◌, ◌&&◌, Bool, true, false, if◌then◌else◌, List, [], ◌∷◌, ◌++◌, arith,
}
use ant_aodv.Base.Result.{ok, Fault, guard, ◌>>=◌, ◌>>◌}
use ant_aodv.Base.Text.{codes}
use ant_aodv.Trace.{format, node_energy, is_initialized, stamped, dumped, recv, recv_why}
use ant_aodv.Trace.State.{World, CmuTrace, Effect, does, drop, sent, is_agent}
use ant_aodv.Trace.Written.{IsKept, IsTraced, handed, handed-append, if-each}
use ant_aodv.Trace.Lines.{IsTraceable, format_returns}

plus_zero : {n : ℕ} → n + 0 ≡ n
plus_zero = omega arith

module _ {W P : Type 0} where
  -- With energy: the line is written, and then the packet is given on, once; nothing before gave it
  -- on. Without: the packet is released and nothing else happens.
  unfoldable pub Recorded : (energy : Bool) (give : Effect P) (p : P) (s s' : CmuTrace W P) → Type 0
  Recorded true give p s s' =
      (before : List (Effect P)) × (s'.effects
        ≡ (before ++ Effect.dump s'.buffer ∷ []) ++ give ∷ [])
      × (handed before ≡ handed s.effects)
  Recorded false give p s s' = s' ≡ does (Effect.free p) s

module _ {W P : Type 0} (w : World W P) where
  stamped-IsTraceable :
      (s : CmuTrace W P) (p : P) → IsTraceable w s p → IsTraceable w (stamped w s p) p
  unfolding stamped
  stamped-IsTraceable s p t =
      if-each (λ r. IsTraceable w r p) (is_agent s.tracetype && s.type == sent)
        (does (Effect.stamp p) s) s
        (record {
          location = t.location;
          placed = t.placed;
          named = t.named;
          mac_name = t.mac_name;
          mac_named = t.mac_named;
          aodv_known = t.aodv_known;
          aomdv_known = t.aomdv_known;
          routed = t.routed;
          lettered = t.lettered;
          there = t.there;
          namable = λ on.
              let v = t.namable on in
              record {
                open_trace = v.open_trace;
                ptype = v.ptype;
                short = v.short;
                numbered = v.numbered;
              };
        })
        t

  stamped-IsKept : (s : CmuTrace W P) (p : P) → IsKept s (stamped w s p)
  unfolding stamped handed
  stamped-IsKept s p =
      if-each (IsKept s) (is_agent s.tracetype && s.type == sent) (does (Effect.stamp p) s) s
        (record { kept = refl; quiet = handed-append s.effects _ ∙ plus_zero })
        (record { kept = refl; quiet = refl })

  initialized : (s : CmuTrace W P) (p : P) → IsTraceable w s p → is_initialized w s ≡ true
  unfolding is_initialized
  initialized s p t = rw t.placed refl

  recorded :
      (s s' s'' : CmuTrace W P) (p : P) (give : Effect P)
      → IsKept s s'
      → IsTraced s' s''
      → Recorded true give p s (does give (dumped w s''))
  unfolding Recorded
  recorded s s' s'' p give k l = (s''.effects, refl, l.quiet ∙ k.quiet)

  recv_by :
      (s : CmuTrace W P) (p : P) (energy : Bool)
      → IsTraceable w s p
      → (s' : CmuTrace W P) × ((if energy
            then (do
              guard (is_initialized w s) Fault.assertion_failed
              s' ← format w (stamped w s p) p (codes "---")
              ok (does (if s.target then Effect.send p else Effect.free p) (dumped w s')))
            else ok (does (Effect.free p) s))
          ≡ ok s')
        × Recorded energy (if s.target then Effect.send p else Effect.free p) p s s'
  unfolding Recorded
  recv_by s p false t = (does (Effect.free p) s, refl, refl)
  recv_by s p true t =
      let (s', gives, k, _) =
        format_returns w (stamped w s p) p (codes "---") (stamped-IsTraceable s p t) in
      let give = if s.target then Effect.send p else Effect.free p in
      (
        does give (dumped w s'),
        rw (initialized s p t, gives) refl,
        recorded s (stamped w s p) s' p give (stamped-IsKept s p) k,
      )

  -- `recv` of a packet for which the methods have what they rely on (`IsTraceable`) returns. At a node
  -- with energy left, or without an energy model, the line is written, and after it the packet is sent
  -- to the target, or released when there is none; it is given on no other time. At a node without
  -- energy the packet is released and no line is written.
  pub recv_lem :
      (s : CmuTrace W P) (p : P)
      → IsTraceable w s p
      → (s' : CmuTrace W P) × (recv w s p ≡ ok s')
        × Recorded (node_energy w s) (if s.target then Effect.send p else Effect.free p) p s s'
  unfolding recv
  recv_lem s p t = recv_by s p (node_energy w s) t

  recv_why_by :
      (s : CmuTrace W P) (p : P) (why : String) (energy : Bool)
      → IsTraceable w s p
      → (s' : CmuTrace W P) × ((if energy
            then (do s' ← format w s p (codes why); ok (does (Effect.free p) (dumped w s')))
            else ok (does (Effect.free p) s))
          ≡ ok s')
        × Recorded energy (Effect.free p) p s s'
  unfolding Recorded
  recv_why_by s p why false t = (does (Effect.free p) s, refl, refl)
  recv_why_by s p why true t =
      let (s', gives, k, _) = format_returns w s p (codes why) t in
      (
        does (Effect.free p) (dumped w s'),
        rw gives refl,
        recorded s s s' p (Effect.free p) (record { kept = refl; quiet = refl }) k,
      )

  -- `recv(p, why)` at a trace of drops, of a packet for which the methods have what they rely on
  -- (`IsTraceable`), returns and releases the packet, once; before it the line is written when the node
  -- has energy left, or no energy model.
  pub recv_why_lem :
      (s : CmuTrace W P) (p : P) (why : String)
      → s.type == drop ≡ true
      → IsTraceable w s p
      → (s' : CmuTrace W P) × (recv_why w s p why ≡ ok s')
        × Recorded (node_energy w s) (Effect.free p) p s s'
  unfolding recv_why
  recv_why_lem s p why drops t =
      rw (initialized s p t, drops) (recv_why_by s p why (node_energy w s) t)
