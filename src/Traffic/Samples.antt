-- ===== src/Traffic/Samples.antt =====
-- What the samples of an ant do to the state, destination by destination.
use mathlib.Core.Option
use ant_aodv.Base.{
  ◌≡◌, ◌≢◌, refl, sym, ap, subst, ◌∙◌, inl, inr, if_pos, if_neg, ℤ, ℤ_discrete, List, [], ◌∷◌,
  Option, none, some, Option-cases, some-injective, last_of, Among, All, length, Distinct,
}
use ant_aodv.Base.Result.{ok, ok-injective}
use ant_aodv.Double.{Double}
use ant_aodv.StdMap.{find, insert, adjust, find-insert, find-adjust}
use ant_aodv.Traffic.{
  WindowT, StateT, TrafficMatrix, min_tt, learn, update_state, update_states, get_win_size,
  reinforcement, find_r,
}
use ant_aodv.Traffic.Windows.{keys, Among-keys}

module _ {W : Type 0} ⦃d : Double W⦄ where
  -- The state of a destination after the trip time `time`, with the best of its window.
  abbrev pub taught : (time best : W) → Option (TrafficMatrix W) → TrafficMatrix W
  taught time best none = record { mean_tt = time; var_tt = time; best_tt = best }
  taught time best (some old) = learn time best old

  update_state_lem :
      (window : WindowT W) (state : StateT W) (dest : ℤ) (time best : W) (win : List W)
      → find dest window ≡ some win
      → min_tt win ≡ ok best
      → (state' : StateT W) × (update_state window state (dest, time) ≡ ok state')
        × (find dest state' ≡ some (taught time best (find dest state)))
        × ((j : ℤ) → j ≢ dest → find j state' ≡ find j state)
  unfolding update_state
  update_state_lem window state dest time best win f m = elim (Option-cases (find dest state)) [
    | inl fresh ↦
        let new : TrafficMatrix W = record { mean_tt = time; var_tt = time; best_tt = best } in
        (
          insert dest new state,
          rw (f, m, fresh) refl,
          rw fresh (find-insert dest dest new state ∙ if_pos (ℤ_discrete dest dest) refl _ _),
          λ j n. find-insert j dest new state ∙ if_neg (ℤ_discrete j dest) n _ _,
        )
    | inr (old, known) ↦ (
      adjust dest (learn time best) state,
      rw (f, m, known) refl,
      rw known (
          find-adjust dest dest (learn time best) state
          ∙ if_pos (ℤ_discrete dest dest) refl _ _
          ∙ ap (Option.map (learn time best)) known),
      λ j n. find-adjust j dest (learn time best) state ∙ if_neg (ℤ_discrete j dest) n _ _,
    )
  ]

  -- The trip time and the best one are what the state learns of a destination.
  abbrev Teaches : (state state' : StateT W) → (ℤ × W) → (best : W) → Type 0
  Teaches state state' s best = find s.0 state' ≡ some (taught s.1 best (find s.0 state))

  same_best :
      (window : WindowT W) (dest : ℤ) (win win' : List W) (best best' : W)
      → find dest window ≡ some win
      → min_tt win ≡ ok best
      → find dest window ≡ some win'
      → min_tt win' ≡ ok best'
      → best ≡ best'
  same_best window dest win win' best best' f m g b =
      ok-injective (sym m ∙ ap min_tt (some-injective (sym f ∙ g)) ∙ b)

  -- Each sample has a window in `window`, whose best trip time is found.
  abbrev pub IsWindowed : WindowT W → (ℤ × W) → Type 0
  IsWindowed window s =
      (win : List W) × (best : W) × (find s.0 window ≡ some win) × (min_tt win ≡ ok best)

  -- What the samples leave in the state, destination by destination.
  pub record IsTaught (window : WindowT W) (state state' : StateT W) (samples : List (ℤ × W))
      : Type 0 where
    pub inside :
        (j : ℤ) (time : W) (win : List W) (best : W)
        → Among (j, time) samples
        → find j window ≡ some win
        → min_tt win ≡ ok best
        → find j state' ≡ some (taught time best (find j state))
    pub outside : (j : ℤ) → ¬ Among j (keys samples) → find j state' ≡ find j state

  pub update_states_lem :
      (window : WindowT W) (state : StateT W) (samples : List (ℤ × W))
      → Distinct (keys samples)
      → All (IsWindowed window) samples
      → (state' : StateT W) × (update_states window state samples ≡ ok state')
        × IsTaught window state state' samples
  unfolding update_states
  update_states_lem window state [] u a =
      (state, refl, record { inside = λ j time win best a _ _. absurd a; outside = λ j _. refl })
  update_states_lem window state ((dest, time) ∷ samples) u ((win, best, f, m), a) =
      let (state1, one, here, others) = update_state_lem window state dest time best win f m in
      let (state', rest, t) = update_states_lem window state1 samples u.1 a in
      (
        state',
        rw one rest,
        record {
          inside = λ j time' win' best' among g b. elim among [
            | inl e ↦
                let same : dest ≡ j = ap (λ z. z.0) e in
                let out = subst (λ z. ¬ Among z (keys samples)) same u.0 in
                let agrees = same_best window dest win win' best best' f m in
                t.outside j out
                ∙ subst (λ z. Teaches state state1 z best') e
                    (here
                      ∙ ap (λ b. some (taught time b (find dest state)))
                          (agrees (ap (λ z. find z.0 window) e ∙ g) b))
            | inr among ↦
                let differs : j ≢ dest = λ e.
                  u.0 (subst (λ z. Among z (keys samples)) e (Among-keys j time' samples among)) in
                t.inside j time' win' best' among g b
                ∙ ap (λ o. some (taught time' best' o)) (others j differs)
          ];
          outside = λ j out. t.outside j (λ b. out (inr b)) ∙ others j (λ e. out (inl (sym e)));
        },
      )

  -- The value that the last sample earns is the one that stays.
  pub find_r_lem :
      (window : WindowT W) (state : StateT W) (r : W) (s : ℤ × W) (samples : List (ℤ × W))
      → All (λ s. (m : TrafficMatrix W) × (find s.0 state ≡ some m)) (s ∷ samples)
      → All (λ s. (win : List W) × (find s.0 window ≡ some win)) (s ∷ samples)
      → let l = last_of s samples in
        (m : TrafficMatrix W) × (win : List W) × (find l.0 state ≡ some m)
        × (find l.0 window ≡ some win)
        × (find_r window state r (s ∷ samples) ≡ ok (reinforcement l.1 m (length win)))
  unfolding find_r get_win_size
  find_r_lem window state r s [] ((m, f), _) ((win, g), _) = (m, win, f, g, rw (f, g) refl)
  find_r_lem window state r s (s' ∷ samples) ((m, f), known) ((win, g), windowed) =
      let (m', win', f', g', e) =
        find_r_lem window state (reinforcement s.1 m (length win)) s' samples known windowed in
      (m', win', f', g', rw (f, g) e)
