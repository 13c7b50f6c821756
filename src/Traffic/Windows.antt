-- ===== src/Traffic/Windows.antt =====
-- What the samples of an ant do to the windows, destination by destination.
use ant_aodv.Base.{
  ◌≡◌, ◌≢◌, refl, sym, ap, subst, ◌∙◌, inl, inr, ite, if_pos, if_neg, ℤ, ℤ_discrete, List, [], ◌∷◌,
  ◌++◌, map, Option, none, some, Among, Distinct, arith,
}
use ant_aodv.StdMap.{find, find-insert, find-adjust}
use ant_aodv.Traffic.{WindowT, push_sample, push_samples}

module _ {W : Type 0} where
  abbrev pub keys : List (ℤ × W) → List ℤ
  keys = map (λ s. s.0)

  -- The window of a destination; an empty one if there is none.
  abbrev pub or_empty : Option (List W) → List W
  or_empty none = []
  or_empty (some w) = w

  pub Among-keys :
      (j : ℤ) (tt' : W) (samples : List (ℤ × W)) → Among (j, tt') samples → Among j (keys samples)
  Among-keys j tt' [] a = a
  Among-keys j tt' (s ∷ samples) (inl e) = inl (ap (λ z. z.0) e)
  Among-keys j tt' (s ∷ samples) (inr a) = inr (Among-keys j tt' samples a)

  find-push_sample :
      (window : WindowT W) (dest j : ℤ) (time : W)
      → find j (push_sample window dest time)
        ≡ ite (ℤ_discrete j dest) (some (or_empty (find dest window) ++ time ∷ [])) (find j window)
  unfolding push_sample
  find-push_sample window dest j time = ground (
    arith,
    find-insert j dest (time ∷ []) window,
    find-adjust j dest (λ w. w ++ time ∷ []) window,
  )

  push_sample-hit :
      (window : WindowT W) (j : ℤ) (time : W)
      → find j (push_sample window j time) ≡ some (or_empty (find j window) ++ time ∷ [])
  push_sample-hit window j time =
      find-push_sample window j j time ∙ if_pos (ℤ_discrete j j) refl _ _

  push_sample-miss :
      (window : WindowT W) (dest j : ℤ) (time : W)
      → j ≢ dest
      → find j (push_sample window dest time) ≡ find j window
  push_sample-miss window dest j time n =
      find-push_sample window dest j time ∙ if_neg (ℤ_discrete j dest) n _ _

  pub push_samples-out :
      (samples : List (ℤ × W)) (window : WindowT W) (j : ℤ)
      → ¬ Among j (keys samples)
      → find j (push_samples window samples) ≡ find j window
  unfolding push_samples
  push_samples-out [] window j out = refl
  push_samples-out ((dest, time) ∷ samples) window j out =
      push_samples-out samples (push_sample window dest time) j (λ a. out (inr a))
      ∙ push_sample-miss window dest j time (λ e. out (inl (sym e)))

  pub push_samples-in :
      (samples : List (ℤ × W)) (window : WindowT W) (j : ℤ) (time : W)
      → Distinct (keys samples)
      → Among (j, time) samples
      → find j (push_samples window samples) ≡ some (or_empty (find j window) ++ time ∷ [])
  unfolding push_samples
  push_samples-in [] window j time u a = elim a [ ]
  push_samples-in ((dest, t) ∷ samples) window j time u (inl e) =
      let same : dest ≡ j = ap (λ z. z.0) e in
      let first = subst (λ z. ¬ Among z (keys samples)) same u.0 in
      push_samples-out samples (push_sample window dest t) j first
      ∙ ap (λ z. find j (push_sample window z.0 z.1)) e
      ∙ push_sample-hit window j time
  push_samples-in ((dest, t) ∷ samples) window j time u (inr a) =
      let differs : j ≢ dest =
        λ e. u.0 (subst (λ z. Among z (keys samples)) e (Among-keys j time samples a)) in
      push_samples-in samples (push_sample window dest t) j time u.1 a
      ∙ ap (λ w. some (or_empty w ++ time ∷ [])) (push_sample-miss window dest j t differs)
