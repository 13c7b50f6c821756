-- ===== src/Traffic/Learned.antt =====
-- What an ant teaches the traffic model of a node that it has passed: `update_traffic`.
use ant_aodv.Base.{
  ◌≡◌, ◌⊎◌, refl, sym, ap, subst, ◌∙◌, inl, inr, ℤ, List, [], ◌∷◌, ◌++◌, some, some-injective,
  last_of, Among-last_of, All-intro, take, length, All, Among, Distinct, arith,
}
use ant_aodv.Base.Result.{ok}
use ant_aodv.Double.{Double, ◌⊖◌}
use ant_aodv.Double.Laws.{◌≼◌, IsOrdered}
use ant_aodv.StdMap.{find}
use ant_aodv.Nodes.{Among-cases}
use ant_aodv.Ant.{HdrAntPkt, Memory, nodes, IsValid}
use ant_aodv.Ant.Entries.{entries_lem}
use ant_aodv.Traffic.{
  Traffic, StateT, push_samples, min_tt, update_states, reinforcement, find_r, samples_of,
  update_traffic,
}
use ant_aodv.Traffic.Least.{min_tt-snoc, min_tt_total}
use ant_aodv.Traffic.Windows.{keys, or_empty, push_samples-in, push_samples-out}
use ant_aodv.Traffic.Samples.{taught, IsTaught, update_states_lem, find_r_lem}

module _ {W : Type 0} ⦃d : Double W⦄ where
  keys-samples_of : (first : W) (m : List (Memory W)) → keys (samples_of first m) ≡ nodes m
  unfolding samples_of
  keys-samples_of first [] = refl
  keys-samples_of first (e ∷ m) = ap (λ l. e.node_addr ∷ l) (keys-samples_of first m)

  Among-samples_of :
      (first : W) (e : Memory W) (m : List (Memory W))
      → Among e m
      → Among (e.node_addr, e.trip_time ⊖ first) (samples_of first m)
  unfolding samples_of
  Among-samples_of first e [] a = a
  Among-samples_of first e (x ∷ m) (inl q) = inl (ap (λ z. (z.node_addr, z.trip_time ⊖ first)) q)
  Among-samples_of first e (x ∷ m) (inr a) = inr (Among-samples_of first e m a)

  last_of-samples_of :
      (first : W) (e : Memory W) (m : List (Memory W))
      → let l = last_of e m in
        last_of (e.node_addr, e.trip_time ⊖ first) (samples_of first m)
        ≡ (l.node_addr, l.trip_time ⊖ first)
  unfolding samples_of
  last_of-samples_of first e [] = refl
  last_of-samples_of first e (x ∷ m) = last_of-samples_of first x m

  -- The window of the destination with the new trip time.
  abbrev pub grown : Traffic W → ℤ → W → List W
  grown t dest time = or_empty (find dest t.window) ++ time ∷ []

  -- The trip time is in the destination's window, and its state has learned it, with a best trip
  -- time that is of the window and the least there.
  abbrev pub HasLearned : (t t' : Traffic W) (dest : ℤ) (time : W) → Type 0
  HasLearned t t' dest time =
      (find dest t'.window ≡ some (grown t dest time))
      × (best : W) × Among best (grown t dest time)
      × All (λ y. best ≼ y) (grown t dest time)
      × (find dest t'.state ≡ some (taught time best (find dest t.state)))

  -- The node is not one that the ant has visited after this one, or its rows stay.
  abbrev pub IsKept : List ℤ → (t t' : Traffic W) → ℤ → Type 0
  IsKept dests t t' j =
      Among j dests ⊎ (find j t'.window ≡ find j t.window) × (find j t'.state ≡ find j t.state)

  -- What the trip time to the destination earns, with the window and the state that have it.
  abbrev pub IsEarned : Traffic W → (dest : ℤ) (time r : W) → Type 0
  IsEarned t dest time r =
      (best : W) × (min_tt (grown t dest time) ≡ ok best)
      × (r ≡ reinforcement time (taught time best (find dest t.state)) (length (grown t dest time)))

  -- The two loops behind the windows return.
  learning_lem :
      (t : Traffic W) (r : W) (s : ℤ × W) (samples : List (ℤ × W))
      → Distinct (keys (s ∷ samples))
      → let window = push_samples t.window (s ∷ samples) in
        let l = last_of s samples in
        (state : StateT W) × (r' : W) × (update_states window t.state (s ∷ samples) ≡ ok state)
        × (find_r window state r (s ∷ samples) ≡ ok r')
        × IsTaught window t.state state (s ∷ samples)
        × IsEarned t l.0 l.1 r'
  learning_lem t r s samples u =
      let all = s ∷ samples in
      let window = push_samples t.window all in
      let new : (s : ℤ × W) → Among s all → find s.0 window ≡ some (grown t s.0 s.1) =
        λ s a. push_samples-in all t.window s.0 s.1 u a in
      let best : (s : ℤ × W) → (m : W) × (min_tt (grown t s.0 s.1) ≡ ok m) =
        λ s. min_tt_total (or_empty (find s.0 t.window)) s.1 in
      let (state, e, is_taught) =
        update_states_lem window t.state all u
          (All-intro all (λ s a. (grown t s.0 s.1, (best s).0, new s a, (best s).1))) in
      let known : (s : ℤ × W)
          → Among s all
          → find s.0 state ≡ some (taught s.1 (best s).0 (find s.0 t.state)) =
        λ s a. is_taught.inside s.0 s.1 (grown t s.0 s.1) (best s).0 a (new s a) (best s).1 in
      let (m, win, f, g, h) =
        find_r_lem window state r s samples (All-intro all (λ s a. (_, known s a)))
          (All-intro all (λ s a. (grown t s.0 s.1, new s a))) in
      let l = last_of s samples in
      let a = Among-last_of s samples in
      let m_is = some-injective (sym f ∙ known l a) in
      let win_is = some-injective (sym g ∙ new l a) in
      (
        state,
        reinforcement l.1 m (length win),
        e,
        h,
        is_taught,
        (
          (best l).0,
          (best l).1,
          ap (λ z. reinforcement l.1 z (length win)) m_is
              ∙ ap (λ w. reinforcement l.1 (taught l.1 (best l).0 (find l.0 t.state)) (length w))
                  win_is,
        ),
      )

module _ {W : Type 0} ⦃d : Double W⦄ (order : IsOrdered W) where
  -- An ant with a valid memory in which no node stands twice, and in which the entry `here` is not
  -- the last, makes `update_traffic` at the node of `here` return. For each entry behind `here` the
  -- trip time from here to there is put at the end of the destination's window; the state of the
  -- destination learns it together with the least trip time of the window, if they are numbers.
  -- The windows and states of all other destinations stay, and the new `r` is what the last entry
  -- earns.
  pub update_traffic_lem :
      (t : Traffic W) (r : W) (ah : HdrAntPkt W) (before : List (Memory W)) (here next : Memory W)
      (behind : List (Memory W)) (e : Memory W) (j : ℤ)
      → IsValid ah
      → take ah.pkt_mem_size ah.pkt_memory ≡ before ++ here ∷ next ∷ behind
      → Distinct (nodes (before ++ here ∷ next ∷ behind))
      → Among e (next ∷ behind)
      → All (λ y. y ≼ y) (grown t e.node_addr (e.trip_time ⊖ here.trip_time))
      → (t' : Traffic W) × (r' : W) × (update_traffic here.node_addr t r ah ≡ ok (t', r'))
        × HasLearned t t' e.node_addr (e.trip_time ⊖ here.trip_time)
        × IsKept (nodes (next ∷ behind)) t t' j
        × (let l = last_of next behind in IsEarned t l.node_addr (l.trip_time ⊖ here.trip_time) r')
  unfolding update_traffic samples_of
  update_traffic_lem t r ah before here next behind e j v h u a numbers =
      let (found, reads, reads', visited, once) =
        entries_lem before here next behind ah.pkt_memory ah.pkt_mem_size h
          (omega (arith, v.array, v.used)) u in
      let samples = samples_of here.trip_time (next ∷ behind) in
      let time = e.trip_time ⊖ here.trip_time in
      let same = keys-samples_of here.trip_time (next ∷ behind) in
      let u' : Distinct (keys samples) = subst Distinct (sym same) once in
      let first : ℤ × W = (next.node_addr, next.trip_time ⊖ here.trip_time) in
      let (state, r', taught, earned, is_taught, is_earned) =
        learning_lem t r first (samples_of here.trip_time behind) u' in
      let among = Among-samples_of here.trip_time e (next ∷ behind) a in
      let grows = push_samples-in samples t.window e.node_addr time u' among in
      let (best, least, of_window, all) =
        min_tt-snoc order (or_empty (find e.node_addr t.window)) time numbers in
      (
        record { state = state; window = push_samples t.window samples },
        r',
        rw (found, reads, reads', visited, taught, earned),
        (
          grows,
          best,
          of_window,
          all,
          is_taught.inside e.node_addr time (grown t e.node_addr time) best among grows least,
        ),
        elim (Among-cases j (nodes (next ∷ behind))) [
          | inl in_dests ↦ inl in_dests
          | inr out ↦
              let out' : ¬ Among j (keys samples) = λ b. out (subst (Among j) same b) in
              inr (push_samples-out samples t.window j out', is_taught.outside j out')
        ],
        subst (λ l. IsEarned t l.0 l.1 r') (last_of-samples_of here.trip_time next behind)
            is_earned,
      )
