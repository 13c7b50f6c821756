-- ===== src/Queue/PriQueue/Limits.antt =====
-- No operation of the priority queue changes its limit, nor what it counts.
use ant_aodv.Base.{
  ℕ, zero, suc, ◌-◌, ◌≡◌, refl, sym, ap, subst, ◌∙◌, inl, inr, Bool, true, false, Bool-cases,
  Option-cases, ◌++◌, Option, none, some, leb,
}
use ant_aodv.Queue.{PacketQueue, IsFifo}
use ant_aodv.Queue.DropTail.{DropTail, Effect, does, with_q, count_stats, drop_head, enque, deque}
use ant_aodv.Queue.DropTail.Enque.{
  held, counted, count_stats_lem, outcome, enque-eq-outcome, deque_lem, is_limit,
}
use ant_aodv.Queue.PriQueue.{
  terminate_loop, terminate, drop_end_of_simulation, drop_over, send_head, recv_high_priority,
}
use ant_aodv.Queue.PriQueue.Head.{sends, send_head-eq-sends}

module _ {Q P : Type 0} {same : Discrete P} {size : P → ℕ} {k : PacketQueue Q P}
    (fifo : IsFifo same size k) where
  abbrev pub SameLimits : DropTail Q P → DropTail Q P → Type 0
  SameLimits s s' = (s'.qlim ≡ s.qlim) × (s'.qib ≡ s.qib)

  drop_head-SameLimits : (s : DropTail Q P) → SameLimits s (drop_head k s)
  unfolding drop_head
  drop_head-SameLimits s = elim (Option-cases (k.deque s.q).0) [
    | inl e ↦ rw (drop_head, e) (refl, refl)
    | inr (x, e) ↦ rw (drop_head, e) (refl, refl)
  ]

  count_stats-SameLimits : (s : DropTail Q P) → SameLimits s (count_stats k s)
  count_stats-SameLimits s =
      (ap (λ t. t.qlim) (count_stats_lem fifo s), ap (λ t. t.qib) (count_stats_lem fifo s))

  outcome-SameLimits :
      (s : DropTail Q P) (p : P) (limit front : Bool) → SameLimits s (outcome fifo s p limit front)
  unfolding outcome
  outcome-SameLimits s p false front = count_stats-SameLimits s
  outcome-SameLimits s p true false = count_stats-SameLimits s
  outcome-SameLimits s p true true =
      let (l, i) = drop_head-SameLimits (with_q (k.enque p s.q) (count_stats k s)) in
      let (l', i') = count_stats-SameLimits s in (l ∙ l', i ∙ i')

  pub enque-SameLimits : (s : DropTail Q P) (p : P) → SameLimits s (enque k size s p)
  enque-SameLimits s p =
      subst (SameLimits s)
        (sym (enque-eq-outcome fifo s p (is_limit fifo s (held fifo s) p) s.drop_front refl refl))
        (outcome-SameLimits s p (is_limit fifo s (held fifo s) p) s.drop_front)

  pub deque-SameLimits : (s : DropTail Q P) → SameLimits s (deque k s).1
  deque-SameLimits s = let (p, h, r) = deque_lem fifo s in (ap (λ t. t.qlim) r, ap (λ t. t.qib) r)

  drop_over-SameLimits : (s : DropTail Q P) → SameLimits s (drop_over k s)
  unfolding drop_over
  drop_over-SameLimits s = elim (Bool-cases (leb s.qlim (k.length_of s.q))) [
    | inr f ↦ rw (drop_over, f) (refl, refl)
    | inl f ↦ elim (Option-cases (k.lookup (k.length_of s.q - 1) s.q)) [
      | inl e ↦ rw (drop_over, f, e) (refl, refl)
      | inr (x, e) ↦ rw (drop_over, f, e) (refl, refl)
    ]
  ]

  sends-SameLimits :
      (s t u : DropTail Q P) (b : Bool) (p : Option P)
      → SameLimits s t
      → SameLimits s u
      → SameLimits s (sends fifo b p t u)
  sends-SameLimits s t u true p a c = a
  sends-SameLimits s t u false none a c = c
  sends-SameLimits s t u false (some x) a c = c

  send_head-SameLimits : (s : DropTail Q P) → SameLimits s (send_head k s)
  send_head-SameLimits s =
      subst (SameLimits s) (sym (send_head-eq-sends fifo s s.blocked (deque k s).0 refl refl)) (
        sends-SameLimits s s
          (record s { q = (k.deque s.q).1; effects = s.effects ++ counted fifo s (held fifo s) })
          s.blocked (deque k s).0 (refl, refl) (refl, refl))

  pub recv_high_priority-SameLimits :
      (s : DropTail Q P) (p : P) → SameLimits s (recv_high_priority k s p)
  unfolding recv_high_priority
  recv_high_priority-SameLimits s p =
      let t = with_q (k.enque_head p s.q) s in
      let (l, i) = drop_over-SameLimits t in
      let (l', i') = send_head-SameLimits (drop_over k t) in (l' ∙ l, i' ∙ i)

  terminate_loop-SameLimits : (fuel : ℕ) (s : DropTail Q P) → SameLimits s (terminate_loop k fuel s)
  unfolding terminate_loop
  terminate_loop-SameLimits zero s = (refl, refl)
  terminate_loop-SameLimits (suc fuel) s =
      let (l, i) = deque-SameLimits s in
      elim (Option-cases (deque k s).0) [
        | inl e ↦ rw (terminate_loop, e) (l, i)
        | inr (x, e) ↦
            let s' = does (Effect.drop_why x drop_end_of_simulation) (deque k s).1 in
            let (l', i') = terminate_loop-SameLimits fuel s' in
            rw (terminate_loop, e) (l' ∙ l, i' ∙ i)
      ]

  pub terminate-SameLimits : (s : DropTail Q P) → SameLimits s (terminate k s)
  unfolding terminate
  terminate-SameLimits s = terminate_loop-SameLimits (suc (k.length_of s.q)) s
