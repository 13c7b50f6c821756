-- ===== src/Queue/DropTail/Shrink.antt =====
-- What `DropTail::shrink_queue` leaves of a queue whose limit has changed.

use ant_aodv.Base.{
  ℕ, zero, suc, ◌*◌, ◌≤◌, ◌≡◌, ◌≢◌, refl, sym, ap, subst, ◌∙◌, inl, inr, Bool, true, false, not,
  ◌&&◌, ◌||◌, ltb, if◌then◌else◌, List, [], ◌∷◌, ◌++◌, map, some, length, arith, Bool-cases,
  Option-cases, Distinct,
}
use ant_aodv.Queue.{PacketQueue, IsFifo, bytes}
use ant_aodv.Queue.DropTail.{
  DropTail, Effect, is_over, drop_head, drop_tail, shrink_loop, shrink_queue,
}
use ant_aodv.Queue.DropTail.Enque.{held, drop_head_lem}
use ant_aodv.Queue.DropTail.Shed.{
  backwards, IsShed, IsShed-more, limits, Exceeds, IsNeeded, IsNeeded-first,
}
use ant_aodv.Queue.Lists.{
  append_nil, append_assoc, last-cases, cons-cases, last?-append, length-snoc, erase-append,
  Distinct-last, Distinct-front,
}

not_below : (n : ℕ) → ltb n 0 ≡ false
not_below n = ground arith

neither : (b : Bool) → (not b && false) || (b && false) ≡ false
neither true = refl
neither false = refl

module _ {Q P : Type 0} {same : Discrete P} {size : P → ℕ} {k : PacketQueue Q P}
    (fifo : IsFifo same size k) where
  is_over_some : (s : DropTail Q P) → is_over k s ≡ true → held fifo s ≢ []
  unfolding is_over
  is_over_some s o e =
      let no_length : k.length_of s.q ≡ 0 = fifo.length-view s.q ∙ ap length e in
      let no_bytes : k.byte_length s.q ≡ 0 = fifo.bytes-view s.q ∙ ap (bytes size) e in
      let none_over : is_over k s ≡ false =
        rw (is_over, no_length, no_bytes, not_below s.qlim, not_below (s.qlim * s.mean_pktsize))
          (neither s.qib) in
      ground (arith, o, none_over)

  is_over-Exceeds :
      (b : Bool) (s : DropTail Q P)
      → s.qib ≡ b
      → is_over k s ≡ true
      → Exceeds size (b, s.qlim, s.mean_pktsize) (held fifo s)
  unfolding is_over Exceeds
  is_over-Exceeds true s e o = ground (arith, o, e, fifo.bytes-view s.q)
  is_over-Exceeds false s e o = ground (arith, o, e, fifo.length-view s.q)

  not_over-Exceeds :
      (b : Bool) (s : DropTail Q P)
      → s.qib ≡ b
      → is_over k s ≡ false
      → ¬ Exceeds size (b, s.qlim, s.mean_pktsize) (held fifo s)
  unfolding is_over Exceeds
  not_over-Exceeds true s e o = ground (arith, o, e, fifo.bytes-view s.q)
  not_over-Exceeds false s e o = ground (arith, o, e, fifo.length-view s.q)

  -- `x` was dropped, from the head or from the tail.
  Dropped : Bool → (s s' : DropTail Q P) → Type 0
  unfolding IsShed backwards
  Dropped front s s' =
      (x : P) × IsShed front (held fifo s) (x ∷ []) (held fifo s')
      × (s'.effects ≡ s.effects ++ Effect.drop x ∷ [])

  drop_tail_lem :
      (s : DropTail Q P)
      → Distinct (held fifo s)
      → held fifo s ≢ []
      → Dropped false s (drop_tail k s)
  unfolding Dropped IsShed backwards drop_tail
  drop_tail_lem s u n = elim (last-cases (held fifo s)) [
    | inl e ↦ absurd (n e)
    | inr (xs, x, e) ↦
        let last : k.tail s.q ≡ some x = fifo.tail-view s.q ∙ rw e (last?-append xs x) in
        let left : fifo.view (k.remove x s.q) ≡ xs =
          fifo.view-remove x s.q
          ∙ rw e (erase-append same x xs [] (Distinct-last xs x (subst Distinct e u)))
          ∙ append_nil xs in
        rw (drop_tail, last) (x, e ∙ ap (λ l. l ++ x ∷ []) (sym left), refl)
  ]

  drop_head-Dropped : (s : DropTail Q P) → held fifo s ≢ [] → Dropped true s (drop_head k s)
  unfolding Dropped IsShed
  drop_head-Dropped s n = elim (cons-cases (held fifo s)) [
    | inl e ↦ absurd (n e)
    | inr (x, xs, e) ↦
        let (h, f) = drop_head_lem fifo s x xs e in (x, e ∙ ap (λ l. x ∷ l) (sym h), f)
  ]

  -- One round, with `drop_front_` taken as given.
  unfoldable round : Bool → DropTail Q P → DropTail Q P
  round front s = if front then drop_head k s else drop_tail k s

  round_lem :
      (front : Bool) (s : DropTail Q P)
      → Distinct (held fifo s)
      → is_over k s ≡ true
      → Dropped front s (round front s)
  unfolding round
  round_lem true s u o = drop_head-Dropped s (is_over_some s o)
  round_lem false s u o = drop_tail_lem s u (is_over_some s o)

  round_front : (front : Bool) (s : DropTail Q P) → (round front s).drop_front ≡ s.drop_front
  unfolding round drop_head drop_tail
  round_front true s = elim (Option-cases (k.deque s.q).0) [
    | inl e ↦ rw (drop_head, e) refl
    | inr (x, e) ↦ rw (drop_head, e) refl
  ]
  round_front false s = elim (Option-cases (k.tail s.q)) [
    | inl e ↦ rw (drop_tail, e) refl
    | inr (x, e) ↦ rw (drop_tail, e) refl
  ]

  Shed : Bool → (s s' : DropTail Q P) → Type 0
  Shed front s s' =
      (ds : List P) × IsShed front (held fifo s) ds (held fifo s')
      × IsNeeded size front (limits s) ds (held fifo s')
      × (s'.effects ≡ s.effects ++ map (λ x. Effect.drop x) ds)

  Shed-more :
      (front : Bool) (s s' t : DropTail Q P)
      → limits s' ≡ limits s
      → Exceeds size (limits s) (held fifo s)
      → Dropped front s s'
      → Shed front s' t
      → Shed front s t
  unfolding Shed Dropped
  Shed-more front s s' t lim over (x, h, f) (ds, h', need, f') = (
    x ∷ ds,
    IsShed-more front x (held fifo s) (held fifo s') ds (held fifo t) h h',
    IsNeeded-first size front (limits s) x (held fifo s) (held fifo s') ds (held fifo t) h over h'
        (subst (λ l. IsNeeded size front l ds (held fifo t)) lim need),
    f'
        ∙ ap (λ l. l ++ map (λ x. Effect.drop x) ds) f
        ∙ append_assoc s.effects (Effect.drop x ∷ []) (map (λ x. Effect.drop x) ds),
  )

  Dropped-Distinct :
      (front : Bool) (s s' : DropTail Q P)
      → Dropped front s s'
      → Distinct (held fifo s)
      → Distinct (held fifo s')
  unfolding Dropped IsShed backwards
  Dropped-Distinct true s s' (x, h, f) u = (subst Distinct h u).1
  Dropped-Distinct false s s' (x, h, f) u =
      Distinct-front (held fifo s') (x ∷ []) (subst Distinct h u)

  length-Dropped :
      (front : Bool) (s s' : DropTail Q P)
      → Dropped front s s'
      → length (held fifo s) ≡ suc (length (held fifo s'))
  unfolding Dropped IsShed backwards
  length-Dropped true s s' (x, h, f) = ap length h
  length-Dropped false s s' (x, h, f) = omega (arith, ap length h, length-snoc (held fifo s') x)

  round-limits : (front : Bool) (s : DropTail Q P) → limits (round front s) ≡ limits s
  unfolding round drop_head drop_tail
  round-limits true s = elim (Option-cases (k.deque s.q).0) [
    | inl e ↦ rw (drop_head, e) refl
    | inr (x, e) ↦ rw (drop_head, e) refl
  ]
  round-limits false s = elim (Option-cases (k.tail s.q)) [
    | inl e ↦ rw (drop_tail, e) refl
    | inr (x, e) ↦ rw (drop_tail, e) refl
  ]

  Ended : (front : Bool) (s s' : DropTail Q P) → Type 0
  Ended front s s' = (¬ Exceeds size (limits s) (held fifo s')) × Shed front s s'

  Shed-nothing : (front : Bool) (s : DropTail Q P) → Shed front s s
  unfolding Shed IsShed backwards
  Shed-nothing true s = ([], refl, inl refl, sym (append_nil s.effects))
  Shed-nothing false s = ([], sym (append_nil (held fifo s)), inl refl, sym (append_nil s.effects))

  pub shrink-stop : (fuel : ℕ) (s : DropTail Q P) → is_over k s ≡ false → shrink_loop k fuel s ≡ s
  unfolding shrink_loop
  shrink-stop zero s o = refl
  shrink-stop (suc fuel) s o = rw (shrink_loop, o) refl

  shrink-round :
      (fuel : ℕ) (front : Bool) (s : DropTail Q P)
      → s.drop_front ≡ front
      → is_over k s ≡ true
      → shrink_loop k (suc fuel) s ≡ shrink_loop k fuel (round front s)
  unfolding shrink_loop round
  shrink-round fuel front s d o = rw (shrink_loop, o) (ap (λ b. shrink_loop k fuel (round b s)) d)

  shrink_loop_lem :
      (fuel : ℕ) (front : Bool) (s : DropTail Q P)
      → s.drop_front ≡ front
      → Distinct (held fifo s)
      → length (held fifo s) ≤ fuel
      → Ended front s (shrink_loop k fuel s)
  unfolding Ended
  shrink_loop_lem zero front s d u h = elim (Bool-cases (is_over k s)) [
    | inr o ↦ rw (shrink-stop zero s o) (not_over-Exceeds s.qib s refl o, Shed-nothing front s)
    | inl o ↦ elim (cons-cases (held fifo s)) [
      | inl e ↦ absurd (is_over_some s o e)
      | inr (x, xs, e) ↦ absurd (omega (arith, h, ap length e))
    ]
  ]
  shrink_loop_lem (suc fuel) front s d u h = elim (Bool-cases (is_over k s)) [
    | inr o ↦
        rw (shrink-stop (suc fuel) s o) (not_over-Exceeds s.qib s refl o, Shed-nothing front s)
    | inl o ↦
        let first = round_lem front s u o in
        let s' = round front s in
        let lim = round-limits front s in
        let (within, rest) =
          shrink_loop_lem fuel front s' (round_front front s ∙ d)
            (Dropped-Distinct front s s' first u)
            (omega (arith, h, length-Dropped front s s' first)) in
        rw (shrink-round fuel front s d o) (
          subst (λ l. ¬ Exceeds size l (held fifo (shrink_loop k fuel s'))) lim within,
          Shed-more front s s' (shrink_loop k fuel s') lim (is_over-Exceeds s.qib s refl o) first
              rest,
        )
  ]

  -- When the packets of the queue are distinct, `shrink_queue` ends with a queue within its limit: no
  -- more packets than `qlim_`, or no more bytes than `qlim_` packets of mean size, as `qib_` says. It
  -- took packets from the head or from the tail, as `drop_front_` says, each of them was dropped, in
  -- that order, and the others stay in their order. No packet was dropped in vain: with the last one
  -- put back the queue would exceed its limit.
  pub shrink_queue_lem :
      (s : DropTail Q P)
      → Distinct (held fifo s)
      → (¬ Exceeds size (limits s) (held fifo (shrink_queue k s)))
        × ((ds : List P) × IsShed s.drop_front (held fifo s) ds (held fifo (shrink_queue k s))
            × IsNeeded size s.drop_front (limits s) ds (held fifo (shrink_queue k s))
            × ((shrink_queue k s).effects ≡ s.effects ++ map (λ x. Effect.drop x) ds))
  unfolding shrink_queue Ended Shed
  shrink_queue_lem s u =
      shrink_loop_lem (k.length_of s.q) s.drop_front s refl u (omega (arith, fifo.length-view s.q))
