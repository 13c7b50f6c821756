-- ===== src/Queue/DropTail/Enque.antt =====
-- What `DropTail::enque` and `deque` do to the packets of the queue.

use ant_aodv.Base.{
  ℕ, ◌+◌, ◌*◌, ◌<◌, ◌≡◌, refl, sym, ap, ◌∙◌, inl, inr, Bool, true, false, ◌||◌, leb, if◌then◌else◌,
  List, [], ◌∷◌, ◌++◌, some, length, arith, Bool-cases,
}
use ant_aodv.Queue.{PacketQueue, IsFifo, head_of, rest_of, bytes}
use ant_aodv.Queue.DropTail.{
  DropTail, Effect, does, with_q, count_stats, is_full, drop_head, enque, deque,
}
use ant_aodv.Queue.Lists.{append_nil, head-append, length-snoc}

or_false : (b : Bool) → b || false ≡ b
or_false true = refl
or_false false = refl

module _ {Q P : Type 0} {same : Discrete P} {size : P → ℕ} {k : PacketQueue Q P}
    (fifo : IsFifo same size k) where
  -- The statistics recorded when the queue holds `xs`.
  unfoldable pub counted : DropTail Q P → List P → List (Effect P)
  counted s xs =
      if s.summarystats
      then Effect.update_stats (if s.qib then bytes size xs else length xs) ∷ []
      else []

  pub count_stats_lem :
      (s : DropTail Q P)
      → count_stats k s ≡ record s { effects = s.effects ++ counted s (fifo.view s.q) }
  unfolding count_stats counted
  count_stats_lem s = elim (Bool-cases s.summarystats) [
    | inl e ↦ rw (e, fifo.length-view s.q, fifo.bytes-view s.q)
    | inr e ↦ rw (e, append_nil s.effects)
  ]

  -- The queue `xs` would reach its limit with `p`.
  unfoldable pub is_limit : DropTail Q P → List P → P → Bool
  is_limit s xs p =
      if s.qib
      then leb (s.qlim * s.mean_pktsize) (bytes size xs + size p)
      else leb s.qlim (length xs + 1)

  is_full_lem : (s : DropTail Q P) (p : P) → is_full k size s p ≡ is_limit s (fifo.view s.q) p
  unfolding is_full is_limit
  is_full_lem s p = elim (Bool-cases s.qib) [
    | inl e ↦ rw (e, fifo.bytes-view s.q)
    | inr e ↦ rw (e, fifo.length-view s.q, or_false)
  ]

  -- The packets that `s` holds.
  abbrev pub held : DropTail Q P → List P
  held s = fifo.view s.q

  -- What `enque` of `p` makes of `s`: with room the packet is the last one; else the packet, or the
  -- one at the head, is dropped.
  pub data Enqueued (s : DropTail Q P) (p : P) (s' : DropTail Q P) : Type 0 where
    kept :
        is_limit s (held s) p ≡ false
        → held s' ≡ held s ++ p ∷ []
        → s'.effects ≡ s.effects ++ counted s (held s)
        → Enqueued s p s'
    refused :
        is_limit s (held s) p ≡ true
        → s.drop_front ≡ false
        → held s' ≡ held s
        → s'.effects ≡ (s.effects ++ counted s (held s)) ++ Effect.drop p ∷ []
        → Enqueued s p s'
    pushed :
        (x : P)
        → is_limit s (held s) p ≡ true
        → s.drop_front ≡ true
        → held s ++ p ∷ [] ≡ x ∷ held s'
        → s'.effects ≡ (s.effects ++ counted s (held s)) ++ Effect.drop x ∷ []
        → Enqueued s p s'

  pub drop_head_lem :
      (s : DropTail Q P) (x : P) (xs : List P)
      → held s ≡ x ∷ xs
      → (held (drop_head k s) ≡ xs) × ((drop_head k s).effects ≡ s.effects ++ Effect.drop x ∷ [])
  unfolding drop_head
  drop_head_lem s x xs e =
      let front : (k.deque s.q).0 ≡ some x = fifo.deque-packet s.q ∙ ap head_of e in
      rw (drop_head, front) (fifo.view-deque s.q ∙ ap rest_of e, refl)

  -- `enque`, by whether the queue is at its limit and by `drop_front_`.
  unfoldable pub outcome : DropTail Q P → P → Bool → Bool → DropTail Q P
  outcome s p limit front =
      if limit
      then if front
        then drop_head k (with_q (k.enque p s.q) (count_stats k s))
        else does (Effect.drop p) (count_stats k s)
      else with_q (k.enque p s.q) (count_stats k s)

  pub enque-eq-outcome :
      (s : DropTail Q P) (p : P) (limit front : Bool)
      → is_limit s (held s) p ≡ limit
      → s.drop_front ≡ front
      → enque k size s p ≡ outcome s p limit front
  unfolding outcome enque
  enque-eq-outcome s p limit front l f =
      ap (λ b. outcome s p b s.drop_front) (is_full_lem s p ∙ l) ∙ ap (outcome s p limit) f

  pushed_lem :
      (s : DropTail Q P) (p : P)
      → is_limit s (held s) p ≡ true
      → s.drop_front ≡ true
      → Enqueued s p (outcome s p true true)
  unfolding outcome
  pushed_lem s p l d =
      let (x, xs, e) = head-append (held s) p in
      let s1 = with_q (k.enque p s.q) (count_stats k s) in
      let (h, f) = drop_head_lem s1 x xs (fifo.view-enque p s.q ∙ e) in
      Enqueued.pushed x l d (e ∙ ap (λ l. x ∷ l) (sym h))
        (f ∙ ap (λ t. t.effects ++ Effect.drop x ∷ []) (count_stats_lem s))

  outcome_lem :
      (s : DropTail Q P) (p : P) (limit front : Bool)
      → is_limit s (held s) p ≡ limit
      → s.drop_front ≡ front
      → Enqueued s p (outcome s p limit front)
  unfolding outcome
  outcome_lem s p false front l d =
      Enqueued.kept l (fifo.view-enque p s.q) (ap (λ t. t.effects) (count_stats_lem s))
  outcome_lem s p true false l d =
      Enqueued.refused l d (ap (λ t. held t) (count_stats_lem s))
        (ap (λ t. t.effects ++ Effect.drop p ∷ []) (count_stats_lem s))
  outcome_lem s p true true l d = pushed_lem s p l d

  -- Every packet that comes in is kept, refused, or takes the place of the one at the head, as the
  -- limit and `drop_front_` say, and the statistics are recorded first.
  pub enque_lem : (s : DropTail Q P) (p : P) → Enqueued s p (enque k size s p)
  enque_lem s p =
      rw (enque-eq-outcome s p (is_limit s (held s) p) s.drop_front refl refl)
        (outcome_lem s p (is_limit s (held s) p) s.drop_front refl refl)

  room_lem :
      (s : DropTail Q P) (p : P)
      → s.qib ≡ false
      → is_limit s (held s) p ≡ false
      → leb s.qlim (length (held s) + 1) ≡ false
  unfolding is_limit
  room_lem s p e room =
      ap
        (λ b.
          if b
          then leb (s.qlim * s.mean_pktsize) (bytes size (held s) + size p)
          else leb s.qlim (length (held s) + 1))
        (sym e)
      ∙ room

  -- Counted in packets, a queue below its limit stays below it.
  pub enque-bounded :
      (s : DropTail Q P) (p : P)
      → s.qib ≡ false
      → length (held s) < s.qlim
      → length (held (enque k size s p)) < s.qlim
  unfolding is_limit
  enque-bounded s p e lt = elim (enque_lem s p) [
    | Enqueued.kept room h f ↦
        grind (arith, lt, length-snoc (held s) p, ap length h, room_lem s p e room)
    | Enqueued.refused l d h f ↦ rw h lt
    | Enqueued.pushed x l d h f ↦ omega (arith, lt, length-snoc (held s) p, ap length h)
  ]

  -- `deque` records the statistics and takes the packet at the head, null when there is none; the
  -- others stay, in their order.
  pub deque_lem :
      (s : DropTail Q P)
      → ((deque k s).0 ≡ head_of (held s))
        × (held (deque k s).1 ≡ rest_of (held s))
        × ((deque k s).1
            ≡ record s { q = (k.deque s.q).1; effects = s.effects ++ counted s (held s) })
  unfolding deque
  deque_lem s =
      (fifo.deque-packet s.q, fifo.view-deque s.q, ap (with_q (k.deque s.q).1) (count_stats_lem s))
