-- ===== src/Queue/PriQueue/Head.antt =====
-- What `PriQueue::recvHighPriority` does with a routing packet.

use ant_aodv.Base.{
  ℕ, ◌+◌, ◌-◌, ◌≤◌, ◌<◌, ◌≡◌, refl, sym, ap, subst, ◌∙◌, inl, inr, Bool, true, false, Bool-cases,
  List, [], ◌∷◌, ◌++◌, Option, none, some, length, arith, if◌then◌else◌, leb, get_elem?, Distinct,
}
use ant_aodv.Queue.{PacketQueue, IsFifo, head_of, rest_of, erase}
use ant_aodv.Queue.DropTail.{DropTail, Effect, does, with_q, deque}
use ant_aodv.Queue.DropTail.Enque.{held, counted, deque_lem}
use ant_aodv.Queue.PriQueue.{drop_over, send_head, recv_high_priority}
use ant_aodv.Queue.Lists.{
  nil-ne, append_nil, cons-cases, last-cases, get_elem?-append, length-snoc, erase-append,
  Distinct-last,
}

module _ {Q P : Type 0} {same : Discrete P} {size : P → ℕ} {k : PacketQueue Q P}
    (fifo : IsFifo same size k) where
  -- What is left of `xs`, and what was dropped of it, when its last packet goes if it is at the limit.
  pub data Cut (qlim : ℕ) (xs : List P) : List P → List (Effect P) → Type 0 where
    fits : length xs < qlim → Cut qlim xs xs []
    over :
        {ys : List P} (x : P)
        → qlim ≤ length xs
        → xs ≡ ys ++ x ∷ []
        → Cut qlim xs ys (Effect.drop x ∷ [])

  drop_over_lem :
      (s : DropTail Q P)
      → Distinct (held fifo s)
      → ¬ (held fifo s ≡ [])
      → (q : Q) × (es : List (Effect P)) × Cut s.qlim (held fifo s) (fifo.view q) es
        × (drop_over k s ≡ record s { q = q; effects = s.effects ++ es })
  unfolding drop_over
  drop_over_lem s u n = elim (Bool-cases (leb s.qlim (k.length_of s.q))) [
    | inr f ↦ (
      s.q,
      [],
      fits (ground (arith, f, fifo.length-view s.q)),
      rw (drop_over, f, append_nil s.effects) refl,
    )
    | inl f ↦ elim (last-cases (held fifo s)) [
      | inl e ↦ absurd (n e)
      | inr (ys, x, e) ↦
          let size_of : k.length_of s.q ≡ length ys + 1 =
            fifo.length-view s.q ∙ ap length e ∙ length-snoc ys x in
          let last : k.length_of s.q - 1 ≡ length ys = omega (arith, size_of) in
          let at : k.lookup (k.length_of s.q - 1) s.q ≡ some x =
            fifo.lookup-view (k.length_of s.q - 1) s.q
            ∙ ap (λ l. get_elem? l (k.length_of s.q - 1)) e
            ∙ ap (get_elem? (ys ++ x ∷ [])) last
            ∙ get_elem?-append ys x [] in
          let left : fifo.view (k.remove x s.q) ≡ ys =
            fifo.view-remove x s.q
            ∙ ap (erase same x) e
            ∙ erase-append same x ys [] (Distinct-last ys x (subst Distinct e u))
            ∙ append_nil ys in
          (
            k.remove x s.q,
            Effect.drop x ∷ [],
            subst (λ l. Cut s.qlim (held fifo s) l (Effect.drop x ∷ [])) (sym left)
                (over x (ground (arith, f, fifo.length-view s.q)) e),
            rw (drop_over, f, at) refl,
          )
    ]
  ]

  -- What becomes of the queue `ys`: a blocked queue waits; else the packet at the head is sent.
  pub data Sent (s : DropTail Q P) (ys : List P) (es : List (Effect P)) (s' : DropTail Q P)
      : Type 0 where
    waiting : s.blocked ≡ true → held fifo s' ≡ ys → s'.effects ≡ s.effects ++ es → Sent s ys es s'
    nothing :
        s.blocked ≡ false
        → ys ≡ []
        → held fifo s' ≡ []
        → s'.blocked ≡ false
        → s'.effects ≡ (s.effects ++ es) ++ counted fifo s []
        → Sent s ys es s'
    sent :
        (x : P)
        → s.blocked ≡ false
        → ys ≡ x ∷ held fifo s'
        → s'.blocked ≡ true
        → s'.effects ≡ ((s.effects ++ es) ++ counted fifo s ys) ++ Effect.send x ∷ []
        → Sent s ys es s'

  -- `send_head`, by whether the queue is blocked and by what leaves it.
  abbrev pub sends : Bool → Option P → (t u : DropTail Q P) → DropTail Q P
  sends blocked p t u =
      if blocked
      then t
      else elim p [ none ↦ u | some x ↦ does (Effect.send x) (record u { blocked = true }) ]

  pub send_head-eq-sends :
      (t : DropTail Q P) (b : Bool) (p : Option P)
      → t.blocked ≡ b
      → (deque k t).0 ≡ p
      → send_head k t
        ≡ sends b p t
            (record t { q = (k.deque t.q).1; effects = t.effects ++ counted fifo t (held fifo t) })
  unfolding send_head
  send_head-eq-sends t b p e d =
      ap (λ c. sends c (deque k t).0 t (deque k t).1) e
      ∙ ap (λ c. sends b c t (deque k t).1) d
      ∙ (let (x, y, r) = deque_lem fifo t in ap (sends b p t) r)

  counted_same :
      (s : DropTail Q P) (q : Q) (es : List (Effect P)) (xs : List P)
      → counted fifo (record s { q = q; effects = es }) xs ≡ counted fifo s xs
  unfolding counted
  counted_same s q es xs = refl

  send_head_lem :
      (s : DropTail Q P) (q : Q) (es : List (Effect P))
      → Sent s (fifo.view q) es (send_head k (record s { q = q; effects = s.effects ++ es }))
  send_head_lem s q es =
      let t = record s { q = q; effects = s.effects ++ es } in
      let front : (deque k t).0 ≡ head_of (fifo.view q) = (deque_lem fifo t).0 in
      elim (Bool-cases s.blocked) [
        | inl b ↦ rw (send_head-eq-sends t true (deque k t).0 b refl) (waiting b refl refl)
        | inr b ↦ elim (cons-cases (fifo.view q)) [
          | inl e ↦ rw (send_head-eq-sends t false none b (front ∙ ap head_of e)) (
              nothing b e (fifo.view-deque q ∙ ap rest_of e) b (
                ap (λ l. (s.effects ++ es) ++ l)
                  (counted_same s q (s.effects ++ es) (fifo.view q) ∙ ap (counted fifo s) e)))
          | inr (x, xs, e) ↦ rw (send_head-eq-sends t false (some x) b (front ∙ ap head_of e)) (
              sent x b (e ∙ ap (λ l. x ∷ l) (sym (fifo.view-deque q ∙ ap rest_of e))) refl (
                ap (λ l. ((s.effects ++ es) ++ l) ++ Effect.send x ∷ [])
                  (counted_same s q (s.effects ++ es) (fifo.view q))))
        ]
      ]

  -- The same of any state that differs from `s` in its packets.
  send_head_over :
      (s : DropTail Q P) (q₀ q : Q) (es : List (Effect P)) (u : DropTail Q P)
      → u ≡ record (with_q q₀ s) { q = q; effects = s.effects ++ es }
      → Sent s (fifo.view q) es (send_head k u)
  send_head_over s q₀ q es u e = rw e (send_head_lem s q es)

  -- A routing packet enters at the head of a queue of distinct packets that does not hold it. At the
  -- limit the last packet is dropped. A blocked queue then waits; else the packet that is now at the
  -- head, if one is left, is sent, and the queue is blocked.
  pub recv_high_priority_lem :
      (s : DropTail Q P) (p : P)
      → Distinct (p ∷ held fifo s)
      → (ys : List P) × (es : List (Effect P)) × Cut s.qlim (p ∷ held fifo s) ys es
        × Sent s ys es (recv_high_priority k s p)
  unfolding recv_high_priority
  recv_high_priority_lem s p u =
      let t = with_q (k.enque_head p s.q) s in
      let enters : held fifo t ≡ p ∷ held fifo s = fifo.view-enque_head p s.q in
      let (q, es, cut, same_but) =
        drop_over_lem t (subst Distinct (sym enters) u)
          (λ e. nil-ne (ap length (sym enters ∙ e))) in
      (
        fifo.view q,
        es,
        subst (λ l. Cut s.qlim l (fifo.view q) es) enters cut,
        send_head_over s (k.enque_head p s.q) q es (drop_over k t) same_but,
      )
