-- ===== src/Queue/PriQueue/Once.antt =====
-- The priority queue goes on holding distinct packets.
use ant_aodv.Base.{
  ℕ, ◌≤◌, sym, subst, inl, inr, Bool, Bool-cases, List, [], ◌∷◌, ◌++◌, length, arith, Among,
  Distinct,
}
use ant_aodv.Queue.{PacketQueue, IsFifo}
use ant_aodv.Queue.DropTail.{DropTail, Effect, enque}
use ant_aodv.Queue.DropTail.Enque.{held, Enqueued, enque_lem}
use ant_aodv.Queue.PriQueue.{recv_high_priority}
use ant_aodv.Queue.PriQueue.Head.{Cut, Sent, recv_high_priority_lem}
use ant_aodv.Queue.Lists.{Distinct-front, Distinct-snoc}
use ant_aodv.Queue.PriQueue.Filter.{others}

module _ {P : Type 0} where
  Among-others : (out : P → Bool) (x : P) (xs : List P) → Among x (others out xs) → Among x xs
  unfolding others
  Among-others out x [] m = m
  Among-others out x (y ∷ xs) m = ground (arith, Among-others out x xs)

  pub others-Distinct : (out : P → Bool) (xs : List P) → Distinct xs → Distinct (others out xs)
  unfolding others
  others-Distinct out [] u = tt
  others-Distinct out (x ∷ xs) u = elim (Bool-cases (out x)) [
    | inl t ↦ rw t (others-Distinct out xs u.1)
    | inr f ↦ rw f (λ m. u.0 (Among-others out x xs m), others-Distinct out xs u.1)
  ]

  pub length-others : (out : P → Bool) (xs : List P) → length (others out xs) ≤ length xs
  unfolding others
  length-others out [] = omega arith
  length-others out (x ∷ xs) = elim (Bool-cases (out x)) [
    | inl t ↦ rw t (omega (arith, length-others out xs))
    | inr f ↦ rw f (omega (arith, length-others out xs))
  ]

  Among-skip : (p x : P) (xs ys : List P) → Among x (xs ++ ys) → Among x (xs ++ p ∷ ys)
  Among-skip p x [] ys m = inr m
  Among-skip p x (y ∷ xs) ys m = elim m [ inl e ↦ inl e | inr n ↦ inr (Among-skip p x xs ys n) ]

  pub Distinct-skip : (p : P) (xs ys : List P) → Distinct (xs ++ p ∷ ys) → Distinct (xs ++ ys)
  Distinct-skip p [] ys u = u.1
  Distinct-skip p (x ∷ xs) ys u = (λ m. u.0 (Among-skip p x xs ys m), Distinct-skip p xs ys u.1)

module _ {Q P : Type 0} {same : Discrete P} {size : P → ℕ} {k : PacketQueue Q P}
    (fifo : IsFifo same size k) where
  Cut-Distinct :
      (qlim : ℕ) (xs ys : List P) (es : List (Effect P))
      → Cut fifo qlim xs ys es
      → Distinct xs
      → Distinct ys
  Cut-Distinct qlim xs ys es (Cut.fits lt) u = u
  Cut-Distinct qlim xs ys es (Cut.over x l e) u = Distinct-front ys (x ∷ []) (subst Distinct e u)

  pub recv_high_priority-Distinct :
      (s : DropTail Q P) (p : P)
      → Distinct (p ∷ held fifo s)
      → Distinct (held fifo (recv_high_priority k s p))
  recv_high_priority-Distinct s p u =
      let (ys, es, cut, out) = recv_high_priority_lem fifo s p u in
      let once = Cut-Distinct s.qlim (p ∷ held fifo s) ys es cut u in
      elim out [
        | Sent.waiting b h f ↦ subst Distinct (sym h) once
        | Sent.nothing b e h g f ↦ subst Distinct (sym h) tt
        | Sent.sent x b e g f ↦ (subst Distinct e once).1
      ]

  pub enque-Distinct :
      (s : DropTail Q P) (p : P)
      → Distinct (held fifo s)
      → ¬ Among p (held fifo s)
      → Distinct (held fifo (enque k size s p))
  enque-Distinct s p u out =
      let more = Distinct-snoc (held fifo s) p u out in
      elim (enque_lem fifo s p) [
        | Enqueued.kept l h f ↦ subst Distinct (sym h) more
        | Enqueued.refused l d h f ↦ subst Distinct (sym h) u
        | Enqueued.pushed x l d h f ↦ (subst Distinct h more).1
      ]
