-- ===== src/Queue/PriQueue/Priority.antt =====
-- The bound that a routing packet keeps, and that it goes out at once.

use ant_aodv.Base.{
  ℕ, ◌≤◌, ◌<◌, ◌≡◌, refl, sym, ap, ◌∙◌, false, List, [], ◌∷◌, ◌++◌, length, arith, Distinct,
}
use ant_aodv.Queue.{PacketQueue, IsFifo}
use ant_aodv.Queue.DropTail.{DropTail, Effect}
use ant_aodv.Queue.DropTail.Enque.{held, counted}
use ant_aodv.Queue.PriQueue.{recv_high_priority}
use ant_aodv.Queue.PriQueue.Head.{Cut, Sent, recv_high_priority_lem}
use Cut.{fits, over}
use Sent.{waiting, nothing, sent}
use ant_aodv.Queue.Lists.{nil-ne, head_or, length-snoc}

module _ {Q P : Type 0} {same : Discrete P} {size : P → ℕ} {k : PacketQueue Q P}
    (fifo : IsFifo same size k) where
  Cut-length :
      (qlim : ℕ) (xs ys : List P) (es : List (Effect P))
      → Cut fifo qlim xs ys es
      → length xs ≤ qlim
      → 0 < qlim
      → length ys < qlim
  Cut-length qlim xs ys es (fits lt) h z = lt
  Cut-length qlim xs ys es (over x l e) h z = omega (arith, h, z, ap length e, length-snoc ys x)

  -- A queue of distinct packets below its limit is still below it after a routing packet came in that
  -- it did not hold.
  pub recv_high_priority-bounded :
      (s : DropTail Q P) (p : P)
      → Distinct (p ∷ held fifo s)
      → length (held fifo s) < s.qlim
      → length (held fifo (recv_high_priority k s p)) < s.qlim
  recv_high_priority-bounded s p u lt =
      let (ys, es, cut, out) = recv_high_priority_lem fifo s p u in
      let short = Cut-length s.qlim (p ∷ held fifo s) ys es cut lt (omega arith) in
      elim out [
        | waiting b h f ↦ rw h short
        | nothing b e h g f ↦ rw h (omega arith)
        | sent x b e g f ↦ omega (arith, short, ap length e)
      ]

  -- What is left starts with the packet that came in, if two packets may be held.
  Cut-head :
      (qlim : ℕ) (p : P) (xs ys : List P) (es : List (Effect P))
      → Cut fifo qlim (p ∷ xs) ys es
      → 1 < qlim
      → (zs : List P) × (ys ≡ p ∷ zs)
  unfolding head_or
  Cut-head qlim p xs ys es (fits lt) h = (xs, refl)
  Cut-head qlim p xs [] es (over x l e) h = absurd (omega (arith, h, l, ap length e))
  Cut-head qlim p xs (y ∷ ys) es (over x l e) h = (ys, ap (λ z. z ∷ ys) (sym (ap (head_or p) e)))

  -- On a queue of distinct packets that is not blocked and may hold two, a routing packet that it does
  -- not hold is sent at once, ahead of every packet that waits.
  pub recv_high_priority_first :
      (s : DropTail Q P) (p : P)
      → Distinct (p ∷ held fifo s)
      → s.blocked ≡ false
      → 1 < s.qlim
      → (before : List (Effect P)) × ((recv_high_priority k s p).effects
          ≡ before ++ Effect.send p ∷ [])
  unfolding head_or
  recv_high_priority_first s p u b lt =
      let (ys, es, cut, out) = recv_high_priority_lem fifo s p u in
      let (zs, e) = Cut-head s.qlim p (held fifo s) ys es cut lt in
      elim out [
        | waiting b' h f ↦ absurd (ground (arith, b, b'))
        | nothing b' e' h g f ↦ absurd (nil-ne (ap length (sym e ∙ e')))
        | sent x b' e' g f ↦ (
          (s.effects ++ es) ++ counted fifo s ys,
          f
              ∙ ap (λ y. ((s.effects ++ es) ++ counted fifo s ys) ++ Effect.send y ∷ [])
                  (ap (head_or x) (sym e' ∙ e)),
        )
      ]
