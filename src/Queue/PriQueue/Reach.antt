-- ===== src/Queue/PriQueue/Reach.antt =====
-- Runs of a priority queue: packets that come in on either way and packets that leave.

use ant_aodv.Base.{
  ◌<◌, ◌≡◌, sym, ap, subst, ◌∙◌, Bool, false, ℤ, ◌∷◌, ◌++◌, Option, length, length-append, arith, ℕ,
  Among, Distinct,
}
use ant_aodv.Queue.{PacketQueue, IsFifo}
use ant_aodv.Queue.DropTail.{DropTail, is_over, enque, deque, shrink_queue}
use ant_aodv.Queue.DropTail.Enque.{held, enque-bounded, deque_lem}
use ant_aodv.Queue.DropTail.Shrink.{shrink-stop}
use ant_aodv.Queue.PriQueue.{Headers, recv_high_priority, filter, filter_id, terminate}
use ant_aodv.Queue.PriQueue.Filter.{Taken, filter_lem, filter_id_lem}
use ant_aodv.Queue.PriQueue.Limits.{
  enque-SameLimits, deque-SameLimits, recv_high_priority-SameLimits, terminate-SameLimits,
}
use ant_aodv.Queue.PriQueue.Once.{
  enque-Distinct, recv_high_priority-Distinct, others-Distinct, length-others, Distinct-skip,
}
use ant_aodv.Queue.PriQueue.Priority.{recv_high_priority-bounded}
use ant_aodv.Queue.PriQueue.Terminate.{terminate_lem}
use ant_aodv.Queue.Lists.{Distinct-rest, length-rest_of}

module _ {Q P : Type 0} {same : Discrete P} {size : P → ℕ} {k : PacketQueue Q P}
    (fifo : IsFifo same size k) where
  -- One operation; a packet that comes in is not in the queue yet.
  pub data Step : DropTail Q P → DropTail Q P → Type 0 where
    enques : {s : DropTail Q P} (p : P) → ¬ Among p (held fifo s) → Step s (enque k size s p)
    routes :
        {s : DropTail Q P} (p : P) → ¬ Among p (held fifo s) → Step s (recv_high_priority k s p)
    deques : {s : DropTail Q P} → Step s (deque k s).1
    filters : {s : DropTail Q P} (out : P → Bool) → Step s (filter k out s)
    takes : {s : DropTail Q P} (h : Headers P) (id : ℤ) → Step s (filter_id k h id s).1
    shrinks : {s : DropTail Q P} → Step s (shrink_queue k s)
    terminates : {s : DropTail Q P} → Step s (terminate k s)

  pub data Steps : DropTail Q P → DropTail Q P → Type 0 where
    done : {s : DropTail Q P} → Steps s s
    more : {s t u : DropTail Q P} → Step s t → Steps t u → Steps s u

  -- A queue counted in packets that holds distinct packets, fewer than its limit.
  pub record IsBounded (s : DropTail Q P) : Type 0 where
    pub packets : s.qib ≡ false
    pub below : length (held fifo s) < s.qlim
    pub distinct : Distinct (held fifo s)

  Taken-IsBounded :
      {s s' : DropTail Q P} {h : Headers P} {id : ℤ} {o : Option P}
      → Taken fifo h id s o s'
      → IsBounded s
      → IsBounded s'
  Taken-IsBounded (Taken.absent a) b = b
  Taken-IsBounded {s} (Taken.first xs ys p q e a y v) b = record {
    packets = b.packets;
    below =
        let most : length (xs ++ ys) < s.qlim =
          omega (arith, b.below, ap length e, length-append xs ys, length-append xs (p ∷ ys)) in
        rw v most;
    distinct = subst Distinct (sym v) (Distinct-skip p xs ys (subst Distinct e b.distinct));
  }

  bounded-not-over : (s : DropTail Q P) → IsBounded s → is_over k s ≡ false
  unfolding is_over
  bounded-not-over s b = ground (arith, b.packets, b.below, fifo.length-view s.q)

  -- A queue below its limit has nothing to shed.
  shrink_queue-idle : (s : DropTail Q P) → IsBounded s → shrink_queue k s ≡ s
  unfolding shrink_queue
  shrink_queue-idle s b = shrink-stop fifo (k.length_of s.q) s (bounded-not-over s b)

  Step-IsBounded : {s s' : DropTail Q P} → Step s s' → IsBounded s → IsBounded s'
  Step-IsBounded {s} (enques p out) b =
      let (l, i) = enque-SameLimits fifo s p in
      record {
        packets = i ∙ b.packets;
        below = omega (arith, l, enque-bounded fifo s p b.packets b.below);
        distinct = enque-Distinct fifo s p b.distinct out;
      }
  Step-IsBounded {s} (routes p out) b =
      let (l, i) = recv_high_priority-SameLimits fifo s p in
      record {
        packets = i ∙ b.packets;
        below = omega (arith, l, recv_high_priority-bounded fifo s p (out, b.distinct) b.below);
        distinct = recv_high_priority-Distinct fifo s p (out, b.distinct);
      }
  Step-IsBounded {s} deques b =
      let (l, i) = deque-SameLimits fifo s in
      let (p, h, r) = deque_lem fifo s in
      record {
        packets = i ∙ b.packets;
        below = omega (arith, l, b.below, ap length h, length-rest_of (held fifo s));
        distinct = subst Distinct (sym h) (Distinct-rest (held fifo s) b.distinct);
      }
  Step-IsBounded {s} (filters out) b =
      let (h, f) = filter_lem fifo out s in
      record {
        packets = ap (λ t. t.qib) f ∙ b.packets;
        below =
            omega
              (arith, b.below, ap length h, ap (λ t. t.qlim) f, length-others out (held fifo s));
        distinct = subst Distinct (sym h) (others-Distinct out (held fifo s) b.distinct);
      }
  Step-IsBounded {s} (takes h id) b = Taken-IsBounded (filter_id_lem fifo h id s) b
  Step-IsBounded {s} shrinks b = subst IsBounded (sym (shrink_queue-idle s b)) b
  Step-IsBounded {s} terminates b =
      let (l, i) = terminate-SameLimits fifo s in
      let (h, _) = terminate_lem fifo s in
      record {
        packets = i ∙ b.packets;
        below = omega (arith, l, b.below, ap length h);
        distinct = subst Distinct (sym h) tt;
      }

  -- However packets come in by either way, each of them not in the queue yet, and however packets
  -- leave, are filtered or are dropped by `shrink_queue` and `Terminate`: a queue counted in packets
  -- that holds distinct packets, fewer than its limit, goes on so.
  pub Steps-IsBounded : {s s' : DropTail Q P} → Steps s s' → IsBounded s → IsBounded s'
  Steps-IsBounded done b = b
  Steps-IsBounded (more a as') b = Steps-IsBounded as' (Step-IsBounded a b)
