-- ===== src/Examples/Queues.antt =====
-- The queues' theorems at lists of packet numbers.
use ant_aodv.Base.{ℕ, ◌≡◌, Bool, true, false, ltb, refl, pos, List, [], ◌∷◌, map, arith}
use ant_aodv.Packet.{Dir}
use ant_aodv.Packet.Types.{pt_ant}
use ant_aodv.Queue.Plain.{plain, plain-IsFifo}
use ant_aodv.Queue.DropTail.{DropTail, Effect, enque, deque, shrink_queue}
use ant_aodv.Queue.DropTail.Enque.{Enqueued, enque_lem}
use ant_aodv.Queue.DropTail.Shed.{IsShed, IsNeeded, Exceeds, limits}
use ant_aodv.Queue.DropTail.Shrink.{shrink_queue_lem}
use ant_aodv.Queue.PriQueue.{Headers, recv_high_priority, filter, filter_id, terminate}
use ant_aodv.Queue.PriQueue.Filter.{others, Taken, filter_lem, filter_id_lem}
use ant_aodv.Queue.PriQueue.Head.{Cut, Sent, recv_high_priority_lem}
use ant_aodv.Queue.PriQueue.Reach.{Step, Steps, IsBounded, Steps-IsBounded}
use ant_aodv.Queue.PriQueue.Terminate.{purge, terminate_lem}

abbrev waiting : (qlim : ℕ) (front : Bool) → List ℕ → DropTail (List ℕ) ℕ
waiting qlim front q = record {
  q = q;
  qlim = qlim;
  drop_front = front;
  summarystats = true;
  qib = false;
  mean_pktsize = 1000;
  blocked = false;
  effects = [];
}

abbrev three : DropTail (List ℕ) ℕ
three = waiting 4 true (10 ∷ 20 ∷ 30 ∷ [])

enque_lem_example : Enqueued plain-IsFifo three 40 (enque plain (λ p. p) three 40)
unfolding plain plain-IsFifo
enque_lem_example = enque_lem plain-IsFifo three 40

abbrev long : DropTail (List ℕ) ℕ
long = waiting 2 false (10 ∷ 20 ∷ 30 ∷ 40 ∷ [])

shrink_queue_lem_example :
    (¬ Exceeds (λ p. p) (limits long) (shrink_queue plain long).q)
    × ((ds : List ℕ) × IsShed false (10 ∷ 20 ∷ 30 ∷ 40 ∷ []) ds (shrink_queue plain long).q
        × IsNeeded (λ p. p) false (limits long) ds (shrink_queue plain long).q
        × ((shrink_queue plain long).effects ≡ map (λ x. Effect.drop x) ds))
unfolding plain plain-IsFifo
shrink_queue_lem_example = shrink_queue_lem plain-IsFifo long (ground arith)

recv_high_priority_lem_example :
    (ys : List ℕ) × (es : List (Effect ℕ)) × Cut plain-IsFifo 4 (5 ∷ 10 ∷ 20 ∷ 30 ∷ []) ys es
    × Sent plain-IsFifo three ys es (recv_high_priority plain three 5)
unfolding plain plain-IsFifo
recv_high_priority_lem_example = recv_high_priority_lem plain-IsFifo three 5 (ground arith)

filter_lem_example :
    ((filter plain (λ p. ltb p 25) three).q ≡ others (λ p. ltb p 25) (10 ∷ 20 ∷ 30 ∷ []))
    × (filter plain (λ p. ltb p 25) three
        ≡ record three { q = (filter plain (λ p. ltb p 25) three).q })
unfolding plain plain-IsFifo
filter_lem_example = filter_lem plain-IsFifo (λ p. ltb p 25) three

-- The packet `p` goes to the node `p`.
abbrev to_node : Headers ℕ
to_node = record { ptype = λ p. pt_ant; direction = λ p. Dir.up; next_hop = λ p. pos p }

filter_id_lem_example :
    Taken plain-IsFifo to_node
      (pos 20)
      three
      (filter_id plain to_node (pos 20) three).0
      (filter_id plain to_node (pos 20) three).1
unfolding plain plain-IsFifo
filter_id_lem_example = filter_id_lem plain-IsFifo to_node (pos 20) three

terminate_lem_example :
    ((terminate plain three).q ≡ [])
    × ((terminate plain three).effects ≡ purge plain-IsFifo three (10 ∷ 20 ∷ 30 ∷ []))
unfolding plain plain-IsFifo
terminate_lem_example = terminate_lem plain-IsFifo three

-- 40 comes in and pushes out 10, 20 leaves, 5 comes in at the head, and what goes below 35 is taken
-- out.
abbrev after_enque : DropTail (List ℕ) ℕ
after_enque = enque plain (λ p. p) three 40

abbrev after_deque : DropTail (List ℕ) ℕ
after_deque = (deque plain after_enque).1

abbrev at_end : DropTail (List ℕ) ℕ
at_end = filter plain (λ p. ltb p 35) (recv_high_priority plain after_deque 5)

run : Steps plain-IsFifo three at_end
unfolding plain plain-IsFifo enque deque
run = Steps.more (Step.enques 40 (ground arith)) (
    Steps.more Step.deques (
      Steps.more (Step.routes 5 (ground arith))
        (Steps.more (Step.filters (λ p. ltb p 35)) Steps.done)))

Steps-IsBounded_example : IsBounded plain-IsFifo at_end
unfolding plain plain-IsFifo
Steps-IsBounded_example =
    Steps-IsBounded plain-IsFifo run
      (record { packets = refl; below = omega arith; distinct = ground arith })
