-- ===== src/Queue/DropTail.antt =====
-- Ns2.35Files/drop-tail.h and drop-tail.cc, on the `PacketQueue` of ns-2. A configured limit is not
-- negative.
pub mod Enque
pub mod Shed
pub mod Shrink
use Prim.Native.String.{String}
use ant_aodv.Base.{
  ℕ, zero, suc, ◌+◌, ◌*◌, Bool, true, false, not, ◌&&◌, ◌||◌, ltb, leb, if◌then◌else◌, List, [],
  ◌∷◌, ◌++◌, Option, none, some,
}
use ant_aodv.Base.Text.{same_text}
use ant_aodv.Queue.{PacketQueue}

-- What a queue does to the rest of the simulator.
pub data Effect (P : Type 0) : Type 0 where
  -- `drop(p)`, or `drop(p, why)`
  drop : P → Effect P
  drop_why : P → String → Effect P
  -- `target_->recv(p, &qh_)`
  send : P → Effect P
  -- `Queue::updateStats(length)`
  update_stats : ℕ → Effect P
  -- a line printed
  print_stats : Bool → Effect P

-- The members of `DropTail`, and those of `Queue` that it reads; `effects` are oldest first.
pub record DropTail (Q P : Type 0) : Type 0 where
  pub q : Q
  pub qlim : ℕ
  pub drop_front : Bool
  pub summarystats : Bool
  pub qib : Bool
  pub mean_pktsize : ℕ
  pub blocked : Bool
  pub effects : List (Effect P)

module _ {Q P : Type 0} where
  abbrev pub does : Effect P → DropTail Q P → DropTail Q P
  does e s = record s { effects = s.effects ++ e ∷ [] }

  abbrev pub with_q : Q → DropTail Q P → DropTail Q P
  with_q q s = record s { q = q }

module _ {Q P : Type 0} where
  unfoldable pub print_summarystats : DropTail Q P → DropTail Q P
  print_summarystats s = does (Effect.print_stats s.qib) s

module _ {Q P : Type 0} (k : PacketQueue Q P) where
  unfoldable pub getlength : DropTail Q P → ℕ
  getlength s = k.length_of s.q

  -- `if (summarystats) Queue::updateStats(…)`
  unfoldable pub count_stats : DropTail Q P → DropTail Q P
  count_stats s =
      if s.summarystats
      then does (Effect.update_stats (if s.qib then k.byte_length s.q else k.length_of s.q)) s
      else s

  -- The queue would overflow with this packet.
  unfoldable pub is_full : (size : P → ℕ) → DropTail Q P → P → Bool
  is_full size s p =
      (not s.qib && leb s.qlim (k.length_of s.q + 1))
      || (s.qib && leb (s.qlim * s.mean_pktsize) (k.byte_length s.q + size p))

  -- The packet at the head leaves; `drop` of it, if there was one.
  unfoldable pub drop_head : DropTail Q P → DropTail Q P
  drop_head s =
      let (pp, q) = k.deque s.q in
      elim pp [ none ↦ with_q q s | some x ↦ does (Effect.drop x) (with_q q s) ]

  unfoldable pub enque : (size : P → ℕ) → DropTail Q P → P → DropTail Q P
  unfolding count_stats is_full drop_head
  enque size s p =
      let s' = count_stats s in
      if is_full size s p
      then if s.drop_front then drop_head (with_q (k.enque p s.q) s') else does (Effect.drop p) s'
      else with_q (k.enque p s.q) s'

  -- The queue holds more than it may.
  unfoldable pub is_over : DropTail Q P → Bool
  is_over s =
      (not s.qib && ltb s.qlim (k.length_of s.q))
      || (s.qib && ltb (s.qlim * s.mean_pktsize) (k.byte_length s.q))

  unfoldable pub drop_tail : DropTail Q P → DropTail Q P
  drop_tail s = elim (k.tail s.q) [
    | none ↦ s
    | some pp ↦ does (Effect.drop pp) (with_q (k.remove pp s.q) s)
  ]

  -- The loop of `shrink_queue`, on fuel.
  unfoldable pub shrink_loop : ℕ → DropTail Q P → DropTail Q P
  shrink_loop zero s = s
  shrink_loop (suc fuel) s = elim (is_over s) [
    | true ↦ shrink_loop fuel (if s.drop_front then drop_head s else drop_tail s)
    | false ↦ s
  ]

  -- A round takes one packet: as many rounds as packets are enough.
  unfoldable pub shrink_queue : DropTail Q P → DropTail Q P
  unfolding shrink_loop is_over drop_head drop_tail
  shrink_queue s = shrink_loop (k.length_of s.q) s

  unfoldable pub deque : DropTail Q P → Option P × DropTail Q P
  unfolding count_stats
  deque s = let (p, q) = k.deque s.q in (p, with_q q (count_stats s))

-- What a command returns; `parent` where it is the base class's to answer.
pub data Answer : Type 0 where
  tcl_ok tcl_error parent : Answer

module _ {Q P : Type 0} (k : PacketQueue Q P) (lookup : String → Option Q) where
  -- `packetqueue-attach`: a queue that Tcl does not find leaves a null pointer, `none`.
  unfoldable pub attach : DropTail Q P → String → Option (DropTail Q P) × Answer
  attach s name = elim (lookup name) [
    | none ↦ (none, Answer.tcl_error)
    | some q ↦ (some (with_q q s), Answer.tcl_ok)
  ]

  -- `argv` without the command's own name.
  unfoldable pub command : DropTail Q P → List String → Option (DropTail Q P) × Answer
  unfolding shrink_queue print_summarystats attach
  command s (arg ∷ []) =
      if same_text arg "printstats"
      then (some (print_summarystats s), Answer.tcl_ok)
      else if same_text arg "shrink-queue"
      then (some (shrink_queue k s), Answer.tcl_ok)
      else (some s, Answer.parent)
  command s (arg ∷ name ∷ []) =
      if same_text arg "packetqueue-attach" then attach s name else (some s, Answer.parent)
  command s args = (some s, Answer.parent)
