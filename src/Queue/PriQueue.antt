-- ===== src/Queue/PriQueue.antt =====
-- Ns2.35Files/priqueue.h and priqueue.cc: the interface queue, in which routing packets go first.
pub mod Filter
pub mod Head
pub mod Limits
pub mod Once
pub mod Priority
pub mod Reach
pub mod Terminate
use Prim.Native.String.{String}
use ant_aodv.Base.{
  ℕ, zero, suc, ◌+◌, ◌-◌, ◌≡◌, ℤ, ℤ_discrete, ite, Bool, true, false, ◌||◌, ◌==◌, ltb, leb,
  if◌then◌else◌, List, [], ◌∷◌, ◌++◌, Option, none, some,
}
use ant_aodv.Base.Text.{same_text_nocase}
use ant_aodv.Packet.{Dir}
use ant_aodv.Packet.Types.{
  PacketT, pt_dsr, pt_message, pt_tora, pt_aodv, pt_aomdv, pt_mdart, pt_ant,
}
use ant_aodv.Queue.{PacketQueue}
use ant_aodv.Queue.DropTail.{DropTail, Effect, Answer, does, with_q, deque}
use ant_aodv.Queue.DropTail

-- `#define DROP_END_OF_SIMULATION "END"`
abbrev pub drop_end_of_simulation : String
drop_end_of_simulation = "END"

-- What the queue reads in the common header of a packet.
pub record Headers (P : Type 0) : Type 0 where
  pub ptype : P → PacketT
  pub direction : P → Dir
  pub next_hop : P → ℤ

-- The cases of the `switch` that lead to the head of the queue.
unfoldable pub goes_first : PacketT → Dir → Bool
goes_first ptype Dir.up =
    ptype == pt_dsr
    || ptype == pt_message
    || ptype == pt_tora
    || ptype == pt_aodv
    || ptype == pt_aomdv
    || ptype == pt_mdart
    || ptype == pt_ant
goes_first ptype _ =
    ptype == pt_dsr
    || ptype == pt_message
    || ptype == pt_tora
    || ptype == pt_aodv
    || ptype == pt_aomdv
    || ptype == pt_mdart

module _ {Q P : Type 0} (k : PacketQueue Q P) where
  -- `drop(q_->remove(q_->lookup(q_->length()-1)))`, if the queue has reached its limit.
  unfoldable pub drop_over : DropTail Q P → DropTail Q P
  drop_over s =
      if leb s.qlim (k.length_of s.q)
      then (elim (k.lookup (k.length_of s.q - 1) s.q) [
        | none ↦ s
        | some to_drop ↦ does (Effect.drop to_drop) (with_q (k.remove to_drop s.q) s)
      ])
      else s

  -- `if (!blocked_)`: the packet at the head is sent on.
  unfoldable pub send_head : DropTail Q P → DropTail Q P
  unfolding deque
  send_head s =
      if s.blocked
      then s
      else let (p, s') = deque k s in
        elim p [ none ↦ s' | some x ↦ does (Effect.send x) (record s' { blocked = true }) ]

  unfoldable pub recv_high_priority : DropTail Q P → P → DropTail Q P
  unfolding drop_over send_head
  recv_high_priority s p = send_head (drop_over (with_q (k.enque_head p s.q) s))

  -- `base_recv` is `Queue::recv`, of ns-2.
  unfoldable pub recv :
      (prefer_routing_protocols : Bool)
      → Headers P
      → (base_recv : DropTail Q P → P → DropTail Q P) → DropTail Q P
      → P
      → DropTail Q P
  unfolding recv_high_priority goes_first
  recv prefer h base_recv s p =
      if prefer
      then (if goes_first (h.ptype p) (h.direction p)
          then recv_high_priority s p
          else base_recv s p)
      else base_recv s p

  -- The loop of `filter(filter, data)`, from index `i`, on fuel; a null pointer at `i` cannot be.
  unfoldable pub filter_loop : (P → Bool) → ℕ → ℕ → Q → Q
  filter_loop keep zero i q = q
  filter_loop out (suc fuel) i q = elim (ltb i (k.length_of q)) [
    | false ↦ q
    | true ↦ elim (k.lookup i q) [
      | none ↦ q
      | some p ↦ elim (out p) [
        | true ↦ filter_loop out fuel i (k.remove p q)
        | false ↦ filter_loop out fuel (i + 1) q
      ]
    ]
  ]

  unfoldable pub filter : (P → Bool) → DropTail Q P → DropTail Q P
  unfolding filter_loop
  filter out s = with_q (filter_loop out (k.length_of s.q) 0 s.q) s

  -- The loop of `filter(id)`, from index `i`, on fuel: the first packet to the next hop `id`, and the
  -- packet `pp` in front of it.
  unfoldable pub find_hop :
      Headers P → ℤ → (fuel i : ℕ) → (pp : Option P) → Q → Option (P × Option P)
  find_hop h id zero i pp q = none
  find_hop h id (suc fuel) i pp q = elim (k.lookup i q) [
    | none ↦ none
    | some p ↦
        let rest = find_hop h id fuel (i + 1) (some p) q in
        ite (ℤ_discrete (h.next_hop p) id) (some (p, pp)) rest
  ]

  unfoldable pub take_out : P → Option P → Q → Q
  take_out p none q = k.remove p q
  take_out p (some pp) q = k.remove_after p pp q

  unfoldable pub filter_id : Headers P → ℤ → DropTail Q P → Option P × DropTail Q P
  unfolding find_hop take_out
  filter_id h id s = elim (find_hop h id (suc (k.length_of s.q)) 0 none s.q) [
    | none ↦ (none, s)
    | some (p, pp) ↦ (some p, with_q (take_out p pp s.q) s)
  ]

  -- The loop of `Terminate`, on fuel.
  unfoldable pub terminate_loop : ℕ → DropTail Q P → DropTail Q P
  unfolding deque
  terminate_loop zero s = s
  terminate_loop (suc fuel) s =
      let (p, s') = deque k s in
      elim p [
        | none ↦ s'
        | some x ↦ terminate_loop fuel (does (Effect.drop_why x drop_end_of_simulation) s')
      ]

  -- A round takes one packet, and the last round finds none.
  unfoldable pub terminate : DropTail Q P → DropTail Q P
  unfolding terminate_loop
  terminate s = terminate_loop (suc (k.length_of s.q)) s

  -- `argv` without the command's own name; a queue of null is left to the base class.
  unfoldable pub command :
      (lookup : String → Option Q) → DropTail Q P → List String → Option (DropTail Q P) × Answer
  unfolding terminate DropTail.command
  command lookup s (arg ∷ []) =
      DropTail.command k lookup (if same_text_nocase arg "reset" then terminate s else s) (arg ∷ [])
  command lookup s args = DropTail.command k lookup s args
