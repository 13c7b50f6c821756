-- ===== src/Packet/Pool/Refine.antt =====
-- The runs of the pool refine the count of owners.
use ant_aodv.Base.{ℕ, ◌≡◌, sym, ap, ◌∙◌, subst, is_pos, true, false, List, some}
use ant_aodv.Base.Result.{ok, ok-injective}
use ant_aodv.Packet.Pool.{Packet, Pool, Outside, free_packet, copy}
use ant_aodv.Packet.Pool.Invariant.{IsPool, IsHeaders}
use ant_aodv.Packet.Pool.Alloc.{taken, untaken}
use ant_aodv.Packet.Pool.Free.{owners, owners-in_use, free_packet_lem, given}
use ant_aodv.Packet.Pool.Twin.{IsCopyable}
use ant_aodv.Packet.Pool.Copy.{copy_lem}
use ant_aodv.Packet.Pool.Reach.{Call, Move, Moves, Step, Steps, ownership}
use ant_aodv.Packet.Pool.Sized.{allocates-Refines, sized-Refines}
use ant_aodv.Packet.Pool.Works.{
  Refines, owners-none, works-Refines, refers-Refines, gets_data-Refines, drops_data-Refines,
}

module _ {H W S X O : Type 0} (e : Outside H W S X) where
  module _ (law : IsHeaders e.headers) (s : Pool H W S X O) (spare : List ℕ)
      (v : IsPool e.headers s spare) where
    copies-Refines :
        {q : ℕ} {s' : Pool H W S X O} (p : ℕ) (x : Packet H W S)
        → s.packets.cell p ≡ some x
        → x.fflag ≡ true
        → IsCopyable e.appdata x.userdata s.appdata
        → copy e p s ≡ ok (q, s')
        → Refines e s (Call.gets q) s'
    unfolding Refines
    copies-Refines p x at flag whole gives =
        let q = taken s.packets.fresh spare in
        let (m, gives', made, valid) = copy_lem e s spare p x law v at flag whole in
        subst (λ r. Refines e s (Call.gets r.0) r.1) (ok-injective (sym gives' ∙ gives))
          (
            untaken spare,
            valid,
            Move.acquire q (owners-none s.packets.cell q made.unused)
                (owners-in_use made.found made.in_use made.one_owner)
                (λ r n. ap owners (made.others r n)),
          )

    frees-Refines :
        {s' : Pool H W S X O} (p : ℕ) (x : Packet H W S)
        → s.packets.cell p ≡ some x
        → (owners (some x) ≡ 1 → is_pos x.uid ≡ false)
        → free_packet e p s ≡ ok s'
        → Refines e s (Call.frees p) s'
    unfolding Refines
    frees-Refines p x at off_queue gives =
        let (m, gives', freed, valid) = free_packet_lem e s spare p x law v at off_queue in
        subst (Refines e s (Call.frees p)) (ok-injective (sym gives' ∙ gives)) (
          given (ownership s p) p spare,
          valid,
          Move.release p freed.fewer (λ r n. ap owners (freed.others r n)),
        )

    -- Every operation of the pool keeps it well formed and is a move of the owners.
    Step-Refines : {s' : Pool H W S X O} {call : Call} → Step e s call s' → Refines e s call s'
    Step-Refines (Step.allocates gives) = allocates-Refines e law s spare v gives
    Step-Refines (Step.allocates_sized n gives) = sized-Refines e law s spare v n gives
    Step-Refines (Step.gets_data n p x at flag no_data gives) =
        gets_data-Refines e s spare v p x at flag n no_data gives
    Step-Refines (Step.drops_data p x at flag gives) =
        drops_data-Refines e s spare v p x at flag gives
    Step-Refines (Step.frees p x at off_queue gives) = frees-Refines p x at off_queue gives
    Step-Refines (Step.refers p x at flag gives) = refers-Refines e s spare v p x at flag gives
    Step-Refines (Step.copies p x at flag whole gives) = copies-Refines p x at flag whole gives
    Step-Refines (Step.works p x y at flag flag' same data_same options_same) =
        works-Refines e s spare v p x at flag y flag' same data_same options_same

  -- A run of the pool's operations from a well-formed pool ends in a well-formed pool, and the same
  -- calls are a run of the count of owners: `alloc`, with a size or without, and `copy` hand out a
  -- packet that had no owner, and it has one then; `refcopy` adds one to a packet that has one; `free`
  -- takes one, if there is one; the owners of all other packets stay as they are at each call. The run
  -- may also have `allocdata`, `setdata(NULL)` and writes of a client that leave alone the flag, the
  -- count, the user data and the options of a packet in use. `free` is called for packets that the pool
  -- has made, and not for the last owner while the packet waits in the event queue; all others but
  -- `alloc` for packets in use. The header bits are assumed to keep the laws of `IsHeaders`.
  pub Steps-refine :
      {s s' : Pool H W S X O} {calls : List Call} (spare : List ℕ)
      → IsHeaders e.headers
      → IsPool e.headers s spare
      → Steps e s calls s'
      → ((spare' : List ℕ) × IsPool e.headers s' spare') × Moves calls (ownership s) (ownership s')
  unfolding Refines
  Steps-refine spare law v Steps.stop = ((spare, v), Moves.stop)
  Steps-refine {s} spare law v (Steps.then_step step steps) =
      let (spare', v', move) = Step-Refines law s spare v step in
      let (valid, moves) = Steps-refine spare' law v' steps in (valid, Moves.then_move move moves)
