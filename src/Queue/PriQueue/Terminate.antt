-- ===== src/Queue/PriQueue/Terminate.antt =====
-- What `PriQueue::Terminate` does at the end of the simulation.

use ant_aodv.Base.{ℕ, zero, suc, ◌<◌, ◌≡◌, refl, ap, ◌∙◌, List, [], ◌∷◌, ◌++◌, length, arith}
use ant_aodv.Queue.{PacketQueue, IsFifo, head_of, rest_of}
use ant_aodv.Queue.DropTail.{DropTail, Effect, does}
use ant_aodv.Queue.DropTail.Enque.{held, counted, deque_lem}
use ant_aodv.Queue.PriQueue.{terminate_loop, terminate, drop_end_of_simulation}
use ant_aodv.Queue.Lists.{append_assoc}

module _ {Q P : Type 0} {same : Discrete P} {size : P → ℕ} {k : PacketQueue Q P}
    (fifo : IsFifo same size k) where
  -- What a purge of the packets `xs` records and drops.
  unfoldable pub purge : DropTail Q P → List P → List (Effect P)
  purge s [] = counted fifo s []
  purge s (x ∷ xs) =
      counted fifo s (x ∷ xs) ++ Effect.drop_why x drop_end_of_simulation ∷ purge s xs

  purge_same :
      (s : DropTail Q P) (q : Q) (es : List (Effect P)) (xs : List P)
      → purge (record s { q = q; effects = es }) xs ≡ purge s xs
  unfolding purge counted
  purge_same s q es [] = refl
  purge_same s q es (x ∷ xs) =
      ap (λ l. counted fifo s (x ∷ xs) ++ Effect.drop_why x drop_end_of_simulation ∷ l)
        (purge_same s q es xs)

  terminate-end :
      (fuel : ℕ) (s : DropTail Q P)
      → held fifo s ≡ []
      → (held fifo (terminate_loop k (suc fuel) s) ≡ [])
        × ((terminate_loop k (suc fuel) s).effects ≡ s.effects ++ counted fifo s [])
  unfolding terminate_loop
  terminate-end fuel s e =
      let (p, h, r) = deque_lem fifo s in
      rw (terminate_loop, p ∙ ap head_of e)
        (h ∙ ap rest_of e, ap (λ t. t.effects) r ∙ ap (λ l. s.effects ++ counted fifo s l) e)

  terminate-next :
      (fuel : ℕ) (s : DropTail Q P) (x : P) (xs : List P)
      → held fifo s ≡ x ∷ xs
      → terminate_loop k (suc fuel) s
        ≡ terminate_loop k fuel (record s {
          q = (k.deque s.q).1;
          effects =
              (s.effects ++ counted fifo s (x ∷ xs))
              ++ Effect.drop_why x drop_end_of_simulation ∷ [];
        })
  unfolding terminate_loop
  terminate-next fuel s x xs e =
      let (p, h, r) = deque_lem fifo s in
      let why = Effect.drop_why x drop_end_of_simulation in
      let left =
        λ (l : List P). record s { q = (k.deque s.q).1; effects = s.effects ++ counted fifo s l } in
      rw (terminate_loop, p ∙ ap head_of e)
        (ap (λ t. terminate_loop k fuel (does why t)) (r ∙ ap left e))

  terminate_loop_lem :
      (fuel : ℕ) (s : DropTail Q P) (xs : List P)
      → held fifo s ≡ xs
      → length xs < fuel
      → (held fifo (terminate_loop k fuel s) ≡ [])
        × ((terminate_loop k fuel s).effects ≡ s.effects ++ purge s xs)
  unfolding purge
  terminate_loop_lem zero s xs e lt = absurd (omega arith)
  terminate_loop_lem (suc fuel) s [] e lt = terminate-end fuel s e
  terminate_loop_lem (suc fuel) s (x ∷ xs) e lt =
      let why = Effect.drop_why x drop_end_of_simulation in
      let c = counted fifo s (x ∷ xs) in
      let es = (s.effects ++ c) ++ why ∷ [] in
      let s' = record s { q = (k.deque s.q).1; effects = es } in
      let (h, f) =
        terminate_loop_lem fuel s' xs (fifo.view-deque s.q ∙ ap rest_of e) (omega arith) in
      rw (terminate-next fuel s x xs e) (
        h,
        f
            ∙ ap (λ l. es ++ l) (purge_same s (k.deque s.q).1 es xs)
            ∙ append_assoc (s.effects ++ c) (why ∷ []) (purge s xs)
            ∙ append_assoc s.effects c (why ∷ purge s xs),
      )

  -- `Terminate` ends with an empty queue: every packet was dropped with the reason "END", in the order
  -- of the queue, each after the statistics were recorded.
  pub terminate_lem :
      (s : DropTail Q P)
      → (held fifo (terminate k s) ≡ [])
        × ((terminate k s).effects ≡ s.effects ++ purge s (held fifo s))
  unfolding terminate
  terminate_lem s =
      terminate_loop_lem (suc (k.length_of s.q)) s (held fifo s) refl
        (omega (arith, fifo.length-view s.q))
