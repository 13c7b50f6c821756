-- ===== src/Agent/Receive/Learning.antt =====
-- What a backward ant teaches the node that it passes: `update_table`.
use mathlib.Core.Option
use mathlib.Core.Path.{subst₂}
use ant_aodv.Base.{
  ◌≡◌, ◌≢◌, refl, sym, ap, subst, ◌∙◌, ◌⊎◌, inl, inr, ℤ, pos, ℤ_discrete, if_pos, if_neg, List, [],
  ◌∷◌, ◌++◌, Among, Distinct, arith,
}
use ant_aodv.Nodes.{Distinct-behind, Distinct-ahead}
use ant_aodv.Base.Result.{ok}
use ant_aodv.Double.{Double}
use ant_aodv.StdMap.{find, find-adjust}
use ant_aodv.Rtable.{AntnetRtable, update, update_row}
use ant_aodv.Ant.{Packet, Memory, nodes, path, IsValid}
use ant_aodv.Ant.Reads.{next_lem}
use ant_aodv.Agent.{Env, Sim, with_rtable, get_num_neighbors}
use ant_aodv.Agent.Receive.{update_dests, update_table}

module _ {W : Type 0} ⦃d : Double W⦄ (r : W) (next : ℤ) where
  find-update_hit :
      (t : AntnetRtable W) (dest j : ℤ)
      → j ≡ dest
      → find j (update r t dest next).rt ≡ Option.map (update_row r next) (find j t.rt)
  unfolding update
  find-update_hit t dest j p = rw (find-adjust, if_pos _ p)

  find-update_miss :
      (t : AntnetRtable W) (dest j : ℤ) → j ≢ dest → find j (update r t dest next).rt ≡ find j t.rt
  unfolding update
  find-update_miss t dest j n = rw (find-adjust, if_neg _ n)

  -- The rows of the listed destinations are updated once, and the others stay.
  abbrev pub IsLearned : List ℤ → (t t' : AntnetRtable W) → ℤ → Type 0
  IsLearned dests t t' j =
      Among j dests × (find j t'.rt ≡ Option.map (update_row r next) (find j t.rt))
      ⊎ (¬ Among j dests) × (find j t'.rt ≡ find j t.rt)

  update_dests_lem :
      (m : List (Memory W)) (t : AntnetRtable W) (j : ℤ)
      → Distinct (nodes m)
      → IsLearned (nodes m) t (update_dests r next m t) j
  unfolding update_dests
  update_dests_lem [] t j u = inr (λ x. x, refl)
  update_dests_lem (e ∷ m) t j u =
      let t' = update r t e.node_addr next in
      let ih = update_dests_lem m t' j u.1 in
      elim (ℤ_discrete j e.node_addr) [
        | yes p ↦ elim ih [
          | inl (a, _) ↦ absurd (u.0 (subst (λ z. Among z (nodes m)) p a))
          | inr (_, q) ↦ inl (inl (sym p), q ∙ find-update_hit t e.node_addr j p)
        ]
        | no n ↦
            let same = find-update_miss t e.node_addr j n in
            elim ih [
              | inl (a, q) ↦ inl (inr a, q ∙ ap (Option.map (update_row r next)) same)
              | inr (out, q) ↦ inr (elim [ inl p ↦ n (sym p) | inr a ↦ out a ], q ∙ same)
            ]
      ]

module _ {W : Type 0} ⦃d : Double W⦄ where
  -- A backward ant with a valid memory whose path leads through this node to `next` and on, with no node twice, makes
  -- `update_table` count this node's neighbours and reinforce the link to `next` in the rows of
  -- `next` and of all nodes behind it, once each; every other row stays, and nothing is sent.
  pub update_table_lem :
      (env : Env W) (s : Sim W) (p : Packet W) (before : List ℤ) (next : ℤ) (behind : List ℤ)
      (j : ℤ)
      → IsValid p.ant
      → path p.ant ≡ before ++ s.agent.addr ∷ next ∷ behind
      → Distinct (path p.ant)
      → (t : AntnetRtable W) × (update_table env s p
          ≡ ok (
              with_rtable t (record s {
                globals = record (s.globals) { n = pos (get_num_neighbors env s.agent.addr) };
              })))
        × IsLearned s.globals.r next (next ∷ behind) s.agent.rtable t j
  unfolding update_table
  update_table_lem env s p before next behind j v h u =
      let here = s.agent.addr in
      let u' : Distinct (before ++ here ∷ next ∷ behind) = subst Distinct h u in
      let (e, es, found, reads, a, visited, q) =
        next_lem before here next behind p.ant.pkt_memory p.ant.pkt_mem_size h
          (omega (arith, v.array, v.used)) (Distinct-ahead here before (next ∷ behind) u') in
      let once : Distinct (nodes es) =
        subst Distinct (sym q) (Distinct-behind here before (next ∷ behind) u').1 in
      let learned = update_dests_lem s.globals.r e.node_addr es s.agent.rtable j once in
      (
        update_dests s.globals.r e.node_addr es s.agent.rtable,
        rw (found, reads, visited),
        subst₂
            (λ a dests.
              IsLearned s.globals.r a dests s.agent.rtable
                (update_dests s.globals.r e.node_addr es s.agent.rtable) j)
            a q learned,
      )
