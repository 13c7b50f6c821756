-- ===== src/Agent/Start/Rows.antt =====
-- The rows that `initialize_rtable` gives a node.
use mathlib.Core.List.{append_assoc, append-nil}
use ant_aodv.Base.{
  ℕ, zero, suc, ◌+◌, ◌≤◌, ◌<◌, ◌≡◌, ◌≢◌, refl, sym, ap, ◌∙◌, ℤ, pos, ℤ_discrete, ℕ_discrete, ite,
  if_pos, if_neg, List, [], ◌∷◌, ◌++◌, length, subst, none, some, arith,
}
use ant_aodv.StdMap.{find}
use ant_aodv.Double.{Double, ◌⊘◌}
use ant_aodv.Rtable.{PheromoneMatrix, AntnetRtable, add_entry}
use ant_aodv.Rtable.Entries.{find-add_entry}
use ant_aodv.Agent.{Env, Sim, get_num_neighbors}
use ant_aodv.Agent.Start.{add_neighbors, add_destinations, initialize_rtable}

pub pos-ne : (m i : ℕ) → m ≢ i → pos m ≢ pos i
pos-ne m i n e = ground (arith, n, e)

module _ {W : Type 0} ⦃d : Double W⦄ where
  -- Each of the neighbours with the same value.
  unfoldable pub even : W → List ℤ → PheromoneMatrix W
  even phvalue [] = []
  even phvalue (nb ∷ nbs) = record { neighbor = nb; phvalue = phvalue } ∷ even phvalue nbs

  find-add_hit :
      (t : AntnetRtable W) (dest nb : ℤ) (phvalue : W) (row : PheromoneMatrix W)
      → find dest t.rt ≡ some row
      → find dest (add_entry t dest nb phvalue).rt ≡ some (row ++ even phvalue (nb ∷ []))
  unfolding even
  find-add_hit t dest nb phvalue row e =
      (find-add_entry t dest nb dest phvalue).0 ∙ rw (if_pos _ refl, e) refl

  find-add_first :
      (t : AntnetRtable W) (dest nb : ℤ) (phvalue : W)
      → find dest t.rt ≡ none
      → find dest (add_entry t dest nb phvalue).rt ≡ some (even phvalue (nb ∷ []))
  unfolding even
  find-add_first t dest nb phvalue e =
      (find-add_entry t dest nb dest phvalue).0 ∙ rw (if_pos _ refl, e) refl

  find-add_miss :
      (t : AntnetRtable W) (dest j nb : ℤ) (phvalue : W)
      → j ≢ dest
      → find j (add_entry t dest nb phvalue).rt ≡ find j t.rt
  find-add_miss t dest j nb phvalue n =
      (find-add_entry t dest nb j phvalue).0 ∙ rw (if_neg _ n) refl

  find-add_neighbors :
      (dest : ℤ) (phvalue : W) (nbs : List ℤ) (t : AntnetRtable W) (row : PheromoneMatrix W)
      → find dest t.rt ≡ some row
      → find dest (add_neighbors dest phvalue nbs t).rt ≡ some (row ++ even phvalue nbs)
  unfolding add_neighbors even
  find-add_neighbors dest phvalue [] t row e = e ∙ ap some (sym (append-nil row))
  find-add_neighbors dest phvalue (nb ∷ nbs) t row e =
      find-add_neighbors dest phvalue nbs (add_entry t dest nb phvalue)
        (row ++ even phvalue (nb ∷ [])) (find-add_hit t dest nb phvalue row e)
      ∙ ap some (append_assoc row (even phvalue (nb ∷ [])) (even phvalue nbs))

  find-add_all :
      (dest : ℤ) (phvalue : W) (nb : ℤ) (nbs : List ℤ) (t : AntnetRtable W)
      → find dest t.rt ≡ none
      → find dest (add_neighbors dest phvalue (nb ∷ nbs) t).rt ≡ some (even phvalue (nb ∷ nbs))
  unfolding add_neighbors even
  find-add_all dest phvalue nb nbs t e =
      find-add_neighbors dest phvalue nbs (add_entry t dest nb phvalue) (even phvalue (nb ∷ []))
        (find-add_first t dest nb phvalue e)

  find-add_other :
      (dest j : ℤ) (phvalue : W) (nbs : List ℤ) (t : AntnetRtable W)
      → j ≢ dest
      → find j (add_neighbors dest phvalue nbs t).rt ≡ find j t.rt
  unfolding add_neighbors
  find-add_other dest j phvalue [] t n = refl
  find-add_other dest j phvalue (nb ∷ nbs) t n =
      find-add_other dest j phvalue nbs (add_entry t dest nb phvalue) n
      ∙ find-add_miss t dest j nb phvalue n

  -- The table after the destination `i`.
  unfoldable pub one_more : (here : ℤ) → W → List ℤ → ℕ → AntnetRtable W → AntnetRtable W
  one_more here phvalue nbs i t =
      ite (ℤ_discrete here (pos i)) t (add_neighbors (pos i) phvalue nbs t)

  pub find-one_more :
      (here j : ℤ) (phvalue : W) (nbs : List ℤ) (i : ℕ) (t : AntnetRtable W)
      → j ≢ pos i
      → find j (one_more here phvalue nbs i t).rt ≡ find j t.rt
  unfolding one_more
  find-one_more here j phvalue nbs i t n = ground (arith, find-add_other (pos i) j phvalue nbs t n)

  -- Destinations before `i` are not touched.
  find-add_before :
      (here : ℤ) (phvalue : W) (nbs : List ℤ) (i n m : ℕ) (t : AntnetRtable W)
      → m < i
      → find (pos m) (add_destinations here phvalue nbs i n t).rt ≡ find (pos m) t.rt
  unfolding add_destinations one_more
  find-add_before here phvalue nbs i zero m t lt = refl
  find-add_before here phvalue nbs i (suc n) m t lt =
      find-add_before here phvalue nbs (suc i) n m (one_more here phvalue nbs i t) (omega arith)
      ∙ find-one_more here (pos m) phvalue nbs i t (pos-ne m i (omega arith))

  pub find-own :
      (here j : ℤ) (phvalue : W) (nbs : List ℤ) (i : ℕ) (t : AntnetRtable W)
      → j ≡ here
      → find j (one_more here phvalue nbs i t).rt ≡ find j t.rt
  unfolding one_more
  find-own here j phvalue nbs i t e = elim (ℤ_discrete here (pos i)) [
    | yes q ↦
        ap (λ u. find j u.rt)
          (if_pos (ℤ_discrete here (pos i)) q t (add_neighbors (pos i) phvalue nbs t))
    | no q ↦ find-one_more here j phvalue nbs i t (λ z. q (sym e ∙ z))
  ]

  pub find-new :
      (here : ℤ) (phvalue : W) (nb : ℤ) (nbs : List ℤ) (i : ℕ) (t : AntnetRtable W)
      → here ≢ pos i
      → find (pos i) t.rt ≡ none
      → find (pos i) (one_more here phvalue (nb ∷ nbs) i t).rt ≡ some (even phvalue (nb ∷ nbs))
  unfolding one_more
  find-new here phvalue nb nbs i t ne e =
      ap (λ u. find (pos i) u.rt)
        (if_neg (ℤ_discrete here (pos i)) ne t (add_neighbors (pos i) phvalue (nb ∷ nbs) t))
      ∙ find-add_all (pos i) phvalue nb nbs t e

  -- The node's own row is not touched.
  find-add_none :
      (here j : ℤ) (phvalue : W) (nbs : List ℤ) (i n : ℕ) (t : AntnetRtable W)
      → j ≡ here
      → find j (add_destinations here phvalue nbs i n t).rt ≡ find j t.rt
  unfolding add_destinations one_more
  find-add_none here j phvalue nbs i zero t e = refl
  find-add_none here j phvalue nbs i (suc n) t e =
      find-add_none here j phvalue nbs (suc i) n (one_more here phvalue nbs i t) e
      ∙ find-own here j phvalue nbs i t e

  find-add_destinations :
      (here : ℤ) (phvalue : W) (nb : ℤ) (nbs : List ℤ) (i n m : ℕ) (t : AntnetRtable W)
      → i ≤ m
      → m < i + n
      → here ≢ pos m
      → find (pos m) t.rt ≡ none
      → find (pos m) (add_destinations here phvalue (nb ∷ nbs) i n t).rt
        ≡ some (even phvalue (nb ∷ nbs))
  unfolding add_destinations one_more
  find-add_destinations here phvalue nb nbs i zero m t le lt ne e = absurd (omega arith)
  find-add_destinations here phvalue nb nbs i (suc n) m t le lt ne e = elim (ℕ_discrete m i) [
    | yes q ↦
        let t' = one_more here phvalue (nb ∷ nbs) i t in
        find-add_before here phvalue (nb ∷ nbs) (suc i) n m t' (omega arith)
        ∙ subst (λ z. find (pos z) t'.rt ≡ some (even phvalue (nb ∷ nbs))) (sym q)
            (find-new here phvalue nb nbs i t (λ z. ne (z ∙ ap pos (sym q)))
              (subst (λ z. find (pos z) t.rt ≡ none) q e))
    | no q ↦
        find-add_destinations here phvalue nb nbs (suc i) n m (one_more here phvalue (nb ∷ nbs) i t)
          (omega arith) (omega arith) ne
          (find-one_more here (pos m) phvalue (nb ∷ nbs) i t (pos-ne m i q) ∙ e)
  ]

  -- `initialize_rtable` gives every other destination below `num_nodes` that has no row yet the row of
  -- all the node's neighbours, in their order, with the same value 1 divided by their number.
  pub initialize_rtable_lem :
      (env : Env W) (s : Sim W) (nb : ℤ) (nbs : List ℤ) (m : ℕ)
      → env.neighbor_list s.agent.addr ≡ nb ∷ nbs
      → m < s.agent.num_nodes
      → s.agent.addr ≢ pos m
      → find (pos m) s.agent.rtable.rt ≡ none
      → find (pos m) (initialize_rtable env s).agent.rtable.rt
        ≡ some (even (d.one ⊘ d.of_int (pos (suc (length nbs)))) (nb ∷ nbs))
  unfolding initialize_rtable get_num_neighbors
  initialize_rtable_lem env s nb nbs m e lt ne empty =
      let share = λ (l : List ℤ). d.one ⊘ d.of_int (pos (length l)) in
      ap
        (λ l.
          find (pos m)
            (add_destinations s.agent.addr (share l) l 0 s.agent.num_nodes s.agent.rtable).rt)
        e
      ∙ find-add_destinations s.agent.addr (share (nb ∷ nbs)) nb nbs 0 s.agent.num_nodes m
          s.agent.rtable (omega arith) (omega arith) ne empty

  -- `initialize_rtable` leaves the row of the node's own address as it is.
  pub initialize_rtable_own :
      (env : Env W) (s : Sim W)
      → find s.agent.addr (initialize_rtable env s).agent.rtable.rt
        ≡ find s.agent.addr s.agent.rtable.rt
  unfolding initialize_rtable
  initialize_rtable_own env s =
      find-add_none s.agent.addr s.agent.addr
        (d.one ⊘ d.of_int (pos (get_num_neighbors env s.agent.addr)))
        (env.neighbor_list s.agent.addr) 0 s.agent.num_nodes s.agent.rtable refl
