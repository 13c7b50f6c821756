-- ===== src/Agent/Start/Shares.antt =====
-- The rows that `initialize_rtable` gives a node share 1 among its neighbours.
use ant_aodv.Base.{
  some-injective, none-some, ℕ, zero, suc, ◌≤◌, ◌≡◌, refl, sym, ap, subst, ◌∙◌, ℤ, pos, ℤ_discrete,
  List, [], ◌∷◌, length, none, arith,
}
use ant_aodv.Double.{Double, ◌⊕◌, ◌⊗◌, ◌⊘◌}
use ant_aodv.Double.Laws.{IsUnit, IsExact, IsDivided}
use ant_aodv.StdMap.{find}
use ant_aodv.Rtable.{AntnetRtable, neighbors}
use ant_aodv.Rtable.Update.{AreUnits, total}
use ant_aodv.Rtable.Shares.{IsShared, AreShared}
use ant_aodv.Agent.{Env, Sim, get_num_neighbors}
use ant_aodv.Agent.Start.{add_destinations, initialize_rtable}
use ant_aodv.Agent.Start.Rows.{even, one_more, find-one_more, find-own, find-new, pos-ne}

module _ {W : Type 0} ⦃d : Double W⦄ where
  neighbors-even : (x : W) (nbs : List ℤ) → neighbors (even x nbs) ≡ nbs
  unfolding even
  neighbors-even x [] = refl
  neighbors-even x (nb ∷ nbs) = ap (◌∷◌ nb) (neighbors-even x nbs)

  even-AreUnits : (x : W) (nbs : List ℤ) → IsUnit x → AreUnits (even x nbs)
  unfolding even
  even-AreUnits x [] u = tt
  even-AreUnits x (nb ∷ nbs) u = (u, even-AreUnits x nbs u)

  module _ (exact : IsExact W) (k : ℕ) (div : IsDivided W k) where
    open exact use {mul_comm, mul_nought, one_mul, add_mul}

    total-even : (x : W) (nbs : List ℤ) → total (even x nbs) ≡ d.of_int (pos (length nbs)) ⊗ x
    unfolding even total
    total-even x [] = sym (ap (λ y. y ⊗ x) div.of_int-zero ∙ mul_comm _ _ ∙ mul_nought x)
    total-even x (nb ∷ nbs) =
        ap (◌⊕◌ x) (total-even x nbs)
        ∙ ap (λ y. y ⊕ d.of_int (pos (length nbs)) ⊗ x) (sym (one_mul x))
        ∙ sym (add_mul _ _ x)
        ∙ ap (λ y. y ⊗ x) (sym (div.of_int-suc (length nbs)))

    even-IsShared :
        (nbs : List ℤ) → length nbs ≡ k → IsShared nbs (even (d.one ⊘ d.of_int (pos k)) nbs)
    even-IsShared nbs e = record {
      same = neighbors-even _ nbs;
      units = even-AreUnits _ nbs div.share_unit;
      whole =
          total-even _ nbs ∙ ap (λ n. d.of_int (pos n) ⊗ (d.one ⊘ d.of_int (pos k))) e ∙ div.share;
    }

  -- The loop over destinations that have no row yet.
  module _ (here : ℤ) (x : W) (nb : ℤ) (nbs : List ℤ)
      (v : IsShared (nb ∷ nbs) (even x (nb ∷ nbs))) where
    abbrev HasNone : ℕ → AntnetRtable W → Type 0
    HasNone i t = (m : ℕ) → i ≤ m → find (pos m) t.rt ≡ none

    one_more-AreShared :
        (i : ℕ) (t : AntnetRtable W)
        → HasNone i t
        → AreShared (nb ∷ nbs) t
        → AreShared (nb ∷ nbs) (one_more here x (nb ∷ nbs) i t)
    one_more-AreShared i t empty old j row f = elim (ℤ_discrete j (pos i)) [
      | no n ↦ old j row (sym (find-one_more here j x (nb ∷ nbs) i t n) ∙ f)
      | yes e ↦ elim (ℤ_discrete here (pos i)) [
        | yes own ↦ old j row (sym (find-own here j x (nb ∷ nbs) i t (e ∙ sym own)) ∙ f)
        | no other ↦
            let made = find-new here x nb nbs i t other (empty i (omega arith)) in
            subst (IsShared (nb ∷ nbs))
              (some-injective
                (sym made ∙ ap (λ z. find z (one_more here x (nb ∷ nbs) i t).rt) (sym e) ∙ f))
              v
      ]
    ]

    one_more-HasNone :
        (i : ℕ) (t : AntnetRtable W)
        → HasNone i t
        → HasNone (suc i) (one_more here x (nb ∷ nbs) i t)
    one_more-HasNone i t empty m le =
        find-one_more here (pos m) x (nb ∷ nbs) i t (pos-ne m i (omega arith))
        ∙ empty m (omega arith)

    add_destinations-AreShared :
        (i n : ℕ) (t : AntnetRtable W)
        → HasNone i t
        → AreShared (nb ∷ nbs) t
        → AreShared (nb ∷ nbs) (add_destinations here x (nb ∷ nbs) i n t)
    unfolding add_destinations one_more
    add_destinations-AreShared i zero t empty old = old
    add_destinations-AreShared i (suc n) t empty old =
        add_destinations-AreShared (suc i) n (one_more here x (nb ∷ nbs) i t)
          (one_more-HasNone i t empty) (one_more-AreShared i t empty old)

  -- `initialize_rtable` of an empty table.
  pub initialize_rtable-AreShared :
      (exact : IsExact W) (env : Env W) (s : Sim W) (nb : ℤ) (nbs : List ℤ)
      → IsDivided W (suc (length nbs))
      → env.neighbor_list s.agent.addr ≡ nb ∷ nbs
      → s.agent.rtable.rt ≡ []
      → AreShared (nb ∷ nbs) (initialize_rtable env s).agent.rtable
  unfolding initialize_rtable get_num_neighbors find
  initialize_rtable-AreShared exact env s nb nbs div e empty =
      let share = λ (l : List ℤ). d.one ⊘ d.of_int (pos (length l)) in
      subst
        (λ l.
          AreShared (nb ∷ nbs)
            (add_destinations s.agent.addr (share l) l 0 s.agent.num_nodes s.agent.rtable))
        (sym e)
        (add_destinations-AreShared s.agent.addr (share (nb ∷ nbs)) nb nbs
          (even-IsShared exact (suc (length nbs)) div (nb ∷ nbs) refl) 0 s.agent.num_nodes
          s.agent.rtable (λ m le. rw empty)
          (λ j row f. absurd (none-some (sym (ap (find j) empty) ∙ f))))
