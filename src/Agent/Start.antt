-- ===== src/Agent/Start.antt =====
-- `initialize_rtable` of AntNet/antnet.cc.

pub mod Rows
pub mod Shares
use ant_aodv.Base.{ℕ, zero, suc, ℤ, ℤ_discrete, ite, List, [], ◌∷◌}
use ant_aodv.Double.{Double, ◌⊘◌}
use ant_aodv.Rtable.{AntnetRtable, add_entry}
use ant_aodv.Agent.{Env, Action, Sim, does, get_num_neighbors}

module _ {W : Type 0} ⦃d : Double W⦄ where
  -- The entries for one destination.
  unfoldable pub add_neighbors : (dest : ℤ) → W → List ℤ → AntnetRtable W → AntnetRtable W
  add_neighbors dest phvalue [] t = t
  add_neighbors dest phvalue (nb ∷ nbs) t =
      add_neighbors dest phvalue nbs (add_entry t dest nb phvalue)

  -- The loop over the destinations `i` to `i + n - 1`.
  unfoldable pub add_destinations :
      (here : ℤ) → W → List ℤ → (i n : ℕ) → AntnetRtable W → AntnetRtable W
  add_destinations here phvalue nbs i zero t = t
  add_destinations here phvalue nbs i (suc n) t =
      add_destinations here phvalue nbs (suc i) n
        (ite (ℤ_discrete here (ℤ.pos i)) t (add_neighbors (ℤ.pos i) phvalue nbs t))

  unfoldable pub initialize_rtable : Env W → Sim W → Sim W
  initialize_rtable env s =
      let a = s.agent in
      let nbs = env.neighbor_list a.addr in
      let phvalue = d.one ⊘ d.of_int (ℤ.pos (get_num_neighbors env a.addr)) in
      does Action.truncate (record s {
        globals = record (s.globals) { num_nodes = a.num_nodes; r = a.r_factor };
        agent = record a { rtable = add_destinations a.addr phvalue nbs 0 a.num_nodes a.rtable };
      })
