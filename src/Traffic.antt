-- ===== src/Traffic.antt =====
-- AntNet/antnet_traffic.h, and `get_win_size` and `update_traffic` of AntNet/antnet.cc: the windows of
-- trip times and the local traffic model. No code calls `update_traffic`.
pub mod Least
pub mod Windows
pub mod Samples
pub mod Learned
use ant_aodv.Base.{ℕ, suc, ◌-◌, ℤ, List, [], ◌∷◌, ◌++◌, ◌&&◌, none, some, length, if◌then◌else◌}
use ant_aodv.Base.Result.{Result, ok, fault, Fault, ◌>>=◌, or_fault}
use ant_aodv.Double.{Double, ◌⊕◌, ◌⊖◌, ◌⊗◌, ◌⊘◌}
use ant_aodv.StdMap.{Map, find, insert, adjust}
use ant_aodv.Ant.{Memory, HdrAntPkt, read, find_here, entries_from}

abbrev pub WindowT : Type 0 → Type 0
WindowT W = Map (List W)

pub record TrafficMatrix (W : Type 0) : Type 0 where
  pub mean_tt : W
  pub var_tt : W
  pub best_tt : W

abbrev pub StateT : Type 0 → Type 0
StateT W = Map (TrafficMatrix W)

-- The members of `Antnet` that hold the traffic model.
pub record Traffic (W : Type 0) : Type 0 where
  pub state : StateT W
  pub window : WindowT W

module _ {W : Type 0} where
  unfoldable pub get_win_size : WindowT W → ℤ → Result ℕ
  get_win_size window dest = do
    win_tt ← or_fault (find dest window) Fault.null_pointer
    ok (length win_tt)

  -- One trip time more for a destination.
  unfoldable pub push_sample : WindowT W → ℤ → W → WindowT W
  push_sample window dest tt = elim (find dest window) [
    | some win_tt ↦ adjust dest (λ w. w ++ tt ∷ []) window
    | none ↦ insert dest (tt ∷ []) window
  ]

  unfoldable pub push_samples : WindowT W → List (ℤ × W) → WindowT W
  unfolding push_sample
  push_samples window [] = window
  push_samples window ((dest, tt) ∷ samples) = push_samples (push_sample window dest tt) samples

module _ {W : Type 0} ⦃d : Double W⦄ where
  unfoldable pub min_from : W → List W → W
  min_from mintt [] = mintt
  min_from mintt (x ∷ xs) = min_from (if d.lt x mintt then x else mintt) xs

  -- The least trip time of a window; the code reads its first element unasked.
  unfoldable pub min_tt : List W → Result W
  min_tt [] = fault Fault.out_of_bounds
  min_tt (x ∷ xs) = ok (min_from x (x ∷ xs))

  -- Mean, variance and best trip time of a destination after the trip time `tt`.
  unfoldable pub learn : (tt_now mintt : W) → TrafficMatrix W → TrafficMatrix W
  learn tt_now mintt old =
      let varsigma = d.ratio 5 1000 in
      let dev = tt_now ⊖ old.mean_tt in
      record {
        mean_tt = old.mean_tt ⊕ varsigma ⊗ dev;
        var_tt = old.var_tt ⊗ old.var_tt ⊕ varsigma ⊗ (dev ⊗ dev ⊖ old.var_tt ⊗ old.var_tt);
        best_tt = mintt;
      }

  unfoldable pub update_state : WindowT W → StateT W → (ℤ × W) → Result (StateT W)
  update_state window state (dest, tt_now) = do
    win_tt ← or_fault (find dest window) Fault.null_pointer
    mintt ← min_tt win_tt
    ok (elim (find dest state) [
      | some old ↦ adjust dest (learn tt_now mintt) state
      | none ↦ insert dest (record { mean_tt = tt_now; var_tt = tt_now; best_tt = mintt }) state
    ])

  unfoldable pub update_states : WindowT W → StateT W → List (ℤ × W) → Result (StateT W)
  update_states window state [] = ok state
  update_states window state (s ∷ samples) = do
    state' ← update_state window state s
    update_states window state' samples

  -- The reinforcement that a trip time earns.
  unfoldable pub reinforcement : (tt_now : W) → TrafficMatrix W → ℕ → W
  reinforcement tt_now s w =
      let i_inf = s.best_tt in
      let i_sup = s.mean_tt ⊕ d.ratio 17 10 ⊗ (d.sqrt s.var_tt ⊘ d.sqrt (d.of_int (ℤ.pos w))) in
      if d.eq i_sup i_inf && d.eq i_inf tt_now
      then d.nought
      else d.ratio 7 10 ⊗ (s.best_tt ⊘ tt_now)
        ⊕ d.ratio 3 10 ⊗ ((i_sup ⊖ i_inf) ⊘ ((i_sup ⊖ i_inf) ⊕ (tt_now ⊖ i_inf)))

  -- The loop that computes `r`, of which the last value stays. `state_[dest]` is there.
  unfoldable pub find_r : WindowT W → StateT W → W → List (ℤ × W) → Result W
  find_r window state r [] = ok r
  find_r window state r ((dest, tt_now) ∷ samples) = do
    s ← or_fault (find dest state) Fault.null_pointer
    w ← get_win_size window dest
    find_r window state (reinforcement tt_now s w) samples

  -- `dest` and `tt` of each entry.
  unfoldable pub samples_of : W → List (Memory W) → List (ℤ × W)
  samples_of initialtt [] = []
  samples_of initialtt (e ∷ m) = (e.node_addr, e.trip_time ⊖ initialtt) ∷ samples_of initialtt m

  -- The new model and the new `r`.
  unfoldable pub update_traffic : ℤ → Traffic W → W → HdrAntPkt W → Result (Traffic W × W)
  update_traffic addr t r ah = do
    i ← find_here addr ah.pkt_memory
    here ← read ah.pkt_memory i
    next ← read ah.pkt_memory (suc i)
    visited ← entries_from ah.pkt_memory (suc i) (ah.pkt_mem_size - suc i)
    let samples = samples_of here.trip_time visited
    let window = push_samples t.window samples
    state ← update_states window t.state samples
    r' ← find_r window state r samples
    ok (record { state = state; window = window }, r')
