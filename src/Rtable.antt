-- ===== src/Rtable.antt =====
-- AntNet/antnet_rtable.h and antnet_rtable.cc: the routing table of pheromone values, and the random
-- choices made from it. A draw is a value that `rnum->uniform` returns; the draws to come are lists.
pub mod Choice
pub mod Entries
pub mod Heuristic
pub mod Kept
pub mod Progress
pub mod Shares
pub mod Update
use ant_aodv.Base.{
  ℤ, ℤ_discrete, pred_ℤ, ite, if◌then◌else◌, Bool, ◌&&◌, List, [], ◌∷◌, ◌++◌, map, none, some,
}
use ant_aodv.Base.Result.{Result, ok, fault, Fault, ◌>>=◌}
use ant_aodv.Double.{Double, ◌⊕◌, ◌⊖◌, ◌⊗◌, ◌⊘◌}
use ant_aodv.StdMap.{Map, find, insert, adjust}

abbrev pub NsAddr : Type 0
NsAddr = ℤ

pub record Pheromone (W : Type 0) : Type 0 where
  pub neighbor : NsAddr
  pub phvalue : W

abbrev pub PheromoneMatrix : Type 0 → Type 0
PheromoneMatrix W = List (Pheromone W)

abbrev pub Rtable : Type 0 → Type 0
Rtable W = Map (PheromoneMatrix W)

-- The draws that the generator will give: of `uniform(NUM_NODES)` and of `uniform(1.0)`.
pub record Rng (W : Type 0) : Type 0 where
  pub ints : List ℤ
  pub doubles : List W

pub record AntnetRtable (W : Type 0) : Type 0 where
  pub rt : Rtable W
  pub rnum : Rng W

-- The `do` loop of `calc_destination`.
unfoldable draw_destination : NsAddr → List ℤ → Result (ℤ × List ℤ)
draw_destination source [] = fault Fault.no_draw
draw_destination source (x ∷ xs) =
    ite (ℤ_discrete x source) (draw_destination source xs) (ok (x, xs))

module _ {W : Type 0} where
  abbrev entry : NsAddr → W → Pheromone W
  entry a w = record { neighbor = a; phvalue = w }

  unfoldable pub add_entry : AntnetRtable W → (dest next : NsAddr) → W → AntnetRtable W
  add_entry t dest next phvalue = elim (find dest t.rt) [
    | none ↦ record t { rt = insert dest (entry next phvalue ∷ []) t.rt }
    | some row ↦ record t { rt = adjust dest (λ temp. temp ++ entry next phvalue ∷ []) t.rt }
  ]

  -- The lines that `print` appends to the file: destination, neighbour, pheromone.
  abbrev pub neighbors : PheromoneMatrix W → List NsAddr
  neighbors = map (λ e. e.neighbor)

  print_row : ℤ → PheromoneMatrix W → List (ℤ × ℤ × W)
  print_row dest = map (λ e. (dest, e.neighbor, e.phvalue))

  print_rows : Rtable W → List (ℤ × ℤ × W)
  unfolding print_row
  print_rows [] = []
  print_rows ((dest, row) ∷ m) = print_row dest row ++ print_rows m

  unfoldable pub print : AntnetRtable W → List (ℤ × ℤ × W)
  unfolding print_rows
  print t = print_rows t.rt

  unfoldable pub calc_destination : AntnetRtable W → NsAddr → Result (NsAddr × AntnetRtable W)
  unfolding draw_destination
  calc_destination t source = do
    (dest, ints) ← draw_destination source t.rnum.ints
    ok (dest, record t { rnum = record { ints = ints; doubles = t.rnum.doubles } })

-- `thisqueue/qtotal` and the rest of `thisprob`, for `N` neighbours.
module _ {W : Type 0} ⦃d : Double W⦄ where
  unfoldable pub heuristic_prob : (qtotal : W) (n thisqueue : ℤ) → W → W
  heuristic_prob qtotal n thisqueue thisph =
      let alpha = d.ratio 45 100 in
      (thisph ⊕ alpha ⊗ (d.one ⊖ d.of_int thisqueue ⊘ qtotal))
      ⊘ (d.one ⊕ alpha ⊗ d.of_int (pred_ℤ n))

-- What `calc_next` reads of its surroundings: the global `N`, the lengths of the interface queues.
pub record Links : Type 0 where
  pub n : ℤ
  pub queue_length : NsAddr → NsAddr → ℤ

-- The variables `lrange`, `urange` and `thisprob`.
pub record Range (W : Type 0) : Type 0 where
  pub lrange : W
  pub urange : W
  pub thisprob : W

module _ {W : Type 0} ⦃d : Double W⦄ where
  unfoldable pub queue_total : Links → NsAddr → W → PheromoneMatrix W → W
  queue_total links source qtotal [] = qtotal
  queue_total links source qtotal (e ∷ row) =
      queue_total links source (qtotal ⊕ d.of_int (links.queue_length source e.neighbor)) row

  unfoldable pub nonzero_total : W → W
  nonzero_total qtotal = if d.eq qtotal d.nought then d.one else qtotal

  -- The loop that finds the range of the parent link.
  unfoldable pub parent_range :
      Links → (source parent : NsAddr) → (qtotal : W) → Range W → PheromoneMatrix W → Range W
  parent_range links source parent qtotal s [] = s
  parent_range links source parent qtotal s (e ∷ row) =
      let prob = heuristic_prob qtotal links.n (links.queue_length source e.neighbor) e.phvalue in
      let rest =
        parent_range links source parent qtotal
          (record s { lrange = s.lrange ⊕ e.phvalue; thisprob = prob }) row in
      ite (ℤ_discrete e.neighbor parent)
        (record s { urange = s.lrange ⊕ e.phvalue; thisprob = prob }) rest

  abbrev pub within : W → W → W → Bool
  within lrange urange x = d.le lrange x && d.lt x urange

  -- The `do` loop: the first draw outside the range.
  unfoldable pub draw_outside : W → W → List W → Result (W × List W)
  draw_outside lrange urange [] = fault Fault.no_draw
  draw_outside lrange urange (x ∷ xs) =
      if within lrange urange x then draw_outside lrange urange xs else ok (x, xs)

  -- The loop that finds the next hop for the draw `x`, and the end of the function behind it.
  unfoldable pub pick :
      Links → NsAddr → (qtotal x : W) → Range W → PheromoneMatrix W → Result NsAddr
  pick links source qtotal x s [] = fault Fault.no_return
  pick links source qtotal x s (e ∷ row) =
      let u = s.urange ⊕ e.phvalue in
      let prob = heuristic_prob qtotal links.n (links.queue_length source e.neighbor) e.phvalue in
      let rest =
        pick links source qtotal x (record { lrange = u; urange = u; thisprob = prob }) row in
      if within s.lrange u x then ok e.neighbor else rest

  abbrev pub start : Range W
  start = record { lrange = d.nought; urange = d.nought; thisprob = d.nought }

  -- `if(urange == 0.0) urange = 1.0;`
  unfoldable pub fix_urange : Range W → Range W
  fix_urange s = if d.eq s.urange d.nought then record s { urange = d.one } else s

  unfoldable pub dead_end : Range W → Bool
  dead_end s = d.eq s.lrange d.nought && d.eq s.urange d.one

  -- The range of the parent link, as `calc_next` keeps it out.
  unfoldable pub parent_link : Links → NsAddr → NsAddr → PheromoneMatrix W → Range W
  parent_link links source parent row = fix_urange (
      parent_range links source parent (nonzero_total (queue_total links source d.nought row)) start
        row)

  -- From the draw on.
  unfoldable pub sample :
      Links
      → AntnetRtable W
      → NsAddr
      → (qtotal : W) → Range W
      → PheromoneMatrix W
      → Result (NsAddr × AntnetRtable W)
  sample links t source qtotal s row = do
    (x, doubles) ← draw_outside s.lrange s.urange t.rnum.doubles
    next ← pick links source qtotal x start row
    ok (next, record t { rnum = record { ints = t.rnum.ints; doubles = doubles } })

  unfoldable pub choose :
      Links
      → AntnetRtable W
      → (source parent : NsAddr) → (qtotal : W) → PheromoneMatrix W
      → Result (NsAddr × AntnetRtable W)
  choose links t source parent qtotal row =
      let s = fix_urange (parent_range links source parent qtotal start row) in
      if dead_end s then ok (parent, t) else sample links t source qtotal s row

  unfoldable pub calc_next :
      Links → AntnetRtable W → (source dest parent : NsAddr) → Result (NsAddr × AntnetRtable W)
  unfolding queue_total nonzero_total parent_range fix_urange dead_end draw_outside pick sample
      choose
  calc_next links t source dest parent = elim (find dest t.rt) [
    | none ↦ fault Fault.no_return
    | some row ↦
        choose links t source parent (nonzero_total (queue_total links source d.nought row)) row
  ]

  -- The reinforcement of the link that the ant took, and the evaporation of the others.
  unfoldable pub reinforce : (r : W) → NsAddr → Pheromone W → Pheromone W
  reinforce r next e =
      ite (ℤ_discrete e.neighbor next) (record e { phvalue = e.phvalue ⊕ r ⊗ (d.one ⊖ e.phvalue) })
        (record e { phvalue = (d.one ⊖ r) ⊗ e.phvalue })

  unfoldable pub update_row : (r : W) → NsAddr → PheromoneMatrix W → PheromoneMatrix W
  unfolding reinforce
  update_row r next [] = []
  update_row r next (e ∷ row) = reinforce r next e ∷ update_row r next row

  unfoldable pub update : (r : W) → AntnetRtable W → (dest next : NsAddr) → AntnetRtable W
  unfolding update_row
  update r t dest next = record t { rt = adjust dest (update_row r next) t.rt }
