-- ===== src/Agent/Ready.antt =====
-- A started node: what its routing table keeps while it receives packets and launches ants.
pub mod Same
pub mod Kept
use ant_aodv.Base.{ℕ, suc, ◌<◌, ◌≡◌, ◌≢◌, ℤ, pos, List, some, Among}
use ant_aodv.Base.Result.{ok}
use ant_aodv.Double.{Double}
use ant_aodv.Double.Laws.{IsUnit}
use ant_aodv.StdMap.{find}
use ant_aodv.Packet.{Dir}
use ant_aodv.Rtable.{AntnetRtable, PheromoneMatrix}
use ant_aodv.Rtable.Shares.{AreShared}
use ant_aodv.Ant.{Packet, Memory, read, find_here}
use ant_aodv.Agent.{Env, Sim, Globals}
use ant_aodv.Agent.Send.{expire}
use ant_aodv.Agent.Receive.{recv}
use ant_aodv.Agent.Receive.Backward.{IsAt}

module _ {W : Type 0} ⦃d : Double W⦄ where
  -- Each node but `here` has a row.
  abbrev pub HasRows : (here : ℤ) (n : ℕ) → AntnetRtable W → Type 0
  HasRows here n t =
      (m : ℕ) → m < n → here ≢ pos m → (row : PheromoneMatrix W) × (find (pos m) t.rt ≡ some row)

  -- The node `here` with the neighbours `nbs`, in a network of `n` nodes: each other node has a row,
  -- and each row shares 1 among the neighbours.
  pub record IsReady (here : ℤ) (nbs : List ℤ) (n : ℕ) (s : Sim W) : Type 0 where
    pub at : IsAt s here
    pub unit : IsUnit s.globals.r
    pub shared : AreShared nbs s.agent.rtable
    pub rows :
        (m : ℕ)
        → m < n
        → here ≢ pos m
        → (row : PheromoneMatrix W) × (find (pos m) s.agent.rtable.rt ≡ some row)

  -- A backward ant went from `here` to one of the neighbours.
  abbrev pub IsLinked : (here : ℤ) (nbs : List ℤ) → Packet W → Type 0
  IsLinked here nbs p =
      p.cmn.direction ≡ Dir.up
      → (i : ℕ) (e : Memory W) → find_here here p.ant.pkt_memory ≡ ok i
      → read p.ant.pkt_memory (suc i) ≡ ok e
      → Among e.node_addr nbs

  -- What may happen: a packet is received, the timer expires, or another agent writes the globals.
  pub data Step (here : ℤ) (nbs : List ℤ) : Sim W → Sim W → Type 0 where
    receives :
        {s s' : Sim W} (env : Env W) (p : Packet W)
        → IsLinked here nbs p
        → recv env s p ≡ ok s'
        → Step here nbs s s'
    expires : {s s' : Sim W} (env : Env W) → expire env s ≡ ok s' → Step here nbs s s'
    others : {s : Sim W} (g : Globals W) → IsUnit g.r → Step here nbs s (record s { globals = g })

  pub data Steps (here : ℤ) (nbs : List ℤ) : Sim W → Sim W → Type 0 where
    none : {s : Sim W} → Steps here nbs s s
    more : {s s' s'' : Sim W} → Step here nbs s s' → Steps here nbs s' s'' → Steps here nbs s s''
