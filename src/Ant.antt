-- ===== src/Ant.antt =====
-- AntNet/ant_pkt.h: the header of an ant, with the memory of the nodes it has visited; and
-- `Antnet::memorize` of AntNet/antnet.cc, which adds a node to it.
pub mod Bounds
pub mod Reads
pub mod Entries
pub mod Visits
use ant_aodv.Base.{
  ℕ, zero, suc, ◌+◌, ◌*◌, ◌≤◌, ◌≡◌, ℤ, ℤ_discrete, ite, List, [], ◌∷◌, map, take, set, length,
  get_elem?, Option, none, some, ltb, if◌then◌else◌,
}
use ant_aodv.Base.Result.{Result, ok, fault, Fault, ◌>>=◌, or_fault}
use ant_aodv.Double.{Double, ◌⊕◌, ◌⊖◌}
use ant_aodv.Packet.{HdrCmn, HdrIp}

abbrev pub forward_ant : ℕ
forward_ant = 1

abbrev pub backward_ant : ℕ
backward_ant = 2

abbrev pub ant_size : ℕ
ant_size = 7

abbrev pub max_num_nodes : ℕ
max_num_nodes = 16

pub record Memory (W : Type 0) : Type 0 where
  pub node_addr : ℤ
  pub trip_time : W

-- `pkt_memory_` is an array of `MAX_NUM_NODES` entries: a list of that length.
pub record HdrAntPkt (W : Type 0) : Type 0 where
  pub pkt_type : ℕ
  pub pkt_src : ℤ
  pub pkt_dst : ℤ
  pub pkt_len : ℕ
  pub pkt_seq_num : ℕ
  pub pkt_start_time : W
  pub pkt_memory : List (Memory W)
  pub pkt_mem_size : ℕ

pub record Packet (W : Type 0) : Type 0 where
  pub cmn : HdrCmn W
  pub ip : HdrIp
  pub ant : HdrAntPkt W

module _ {W : Type 0} where
  abbrev pub memory : ℤ → W → Memory W
  memory a t = record { node_addr = a; trip_time = t }

  -- The nodes visited, oldest first.
  abbrev pub nodes : List (Memory W) → List ℤ
  nodes = map (λ e. e.node_addr)

  abbrev pub path : HdrAntPkt W → List ℤ
  path h = nodes (take h.pkt_mem_size h.pkt_memory)

  -- The array has its size, and the entries in use lie in it.
  pub record IsValid (h : HdrAntPkt W) : Type 0 where
    pub array : length h.pkt_memory ≡ max_num_nodes
    pub used : h.pkt_mem_size ≤ max_num_nodes

  -- `memory[i] = e`, where the array ends at its length.
  unfoldable pub write : List (Memory W) → ℕ → Memory W → Result (List (Memory W))
  write m i e = if ltb i (length m) then ok (set m i e) else fault Fault.out_of_bounds

module _ {W : Type 0} ⦃d : Double W⦄ where
  -- The search of `memorize` for a visit to this node, among the first `n` entries: its index and
  -- trip time.
  unfoldable pub find_visit : ℤ → List (Memory W) → ℕ → Result (Option (ℕ × W))
  find_visit a m zero = ok none
  find_visit a [] (suc n) = fault Fault.out_of_bounds
  find_visit a (e ∷ m) (suc n) =
      ite (ℤ_discrete e.node_addr a) (ok (some (0, e.trip_time))) (do
        found ← find_visit a m n
        ok (elim found [ none ↦ none | some (i, t) ↦ some (suc i, t) ]))

  -- `trip_time += t` in the first `n` entries.
  unfoldable pub add_times : W → ℕ → List (Memory W) → List (Memory W)
  add_times t zero m = m
  add_times t (suc n) [] = []
  add_times t (suc n) (e ∷ m) = record e { trip_time = e.trip_time ⊕ t } ∷ add_times t n m

  unfoldable pub memorize : (clock : W) (addr : ℤ) → HdrAntPkt W → Result (HdrAntPkt W)
  unfolding find_visit add_times write
  memorize clock addr h =
      let time = clock ⊖ h.pkt_start_time in
      do
        found ← find_visit addr h.pkt_memory h.pkt_mem_size
        elim found [
          | some (i, visited) ↦ ok (record h {
            pkt_mem_size = i + 1;
            pkt_memory = add_times (time ⊖ visited) (i + 1) h.pkt_memory;
          })
          | none ↦ do
            m ← write h.pkt_memory h.pkt_mem_size (memory addr time)
            ok (record h { pkt_mem_size = h.pkt_mem_size + 1; pkt_memory = m })
        ]

-- The loops that read the memory: each reads `pkt_memory_` by index.
module _ {W : Type 0} where
  -- `pkt_memory_[i]`
  unfoldable pub read : List (Memory W) → ℕ → Result (Memory W)
  read m i = or_fault (get_elem? m i) Fault.out_of_bounds

  -- `for(i=0; pkt_memory_[i].node_addr != addr(); i++);`
  unfoldable pub find_here : ℤ → List (Memory W) → Result ℕ
  find_here a [] = fault Fault.out_of_bounds
  find_here a (e ∷ m) = ite (ℤ_discrete e.node_addr a) (ok 0) (do i ← find_here a m; ok (suc i))

  -- The entries that `for(int index = i; index < pkt_mem_size; index++)` reads, `n` of them.
  unfoldable pub entries_from : List (Memory W) → ℕ → ℕ → Result (List (Memory W))
  entries_from m index zero = ok []
  entries_from m index (suc n) = do
    e ← read m index
    rest ← entries_from m (suc index) n
    ok (e ∷ rest)

  -- The search of `backward_ant_pkt` from the last of the first `n` entries down.
  unfoldable pub find_back : ℤ → List (Memory W) → ℕ → Result (Option ℕ)
  find_back a m zero = ok none
  find_back a m (suc i) = do
    e ← read m i
    ite (ℤ_discrete e.node_addr a) (ok (some i)) (find_back a m i)

  -- `pkt_memory_[index]`, where `index` is the number found less one, if any was found.
  unfoldable pub before : List (Memory W) → Option ℕ → Result (Memory W)
  before m none = fault Fault.uninitialized
  before m (some zero) = fault Fault.out_of_bounds
  before m (some (suc i)) = read m i

  -- `pkt_memory_[pkt_mem_size - 2]`
  unfoldable pub last_second : List (Memory W) → ℕ → Result (Memory W)
  last_second m zero = fault Fault.out_of_bounds
  last_second m (suc zero) = fault Fault.out_of_bounds
  last_second m (suc (suc i)) = read m i
