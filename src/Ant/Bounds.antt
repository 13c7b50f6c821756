-- ===== src/Ant/Bounds.antt =====
-- The bounds of an ant's memory.
use ant_aodv.Base.{
  ℕ, zero, suc, ◌≤◌, ◌<◌, ◌≡◌, refl, ap, ◌⊎◌, inl, inr, ℤ, List, [], ◌∷◌, take, length, Among,
  Distinct, All, arith,
}
use ant_aodv.Base.Result.{ok, fault, Fault}
use ant_aodv.Double.{Double}
use ant_aodv.Ant.{HdrAntPkt, Memory, nodes, path, IsValid, max_num_nodes, memorize}
use ant_aodv.Nodes.{IsNode, Among-cases, length-le}
use ant_aodv.Ant.Visits.{visit, SameRest, visit-Distinct, visit-All, memorize_lem, find_visit_lem}

module _ {W : Type 0} where
  length-take : (n : ℕ) (m : List (Memory W)) → n ≤ length m → length (nodes (take n m)) ≡ n
  length-take zero m h = refl
  length-take (suc n) [] h = absurd (omega arith)
  length-take (suc n) (e ∷ m) h = ap suc (length-take n m (omega arith))

  pub length-path : (h : HdrAntPkt W) → IsValid h → length (path h) ≡ h.pkt_mem_size
  length-path h v = length-take h.pkt_mem_size h.pkt_memory (omega (arith, v.array, v.used))

  -- A memory that holds distinct nodes of a topology of at most `MAX_NUM_NODES` nodes.
  pub record IsSmall (h : HdrAntPkt W) : Type 0 where
    pub valid : IsValid h
    pub distinct : Distinct (path h)
    pub small : All (IsNode max_num_nodes) (path h)

module _ {W : Type 0} ⦃d : Double W⦄ where
  -- Where the nodes are numbered below `MAX_NUM_NODES` and the memory is valid and holds distinct ones, `memorize` never writes outside the array:
  -- it returns a memory that again holds distinct nodes of the network, whose path ends with this
  -- node, cut behind an earlier visit or longer by one; the rest of the header stays.
  pub memorize-IsSmall :
      (clock : W) (a : ℤ) (h : HdrAntPkt W)
      → IsSmall h
      → IsNode max_num_nodes a
      → (h' : HdrAntPkt W) × (memorize clock a h ≡ ok h')
        × IsSmall h'
        × (path h' ≡ visit a (path h))
        × SameRest h h'
  memorize-IsSmall clock a h s node =
      let (h', e, p, v, same) = memorize_lem clock a h s.valid room in
      (
        h',
        e,
        record {
          valid = v;
          distinct = rw p (visit-Distinct a (path h) s.distinct);
          small = rw p (visit-All (IsNode max_num_nodes) a (path h) node s.small);
        },
        p,
        same,
      )
    where
      len : length (path h) ≡ h.pkt_mem_size
      len = length-path h s.valid

      room : (h.pkt_mem_size < max_num_nodes) ⊎ Among a (path h)
      room = elim (Among-cases a (path h)) [
        | inl m ↦ inr m
        | inr n ↦ inl (
            omega
              (arith, len, length-le max_num_nodes (a ∷ path h) (n, s.distinct) (node, s.small)))
      ]

  -- A memory of `MAX_NUM_NODES` entries in use that do not hold this node: `memorize` writes behind
  -- the end of the array.
  pub memorize_overflow :
      (clock : W) (a : ℤ) (h : HdrAntPkt W)
      → IsValid h
      → h.pkt_mem_size ≡ max_num_nodes
      → ¬ Among a (path h)
      → memorize clock a h ≡ fault Fault.out_of_bounds
  unfolding memorize
  memorize_overflow clock a h v full out =
      elim (find_visit_lem a h.pkt_memory h.pkt_mem_size (omega (arith, v.array, v.used))) [
        | inl (f, _, _) ↦ rw (f, memorize) (ground (arith, v.array))
        | inr found ↦ absurd (out found.5)
      ]
