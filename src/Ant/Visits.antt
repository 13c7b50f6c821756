-- ===== src/Ant/Visits.antt =====
-- What `memorize` does to the path of nodes in an ant's memory.
use native.Mathlib.Numerals.{add-one}
use ant_aodv.Base.{
  ℕ, zero, suc, ◌+◌, ◌≤◌, ◌<◌, ◌≡◌, refl, sym, ap, ◌∙◌, ◌⊎◌, inl, inr, ℤ, ℤ_discrete, ite, if_pos,
  if_neg, List, [], ◌∷◌, ◌++◌, take, set, length, length-set, none, some, Among, Distinct, All,
  arith,
}
use ant_aodv.Base.Result.{ok}
use ant_aodv.Double.{Double, ◌⊖◌}
use ant_aodv.Ant.{
  HdrAntPkt, Memory, memory, nodes, path, IsValid, max_num_nodes, write, find_visit, add_times,
  memorize,
}

-- The path after a visit to `a`: up to the first visit, or with `a` at its end.
unfoldable pub visit : ℤ → List ℤ → List ℤ
visit a [] = a ∷ []
visit a (x ∷ xs) = ite (ℤ_discrete x a) (x ∷ []) (x ∷ visit a xs)

pub visit_new : (a : ℤ) (xs : List ℤ) → ¬ Among a xs → visit a xs ≡ xs ++ a ∷ []
unfolding visit
visit_new a [] out = refl
visit_new a (x ∷ xs) out = rw (if_neg _ (λ e. out (inl e)), visit_new a xs (λ m. out (inr m)))

pub Among-visit : (a x : ℤ) (xs : List ℤ) → Among x (visit a xs) → (a ≡ x) ⊎ Among x xs
unfolding visit
Among-visit a x [] m = m
Among-visit a x (y ∷ xs) m = ground (arith, Among-visit a x xs)

pub visit-Distinct : (a : ℤ) (xs : List ℤ) → Distinct xs → Distinct (visit a xs)
unfolding visit
visit-Distinct a [] u = (λ x. x, tt)
visit-Distinct a (x ∷ xs) u = elim (ℤ_discrete x a) [
  | yes p ↦ rw (if_pos _ p) (λ m. m, tt)
  | no n ↦ rw (if_neg _ n) (
    λ m. elim (Among-visit a x xs m) [ inl e ↦ n (sym e) | inr q ↦ u.0 q ],
    visit-Distinct a xs u.1,
  )
]

pub visit-All {κ} : (P : ℤ → Type κ) (a : ℤ) (xs : List ℤ) → P a → All P xs → All P (visit a xs)
unfolding visit
visit-All P a [] p ps = (p, tt)
visit-All P a (x ∷ xs) p ps = elim (ℤ_discrete x a) [
  | yes e ↦ rw (if_pos _ e) (ps.0, tt)
  | no n ↦ rw (if_neg _ n) (ps.0, visit-All P a xs p ps.1)
]

module _ {W : Type 0} ⦃d : Double W⦄ where
  abbrev pub NotFound : ℤ → List (Memory W) → ℕ → Type 0
  NotFound a m n =
      (find_visit a m n ≡ ok none)
      × (visit a (nodes (take n m)) ≡ nodes (take n m) ++ a ∷ [])
      × (¬ Among a (nodes (take n m)))

  abbrev pub FoundAt : ℤ → List (Memory W) → ℕ → Type 0
  FoundAt a m n =
      (i : ℕ) × (t : W) × (find_visit a m n ≡ ok (some (i, t)))
      × (i < n)
      × (visit a (nodes (take n m)) ≡ nodes (take (suc i) m))
      × Among a (nodes (take n m))

  pub find_visit_lem :
      (a : ℤ) (m : List (Memory W)) (n : ℕ) → n ≤ length m → NotFound a m n ⊎ FoundAt a m n
  unfolding find_visit visit
  find_visit_lem a m zero h = inl (refl, refl, λ x. x)
  find_visit_lem a [] (suc n) h = absurd (omega arith)
  find_visit_lem a (e ∷ m) (suc n) h = elim (ℤ_discrete e.node_addr a) [
    | yes p ↦ inr (0, e.trip_time, rw (if_pos _ p), omega arith, rw (if_pos _ p), inl p)
    | no ne ↦ elim (find_visit_lem a m n (omega arith)) [
      | inl (f, v, out) ↦
          inl (rw (if_neg _ ne, f), rw (if_neg _ ne, v), elim [ inl p ↦ ne p | inr x ↦ out x ])
      | inr (i, t, f, lt, v, q) ↦
          inr (suc i, t, rw (if_neg _ ne, f), omega arith, rw (if_neg _ ne, v), inr q)
    ]
  ]

  length-add_times : (t : W) (n : ℕ) (m : List (Memory W)) → length (add_times t n m) ≡ length m
  unfolding add_times
  length-add_times t zero m = refl
  length-add_times t (suc n) [] = refl
  length-add_times t (suc n) (e ∷ m) = ap suc (length-add_times t n m)

  write-ok :
      (m : List (Memory W)) (i : ℕ) (e : Memory W) → i < length m → write m i e ≡ ok (set m i e)
  unfolding write
  write-ok m i e h = ground arith

  take-add_times :
      (t : W) (n : ℕ) (m : List (Memory W)) → nodes (take n (add_times t n m)) ≡ nodes (take n m)
  unfolding add_times
  take-add_times t zero m = refl
  take-add_times t (suc n) [] = refl
  take-add_times t (suc n) (e ∷ m) = ap (◌∷◌ e.node_addr) (take-add_times t n m)

  take-set :
      (n : ℕ) (m : List (Memory W)) (e : Memory W)
      → n < length m
      → nodes (take (suc n) (set m n e)) ≡ nodes (take n m) ++ e.node_addr ∷ []
  take-set n [] e h = absurd (omega arith)
  take-set zero (x ∷ m) e h = refl
  take-set (suc n) (x ∷ m) e h = ap (◌∷◌ x.node_addr) (take-set n m e (omega arith))

  -- The fields that `memorize` leaves alone.
  abbrev pub SameRest : HdrAntPkt W → HdrAntPkt W → Type 0
  SameRest h h' =
      (h'.pkt_type ≡ h.pkt_type)
      × (h'.pkt_src ≡ h.pkt_src)
      × (h'.pkt_dst ≡ h.pkt_dst)
      × (h'.pkt_len ≡ h.pkt_len)
      × (h'.pkt_seq_num ≡ h.pkt_seq_num)
      × (h'.pkt_start_time ≡ h.pkt_start_time)

  -- If the memory is valid, and has room or holds the node already, `memorize` returns, and the path then ends
  -- with this node: cut behind an earlier visit, or longer by one. The rest of the header stays.
  pub memorize_lem :
      (clock : W) (a : ℤ) (h : HdrAntPkt W)
      → IsValid h
      → (h.pkt_mem_size < max_num_nodes) ⊎ Among a (path h)
      → (h' : HdrAntPkt W) × (memorize clock a h ≡ ok h')
        × (path h' ≡ visit a (path h))
        × IsValid h'
        × SameRest h h'
  unfolding memorize
  memorize_lem clock a h v room =
      let m = h.pkt_memory in
      let n = h.pkt_mem_size in
      let time = clock ⊖ h.pkt_start_time in
      elim (find_visit_lem a m n (omega arith)) [
        | inr (i, t, f, lt, e, q) ↦ (
          record h { pkt_mem_size = i + 1; pkt_memory = add_times (time ⊖ t) (i + 1) m },
          rw (f, memorize),
          rw (add-one i) (take-add_times (time ⊖ t) (suc i) m ∙ sym e),
          record { array = length-add_times (time ⊖ t) (i + 1) m ∙ v.array; used = omega arith },
          (refl, refl, refl, refl, refl, refl),
        )
        | inl (f, e, out) ↦
            let lt : n < max_num_nodes = elim room [ inl x ↦ x | inr x ↦ absurd (out x) ] in
            let e' = memory a time in
            (
              record h { pkt_mem_size = n + 1; pkt_memory = set m n e' },
              rw (f, memorize) (rw (write-ok m n e' (omega arith))),
              rw (add-one n) (take-set n m e' (omega arith) ∙ sym e),
              record { array = length-set m n e' ∙ v.array; used = omega arith },
              (refl, refl, refl, refl, refl, refl),
            )
      ]
