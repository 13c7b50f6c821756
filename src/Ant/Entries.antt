-- ===== src/Ant/Entries.antt =====
-- What the loops over an ant's memory read, in terms of its entries.
use ant_aodv.Base.{
  ℕ, zero, suc, ◌-◌, ◌≤◌, ◌≡◌, refl, sym, ap, subst, ◌∙◌, List, [], ◌∷◌, ◌++◌, take, length,
  length-append, Distinct, arith,
}
use mathlib.Core.List.{append_assoc}
use ant_aodv.Base.Result.{ok}
use ant_aodv.Nodes.{Distinct-ahead, Distinct-behind}
use ant_aodv.Ant.{Memory, nodes, read, find_here, entries_from}
use ant_aodv.Ant.Reads.{sub_zero, sub_suc, entries_from-cons, entries_from-zero, find_here_lem}

module _ {W : Type 0} where
  cons-injective :
      {x y : Memory W} {xs ys : List (Memory W)} → x ∷ xs ≡ y ∷ ys → (x ≡ y) × (xs ≡ ys)
  cons-injective {x} {xs = xs} e =
      (ap (λ l. elim l [ [] ↦ x | z ∷ _ ↦ z ]) e, ap (λ l. elim l [ [] ↦ xs | _ ∷ zs ↦ zs ]) e)

  read-take :
      (pre : List (Memory W)) (e : Memory W) (post m : List (Memory W)) (n : ℕ)
      → take n m ≡ pre ++ e ∷ post
      → read m (length pre) ≡ ok e
  unfolding read
  read-take [] e post m zero h = cc
  read-take (x ∷ pre) e post m zero h = cc
  read-take [] e post [] (suc n) h = cc
  read-take (x ∷ pre) e post [] (suc n) h = cc
  read-take [] e post (y ∷ m) (suc n) h = ap ok (cons-injective h).0
  read-take (x ∷ pre) e post (y ∷ m) (suc n) h = read-take pre e post m n (cons-injective h).1

  entries_from-take :
      (pre post m : List (Memory W)) (n : ℕ)
      → take n m ≡ pre ++ post
      → n ≤ length m
      → entries_from m (length pre) (n - length pre) ≡ ok post
  entries_from-take [] post m n h v = rw sub_zero (entries_from-zero m n v) ∙ ap ok h
  entries_from-take (x ∷ pre) post m zero h v = cc
  entries_from-take (x ∷ pre) post [] (suc n) h v = cc
  entries_from-take (x ∷ pre) post (e ∷ m) (suc n) h v =
      rw (sub_suc n (length pre), entries_from-cons)
        (entries_from-take pre post m n (cons-injective h).1 (omega arith))

  nodes-append : (xs ys : List (Memory W)) → nodes (xs ++ ys) ≡ nodes xs ++ nodes ys
  nodes-append [] ys = refl
  nodes-append (x ∷ xs) ys = ap (λ l. x.node_addr ∷ l) (nodes-append xs ys)

  length-nodes : (xs : List (Memory W)) → length (nodes xs) ≡ length xs
  length-nodes [] = refl
  length-nodes (x ∷ xs) = ap suc (length-nodes xs)

  -- From the entry of a node that is visited once, and is not the last, the forward search leads to
  -- the next entry and to all behind it.
  pub entries_lem :
      (before : List (Memory W)) (here next : Memory W) (behind m : List (Memory W)) (n : ℕ)
      → take n m ≡ before ++ here ∷ next ∷ behind
      → n ≤ length m
      → Distinct (nodes (before ++ here ∷ next ∷ behind))
      → let i = length before in
        (find_here here.node_addr m ≡ ok i)
        × (read m i ≡ ok here)
        × (read m (suc i) ≡ ok next)
        × (entries_from m (suc i) (n - suc i) ≡ ok (next ∷ behind))
        × Distinct (nodes (next ∷ behind))
  entries_lem before here next behind m n h v u =
      let ahead = before ++ here ∷ [] in
      let split : take n m ≡ ahead ++ next ∷ behind =
        h ∙ sym (append_assoc before (here ∷ []) (next ∷ behind)) in
      let len : length ahead ≡ suc (length before) =
        omega (arith, length-append before (here ∷ [])) in
      let cut = nodes-append before (here ∷ next ∷ behind) in
      let u' = subst Distinct cut u in
      let found =
        find_here_lem (nodes before) here.node_addr (nodes (next ∷ behind)) m n (ap nodes h ∙ cut)
          (Distinct-ahead here.node_addr (nodes before) (nodes (next ∷ behind)) u') in
      (
        found ∙ ap ok (length-nodes before),
        read-take before here (next ∷ behind) m n h,
        subst (λ i. read m i ≡ ok next) len (read-take ahead next behind m n split),
        subst (λ i. entries_from m i (n - i) ≡ ok (next ∷ behind)) len
            (entries_from-take ahead (next ∷ behind) m n split v),
        (Distinct-behind here.node_addr (nodes before) (nodes (next ∷ behind)) u').1,
      )
