-- ===== src/Ant/Reads.antt =====
-- What the loops over an ant's memory read, in terms of its path.
use ant_aodv.Base.{
  ℕ, zero, suc, ◌-◌, ◌≤◌, ◌<◌, ◌≡◌, ◌≢◌, refl, sym, ap, subst, ◌∙◌, inl, inr, ℤ, if_pos, if_neg,
  List, [], ◌∷◌, ◌++◌, take, length, length-append, ℕ_discrete, some, Among, arith,
}
use mathlib.Core.List.{append_assoc}
use ant_aodv.Base.Result.{ok}
use ant_aodv.Ant.{Memory, nodes, read, find_here, entries_from, find_back, before}

cons-injective : {x y : ℤ} {xs ys : List ℤ} → x ∷ xs ≡ y ∷ ys → (x ≡ y) × (xs ≡ ys)
cons-injective {x} {xs = xs} e =
    (ap (λ l. elim l [ [] ↦ x | z ∷ _ ↦ z ]) e, ap (λ l. elim l [ [] ↦ xs | _ ∷ zs ↦ zs ]) e)

pub sub_zero : (n : ℕ) → n - 0 ≡ n
sub_zero n = omega arith

pub sub_suc : (n k : ℕ) → suc n - suc k ≡ n - k
sub_suc n k = omega arith

module _ {W : Type 0} where
  -- `memory` holds the path `pre ++ a ∷ post` among its first `n` entries.
  abbrev pub Holds : List (Memory W) → ℕ → List ℤ → Type 0
  Holds m n path = nodes (take n m) ≡ path

  pub read_lem :
      (pre : List ℤ) (a : ℤ) (post : List ℤ) (m : List (Memory W)) (n : ℕ)
      → Holds m n (pre ++ a ∷ post)
      → (e : Memory W) × (read m (length pre) ≡ ok e) × (e.node_addr ≡ a)
  unfolding read
  read_lem [] a post m zero h = cc
  read_lem (x ∷ pre) a post m zero h = cc
  read_lem [] a post [] (suc n) h = cc
  read_lem (x ∷ pre) a post [] (suc n) h = cc
  read_lem [] a post (e ∷ m) (suc n) h = (e, refl, (cons-injective h).0)
  read_lem (x ∷ pre) a post (e ∷ m) (suc n) h = read_lem pre a post m n (cons-injective h).1

  pub find_here_lem :
      (pre : List ℤ) (a : ℤ) (post : List ℤ) (m : List (Memory W)) (n : ℕ)
      → Holds m n (pre ++ a ∷ post)
      → ¬ Among a pre
      → find_here a m ≡ ok (length pre)
  unfolding find_here
  find_here_lem [] a post m zero h out = cc
  find_here_lem (x ∷ pre) a post m zero h out = cc
  find_here_lem [] a post [] (suc n) h out = cc
  find_here_lem (x ∷ pre) a post [] (suc n) h out = cc
  find_here_lem [] a post (e ∷ m) (suc n) h out = rw (if_pos _ (cons-injective h).0)
  find_here_lem (x ∷ pre) a post (e ∷ m) (suc n) h out =
      let (p, q) = cons-injective h in
      let ne : e.node_addr ≢ a = λ z. out (inl (sym p ∙ z)) in
      rw (if_neg _ ne, find_here_lem pre a post m n q (λ z. out (inr z)))

  -- Behind `pre` the entries hold what the path holds there.
  read_behind :
      (pre post : List ℤ) (m : List (Memory W)) (n j : ℕ)
      → Holds m n (pre ++ post)
      → n ≤ length m
      → length pre ≤ j
      → j < n
      → (e : Memory W) × (read m j ≡ ok e) × Among e.node_addr post
  unfolding read
  read_behind pre post m zero j h v l b = absurd (omega arith)
  read_behind pre post [] (suc n) j h v l b = absurd (omega arith)
  read_behind (x ∷ pre) post (e ∷ m) (suc n) zero h v l b = absurd (omega arith)
  read_behind (x ∷ pre) post (e ∷ m) (suc n) (suc j) h v l b =
      read_behind pre post m n j (cons-injective h).1 (omega arith) (omega arith) (omega arith)
  read_behind [] [] (e ∷ m) (suc n) j h v l b = cc
  read_behind [] (y ∷ post) (e ∷ m) (suc n) zero h v l b = (e, refl, inl (sym (cons-injective h).0))
  read_behind [] (y ∷ post) (e ∷ m) (suc n) (suc j) h v l b =
      let (e', r, among) =
        read_behind [] post m n j (cons-injective h).1 (omega arith) (omega arith) (omega arith) in
      (e', r, inr among)

  pub entries_from-cons :
      (e : Memory W) (m : List (Memory W)) (i k : ℕ)
      → entries_from (e ∷ m) (suc i) k ≡ entries_from m i k
  unfolding entries_from read
  entries_from-cons e m i zero = refl
  entries_from-cons e m i (suc k) = rw (entries_from-cons e m (suc i) k)

  pub entries_from-zero :
      (m : List (Memory W)) (k : ℕ) → k ≤ length m → entries_from m 0 k ≡ ok (take k m)
  unfolding entries_from read
  entries_from-zero m zero h = refl
  entries_from-zero [] (suc k) h = absurd (omega arith)
  entries_from-zero (e ∷ m) (suc k) h =
      rw (entries_from-cons e m 0 k, entries_from-zero m k (omega arith))

  pub entries_from_lem :
      (pre post : List ℤ) (m : List (Memory W)) (n : ℕ)
      → Holds m n (pre ++ post)
      → n ≤ length m
      → (es : List (Memory W)) × (entries_from m (length pre) (n - length pre) ≡ ok es)
        × (nodes es ≡ post)
  entries_from_lem [] post m n h v = (take n m, rw sub_zero (entries_from-zero m n v), h)
  entries_from_lem (x ∷ pre) post m zero h v = cc
  entries_from_lem (x ∷ pre) post [] (suc n) h v = cc
  entries_from_lem (x ∷ pre) post (e ∷ m) (suc n) h v =
      let (es, f, p) = entries_from_lem pre post m n (cons-injective h).1 (omega arith) in
      (es, rw (sub_suc n (length pre), entries_from-cons) f, p)

  find_back_hit :
      (a : ℤ) (m : List (Memory W)) (n : ℕ) (e : Memory W)
      → read m n ≡ ok e
      → e.node_addr ≡ a
      → find_back a m (suc n) ≡ ok (some n)
  unfolding find_back
  find_back_hit a m n e r p = ground arith

  find_back_miss :
      (a : ℤ) (m : List (Memory W)) (n : ℕ) (e : Memory W)
      → read m n ≡ ok e
      → e.node_addr ≢ a
      → find_back a m (suc n) ≡ find_back a m n
  unfolding find_back
  find_back_miss a m n e r p = ground arith

  find_back_last :
      (a : ℤ) (m : List (Memory W)) (n k : ℕ) (e : Memory W)
      → read m k ≡ ok e
      → e.node_addr ≡ a
      → k < n
      → ((j : ℕ) → k < j → j < n → (e' : Memory W) × (read m j ≡ ok e') × (e'.node_addr ≢ a))
      → find_back a m n ≡ ok (some k)
  find_back_last a m zero k e r p lt later = absurd (omega arith)
  find_back_last a m (suc n) k e r p lt later = elim (ℕ_discrete n k) [
    | yes q ↦
        subst (λ z. find_back a m (suc n) ≡ ok (some z)) q
          (find_back_hit a m n e (subst (λ z. read m z ≡ ok e) (sym q) r) p)
    | no ne ↦
        let (e', r', miss) = later n (omega arith) (omega arith) in
        find_back_miss a m n e' r' miss
        ∙ find_back_last a m n k e r p (omega arith) (λ j b c. later j b (omega arith))
  ]

  -- The last visit to `a`, behind which the path has other nodes.
  pub find_back_lem :
      (pre : List ℤ) (a : ℤ) (post : List ℤ) (m : List (Memory W)) (n : ℕ)
      → Holds m n (pre ++ a ∷ post)
      → n ≤ length m
      → length pre < n
      → ¬ Among a post
      → find_back a m n ≡ ok (some (length pre))
  find_back_lem pre a post m n h v b out =
      let (e, r, p) = read_lem pre a post m n h in
      find_back_last a m n (length pre) e r p b (λ j lt c.
        let (e', r', among) =
          read_behind (pre ++ a ∷ []) post m n j (h ∙ sym (append_assoc pre (a ∷ []) post)) v
            (omega (arith, length-append pre (a ∷ []))) c in
        (e', r', λ q. out (subst (λ z. Among z post) q among)))

  -- From a node on the path, not its last and visited once, the forward search leads to the next
  -- node and to all behind it.
  pub next_lem :
      (before : List ℤ) (here next : ℤ) (behind : List ℤ) (m : List (Memory W)) (n : ℕ)
      → Holds m n (before ++ here ∷ next ∷ behind)
      → n ≤ length m
      → ¬ Among here before
      → let i = length before in
        (e : Memory W) × (es : List (Memory W)) × (find_here here m ≡ ok i)
        × (read m (suc i) ≡ ok e)
        × (e.node_addr ≡ next)
        × (entries_from m (suc i) (n - suc i) ≡ ok es)
        × (nodes es ≡ next ∷ behind)
  next_lem before here next behind m n h v out =
      let ahead = before ++ here ∷ [] in
      let split : Holds m n (ahead ++ next ∷ behind) =
        h ∙ sym (append_assoc before (here ∷ []) (next ∷ behind)) in
      let len : length ahead ≡ suc (length before) =
        omega (arith, length-append before (here ∷ [])) in
      let (e, r, a) = read_lem ahead next behind m n split in
      let (es, f, q) = entries_from_lem ahead (next ∷ behind) m n split v in
      (
        e,
        es,
        find_here_lem before here (next ∷ behind) m n h out,
        subst (λ i. read m i ≡ ok e) len r,
        a,
        subst (λ i. entries_from m i (n - i) ≡ ok es) len f,
        q,
      )
