-- ===== src/Queue/PriQueue/Filter.antt =====
-- What the two `filter` operations of the priority queue take out, and what they leave.

use ant_aodv.Base.{
  ℕ, zero, suc, ◌≤◌, ◌<◌, ◌≡◌, ◌≢◌, refl, sym, ap, subst, ◌∙◌, ◌⊎◌, inl, inr, Bool, true, false,
  ltb, ℤ, ℤ_discrete, if_pos, if_neg, if◌then◌else◌, List, [], ◌∷◌, ◌++◌, Option, none, some,
  length, length-append, get_elem?, All, Among, arith, Bool-cases,
}
use ant_aodv.Queue.{PacketQueue, IsFifo, erase, last?}
use ant_aodv.Queue.DropTail.{DropTail, with_q}
use ant_aodv.Queue.DropTail.Enque.{held}
use ant_aodv.Queue.PriQueue.{Headers, filter_loop, filter, find_hop, take_out, filter_id}
use ant_aodv.Queue.Lists.{
  append_nil, append_assoc, get_elem?-append, get_elem?-end, last?-append, length-snoc,
  erase-append, last-cases,
}

module _ {P : Type 0} where
  -- The packets that `out` does not ask for.
  unfoldable pub others : (P → Bool) → List P → List P
  others out [] = []
  others out (x ∷ xs) = if out x then others out xs else x ∷ others out xs

  none_asked :
      (out : P → Bool) (x : P) (xs : List P)
      → All (λ y. out y ≡ false) xs
      → out x ≡ true
      → ¬ Among x xs
  none_asked out x [] a t = λ m. m
  none_asked out x (y ∷ xs) a t = elim [
    | inl e ↦ ground (arith, a.0, t, ap out e)
    | inr m ↦ none_asked out x xs a.1 t m
  ]

  All-snoc {κ} : (F : P → Type κ) (xs : List P) (x : P) → All F xs → F x → All F (xs ++ x ∷ [])
  All-snoc F [] x fs f = (f, tt)
  All-snoc F (y ∷ xs) x fs f = (fs.0, All-snoc F xs x fs.1 f)

module _ {Q P : Type 0} {same : Discrete P} {size : P → ℕ} {k : PacketQueue Q P}
    (fifo : IsFifo same size k) where
  filter-stop :
      (out : P → Bool) (fuel : ℕ) (q : Q) (i : ℕ)
      → length (fifo.view q) ≡ i
      → filter_loop k out fuel i q ≡ q
  unfolding filter_loop
  filter-stop out zero q i e = refl
  filter-stop out (suc fuel) q i e =
      let at_end : ltb i (k.length_of q) ≡ false = ground (arith, fifo.length-view q, e) in
      rw (filter_loop, at_end) refl

  filter_loop_lem :
      (out : P → Bool) (fuel : ℕ) (q : Q) (pre post : List P)
      → fifo.view q ≡ pre ++ post
      → All (λ y. out y ≡ false) pre
      → length post ≤ fuel
      → fifo.view (filter_loop k out fuel (length pre) q) ≡ pre ++ others out post
  unfolding filter_loop others
  filter_loop_lem out fuel q pre [] e a h =
      ap fifo.view (filter-stop out fuel q (length pre) (ap length (e ∙ append_nil pre))) ∙ e
  filter_loop_lem out zero q pre (x ∷ post) e a h = absurd (omega arith)
  filter_loop_lem out (suc fuel) q pre (x ∷ post) e a h =
      let at : k.lookup (length pre) q ≡ some x =
        fifo.lookup-view (length pre) q
        ∙ ap (λ l. get_elem? l (length pre)) e
        ∙ get_elem?-append pre x post in
      let below : ltb (length pre) (k.length_of q) ≡ true =
        ground (arith, fifo.length-view q, ap length e, length-append pre (x ∷ post)) in
      elim (Bool-cases (out x)) [
        | inl t ↦
            rw (filter_loop, below, at, t)
              (filter_loop_lem out fuel (k.remove x q) pre post
                (fifo.view-remove x q
                  ∙ ap (erase same x) e
                  ∙ erase-append same x pre post (none_asked out x pre a t))
                a (omega arith))
        | inr f ↦
            rw (filter_loop, below, at, f, sym (length-snoc pre x))
              (filter_loop_lem out fuel q (pre ++ x ∷ []) post
                  (e ∙ sym (append_assoc pre (x ∷ []) post))
                  (All-snoc (λ y. out y ≡ false) pre x a f) (omega arith)
                ∙ append_assoc pre (x ∷ []) (others out post))
      ]

  -- `filter` with a predicate takes out every packet that it holds for; the others stay, in their
  -- order, and nothing else of the queue changes.
  pub filter_lem :
      (out : P → Bool) (s : DropTail Q P)
      → (held fifo (filter k out s) ≡ others out (held fifo s))
        × (filter k out s ≡ record s { q = (filter k out s).q })
  unfolding filter
  filter_lem out s = (
    filter_loop_lem out (k.length_of s.q) s.q [] (held fifo s) refl tt
        (omega (arith, fifo.length-view s.q)),
    refl,
  )

  -- What `filter` for the next hop `id` makes of `s`.
  pub data Taken (h : Headers P) (id : ℤ) (s : DropTail Q P)
      : Option P → DropTail Q P → Type 0 where
    absent : All (λ x. h.next_hop x ≢ id) (held fifo s) → Taken h id s none s
    first :
        (xs ys : List P) (p : P) (q : Q)
        → held fifo s ≡ xs ++ p ∷ ys
        → All (λ x. h.next_hop x ≢ id) xs
        → h.next_hop p ≡ id
        → fifo.view q ≡ xs ++ ys
        → Taken h id s (some p) (with_q q s)

  module _ (h : Headers P) (id : ℤ) where
    Goes : P → Type 0
    Goes x = h.next_hop x ≡ id

    not_to : (xs : List P) (p : P) → All (λ x. ¬ Goes x) xs → Goes p → ¬ Among p xs
    unfolding Goes
    not_to [] p a y = λ m. m
    not_to (x ∷ xs) p a y = elim [ inl e ↦ a.0 (ap h.next_hop e ∙ y) | inr m ↦ not_to xs p a.1 y m ]

    Found : (fuel : ℕ) (q : Q) (pre post : List P) → Type 0
    Found fuel q pre post =
        (xs : List P) × (p : P) × (ys : List P) × (post ≡ xs ++ p ∷ ys)
        × All (λ x. ¬ (h.next_hop x ≡ id)) xs
        × (h.next_hop p ≡ id)
        × (find_hop k h id fuel (length pre) (last? pre) q ≡ some (p, last? (pre ++ xs)))

    Missed : (fuel : ℕ) (q : Q) (pre post : List P) → Type 0
    Missed fuel q pre post =
        All (λ x. ¬ (h.next_hop x ≡ id)) post
        × (find_hop k h id fuel (length pre) (last? pre) q ≡ none)

    find_hop_lem :
        (fuel : ℕ) (q : Q) (pre post : List P)
        → fifo.view q ≡ pre ++ post
        → length post < fuel
        → Found fuel q pre post ⊎ Missed fuel q pre post
    unfolding Found Missed find_hop
    find_hop_lem zero q pre post e lt = absurd (omega arith)
    find_hop_lem (suc fuel) q pre [] e lt =
        let at : k.lookup (length pre) q ≡ none =
          fifo.lookup-view (length pre) q
          ∙ ap (λ l. get_elem? l (length pre)) (e ∙ append_nil pre)
          ∙ get_elem?-end pre in
        inr (tt, rw (find_hop, at) refl)
    find_hop_lem (suc fuel) q pre (x ∷ post) e lt =
        let at : k.lookup (length pre) q ≡ some x =
          fifo.lookup-view (length pre) q
          ∙ ap (λ l. get_elem? l (length pre)) e
          ∙ get_elem?-append pre x post in
        elim (ℤ_discrete (h.next_hop x) id) [
          | yes y ↦
              inl ([], x, post, refl, tt, y, rw (find_hop, at, if_pos _ y, append_nil pre) refl)
          | no n ↦
              let next : find_hop k h id (suc fuel) (length pre) (last? pre) q
                  ≡ find_hop k h id fuel (length (pre ++ x ∷ [])) (last? (pre ++ x ∷ [])) q =
                rw (find_hop, at, if_neg _ n, length-snoc pre x, last?-append pre x) refl in
              elim (find_hop_lem fuel q (pre ++ x ∷ []) post
                (e ∙ sym (append_assoc pre (x ∷ []) post)) (omega arith)) [
                  | inl (xs, p, ys, e', a, y, f) ↦ inl (
                    x ∷ xs,
                    p,
                    ys,
                    ap (λ l. x ∷ l) e',
                    (n, a),
                    y,
                    next ∙ f ∙ ap (λ l. some (p, last? l)) (append_assoc pre (x ∷ []) xs),
                  )
                  | inr (a, f) ↦ inr ((n, a), next ∙ f)
                ]
        ]

    view-take_out :
        (p : P) (xs ys : List P) (q : Q)
        → fifo.view q ≡ xs ++ p ∷ ys
        → ¬ Among p xs
        → fifo.view (take_out k p (last? xs) q) ≡ xs ++ ys
    unfolding take_out
    view-take_out p xs ys q e out = elim (last-cases xs) [
      | inl n ↦
          rw (take_out, ap last? n)
            (fifo.view-remove p q ∙ ap (erase same p) e ∙ erase-append same p xs ys out)
      | inr (zs, z, n) ↦
          let split : (ws : List P) → xs ++ ws ≡ zs ++ z ∷ ws =
            λ ws. ap (λ l. l ++ ws) n ∙ append_assoc zs (z ∷ []) ws in
          rw (take_out, ap last? n ∙ last?-append zs z)
            (fifo.view-remove_after p z q zs ys (e ∙ split (p ∷ ys))
                (subst (λ l. ¬ Among p l) n out)
              ∙ sym (split ys))
    ]

    -- `filter` for a next hop takes out the first packet to that hop and returns it; without one it
    -- returns null and changes nothing.
    pub filter_id_lem :
        (s : DropTail Q P) → Taken h id s (filter_id k h id s).0 (filter_id k h id s).1
    unfolding filter_id Found Missed Goes
    filter_id_lem s =
        elim (find_hop_lem (suc (k.length_of s.q)) s.q [] (held fifo s) refl
          (omega (arith, fifo.length-view s.q))) [
            | inr (a, f) ↦ rw (filter_id, f) (absent a)
            | inl (xs, p, ys, e, a, y, f) ↦
                rw (filter_id, f)
                  (first xs ys p (take_out k p (last? xs) s.q) e a y
                    (view-take_out p xs ys s.q e (not_to xs p a y)))
          ]
