-- ===== src/Agent/Receive/Journey.antt =====
-- The whole way back of an ant, from node to node.
use mathlib.Core.List.{append_assoc, reverse, reverse-cons}
use ant_aodv.Base.{
  ◌≡◌, ◌≢◌, refl, sym, ap, subst, ◌∙◌, inl, inr, ℤ, List, [], ◌∷◌, ◌++◌, Among, Distinct,
}
use ant_aodv.Nodes.{Among-append, Distinct-ahead}
use ant_aodv.Base.Result.{ok}
use ant_aodv.Double.{Double}
use ant_aodv.Ant.{Packet, path}
use ant_aodv.Agent.{Env, Sim, Action, upwards}
use ant_aodv.Agent.Receive.{recv}
use ant_aodv.Agent.Receive.Backward.{IsBackward, IsAt, recv_hop, recv_home}

-- The last of `x` and what follows it.
abbrev pub last_of : ℤ → List ℤ → ℤ
last_of x [] = x
last_of x (y ∷ xs) = last_of y xs

Among-last_of : (x : ℤ) (xs : List ℤ) → Among (last_of x xs) (x ∷ xs)
Among-last_of x [] = inl refl
Among-last_of x (y ∷ xs) = inr (Among-last_of y xs)

Among-append_left : (x : ℤ) (xs ys : List ℤ) → Among x xs → Among x (xs ++ ys)
Among-append_left x [] ys m = elim m [ ]
Among-append_left x (z ∷ xs) ys (inl e) = inl e
Among-append_left x (z ∷ xs) ys (inr m) = inr (Among-append_left x xs ys m)

Among-reverse : (x : ℤ) (xs : List ℤ) → Among x xs → Among x (reverse xs)
Among-reverse x [] m = elim m [ ]
Among-reverse x (y ∷ xs) (inl e) =
    subst (Among x) (sym (reverse-cons y xs)) (Among-append x (reverse xs) (y ∷ []) (inl e))
Among-reverse x (y ∷ xs) (inr m) =
    subst (Among x) (sym (reverse-cons y xs))
      (Among-append_left x (reverse xs) (y ∷ []) (Among-reverse x xs m))

pub reverse-split : (x : ℤ) (xs ys : List ℤ) → reverse (x ∷ xs) ++ ys ≡ reverse xs ++ x ∷ ys
reverse-split x xs ys =
    ap (λ l. l ++ ys) (reverse-cons x xs) ∙ append_assoc (reverse xs) (x ∷ []) ys

module _ {W : Type 0} ⦃d : Double W⦄ (env : Env W) (node : ℤ → Sim W) where
  -- The ant `p`, received at `a`, is sent on from node to node along the route, and is released at
  -- the end of it. `node` gives the state in which each node is then.
  pub data Travels : ℤ → Packet W → List ℤ → Type 0 where
    home :
        {a : ℤ} {p : Packet W} (s : Sim W)
        → recv env (node a) p ≡ ok s
        → s.actions ≡ (node a).actions ++ Action.free p ∷ []
        → Travels a p (a ∷ [])
    hop :
        {a : ℤ} {p : Packet W} {route : List ℤ} (b : ℤ) (p' : Packet W) (s : Sim W)
        → recv env (node a) p ≡ ok s
        → s.actions ≡ (node a).actions ++ Action.send p' ∷ []
        → p'.ip.daddr ≡ b
        → Travels b p' route
        → Travels a p (a ∷ route)

  -- A backward ant for the ants' port comes to `a` from another node, bound for the first node of its
  -- path; its memory is valid, the path has no repetition, and `a` is not the last node of it; the
  -- agent of each node has the node's address. Then it travels from `a` back along the path to its
  -- first node, where it is released.
  pub Travels-back :
      (at : (a : ℤ) → IsAt (node a) a) (back : List ℤ) (a next : ℤ) (behind : List ℤ) (p : Packet W)
      → IsBackward p a
      → path p.ant ≡ reverse back ++ a ∷ next ∷ behind
      → Distinct (path p.ant)
      → p.ant.pkt_dst ≡ last_of a back
      → Travels a p (a ∷ back)
  Travels-back at [] a next behind p b h u e =
      let here : a ≡ (node a).agent.addr = sym (at a).addr in
      let (s, r, done) =
        recv_home env (node a) p next behind (subst (IsAt (node a)) here (at a))
          (subst (IsBackward p) here b) (subst (λ z. path p.ant ≡ z ∷ next ∷ behind) here h) u
          (sym here ∙ sym e) in
      home s r done
  Travels-back at (x ∷ back) a next behind p b h u e =
      let here : a ≡ (node a).agent.addr = sym (at a).addr in
      let split : path p.ant ≡ reverse back ++ x ∷ a ∷ next ∷ behind =
        h ∙ reverse-split x back (a ∷ next ∷ behind) in
      let out : ¬ Among a (reverse (x ∷ back)) =
        Distinct-ahead a (reverse (x ∷ back)) (next ∷ behind) (subst Distinct h u) in
      let far : a ≢ p.ant.pkt_dst = λ q. out (
        Among-reverse a (x ∷ back)
          (subst (λ z. Among z (x ∷ back)) (sym e ∙ sym q) (Among-last_of x back))) in
      let (s, r, done) =
        recv_hop env (node a) p (reverse back) x next behind (subst (IsAt (node a)) here (at a))
          (subst (IsBackward p) here b)
          (subst (λ z. path p.ant ≡ reverse back ++ x ∷ z ∷ next ∷ behind) here split) u
          (λ q. far (here ∙ q)) in
      let p' = upwards (node a).agent.addr x p in
      let other : (node a).agent.addr ≢ x =
        λ q. out (Among-reverse a (x ∷ back) (inl (sym q ∙ sym here))) in
      hop x p' s r done refl (
        Travels-back at back x a (next ∷ behind) p'
          (record {
            ptype = refl;
            direction = refl;
            sport = b.sport;
            dport = b.dport;
            other = other;
            valid = b.valid;
          })
          split u e)
