-- ===== src/Agent/Ready/Same.antt =====
-- Steps that change no row keep a node ready.
use ant_aodv.Base.{
  ℕ, ◌+◌, ◌%◌, ◌^◌, ◌≡◌, refl, sym, ap, subst, ◌∙◌, inl, inr, ite, Bool, true, false, if◌then◌else◌,
  ℤ, pos, ℤ_discrete, List, arith,
}
use ant_aodv.Base.Result.{ok, ok-injective, >>=-eq-ok, ite-eq-ok}
use ant_aodv.Double.{Double}
use ant_aodv.Double.Laws.{IsUnit}
use ant_aodv.StdMap.{find}
use ant_aodv.Rtable.{calc_next, calc_destination}
use ant_aodv.Rtable.Kept.{calc_next-rt, calc_destination-rt}
use ant_aodv.Ant.{Packet, find_back, before, last_second}
use ant_aodv.Agent.{Action, does, Env, Sim, with_rtable, links}
use ant_aodv.Agent.Send.{expire, send_ant_pkt, launch, reset_ant_timer}
use ant_aodv.Agent.Receive.{
  recv_forward, forward_ant_pkt, backward_ant_pkt, create_backward_ant_pkt, memorize_here, pass_on,
}
use ant_aodv.Agent.Ready.{IsReady}

module _ {W : Type 0} ⦃d : Double W⦄ where
  -- The parts of the state that every step keeps.
  record IsSame (s s' : Sim W) : Type 0 where
    addr : s'.agent.addr ≡ s.agent.addr
    ra_addr : s'.agent.ra_addr ≡ s.agent.ra_addr
    r : s'.globals.r ≡ s.globals.r

  IsReady-same :
      {here : ℤ} {nbs : List ℤ} {n : ℕ} {s s' : Sim W}
      → IsSame s s'
      → s'.agent.rtable.rt ≡ s.agent.rtable.rt
      → IsReady here nbs n s
      → IsReady here nbs n s'
  IsReady-same same e v = record {
    at = record { addr = same.addr ∙ v.at.addr; ra_addr = same.ra_addr ∙ v.at.ra_addr };
    unit = subst IsUnit (sym same.r) v.unit;
    shared = λ j row f. v.shared j row (ap (find j) (sym e) ∙ f);
    rows = λ m lt ne. let (row, f) = v.rows m lt ne in (row, ap (find (pos m)) e ∙ f);
  }

  pub if_both :
      (P : Sim W → Type 0) (b : Bool) {s s' : Sim W} → P s → P s' → P (if b then s else s')
  if_both P true p q = p
  if_both P false p q = q

  ite_both :
      {P : Type 0} (Q : Sim W → Type 0) (test : Dec P) {s s' : Sim W}
      → Q s
      → Q s'
      → Q (ite test s s')
  ite_both Q (yes _) p q = p
  ite_both Q (no _) p q = q

  pub IsReady-does :
      {here : ℤ} {nbs : List ℤ} {n : ℕ} (a : Action W) (s : Sim W)
      → IsReady here nbs n s
      → IsReady here nbs n (does a s)
  IsReady-does a s v = IsReady-same (record { addr = refl; ra_addr = refl; r = refl }) refl v

  pass_on-IsSame :
      (s : Sim W) (p : Packet W) (next : ℤ)
      → IsSame s (pass_on s p next) × ((pass_on s p next).agent.rtable.rt ≡ s.agent.rtable.rt)
  unfolding pass_on
  pass_on-IsSame s p next = ground arith

  forward_ant_pkt-IsReady :
      {here : ℤ} {nbs : List ℤ} {n : ℕ} (env : Env W) (s s' : Sim W) (p : Packet W)
      → forward_ant_pkt env s p ≡ ok s'
      → IsReady here nbs n s
      → IsReady here nbs n s'
  unfolding forward_ant_pkt
  forward_ant_pkt-IsReady {here} {nbs} {n} env s s' p h v =
      let ((next, t), chosen, done) =
        >>=-eq-ok (calc_next (links env s) s.agent.rtable s.agent.addr p.ant.pkt_dst p.ip.saddr) _
          h in
      let (same, rt) = pass_on-IsSame (with_rtable t s) p next in
      subst (IsReady here nbs n) (ok-injective done) (
        IsReady-same (record { addr = same.addr; ra_addr = same.ra_addr; r = same.r })
          (rt ∙ calc_next-rt _ _ _ _ _ next t chosen) v)

  create_backward_ant_pkt-IsReady :
      {here : ℤ} {nbs : List ℤ} {n : ℕ} (s s' : Sim W) (p : Packet W)
      → create_backward_ant_pkt s p ≡ ok s'
      → IsReady here nbs n s
      → IsReady here nbs n s'
  unfolding create_backward_ant_pkt
  create_backward_ant_pkt-IsReady {here} {nbs} {n} s s' p h v =
      let (e, _, done) = >>=-eq-ok (last_second p.ant.pkt_memory p.ant.pkt_mem_size) _ h in
      subst (IsReady here nbs n) (ok-injective done) (IsReady-does _ s v)

  pub backward_ant_pkt-IsReady :
      {here : ℤ} {nbs : List ℤ} {n : ℕ} (s s' : Sim W) (p : Packet W)
      → backward_ant_pkt s p ≡ ok s'
      → IsReady here nbs n s
      → IsReady here nbs n s'
  unfolding backward_ant_pkt
  backward_ant_pkt-IsReady {here} {nbs} {n} s s' p h v =
      let (found, _, rest) =
        >>=-eq-ok (find_back s.agent.addr p.ant.pkt_memory p.ant.pkt_mem_size) _ h in
      let (e, _, done) = >>=-eq-ok (before p.ant.pkt_memory found) _ rest in
      subst (IsReady here nbs n) (ok-injective done) (IsReady-does _ s v)

  pub recv_forward-IsReady :
      {here : ℤ} {nbs : List ℤ} {n : ℕ} (env : Env W) (s s' : Sim W) (p : Packet W)
      → recv_forward env s p ≡ ok s'
      → IsReady here nbs n s
      → IsReady here nbs n s'
  unfolding recv_forward
  recv_forward-IsReady {here} {nbs} {n} env s s' p h v =
      let (p', _, done) = >>=-eq-ok (memorize_here env s p) _ h in
      elim (ite-eq-ok (ℤ_discrete s.agent.addr p.ant.pkt_dst) (create_backward_ant_pkt s p')
        (forward_ant_pkt env s p') done) [
          | inl made ↦ create_backward_ant_pkt-IsReady s s' p' made v
          | inr gone ↦ forward_ant_pkt-IsReady env s s' p' gone v
        ]

  send_ant_pkt-IsReady :
      {here : ℤ} {nbs : List ℤ} {n : ℕ} (env : Env W) (s s' : Sim W)
      → send_ant_pkt env s ≡ ok s'
      → IsReady here nbs n s
      → IsReady here nbs n s'
  unfolding send_ant_pkt
  send_ant_pkt-IsReady {here} {nbs} {n} env s s' h v =
      let ((dest, t), drawn, rest) = >>=-eq-ok (calc_destination s.agent.rtable s.agent.addr) _ h in
      let (p, _, rest') = >>=-eq-ok (launch env s dest) _ rest in
      let ((next, t'), chosen, done) =
        >>=-eq-ok (calc_next (links env s) t s.agent.addr dest s.agent.addr) _ rest' in
      let s2 = record s {
        agent = record (s.agent) { rtable = t'; ant_seq_num = (s.agent.ant_seq_num + 1) % 2 ^ 8 };
      } in
      let v2 : IsReady here nbs n s2 =
        IsReady-same (record { addr = refl; ra_addr = refl; r = refl })
          (calc_next-rt _ t _ _ _ next t' chosen
            ∙ calc_destination-rt s.agent.rtable s.agent.addr dest t drawn)
          v in
      subst (IsReady here nbs n) (ok-injective done) (
        ite_both (IsReady here nbs n) (ℤ_discrete next s.agent.addr) (IsReady-does _ s2 v2)
          (IsReady-does _ s2 v2))

  pub expire-IsReady :
      {here : ℤ} {nbs : List ℤ} {n : ℕ} (env : Env W) (s s' : Sim W)
      → expire env s ≡ ok s'
      → IsReady here nbs n s
      → IsReady here nbs n s'
  unfolding expire reset_ant_timer
  expire-IsReady {here} {nbs} {n} env s s' h v =
      let (s1, sent, done) = >>=-eq-ok (send_ant_pkt env s) _ h in
      subst (IsReady here nbs n) (ok-injective done)
        (IsReady-does _ s1 (send_ant_pkt-IsReady env s s1 sent v))
