-- ===== src/Agent/Ready/Kept.antt =====
-- Every step keeps a node ready.
use ant_aodv.Base.{
  ℕ, suc, ◌-◌, ◌≡◌, refl, subst, inl, inr, if_pos, if_neg, if◌then◌else◌, is_pos, ◌==◌, ℤ, pos,
  ℤ_discrete, List, [], ◌∷◌, arith, Among, Distinct,
}
use ant_aodv.Base.Result.{ok, ok-injective, >>=-eq-ok, ite-eq-ok, if-eq-ok}
use ant_aodv.Double.{Double}
use ant_aodv.Double.Laws.{IsUnit, IsOrdered, IsRounded, IsExact}
use ant_aodv.StdMap.{find-adjust}
use ant_aodv.Packet.{Dir}
use ant_aodv.Rtable.{AntnetRtable, update, update_row}
use ant_aodv.Rtable.Shares.{AreShared, update-AreShared}
use ant_aodv.Ant.{Packet, Memory, read, find_here, entries_from}
use ant_aodv.Packet.Types.{pt_ant}
use ant_aodv.Agent.{Action, does, drop_rtr_route_loop, Env, Sim}
use ant_aodv.Agent.Receive.{
  recv, recv_ant_pkt, recv_by_direction, recv_backward, update_dests, update_table,
  backward_ant_pkt,
}
use ant_aodv.Agent.Ready.{IsReady, HasRows, IsLinked, Step, Steps}
use ant_aodv.Agent.Ready.Same.{
  if_both, IsReady-does, backward_ant_pkt-IsReady, recv_forward-IsReady, expire-IsReady,
}

module _ {W : Type 0} ⦃d : Double W⦄ where
  HasRows-update :
      {here : ℤ} {n : ℕ} (r : W) (t : AntnetRtable W) (dest next : ℤ)
      → HasRows here n t
      → HasRows here n (update r t dest next)
  unfolding update
  HasRows-update r t dest next rows m lt ne =
      let (row, f) = rows m lt ne in
      elim (ℤ_discrete (pos m) dest) [
        | yes e ↦ (update_row r next row, rw (find-adjust, if_pos _ e, f))
        | no o ↦ (row, rw (find-adjust, if_neg _ o, f))
      ]

  HasRows-update_dests :
      {here : ℤ} {n : ℕ} (r : W) (next : ℤ) (m : List (Memory W)) (t : AntnetRtable W)
      → HasRows here n t
      → HasRows here n (update_dests r next m t)
  unfolding update_dests
  HasRows-update_dests r next [] t rows = rows
  HasRows-update_dests r next (e ∷ m) t rows =
      HasRows-update_dests r next m (update r t e.node_addr next)
        (HasRows-update r t e.node_addr next rows)

  module _ (order : IsOrdered W) (rounded : IsRounded W) (exact : IsExact W) (nbs : List ℤ)
      (apart : Distinct nbs) where
    update_dests-AreShared :
        (r : W) (next : ℤ) (m : List (Memory W)) (t : AntnetRtable W)
        → IsUnit r
        → Among next nbs
        → AreShared nbs t
        → AreShared nbs (update_dests r next m t)
    unfolding update_dests
    update_dests-AreShared r next [] t u a v = v
    update_dests-AreShared r next (e ∷ m) t u a v =
        update_dests-AreShared r next m (update r t e.node_addr next) u a
          (update-AreShared order rounded exact r u nbs apart t e.node_addr next a v)

    update_table-IsReady :
        {here : ℤ} {n : ℕ} (env : Env W) (s s' : Sim W) (p : Packet W)
        → p.cmn.direction ≡ Dir.up
        → IsLinked here nbs p
        → update_table env s p ≡ ok s'
        → IsReady here nbs n s
        → IsReady here nbs n s'
    unfolding update_table
    update_table-IsReady {here} {n} env s s' p up linked h v =
        let ah = p.ant in
        let (i, found, rest) = >>=-eq-ok (find_here s.agent.addr ah.pkt_memory) _ h in
        let (next, reads, rest') = >>=-eq-ok (read ah.pkt_memory (suc i)) _ rest in
        let (visited, _, done) =
          >>=-eq-ok (entries_from ah.pkt_memory (suc i) (ah.pkt_mem_size - suc i)) _ rest' in
        let a =
          linked up i next (subst (λ z. find_here z ah.pkt_memory ≡ ok i) v.at.addr found) reads in
        subst (IsReady here nbs n) (ok-injective done) (record {
          at = record { addr = v.at.addr; ra_addr = v.at.ra_addr };
          unit = v.unit;
          shared =
              update_dests-AreShared s.globals.r next.node_addr visited s.agent.rtable v.unit a
                v.shared;
          rows = HasRows-update_dests s.globals.r next.node_addr visited s.agent.rtable v.rows;
        })

    recv_backward-IsReady :
        {here : ℤ} {n : ℕ} (env : Env W) (s s' : Sim W) (p : Packet W)
        → p.cmn.direction ≡ Dir.up
        → IsLinked here nbs p
        → recv_backward env s p ≡ ok s'
        → IsReady here nbs n s
        → IsReady here nbs n s'
    unfolding recv_backward
    recv_backward-IsReady {here} {n} env s s' p up linked h v =
        let (s1, taught, done) = >>=-eq-ok (update_table env s p) _ h in
        let v1 = update_table-IsReady env s s1 p up linked taught v in
        elim (ite-eq-ok (ℤ_discrete s.agent.addr p.ant.pkt_dst) (ok (does (Action.free p) s1))
          (backward_ant_pkt s1 p) done) [
            | inl home ↦
                subst (IsReady here nbs n) (ok-injective home) (IsReady-does (Action.free p) s1 v1)
            | inr on ↦ backward_ant_pkt-IsReady s1 s' p on v1
          ]

    recv_by_direction-IsReady :
        {here : ℤ} {n : ℕ} (env : Env W) (s s' : Sim W) (p : Packet W) (dir : Dir)
        → p.cmn.direction ≡ dir
        → IsLinked here nbs p
        → recv_by_direction dir env s p ≡ ok s'
        → IsReady here nbs n s
        → IsReady here nbs n s'
    unfolding recv_by_direction
    recv_by_direction-IsReady {here} {n} env s s' p Dir.down e linked h v =
        recv_forward-IsReady env s s' p h v
    recv_by_direction-IsReady {here} {n} env s s' p Dir.none e linked h v =
        subst (IsReady here nbs n) (ok-injective h) v
    recv_by_direction-IsReady {here} {n} env s s' p Dir.up e linked h v =
        recv_backward-IsReady env s s' p e linked h v

    recv_ant_pkt-IsReady :
        {here : ℤ} {n : ℕ} (env : Env W) (s s' : Sim W) (p : Packet W)
        → IsLinked here nbs p
        → recv_ant_pkt env s p ≡ ok s'
        → IsReady here nbs n s
        → IsReady here nbs n s'
    unfolding recv_ant_pkt
    recv_ant_pkt-IsReady {here} {n} env s s' p linked h v =
        recv_by_direction-IsReady env s s' p p.cmn.direction refl linked (ground (arith, h)) v

    recv-IsReady :
        {here : ℤ} {n : ℕ} (env : Env W) (s s' : Sim W) (p : Packet W)
        → IsLinked here nbs p
        → recv env s p ≡ ok s'
        → IsReady here nbs n s
        → IsReady here nbs n s'
    unfolding recv
    recv-IsReady {here} {n} env s s' p linked h v =
        let dropped = IsReady-does (Action.drop p drop_rtr_route_loop) s v in
        let looped =
          if is_pos p.cmn.num_forwards then does (Action.drop p drop_rtr_route_loop) s else s in
        let other = ok (does (Action.drop p drop_rtr_route_loop) s) in
        let rest = if p.cmn.ptype == pt_ant then recv_ant_pkt env s p else other in
        elim (ite-eq-ok (ℤ_discrete p.ip.saddr s.agent.ra_addr) (ok looped) rest h) [
          | inl own ↦
              subst (IsReady here nbs n) (ok-injective own)
                (if_both (IsReady here nbs n) (is_pos p.cmn.num_forwards) dropped v)
          | inr others ↦
              elim (if-eq-ok (p.cmn.ptype == pt_ant) (recv_ant_pkt env s p) other others) [
                | inl ant ↦ recv_ant_pkt-IsReady env s s' p linked ant v
                | inr gone ↦ subst (IsReady here nbs n) (ok-injective gone) dropped
              ]
        ]

    -- What holds of the node now holds of it after any steps.
    pub Steps-IsReady :
        {here : ℤ} {n : ℕ} {s s' : Sim W}
        → Steps here nbs s s'
        → IsReady here nbs n s
        → IsReady here nbs n s'
    Steps-IsReady Steps.none v = v
    Steps-IsReady (Steps.more (Step.receives env p linked h) rest) v =
        Steps-IsReady rest (recv-IsReady env _ _ p linked h v)
    Steps-IsReady (Steps.more (Step.expires env h) rest) v =
        Steps-IsReady rest (expire-IsReady env _ _ h v)
    Steps-IsReady (Steps.more (Step.others g u) rest) v = Steps-IsReady rest (record {
      at = record { addr = v.at.addr; ra_addr = v.at.ra_addr };
      unit = u;
      shared = v.shared;
      rows = v.rows;
    })
