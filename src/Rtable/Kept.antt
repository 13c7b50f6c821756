-- ===== src/Rtable/Kept.antt =====
-- `calc_next` and `calc_destination` change no row.
use ant_aodv.Base.{◌≡◌, Option, none, some, arith}
use ant_aodv.Base.Result.{ok, fault, Fault, >>=-eq-ok}
use ant_aodv.Double.{Double}
use ant_aodv.StdMap.{find}
use ant_aodv.Rtable.{
  AntnetRtable, PheromoneMatrix, Links, NsAddr, Range, calc_next, calc_destination, choose, sample,
  draw_outside, pick, fix_urange, parent_range, start, nonzero_total, queue_total, draw_destination,
}

module _ {W : Type 0} ⦃d : Double W⦄ where
  sample-rt :
      (l : Links) (t : AntnetRtable W) (source : NsAddr) (q : W) (s : Range W)
      (row : PheromoneMatrix W) (a : NsAddr) (t' : AntnetRtable W)
      → sample l t source q s row ≡ ok (a, t')
      → t'.rt ≡ t.rt
  unfolding sample
  sample-rt l t source q s row a t' h =
      let ((x, ys), _, picks) = >>=-eq-ok (draw_outside s.lrange s.urange t.rnum.doubles) _ h in
      let (b, _, same) = >>=-eq-ok (pick l source q x start row) _ picks in cc

  choose-rt :
      (l : Links) (t : AntnetRtable W) (source parent : NsAddr) (q : W) (row : PheromoneMatrix W)
      (a : NsAddr) (t' : AntnetRtable W)
      → choose l t source parent q row ≡ ok (a, t')
      → t'.rt ≡ t.rt
  unfolding choose
  choose-rt l t source parent q row a t' h =
      let s = fix_urange (parent_range l source parent q start row) in
      ground (arith, sample-rt l t source q s row a t')

  pub calc_next-rt :
      (l : Links) (t : AntnetRtable W) (source dest parent a : NsAddr) (t' : AntnetRtable W)
      → calc_next l t source dest parent ≡ ok (a, t')
      → t'.rt ≡ t.rt
  unfolding calc_next
  calc_next-rt l t source dest parent a t' h = from_row (find dest t.rt) h
    where
      from_row :
          (found : Option (PheromoneMatrix W))
          → elim found [
            | none ↦ fault Fault.no_return
            | some row ↦
                choose l t source parent (nonzero_total (queue_total l source d.nought row)) row
          ]
            ≡ ok (a, t')
          → t'.rt ≡ t.rt
      from_row none h = cc
      from_row (some row) h =
          choose-rt l t source parent (nonzero_total (queue_total l source d.nought row)) row a t' h

  pub calc_destination-rt :
      (t : AntnetRtable W) (source a : NsAddr) (t' : AntnetRtable W)
      → calc_destination t source ≡ ok (a, t')
      → t'.rt ≡ t.rt
  unfolding calc_destination
  calc_destination-rt t source a t' h =
      let ((x, ints), _, same) = >>=-eq-ok (draw_destination source t.rnum.ints) _ h in cc

  pub calc_destination-doubles :
      (t : AntnetRtable W) (source a : NsAddr) (t' : AntnetRtable W)
      → calc_destination t source ≡ ok (a, t')
      → t'.rnum.doubles ≡ t.rnum.doubles
  unfolding calc_destination
  calc_destination-doubles t source a t' h =
      let ((x, ints), _, same) = >>=-eq-ok (draw_destination source t.rnum.ints) _ h in cc
