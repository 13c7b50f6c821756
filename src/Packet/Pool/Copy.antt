-- ===== src/Packet/Pool/Copy.antt =====
-- `Packet::copy`: an equal packet that shares nothing with the one copied.
use ant_aodv.Base.{ℕ, ◌≡◌, ◌≢◌, refl, sym, ap, ◌∙◌, subst, pos, true, false, List, none, some}
use ant_aodv.Base.Result.{ok}
use ant_aodv.Base.Heap.{write_at-same, write_at-other, store}
use ant_aodv.Packet.Pool.{Packet, Pool, Outside, options_of, copy}
use ant_aodv.Packet.Pool.Invariant.{IsFree-write, IsPool, IsHeaders, true-false}
use ant_aodv.Packet.Pool.Alloc.{alloc_lem, taken, untaken}
use ant_aodv.Packet.Pool.Twin.{
  IsTwin, IsSameBits, IsOwned-twin, twin_data, IsCopyable, copy_data_lem, copy_options_lem,
}

module _ {H W S X O : Type 0} (e : Outside H W S X) where
  -- `q`, not in use before, is a packet in use with one owner and no link, equal to `x` in all header
  -- bits but the pointer to the DCCP options, and stamped with what `x` has in `txinfo_`; its user data and its options are new objects, equal to those of `x`, or copies as the
  -- class of the data makes them.
  pub record IsCopied (q : ℕ) (x : Packet H W S) (s s' : Pool H W S X O) : Type 0 where
    pub unused : (z : Packet H W S) → s.packets.cell q ≡ some z → z.fflag ≡ false
    pub packet : Packet H W S
    pub found : s'.packets.cell q ≡ some packet
    pub in_use : packet.fflag ≡ true
    pub one_owner : packet.ref_count ≡ pos 0
    pub unlinked : packet.next ≡ none
    pub same_header : e.headers.cmn packet.bits ≡ e.headers.cmn x.bits
    pub same_bits : IsSameBits e.headers x.bits s.options packet.bits
    pub stamped : (old : S) × (packet.txinfo ≡ e.stamp old x.txinfo)
    pub data_twin : IsTwin (twin_data e.appdata) x.userdata s.appdata packet.userdata s'.appdata
    pub options_twin :
        IsTwin
          (λ o. o)
          (options_of e.headers x.bits)
          s.options
          (options_of e.headers packet.bits)
          s'.options
    pub others : (r : ℕ) → q ≢ r → s'.packets.cell r ≡ s.packets.cell r

  -- On a well-formed pool, `copy` of a packet in use, whose array of user data is as long as it says,
  -- returns a packet that was not in use: the first of the free list, or a new one. It has one owner,
  -- all header bits of the one copied but for the pointer to its DCCP options, and its `txinfo_` is
  -- initialised from that of the one copied. Its user data and its DCCP options are new objects with the same
  -- contents (for other classes of data: what their `copy` gives). No other packet changes, the one
  -- copied included, and the pool stays well formed. The header bits are assumed to keep the laws of
  -- `IsHeaders`.
  pub copy_lem :
      (s : Pool H W S X O) (spare : List ℕ) (p : ℕ) (x : Packet H W S)
      → IsHeaders e.headers
      → IsPool e.headers s spare
      → s.packets.cell p ≡ some x
      → x.fflag ≡ true
      → IsCopyable e.appdata x.userdata s.appdata
      → (s' : Pool H W S X O) × (copy e p s ≡ ok (taken s.packets.fresh spare, s'))
        × IsCopied (taken s.packets.fresh spare) x s s'
        × IsPool e.headers s' (untaken spare)
  unfolding copy
  copy_lem s spare p x law v at flag whole =
      let q = taken s.packets.fresh spare in
      let (m, gives, made, valid) = alloc_lem e s spare law v in
      let differ = q_differs (made.unused) in
      let at' = made.others p differ ∙ at in
      let (bits, os, copies, same, all_bits, twin) =
        copy_options_lem e.headers law x.bits m.options
          (λ d has. valid.owns_options.held p x d at' has) in
      let (ds', ds, copies', twin') =
        copy_data_lem e.appdata x.userdata m.appdata (λ d has. valid.owns_data.held p x d at' has)
          (subst (IsCopyable e.appdata x.userdata) (sym made.appdata) whole) in
      let y = record (made.packet) {
        bits = bits;
        userdata = ds';
        txinfo = e.stamp made.packet.txinfo x.txinfo;
      } in
      (
        record { packets = store q y m.packets; free = m.free; appdata = ds; options = os },
        rw (gives, at', made.found, copies, copies') refl,
        record {
          unused = made.unused;
          packet = y;
          found = write_at-same q (some y) m.packets.cell;
          in_use = made.in_use;
          one_owner = made.one_owner;
          unlinked = made.unlinked;
          same_header = same;
          same_bits = subst (λ h. IsSameBits e.headers x.bits h bits) made.options all_bits;
          stamped = (made.packet.txinfo, refl);
          data_twin =
              subst (λ h. IsTwin (twin_data e.appdata) x.userdata h ds' ds) made.appdata twin';
          options_twin =
              subst
                (λ h.
                  IsTwin (λ o. o) (options_of e.headers x.bits) h (options_of e.headers bits) os)
                made.options twin;
          others = λ r n. write_at-other q (some y) m.packets.cell n ∙ made.others r n;
        },
        record {
          free_list =
              IsFree-write q made.packet y made.found made.in_use made.in_use (0, made.one_owner)
                valid.free_list;
          owns_data =
              IsOwned-twin (λ z. z.userdata) (twin_data e.appdata) x.userdata q y valid.owns_data
                twin';
          owns_options =
              IsOwned-twin (λ z. options_of e.headers z.bits) (λ o. o) (options_of e.headers x.bits)
                q y valid.owns_options twin;
        },
      )
    where
      q_differs :
          ((z : Packet H W S)
            → s.packets.cell (taken s.packets.fresh spare) ≡ some z
            → z.fflag ≡ false)
          → taken s.packets.fresh spare ≢ p
      q_differs unused same = true-false (sym flag ∙ unused x (ap s.packets.cell same ∙ at))
