-- ===== src/Trace/Nam/Overflow.antt =====
-- The array `ptype` of `nam_format`, and the packet types whose names do not fit.
use Prim.Native.String.{String}
use ant_aodv.Base.{
  ◌≡◌, refl, sym, ap, ◌∙◌, Bool, true, false, not, if◌then◌else◌, ◌==◌, ◌||◌, ltb, ◌<◌, ◌+◌, List,
  ℕ, length, Option, none, some, arith,
}
use ant_aodv.Base.Result.{Result, ok, ok-injective, fault, Fault}
use ant_aodv.Base.Text.{codes}
use ant_aodv.Packet.Types.{
  PacketT, pt_mac, pt_ntype, pt_dccp_req, pt_dccp_resp, pt_dccp_dataack, pt_dccp_closereq,
  pt_ctr_mcast_encap, pt_ctr_mcast_decap, pt_teardown, pt_tfrc_ack, pt_bltrace,
}
use ant_aodv.Packet.Info.{PInfo, PacketClass, assign, init_name, name_of, name_at}
use ant_aodv.Packet.Info.Names.{table, init-table, all_below, back-below}
use ant_aodv.Trace.State.{World, CmuTrace, eot, type_name}
use ant_aodv.Trace.Nam.{copy_ptype, nam_ptype, nam_format}

-- The types to which `initName` gives a name of more than ten characters.
unfoldable pub is_overlong : PacketT → Bool
is_overlong t =
    t == pt_dccp_req
    || t == pt_dccp_resp
    || t == pt_dccp_dataack
    || t == pt_dccp_closereq
    || t == pt_ctr_mcast_encap
    || t == pt_ctr_mcast_decap
    || t == pt_teardown
    || t == pt_tfrc_ack
    || t == pt_bltrace

-- The name has more than ten characters exactly if this is expected.
unfoldable is_expected : (overlong : Bool) → Result (Option String) → Bool
is_expected overlong (fault e) = false
is_expected overlong (ok none) = false
is_expected overlong (ok (some n)) =
    if overlong then not (ltb (length (codes n)) 11) else ltb (length (codes n)) 11

all_expected :
    (pc : List (PacketT → PacketClass))
    → all_below (λ t. is_expected (is_overlong t) (name_of (table pc) t)) 75 ≡ true
unfolding table all_below is_expected is_overlong name_of name_at assign
all_expected pc = refl

is_expected_lem :
    (overlong : Bool) (r : Result (Option String))
    → is_expected overlong r ≡ true
    → (n : String) × (r ≡ ok (some n)) × (ltb (length (codes n)) 11 ≡ not overlong)
unfolding is_expected
is_expected_lem overlong (fault e) h = absurd (ground (arith, h))
is_expected_lem overlong (ok none) h = absurd (ground (arith, h))
is_expected_lem true (ok (some n)) h = (n, refl, ground (arith, h))
is_expected_lem false (ok (some n)) h = (n, refl, h)

module _ {W P : Type 0} (w : World W P) where
  -- What `nam_format` does with the name of the type of the packet.
  unfoldable pub Copies : CmuTrace W P → P → (overlong : Bool) → Type 0
  Copies s p true = nam_format w s p ≡ fault Fault.out_of_bounds
  Copies s p false =
      (n : List ℕ) × (type_name w (w.headers.cmn p).ptype ≡ ok n) × (nam_ptype w p ≡ ok n)

  type_name-named :
      (t : PacketT) (n : String)
      → name_of w.packet_info t ≡ ok (some n)
      → type_name w t ≡ ok (codes n)
  unfolding type_name
  type_name-named t n named = rw named refl

  copies_lem :
      (s : CmuTrace W P) (p : P) (name : List ℕ) (b : Bool)
      → s.type == eot ≡ false
      → (w.headers.cmn p).ptype == pt_mac ≡ false
      → type_name w (w.headers.cmn p).ptype ≡ ok name
      → ltb (length name) 11 ≡ not b
      → Copies s p b
  unfolding Copies nam_format nam_ptype copy_ptype
  copies_lem s p name true open_trace other named long =
      rw (open_trace, other, named) (rw long refl)
  copies_lem s p name false open_trace other named short =
      (name, named, rw (other, named) (rw short refl))

  -- With the names that `initName` gives, `nam_format` of a trace that is not one of an end copies the
  -- name of a packet's type behind the end of its array `ptype` for nine types: four of DCCP, the two
  -- of multicast encapsulation, the teardown, TFRC's acknowledgement, and the Bell Labs trace. For all
  -- other types but that of the MAC the whole name is copied.
  pub nam_format-overflow :
      (s : CmuTrace W P) (p : P) (info : PInfo)
      → info.n_pkt ≡ 0
      → init_name info ≡ ok w.packet_info
      → s.type == eot ≡ false
      → (w.headers.cmn p).ptype < pt_ntype + 1
      → (w.headers.cmn p).ptype == pt_mac ≡ false
      → Copies s p (is_overlong (w.headers.cmn p).ptype)
  nam_format-overflow s p info empty init open_trace within other =
      let t = (w.headers.cmn p).ptype in
      let same = ok-injective (sym (init-table info empty) ∙ init) in
      let (n, named, size) = is_expected_lem (is_overlong t) (name_of (table info.pc) t) (
        back-below (λ t. is_expected (is_overlong t) (name_of (table info.pc) t)) 75 t
          (all_expected info.pc) within) in
      copies_lem s p (codes n) (is_overlong t) open_trace other
        (type_name-named t n (ap (λ i. name_of i t) (sym same) ∙ named)) size
