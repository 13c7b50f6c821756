-- ===== src/Packet/Pool/Alloc.antt =====
-- `Packet::alloc`: which packet it returns, and that the pool stays well formed.
use ant_aodv.Base.{
  some-injective, ℕ, ◌<◌, pos, ◌≡◌, ◌≢◌, refl, sym, ap, ◌∙◌, Bool, true, false, if◌then◌else◌, List,
  [], ◌∷◌, none, some, arith,
}
use ant_aodv.Base.Result.{ok}
use ant_aodv.Base.Heap.{write_at-same, write_at-other, store, new_object}
use ant_aodv.Packet.Pool.{
  Headers, Packet, Pool, Outside, options_of, prepare, new_packet, alloc, is_null,
}
use ant_aodv.Packet.Pool.Owned.{IsOwned-without}
use ant_aodv.Packet.Pool.Invariant.{IsFree-new, IsFree-take, IsPool, IsHeaders}

not_below : {n : ℕ} → ¬ (n < n)
not_below less = omega arith

-- The packet that `alloc` takes: the first spare one, or a new one.
abbrev pub taken : ℕ → List ℕ → ℕ
taken fresh [] = fresh
taken fresh (p ∷ ps) = p

abbrev pub untaken : List ℕ → List ℕ
untaken [] = []
untaken (p ∷ ps) = ps

if-same : {A : Type 0} (b : Bool) (a : A) → (if b then a else a) ≡ a
if-same true a = refl
if-same false a = refl

pub options_of-zeroed :
    {H W : Type 0} (k : Headers H W) → IsHeaders k → options_of k k.zeroed ≡ none
unfolding options_of
options_of-zeroed k law = rw (law.options-zeroed, if-same) refl

module _ {H W S X : Type 0} (e : Outside H W S X) where
  -- New headers have no options.
  pub options_of-prepare :
      IsHeaders e.headers → (x : Packet H W S) → options_of e.headers (prepare e x).bits ≡ none
  unfolding options_of prepare
  options_of-prepare law x = rw (law.options-with_cmn, law.options-zeroed, if-same) refl

module _ {H W S X O : Type 0} (e : Outside H W S X) where
  -- `p` was not in use in `s`. In `s'` it is in use as a new packet is, and nothing else has changed.
  pub record IsAllocated (p : ℕ) (s s' : Pool H W S X O) : Type 0 where
    pub unused : (x : Packet H W S) → s.packets.cell p ≡ some x → x.fflag ≡ false
    pub packet : Packet H W S
    pub found : s'.packets.cell p ≡ some packet
    pub in_use : packet.fflag ≡ true
    pub clean : packet.bits ≡ (prepare e packet).bits
    pub no_data : packet.userdata ≡ none
    pub one_owner : packet.ref_count ≡ pos 0
    pub unlinked : packet.next ≡ none
    pub others : (q : ℕ) → p ≢ q → s'.packets.cell q ≡ s.packets.cell q
    pub appdata : s'.appdata ≡ s.appdata
    pub options : s'.options ≡ s.options

  -- On a well-formed pool `alloc` returns the first packet of the free list, or a new packet when
  -- the list is empty, and the pool stays well formed, with that packet off the list. The packet
  -- was not in use. Its headers are those of a new packet, it has no user data and no further
  -- references; no other packet, no user data and no options have changed. The header bits are
  -- assumed to keep the laws of `IsHeaders`.
  pub alloc_lem :
      (s : Pool H W S X O) (spare : List ℕ)
      → IsHeaders e.headers
      → IsPool e.headers s spare
      → (s' : Pool H W S X O) × (alloc e s ≡ ok (taken s.packets.fresh spare, s'))
        × IsAllocated (taken s.packets.fresh spare) s s'
        × IsPool e.headers s' (untaken spare)
  unfolding alloc prepare new_packet is_null
  alloc_lem s [] law v =
      let x = prepare e (new_packet e.raw) in
      let fresh = s.packets.fresh in
      (
        record s { packets = (new_object x s.packets).1 },
        rw (v.free_list.chain) refl,
        record {
          unused = λ y at. absurd (not_below (v.free_list.within fresh y at));
          packet = x;
          found = write_at-same fresh (some x) s.packets.cell;
          in_use = refl;
          clean = refl;
          no_data = refl;
          one_owner = refl;
          unlinked = refl;
          others = λ q n. write_at-other fresh (some x) s.packets.cell n;
          appdata = refl;
          options = refl;
        },
        record {
          free_list = IsFree-new x refl refl v.free_list;
          owns_data = IsOwned-without (λ y. y.userdata) fresh x refl v.owns_data;
          owns_options =
              IsOwned-without (λ y. options_of e.headers y.bits) fresh x
                (options_of-prepare e law (new_packet e.raw)) v.owns_options;
        },
      )
  alloc_lem s (p ∷ ps) law v =
      let (first, (old, at, is_spare, rest)) = v.free_list.chain in
      let x = prepare e (record old { uid = pos 0; time = e.time0 }) in
      (
        record s { packets = store p x s.packets; free = old.next },
        rw (first, at, is_spare.unflagged, is_spare.no_data) refl,
        record {
          unused = λ y at'. ap (λ z. z.fflag) (some-injective (sym at' ∙ at)) ∙ is_spare.unflagged;
          packet = x;
          found = write_at-same p (some x) s.packets.cell;
          in_use = refl;
          clean = refl;
          no_data = is_spare.no_data;
          one_owner = is_spare.unreferenced;
          unlinked = refl;
          others = λ q n. write_at-other p (some x) s.packets.cell n;
          appdata = refl;
          options = refl;
        },
        record {
          free_list = IsFree-take old x at refl is_spare.unreferenced rest v.free_list;
          owns_data = IsOwned-without (λ y. y.userdata) p x is_spare.no_data v.owns_data;
          owns_options =
              IsOwned-without (λ y. options_of e.headers y.bits) p x
                (options_of-prepare e law (record old { uid = pos 0; time = e.time0 }))
                v.owns_options;
        },
      )
