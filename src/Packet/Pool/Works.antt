-- ===== src/Packet/Pool/Works.antt =====
-- The operations on a packet in use refine the count of owners.
use ant_aodv.Base.{
  ℕ, suc, inl, inr, Option-cases, ℕ_discrete, ◌≡◌, ◌≢◌, refl, sym, ap, ◌∙◌, subst, ℤ, pos, true,
  false, List, Option, none, some, arith,
}
use ant_aodv.Base.Result.{ok, ok-injective}
use ant_aodv.Base.Heap.{write_at, write_at-same, write_at-other, store}
use ant_aodv.Packet.Data.{AppData, new_packet_data}
use ant_aodv.Packet.Pool.{
  Packet, Pool, Outside, options_of, allocdata, setdata, refcopy, succ_ℤ, is_null,
}
use ant_aodv.Packet.Pool.Owned.{IsOwned-same, IsOwned-new, delete_if_lem}
use ant_aodv.Packet.Pool.Invariant.{IsFree-write, IsPool}
use ant_aodv.Packet.Pool.Free.{owners, owners-in_use, owners-unused}
use ant_aodv.Packet.Pool.Reach.{Call, Move, ownership}

not_zero : {m n : ℕ} → m ≡ suc n → m ≢ 0
not_zero is z = omega (arith, is, z)

module _ {H W S : Type 0} where
  owners-same :
      (cell : ℕ → Option (Packet H W S)) (p : ℕ) (x y : Packet H W S)
      → cell p ≡ some x
      → owners (some y) ≡ owners (some x)
      → (q : ℕ) → owners (write_at p (some y) cell q) ≡ owners (cell q)
  owners-same cell p x y at same q = elim (ℕ_discrete p q) [
    | yes here ↦
        subst (λ r. owners (write_at p (some y) cell r) ≡ owners (cell r)) here
          (ap owners (write_at-same p (some y) cell) ∙ same ∙ ap owners (sym at))
    | no differ ↦ ap owners (write_at-other p (some y) cell differ)
  ]

  pub owners-none :
      (cell : ℕ → Option (Packet H W S)) (p : ℕ)
      → ((x : Packet H W S) → cell p ≡ some x → x.fflag ≡ false)
      → owners (cell p) ≡ 0
  unfolding owners
  owners-none cell p unused = elim (Option-cases (cell p)) [
    | inl is_none ↦ rw is_none refl
    | inr (x, at) ↦ owners-unused at (unused x at)
  ]

module _ {H W S X O : Type 0} (e : Outside H W S X) where
  -- The pool stays well formed, and the owners change by a move.
  unfoldable pub Refines : Pool H W S X O → Call → Pool H W S X O → Type 0
  Refines s call s' =
      (spare' : List ℕ) × IsPool e.headers s' spare' × Move call (ownership s) (ownership s')

  -- A packet in use with no further owners but those counted is written, other than by `free`.
  module _ (s : Pool H W S X O) (spare : List ℕ) (v : IsPool e.headers s spare) (p : ℕ)
      (x : Packet H W S) (at : s.packets.cell p ≡ some x) (flag : x.fflag ≡ true) where
    IsPool-works :
        (y : Packet H W S)
        → y.fflag ≡ true
        → (n : ℕ) × (y.ref_count ≡ pos n)
        → y.userdata ≡ x.userdata
        → options_of e.headers y.bits ≡ options_of e.headers x.bits
        → IsPool e.headers (record s { packets = store p y s.packets }) spare
    IsPool-works y flag' count data_same options_same = record {
      free_list = IsFree-write p x y at flag flag' count v.free_list;
      owns_data = IsOwned-same (λ z. z.userdata) p x y at data_same v.owns_data;
      owns_options =
          IsOwned-same (λ z. options_of e.headers z.bits) p x y at options_same v.owns_options;
    }

    pub works-Refines :
        (y : Packet H W S)
        → y.fflag ≡ true
        → y.ref_count ≡ x.ref_count
        → y.userdata ≡ x.userdata
        → options_of e.headers y.bits ≡ options_of e.headers x.bits
        → Refines s Call.keeps (record s { packets = store p y s.packets })
    unfolding Refines
    works-Refines y flag' same data_same options_same =
        let (n, count) = v.free_list.counted p x at in
        (
          spare,
          IsPool-works y flag' (n, same ∙ count) data_same options_same,
          Move.rest (
              owners-same s.packets.cell p x y at
                (owners-in_use refl flag' (same ∙ count) ∙ sym (owners-in_use refl flag count))),
        )

    pub refers-Refines : {s' : Pool H W S X O} → refcopy p s ≡ ok s' → Refines s (Call.shares p) s'
    unfolding Refines refcopy
    refers-Refines gives =
        let (n, count) = v.free_list.counted p x at in
        let y = record x { ref_count = succ_ℤ x.ref_count } in
        let more = ap succ_ℤ count in
        let was = owners-in_use at flag count in
        let is = owners-in_use (write_at-same p (some y) s.packets.cell) flag more in
        subst (Refines s (Call.shares p)) (ok-injective (sym (rw at refl) ∙ gives)) (
          spare,
          IsPool-works y flag (suc n, more) refl refl,
          Move.share p (not_zero was) (is ∙ ap suc (sym was))
              (λ q differ. ap owners (write_at-other p (some y) s.packets.cell differ)),
        )

    pub gets_data-Refines :
        {s' : Pool H W S X O} (n : ℤ)
        → x.userdata ≡ none
        → allocdata n p s ≡ ok s'
        → Refines s Call.keeps s'
    unfolding Refines allocdata is_null owners
    gets_data-Refines n no_data gives =
        let count = v.free_list.counted p x at in
        let a = AppData.packet_data (new_packet_data n) in
        let y = record x { userdata = some s.appdata.fresh } in
        subst (Refines s Call.keeps) (ok-injective (sym (rw (at, no_data) refl) ∙ gives)) (
          spare,
          record {
            free_list = IsFree-write p x y at flag flag count v.free_list;
            owns_data = IsOwned-new (λ z. z.userdata) p y a refl v.owns_data;
            owns_options =
                IsOwned-same (λ z. options_of e.headers z.bits) p x y at refl v.owns_options;
          },
          Move.rest (owners-same s.packets.cell p x y at refl),
        )

    pub drops_data-Refines :
        {s' : Pool H W S X O} → setdata none p s ≡ ok s' → Refines s Call.keeps s'
    unfolding Refines setdata owners
    drops_data-Refines gives =
        let count = v.free_list.counted p x at in
        let y = record x { userdata = none } in
        let (h, run, owned, _) = delete_if_lem (λ z. z.userdata) p x y at refl v.owns_data in
        subst (Refines s Call.keeps) (ok-injective (sym (rw (at, run) refl) ∙ gives)) (
          spare,
          record {
            free_list = IsFree-write p x y at flag flag count v.free_list;
            owns_data = owned;
            owns_options =
                IsOwned-same (λ z. options_of e.headers z.bits) p x y at refl v.owns_options;
          },
          Move.rest (owners-same s.packets.cell p x y at refl),
        )
