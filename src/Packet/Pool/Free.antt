-- ===== src/Packet/Pool/Free.antt =====
-- `Packet::free`: a packet goes back to the free list when its last owner has freed it.
use ant_aodv.Base.{
  ℕ, zero, suc, ◌-◌, pos, pred_ℤ, is_pos, is_zero, ◌≡◌, ◌≢◌, refl, sym, ap, ◌∙◌, subst, inl, inr,
  Bool, true, false, if◌then◌else◌, List, ◌∷◌, Option, none, some, Bool-cases, arith,
}
use ant_aodv.Base.Result.{ok}
use ant_aodv.Base.Heap.{write_at-same, write_at-other, store}
use ant_aodv.Packet.Data.{count_of}
use ant_aodv.Packet.Pool.{Packet, Pool, Outside, options_of, release, free_by, free_packet}
use ant_aodv.Packet.Pool.Alloc.{options_of-zeroed}
use ant_aodv.Packet.Pool.Owned.{IsDeleted, delete_if_lem, IsOwned-same}
use ant_aodv.Packet.Pool.Invariant.{IsFree-write, IsFree-give, IsPool, IsHeaders}

-- The free list after one `free` of a packet with so many owners.
abbrev pub given : ℕ → ℕ → List ℕ → List ℕ
given zero p spare = spare
given (suc zero) p spare = p ∷ spare
given (suc (suc n)) p spare = spare

module _ {H W S : Type 0} where
  -- How many times `free` is still to be called for a packet: 0 when it is not in use.
  unfoldable pub owners : (packet : Option (Packet H W S)) → ℕ
  owners none = 0
  owners (some x) = if x.fflag then suc (count_of x.ref_count) else 0

  pub owners-in_use :
      {x : Packet H W S} {n : ℕ} {packet : Option (Packet H W S)}
      → packet ≡ some x
      → x.fflag ≡ true
      → x.ref_count ≡ pos n
      → owners packet ≡ suc n
  unfolding owners
  owners-in_use at flag count = rw (at, flag, count) refl

  pub owners-unused :
      {x : Packet H W S} {packet : Option (Packet H W S)}
      → packet ≡ some x
      → x.fflag ≡ false
      → owners packet ≡ 0
  unfolding owners
  owners-unused at off = rw (at, off) refl

module _ {H W S X O : Type 0} (e : Outside H W S X) where
  -- One owner less for `p`; its user data and options are deleted with the last one.
  pub record IsFreed (p : ℕ) (x : Packet H W S) (s s' : Pool H W S X O) : Type 0 where
    pub fewer : owners (s'.packets.cell p) ≡ owners (s.packets.cell p) - 1
    pub others : (q : ℕ) → p ≢ q → s'.packets.cell q ≡ s.packets.cell q
    pub last :
        owners (s.packets.cell p) ≡ 1
        → IsDeleted x.userdata s.appdata s'.appdata
          × IsDeleted (options_of e.headers x.bits) s.options s'.options
    pub not_last :
        owners (s.packets.cell p) ≢ 1 → (s'.appdata ≡ s.appdata) × (s'.options ≡ s.options)

  -- What `free` has to show for a packet that had so many owners.
  IsDone : (p : ℕ) (x : Packet H W S) (spare : List ℕ) (s : Pool H W S X O) → Type 0
  IsDone p x spare s =
      (s' : Pool H W S X O) × (free_packet e p s ≡ ok s')
      × IsFreed p x s s'
      × IsPool e.headers s' (given (owners (s.packets.cell p)) p spare)

  free_unused :
      (s : Pool H W S X O) (spare : List ℕ) (p : ℕ) (x : Packet H W S)
      → IsPool e.headers s spare
      → s.packets.cell p ≡ some x
      → x.fflag ≡ false
      → IsDone p x spare s
  unfolding IsDone free_packet free_by
  free_unused s spare p x v at off =
      let none_left = owners-unused at off in
      (
        s,
        rw at (ap (λ b. free_by e b (is_zero x.ref_count) p x s) off),
        record {
          fewer = omega (arith, none_left);
          others = λ q n. refl;
          last = λ one. absurd (one_differs none_left one);
          not_last = λ n. (refl, refl);
        },
        subst (λ n. IsPool e.headers s (given n p spare)) (sym none_left) v,
      )
    where
      one_differs : {n : ℕ} → n ≡ 0 → ¬ (n ≡ 1)
      one_differs z o = omega (arith, z, o)

  free_by-eq :
      (s : Pool H W S X O) (p : ℕ) (x : Packet H W S) {flag flag' last last' : Bool}
      → flag ≡ flag'
      → last ≡ last'
      → free_by e flag last p x s ≡ free_by e flag' last' p x s
  free_by-eq s p x same same' = cc

  free_shared :
      (s : Pool H W S X O) (spare : List ℕ) (p : ℕ) (x : Packet H W S) (n : ℕ)
      → IsPool e.headers s spare
      → s.packets.cell p ≡ some x
      → x.fflag ≡ true
      → x.ref_count ≡ pos (suc n)
      → IsDone p x spare s
  unfolding IsDone free_packet free_by
  free_shared s spare p x n v at flag count =
      let y = record x { ref_count = pred_ℤ x.ref_count } in
      let was = owners-in_use at flag count in
      let is = owners-in_use (write_at-same p (some y) s.packets.cell) flag (ap pred_ℤ count) in
      (
        record s { packets = store p y s.packets },
        rw at (free_by-eq s p x flag (ap is_zero count)),
        record {
          fewer = omega (arith, was, is);
          others = λ q differ. write_at-other p (some y) s.packets.cell differ;
          last = λ one. absurd (many was one);
          not_last = λ m. (refl, refl);
        },
        subst (λ m. IsPool e.headers (record s { packets = store p y s.packets }) (given m p spare))
            (sym was)
            (record {
              free_list = IsFree-write p x y at flag flag (n, ap pred_ℤ count) v.free_list;
              owns_data = IsOwned-same (λ z. z.userdata) p x y at refl v.owns_data;
              owns_options =
                  IsOwned-same (λ z. options_of e.headers z.bits) p x y at refl v.owns_options;
            }),
      )
    where
      many : {m : ℕ} → m ≡ suc (suc n) → ¬ (m ≡ 1)
      many z o = omega (arith, z, o)

  free_last :
      (s : Pool H W S X O) (spare : List ℕ) (p : ℕ) (x : Packet H W S)
      → IsHeaders e.headers
      → IsPool e.headers s spare
      → s.packets.cell p ≡ some x
      → x.fflag ≡ true
      → x.ref_count ≡ pos 0
      → is_pos x.uid ≡ false
      → IsDone p x spare s
  unfolding IsDone free_packet free_by release
  free_last s spare p x law v at flag count off_queue =
      let y = record x { userdata = none; bits = e.headers.zeroed; next = s.free; fflag = false } in
      let was = owners-in_use at flag count in
      let is = owners-unused {x = y} (write_at-same p (some y) s.packets.cell) refl in
      let (os, deletes, owned, deleted) =
        delete_if_lem (λ z. options_of e.headers z.bits) p x y at (options_of-zeroed e.headers law)
          v.owns_options in
      let (ds, deletes', owned', deleted') =
        delete_if_lem (λ z. z.userdata) p x y at refl v.owns_data in
      (
        record { packets = store p y s.packets; free = some p; appdata = ds; options = os },
        rw at (free_by-eq s p x flag (ap is_zero count) ∙ (rw (deletes, off_queue, deletes') refl)),
        record {
          fewer = omega (arith, was, is);
          others = λ q differ. write_at-other p (some y) s.packets.cell differ;
          last = λ _. (deleted', deleted);
          not_last = λ differ. absurd (differ was);
        },
        subst
            (λ m.
              IsPool e.headers
                (record {
                  packets = store p y s.packets;
                  free = some p;
                  appdata = ds;
                  options = os;
                })
                (given m p spare))
            (sym was)
            (record {
              free_list =
                  IsFree-give p x y at flag
                    (record { unflagged = refl; no_data = refl; unreferenced = count }) refl
                    v.free_list;
              owns_data = owned';
              owns_options = owned;
            }),
      )

  free_used :
      (s : Pool H W S X O) (spare : List ℕ) (p : ℕ) (x : Packet H W S)
      → IsHeaders e.headers
      → IsPool e.headers s spare
      → s.packets.cell p ≡ some x
      → x.fflag ≡ true
      → (n : ℕ) → x.ref_count ≡ pos n
      → (owners (some x) ≡ 1 → is_pos x.uid ≡ false)
      → IsDone p x spare s
  free_used s spare p x law v at flag zero count off_queue =
      free_last s spare p x law v at flag count (off_queue (owners-in_use refl flag count))
  free_used s spare p x law v at flag (suc n) count off_queue =
      free_shared s spare p x n v at flag count

  -- On a well-formed pool, `free` of a packet that the pool has made takes one owner from it, who are
  -- the references counted and one more for a packet in use, and none for one that is not. With the
  -- last owner the packet goes to the front of the free list and its user data and options are
  -- deleted; otherwise the free list, the data and the options stay. Other packets do not change, and
  -- the pool stays well formed. A packet with one owner is assumed not to wait in the event queue
  -- (its uid is not positive), and the header bits to keep the laws of `IsHeaders`.
  pub free_packet_lem :
      (s : Pool H W S X O) (spare : List ℕ) (p : ℕ) (x : Packet H W S)
      → IsHeaders e.headers
      → IsPool e.headers s spare
      → s.packets.cell p ≡ some x
      → (owners (some x) ≡ 1 → is_pos x.uid ≡ false)
      → (s' : Pool H W S X O) × (free_packet e p s ≡ ok s')
        × IsFreed p x s s'
        × IsPool e.headers s' (given (owners (s.packets.cell p)) p spare)
  unfolding IsDone
  free_packet_lem s spare p x law v at off_queue = elim (Bool-cases x.fflag) [
    | inr off ↦ free_unused s spare p x v at off
    | inl flag ↦
        let (n, count) = v.free_list.counted p x at in
        free_used s spare p x law v at flag n count off_queue
  ]
