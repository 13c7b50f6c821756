-- ===== src/Packet/Pool/Sized.antt =====
-- `alloc(int)`, which is `alloc` with `allocdata` behind it for a positive size.
use ant_aodv.Base.{
  ap, inl, inr, ℕ, ◌≡◌, sym, ◌∙◌, subst, ℤ, is_pos, Bool, true, false, Bool-cases, List,
}
use ant_aodv.Base.Result.{Result, ok, ok-injective, ◌>>=◌, >>=-eq-ok}
use ant_aodv.Packet.Pool.{Pool, Outside, alloc, allocdata, alloc_sized}
use ant_aodv.Packet.Pool.Invariant.{IsPool, IsHeaders}
use ant_aodv.Packet.Pool.Alloc.{alloc_lem, taken, untaken}
use ant_aodv.Packet.Pool.Free.{owners, owners-in_use}
use ant_aodv.Packet.Pool.Reach.{Call, Move}
use ant_aodv.Packet.Pool.Works.{Refines, owners-none, gets_data-Refines}

acquire-rest :
    {o o' o'' : ℕ → ℕ} {p : ℕ}
    → Move (Call.gets p) o o'
    → Move Call.keeps o' o''
    → Move (Call.gets p) o o''
acquire-rest (Move.acquire p unowned one others) (Move.rest stays) =
    Move.acquire p unowned (stays p ∙ one) (λ q n. stays q ∙ others q n)

module _ {H W S X O : Type 0} (e : Outside H W S X) where
  Refines-keeps :
      (s s' s'' : Pool H W S X O) (p : ℕ)
      → Refines e s (Call.gets p) s'
      → Refines e s' Call.keeps s''
      → Refines e s (Call.gets p) s''
  unfolding Refines
  Refines-keeps s s' s'' p (_, _, move) (spare, v, move') = (spare, v, acquire-rest move move')

  -- What `alloc(int)` does behind `alloc`.
  sized : Bool → ℤ → ℕ → Pool H W S X O → Result (ℕ × Pool H W S X O)
  sized b n p s = elim b [ true ↦ do s' ← allocdata n p s; ok (p, s') | false ↦ ok (p, s) ]

  alloc_sized-sized :
      (n : ℤ) (s s' : Pool H W S X O) (p : ℕ) (b : Bool)
      → alloc e s ≡ ok (p, s')
      → is_pos n ≡ b
      → alloc_sized e n s ≡ sized b n p s'
  unfolding alloc_sized sized
  alloc_sized-sized n s s' p b gives size =
      ap (λ r. r >>= λ x. sized (is_pos n) n x.0 x.1) gives ∙ ap (λ b. sized b n p s') size

  -- `alloc` as a move, given where it leads.
  pub allocates-Refines :
      IsHeaders e.headers
      → (s : Pool H W S X O) (spare : List ℕ) → IsPool e.headers s spare
      → {p : ℕ} {s' : Pool H W S X O} → alloc e s ≡ ok (p, s')
      → Refines e s (Call.gets p) s'
  unfolding Refines
  allocates-Refines law s spare v gives =
      let q = taken s.packets.fresh spare in
      let (m, gives', made, valid) = alloc_lem e s spare law v in
      subst (λ r. Refines e s (Call.gets r.0) r.1) (ok-injective (sym gives' ∙ gives))
        (
          untaken spare,
          valid,
          Move.acquire q (owners-none s.packets.cell q made.unused)
              (owners-in_use made.found made.in_use made.one_owner)
              (λ r n. ap owners (made.others r n)),
        )

  pub sized-Refines :
      IsHeaders e.headers
      → (s : Pool H W S X O) (spare : List ℕ) → IsPool e.headers s spare
      → {p : ℕ} {s' : Pool H W S X O} (n : ℤ) → alloc_sized e n s ≡ ok (p, s')
      → Refines e s (Call.gets p) s'
  unfolding sized
  sized-Refines law s spare v {p} {s'} n gives =
      let q = taken s.packets.fresh spare in
      let (m, gives', made, valid) = alloc_lem e s spare law v in
      let first : Refines e s (Call.gets q) m = allocates-Refines law s spare v gives' in
      elim (Bool-cases (is_pos n)) [
        | inl size ↦
            let all = sym (alloc_sized-sized n s m q true gives' size) ∙ gives in
            let (s2, run, last) = >>=-eq-ok (allocdata n q m) (λ t. ok (q, t)) all in
            let then_data =
              gets_data-Refines e m (untaken spare) valid q made.packet made.found made.in_use n
                made.no_data run in
            subst (λ r. Refines e s (Call.gets r.0) r.1) (ok-injective last)
              (Refines-keeps s m s2 q first then_data)
        | inr size ↦
            subst (λ r. Refines e s (Call.gets r.0) r.1)
              (ok-injective (sym (alloc_sized-sized n s m q false gives' size) ∙ gives)) first
      ]
