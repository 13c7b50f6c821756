-- ===== src/Packet/Pool/Twin.antt =====
-- New objects equal to those that a packet owns, as `Packet::copy` makes them.
use ant_aodv.Base.{
  none-some, ℕ, zero, suc, ◌≡◌, ◌⊎◌, refl, sym, ap, subst, inl, inr, ℤ, is_pos, Bool, true, false,
  if◌then◌else◌, List, [], ◌∷◌, Option, none, some, Option-cases, length, take, arith,
}
use ant_aodv.Base.Result.{ok}
use ant_aodv.Base.Heap.{Heap, write_at, new_object}
use ant_aodv.Packet.Data.{
  PacketData, AppData, AppDataClass, count_of, copy_bytes, copy_packet_data, copy_of,
}
use ant_aodv.Packet.Pool.{Headers, options_of, is_dccp, copy_options, copy_data}
use Prim.Native.Nat.{pred}
use ant_aodv.Packet.Pool.Owned.{IsOwned, IsOwned-without, IsOwned-new}
use ant_aodv.Packet.Pool.Invariant.{IsHeaders}

-- A null pointer is copied as one; the twin of an object is a new object, `f` of the old one.
abbrev pub IsTwin :
    {A : Type 0} (f : A → A) (o : Option ℕ) (h : Heap A) (o' : Option ℕ) (h' : Heap A) → Type 0
IsTwin {A} f o h o' h' =
    ((o ≡ none) × (o' ≡ none) × (h' ≡ h))
    ⊎ ((d : ℕ) × (a : A) × (o ≡ some d)
        × (h.cell d ≡ some a)
        × (o' ≡ some h.fresh)
        × (h' ≡ (new_object (f a) h).1))

pub IsOwned-twin :
    {P A : Type 0} (pointer : P → Option ℕ) {cell : ℕ → Option P} {h h' : Heap A} (f : A → A)
    (o : Option ℕ) (q : ℕ) (y : P)
    → IsOwned pointer cell h
    → IsTwin f o h (pointer y) h'
    → IsOwned pointer (write_at q (some y) cell) h'
IsOwned-twin pointer {cell} f o q y owned (inl (_, is_null, same)) =
    subst (λ h. IsOwned pointer (write_at q (some y) cell) h) (sym same)
      (IsOwned-without pointer q y is_null owned)
IsOwned-twin pointer {cell} f o q y owned (inr (_, a, _, _, is_fresh, same)) =
    subst (λ h. IsOwned pointer (write_at q (some y) cell) h) (sym same)
      (IsOwned-new pointer q y (f a) is_fresh owned)

-- The array of a `PacketData` has as many bytes as `datalen_` says.
pub data IsArray : PacketData → Type 0 where
  empty : {n : ℤ} → is_pos n ≡ false → IsArray (record { bytes = none; datalen = n })
  full :
      {n : ℤ} (array : List (Option ℕ))
      → is_pos n ≡ true
      → length array ≡ count_of n
      → IsArray (record { bytes = some array; datalen = n })

cons-empty : {n : ℕ} → ¬ (suc n ≡ 0)
cons-empty e = omega arith

take-length : {A : Type 0} (xs : List A) (n : ℕ) → length xs ≡ n → take n xs ≡ xs
take-length [] zero e = refl
take-length [] (suc n) e = refl
take-length (x ∷ xs) zero e = absurd (cons-empty e)
take-length (x ∷ xs) (suc n) e = ap (λ l. x ∷ l) (take-length xs n (ap pred e))

copy_packet_data_lem : {d : PacketData} → IsArray d → copy_packet_data d ≡ ok d
unfolding copy_packet_data copy_bytes
copy_packet_data_lem (IsArray.empty negative) = rw (negative, copy_packet_data) refl
copy_packet_data_lem (IsArray.full array positive whole) =
    rw (positive, copy_packet_data, copy_bytes, take-length array _ whole) refl

module _ {X : Type 0} (c : AppDataClass X) where
  unfoldable pub IsWhole : AppData X → Type 0
  IsWhole (AppData.packet_data d) = IsArray d
  IsWhole (AppData.other x) = Unit

  unfoldable pub twin_data : AppData X → AppData X
  twin_data (AppData.packet_data d) = AppData.packet_data d
  twin_data (AppData.other x) = AppData.other (c.copy x)

  copy_of_lem : (a : AppData X) → IsWhole a → copy_of c a ≡ ok (twin_data a)
  unfolding copy_of twin_data IsWhole
  copy_of_lem (AppData.packet_data d) whole = rw (copy_packet_data_lem whole) refl
  copy_of_lem (AppData.other x) whole = refl

  -- What `copy` asks of a packet's user data.
  unfoldable pub IsCopyable : Option ℕ → Heap (AppData X) → Type 0
  IsCopyable o h = (d : ℕ) (a : AppData X) → o ≡ some d → h.cell d ≡ some a → IsWhole a

  pub copy_data_lem :
      (o : Option ℕ) (h : Heap (AppData X))
      → ((d : ℕ) → o ≡ some d → (a : AppData X) × (h.cell d ≡ some a))
      → IsCopyable o h
      → (o' : Option ℕ) × (h' : Heap (AppData X)) × (copy_data c o h ≡ ok (o', h'))
        × IsTwin twin_data o h o' h'
  unfolding copy_data IsCopyable
  copy_data_lem none h held whole = (none, h, refl, inl (refl, refl, refl))
  copy_data_lem (some d) h held whole =
      let (a, at) = held d refl in
      (
        some h.fresh,
        (new_object (twin_data a) h).1,
        rw (at, copy_of_lem a (whole d a refl at)) refl,
        inr (d, a, refl, at, refl, refl),
      )

if-some :
    (b : Bool) (x : Option ℕ) (d o : ℕ)
    → (if b then x else none) ≡ some d
    → (if b then some o else none) ≡ some o
if-some true x d o has = refl
if-some false x d o has = absurd (none-some has)

module _ {H W : Type 0} (k : Headers H W) where
  -- All header bits are the same but for the pointer to options, which leads to the new object.
  abbrev pub IsSameBits : {O : Type 0} → H → Heap O → H → Type 0
  IsSameBits bits h bits' =
      (options_of k bits ≡ none) × (bits' ≡ bits)
      ⊎ (d : ℕ) × (options_of k bits ≡ some d) × (bits' ≡ k.with_options (some h.fresh) bits)

  options_of-new :
      (law : IsHeaders k) (bits : H) (d o : ℕ)
      → options_of k bits ≡ some d
      → options_of k (k.with_options (some o) bits) ≡ some o
  unfolding options_of
  options_of-new law bits d o has =
      rw (law.cmn-with_options, law.options-with_options)
        (if-some (is_dccp (k.cmn bits).ptype) (k.options bits) d o has)

  pub copy_options_lem :
      {O : Type 0} (law : IsHeaders k) (bits : H) (h : Heap O)
      → ((d : ℕ) → options_of k bits ≡ some d → (a : O) × (h.cell d ≡ some a))
      → (bits' : H) × (h' : Heap O) × (copy_options k bits h ≡ ok (bits', h'))
        × (k.cmn bits' ≡ k.cmn bits)
        × IsSameBits bits h bits'
        × IsTwin (λ a. a) (options_of k bits) h (options_of k bits') h'
  unfolding copy_options
  copy_options_lem law bits h held = elim (Option-cases (options_of k bits)) [
    | inl n ↦ (bits, h, rw (n, copy_options) refl, refl, inl (n, refl), inl (n, n, refl))
    | inr (d, has) ↦
        let (a, at) = held d has in
        (
          k.with_options (some h.fresh) bits,
          (new_object a h).1,
          rw (has, copy_options, at) refl,
          law.cmn-with_options (some h.fresh) bits,
          inr (d, has, refl),
          inr (d, a, has, at, options_of-new law bits d h.fresh has, refl),
        )
  ]
