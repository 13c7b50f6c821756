-- ===== src/Packet/Info/Names.antt =====
-- The names of the packet types, and the way back from a name to its type.
use Prim.Native.String.{String}
use ant_aodv.Base.{
  ℕ, zero, suc, ◌<◌, ◌≡◌, refl, ap, Bool, true, false, ◌&&◌, ◌+◌, ◌==◌, leb, List, [], ◌∷◌,
  ℕ_discrete, replicate, length, get_elem?, Option, none, some, arith, ◌∙◌, subst,
}
use ant_aodv.Base.Result.{Result, ok, fault, Fault}
use ant_aodv.Base.Text.{same_text, same_codes}
use ant_aodv.Packet.Types.{PacketT, pt_ntype}
use ant_aodv.Packet.Info.{
  PInfo, assigned, assign, copy_names, init_name, name_at, name_of, type_from, get_type,
  PacketClass,
}

-- The table that `initName` makes.
unfoldable pub table : List (PacketT → PacketClass) → PInfo
unfolding assign
table pc = record {
  name = assign assigned (replicate (pt_ntype + 1) none);
  n_pkt = pt_ntype + 1;
  pc = pc;
}

-- `p` has a name, and the name leads back to it.
unfoldable is_type : ℕ → Result PacketT → Bool
is_type p (fault e) = false
is_type p (ok q) = q == p

unfoldable leads_to : PInfo → ℕ → Result (Option String) → Bool
unfolding is_type
leads_to s p (fault e) = false
leads_to s p (ok none) = false
leads_to s p (ok (some n)) = is_type p (get_type s n)

unfoldable comes_back : PInfo → ℕ → Bool
unfolding leads_to
comes_back s p = leads_to s p (name_of s p)

unfoldable pub all_below : (ℕ → Bool) → ℕ → Bool
all_below f zero = true
all_below f (suc n) = f n && all_below f n

all_back : (pc : List (PacketT → PacketClass)) → all_below (comes_back (table pc)) 75 ≡ true
unfolding table all_below comes_back leads_to is_type name_of name_at get_type type_from assign
    same_text same_codes
all_back pc = refl

and-left : (a b : Bool) → a && b ≡ true → a ≡ true
and-left a b h = ground (arith, h)

and-right : (a b : Bool) → a && b ≡ true → b ≡ true
and-right a b h = ground (arith, h)

pub init-table : (s : PInfo) → s.n_pkt ≡ 0 → init_name s ≡ ok (table s.pc)
unfolding table init_name copy_names assign
init-table s e = rw (init_name, e) refl

get_elem?-end : {A : Type 0} → (xs : List A) → get_elem? xs (length xs) ≡ none
get_elem?-end [] = refl
get_elem?-end (x ∷ xs) = get_elem?-end xs

pub back-below : (f : ℕ → Bool) (n p : ℕ) → all_below f n ≡ true → p < n → f p ≡ true
unfolding all_below
back-below f zero p h lt = absurd (omega arith)
back-below f (suc n) p h lt = elim (ℕ_discrete p n) [
  | yes e ↦ ap f e ∙ and-left (f n) (all_below f n) h
  | no ne ↦ back-below f n p (and-right (f n) (all_below f n) h) (omega arith)
]

is_type_lem : (p : ℕ) (r : Result PacketT) → is_type p r ≡ true → r ≡ ok p
unfolding is_type
is_type_lem p (fault e) h = absurd (ground (arith, h))
is_type_lem p (ok q) h = let e : q ≡ p = ground (arith, h) in ap ok e

leads_to_lem :
    (s : PInfo) (p : ℕ) (r : Result (Option String))
    → leads_to s p r ≡ true
    → (n : String) × (r ≡ ok (some n)) × (get_type s n ≡ ok p)
unfolding leads_to
leads_to_lem s p (fault e) h = absurd (ground (arith, h))
leads_to_lem s p (ok none) h = absurd (ground (arith, h))
leads_to_lem s p (ok (some n)) h = (n, refl, is_type_lem p (get_type s n) h)

comes_back-name :
    (s : PInfo) (p : ℕ)
    → comes_back s p ≡ true
    → (n : String) × (name_of s p ≡ ok (some n)) × (get_type s n ≡ ok p)
unfolding comes_back
comes_back-name s p h = leads_to_lem s p (name_of s p) h

-- From the state without any name, `initName` returns, and then every type has a name, and `getType`
-- leads from this name back to the type.
pub init_name_lem :
    (s : PInfo) (p : PacketT)
    → s.n_pkt ≡ 0
    → p < pt_ntype + 1
    → (s' : PInfo) × (n : String) × (init_name s ≡ ok s')
      × (name_of s' p ≡ ok (some n))
      × (get_type s' n ≡ ok p)
init_name_lem s p e lt =
    let (n, a, b) =
      comes_back-name (table s.pc) p
        (back-below (comes_back (table s.pc)) 75 p (all_back s.pc) lt) in
    (table s.pc, n, init-table s e, a, b)

-- Where the table has `nPkt_` entries, `name` reads behind it for the type that is equal to `nPkt_`.
pub name_of_end :
    (s : PInfo) → length s.name ≡ s.n_pkt → name_of s s.n_pkt ≡ fault Fault.out_of_bounds
unfolding name_of name_at
name_of_end s e =
    let inside : leb s.n_pkt s.n_pkt ≡ true = ground arith in
    let out : get_elem? s.name s.n_pkt ≡ none =
      subst (λ i. get_elem? s.name i ≡ none) e (get_elem?-end s.name) in
    rw (name_of, inside, out) refl
