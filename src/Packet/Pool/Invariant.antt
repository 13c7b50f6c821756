-- ===== src/Packet/Pool/Invariant.antt =====
-- What holds of the pool between the calls: the free list, the reference counts, and who owns the
-- user data and the options.
use ant_aodv.Base.{
  some-injective, ℕ, ◌<◌, subst, arith, pos, ◌≡◌, ◌≢◌, refl, sym, ap, ◌∙◌, inl, inr, true, false,
  List, [], ◌∷◌, Option, none, some, Among, Distinct,
}
use ant_aodv.Base.Heap.{Heap, write_at, write_at-same, write_at-other, IsHeap, store, new_object}
use ant_aodv.Packet.{HdrCmn}
use ant_aodv.Packet.Pool.{Headers, Packet, Pool, options_of}
use ant_aodv.Packet.Pool.Owned.{IsOwned, write_at-cases}

pub true-false : ¬ (true ≡ false)
true-false e = cc

module _ {H W S : Type 0} where
  -- What `free` leaves of a packet.
  pub record IsSpare (x : Packet H W S) : Type 0 where
    pub unflagged : x.fflag ≡ false
    pub no_data : x.userdata ≡ none
    pub unreferenced : x.ref_count ≡ pos 0

  -- The free list, from the pointer `first` on, is the list of packets.
  abbrev pub Chain : (cell : ℕ → Option (Packet H W S)) (first : Option ℕ) → List ℕ → Type 0
  Chain cell first [] = first ≡ none
  Chain cell first (p ∷ ps) =
      (first ≡ some p) × ((x : Packet H W S) × (cell p ≡ some x) × IsSpare x × Chain cell x.next ps)

  pub Chain-write :
      (cell : ℕ → Option (Packet H W S)) (q : ℕ) (v : Option (Packet H W S)) (first : Option ℕ)
      (ps : List ℕ)
      → ¬ Among q ps
      → Chain cell first ps
      → Chain (write_at q v cell) first ps
  Chain-write cell q v first [] out c = c
  Chain-write cell q v first (p ∷ ps) out (e, (x, at, spare, c)) = (
    e,
    (
      x,
      write_at-other q v cell (λ same. out (inl (sym same))) ∙ at,
      spare,
      Chain-write cell q v x.next ps (λ m. out (inr m)) c,
    ),
  )

  -- A packet of the free list is spare.
  pub Chain-IsSpare :
      (cell : ℕ → Option (Packet H W S)) (first : Option ℕ) (ps : List ℕ) (p : ℕ)
      → Chain cell first ps
      → Among p ps
      → (x : Packet H W S) × (cell p ≡ some x) × IsSpare x
  Chain-IsSpare cell first [] p c m = absurd m
  Chain-IsSpare cell first (q ∷ qs) p (e, (x, at, spare, c)) (inl same) =
      (x, ap cell (sym same) ∙ at, spare)
  Chain-IsSpare cell first (q ∷ qs) p (e, (x, at, spare, c)) (inr m) =
      Chain-IsSpare cell x.next qs p c m

  abbrev pub IsCounted : (cell : ℕ → Option (Packet H W S)) → Type 0
  IsCounted cell = (p : ℕ) (x : Packet H W S) → cell p ≡ some x → (n : ℕ) × (x.ref_count ≡ pos n)

  -- The packets that are not in use are those of the free list `spare`.
  pub record IsFree (h : Heap (Packet H W S)) (first : Option ℕ) (spare : List ℕ) : Type 0 where
    pub within : IsHeap h
    pub chain : Chain h.cell first spare
    pub distinct : Distinct spare
    pub unflagged : (p : ℕ) (x : Packet H W S) → h.cell p ≡ some x → x.fflag ≡ false → Among p spare
    pub counted : IsCounted h.cell

  IsHeap-write :
      {h : Heap (Packet H W S)} (p : ℕ) (old x : Packet H W S)
      → h.cell p ≡ some old
      → IsHeap h
      → IsHeap (store p x h)
  IsHeap-write {h} p old x was within q y at = elim (write_at-cases p (some x) h.cell q at) [
    | inl m ↦ subst (λ r. r < h.fresh) m.0 (within p old was)
    | inr m ↦ within q y m.1
  ]

  IsCounted-write :
      {cell : ℕ → Option (Packet H W S)} (p : ℕ) (x : Packet H W S)
      → (n : ℕ) × (x.ref_count ≡ pos n)
      → IsCounted cell
      → IsCounted (write_at p (some x) cell)
  IsCounted-write {cell} p x count counted q y at = elim (write_at-cases p (some x) cell q at) [
    | inl m ↦ (count.0, sym (ap (λ z. z.ref_count) (some-injective m.1)) ∙ count.1)
    | inr m ↦ counted q y m.1
  ]

  -- Where a packet in use was written, a packet that is not was there before.
  unflagged-write :
      (cell : ℕ → Option (Packet H W S)) (p : ℕ) (x : Packet H W S) {q : ℕ} {y : Packet H W S}
      → x.fflag ≡ true
      → write_at p (some x) cell q ≡ some y
      → y.fflag ≡ false
      → (p ≢ q) × (cell q ≡ some y)
  unflagged-write cell p x {q} flag at off = elim (write_at-cases p (some x) cell q at) [
    | inl m ↦ absurd (true-false (sym flag ∙ ap (λ z. z.fflag) (some-injective m.1) ∙ off))
    | inr m ↦ m
  ]

  -- A packet in use is none of the spare ones.
  pub in_use :
      {h : Heap (Packet H W S)} {first : Option ℕ} {spare : List ℕ} {p : ℕ} {x : Packet H W S}
      → IsFree h first spare
      → h.cell p ≡ some x
      → x.fflag ≡ true
      → ¬ Among p spare
  in_use {h} {first} {spare} {p} {x} v at flag m =
      let (y, at', is_spare) = Chain-IsSpare h.cell first spare p v.chain m in
      true-false (sym flag ∙ ap (λ z. z.fflag) (some-injective (sym at ∙ at')) ∙ is_spare.unflagged)

  -- A packet in use is written, and stays in use.
  pub IsFree-write :
      {h : Heap (Packet H W S)} {first : Option ℕ} {spare : List ℕ} (p : ℕ) (old x : Packet H W S)
      → h.cell p ≡ some old
      → old.fflag ≡ true
      → x.fflag ≡ true
      → (n : ℕ) × (x.ref_count ≡ pos n)
      → IsFree h first spare
      → IsFree (store p x h) first spare
  IsFree-write {h} {first} {spare} p old x was used flag count v = record {
    within = IsHeap-write p old x was v.within;
    chain = Chain-write h.cell p (some x) first spare (in_use v was used) v.chain;
    distinct = v.distinct;
    unflagged = λ q y at off. v.unflagged q y (unflagged-write h.cell p x flag at off).1 off;
    counted = IsCounted-write p x count v.counted;
  }

  -- A new packet.
  pub IsFree-new :
      {h : Heap (Packet H W S)} {first : Option ℕ} {spare : List ℕ} (x : Packet H W S)
      → x.fflag ≡ true
      → x.ref_count ≡ pos 0
      → IsFree h first spare
      → IsFree (new_object x h).1 first spare
  IsFree-new {h} {first} {spare} x flag count v = record {
    within = λ q y at. elim (write_at-cases h.fresh (some x) h.cell q at) [
      | inl m ↦ omega (arith, m.0)
      | inr m ↦ omega (arith, v.within q y m.1)
    ];
    chain = Chain-write h.cell h.fresh (some x) first spare (unused v) v.chain;
    distinct = v.distinct;
    unflagged = λ q y at off. v.unflagged q y (unflagged-write h.cell h.fresh x flag at off).1 off;
    counted = IsCounted-write h.fresh x (0, count) v.counted;
  }
    where
      unused : IsFree h first spare → ¬ Among h.fresh spare
      unused v m =
          let (y, at, _) = Chain-IsSpare h.cell first spare h.fresh v.chain m in
          omega (arith, v.within h.fresh y at)

  -- The first packet of the free list is taken into use.
  pub IsFree-take :
      {h : Heap (Packet H W S)} {first : Option ℕ} {p : ℕ} {ps : List ℕ} (old x : Packet H W S)
      → h.cell p ≡ some old
      → x.fflag ≡ true
      → x.ref_count ≡ pos 0
      → Chain h.cell old.next ps
      → IsFree h first (p ∷ ps)
      → IsFree (store p x h) old.next ps
  IsFree-take {h} {first} {p} {ps} old x was flag count rest v = record {
    within = IsHeap-write p old x was v.within;
    chain = Chain-write h.cell p (some x) old.next ps (v.distinct.0) rest;
    distinct = v.distinct.1;
    unflagged = λ q y at off.
        let (differ, at') = unflagged-write h.cell p x flag at off in
        elim (v.unflagged q y at' off) [ inl e ↦ absurd (differ e) | inr m ↦ m ];
    counted = IsCounted-write p x (0, count) v.counted;
  }

  -- A packet in use is put in front of the free list.
  pub IsFree-give :
      {h : Heap (Packet H W S)} {first : Option ℕ} {spare : List ℕ} (p : ℕ) (old x : Packet H W S)
      → h.cell p ≡ some old
      → old.fflag ≡ true
      → IsSpare x
      → x.next ≡ first
      → IsFree h first spare
      → IsFree (store p x h) (some p) (p ∷ spare)
  IsFree-give {h} {first} {spare} p old x was used is_spare link v = record {
    within = IsHeap-write p old x was v.within;
    chain = (
      refl,
      (
        x,
        write_at-same p (some x) h.cell,
        is_spare,
        subst (λ o. Chain (write_at p (some x) h.cell) o spare) (sym link)
            (Chain-write h.cell p (some x) first spare (in_use v was used) v.chain),
      ),
    );
    distinct = (in_use v was used, v.distinct);
    unflagged = λ q y at off. elim (write_at-cases p (some x) h.cell q at) [
      | inl m ↦ inl (m.0)
      | inr m ↦ inr (v.unflagged q y m.1 off)
    ];
    counted = IsCounted-write p x (0, is_spare.unreferenced) v.counted;
  }

-- The laws of the header bits: the common header and the options lie apart, and `bzero` leaves a
-- null pointer.
pub record IsHeaders {H W : Type 0} (k : Headers H W) : Type 0 where
  pub cmn-with_cmn : (c : HdrCmn W) (h : H) → k.cmn (k.with_cmn c h) ≡ c
  pub options-with_cmn : (c : HdrCmn W) (h : H) → k.options (k.with_cmn c h) ≡ k.options h
  pub cmn-with_options : (o : Option ℕ) (h : H) → k.cmn (k.with_options o h) ≡ k.cmn h
  pub options-with_options : (o : Option ℕ) (h : H) → k.options (k.with_options o h) ≡ o
  pub options-zeroed : k.options k.zeroed ≡ none

module _ {H W S X O : Type 0} (k : Headers H W) where
  -- The free list is `spare`, in the order in which `alloc` takes the packets; each packet owns its
  -- user data and its options.
  pub record IsPool (s : Pool H W S X O) (spare : List ℕ) : Type 0 where
    pub free_list : IsFree s.packets s.free spare
    pub owns_data : IsOwned (λ x. x.userdata) s.packets.cell s.appdata
    pub owns_options : IsOwned (λ x. options_of k x.bits) s.packets.cell s.options
