-- ===== src/Packet/Pool/Owned.antt =====
-- Objects that the packets of the pool own, by a pointer of the packet: user data and DCCP options.
use ant_aodv.Base.{
  some-injective, none-some, Option-cases, refl, ℕ, ◌≡◌, ◌≢◌, ◌⊎◌, inl, inr, sym, ap, ◌∙◌, subst,
  ℕ_discrete, Option, none, some, arith,
}
use ant_aodv.Base.Result.{ok}
use ant_aodv.Packet.Pool.{delete_if}
use ant_aodv.Base.Heap.{
  delete, Heap, write_at, write_at-same, write_at-other, IsHeap, new_object, clear,
}

-- What is read after a write is what was written, or was there before.
pub write_at-cases :
    {A : Type 0} (p : ℕ) (v : Option A) (f : ℕ → Option A) (q : ℕ) {x : A}
    → write_at p v f q ≡ some x
    → ((p ≡ q) × (v ≡ some x)) ⊎ ((p ≢ q) × (f q ≡ some x))
write_at-cases p v f q e = elim (ℕ_discrete p q) [
  | yes same ↦ inl (same, sym (subst (λ r. write_at p v f r ≡ v) same (write_at-same p v f)) ∙ e)
  | no differ ↦ inr (differ, sym (write_at-other p v f differ) ∙ e)
]

module _ {P A : Type 0} (pointer : P → Option ℕ) where
  -- Every pointer of a packet leads to an object, and no two packets have the same.
  pub record IsOwned (cell : ℕ → Option P) (h : Heap A) : Type 0 where
    pub within : IsHeap h
    pub held :
        (p : ℕ) (x : P) (d : ℕ)
        → cell p ≡ some x
        → pointer x ≡ some d
        → (a : A) × (h.cell d ≡ some a)
    pub apart :
        (p q : ℕ) (x y : P) (d : ℕ)
        → cell p ≡ some x
        → cell q ≡ some y
        → pointer x ≡ some d
        → pointer y ≡ some d
        → p ≡ q

  -- The pointers are those of before.
  IsOwned-from :
      {cell cell' : ℕ → Option P} {h : Heap A}
      → ((q : ℕ) (y : P) (d : ℕ)
          → cell' q ≡ some y
          → pointer y ≡ some d
          → (z : P) × (cell q ≡ some z) × (pointer z ≡ some d))
      → IsOwned cell h
      → IsOwned cell' h
  IsOwned-from from o = record {
    within = o.within;
    held = λ q y d at has. let (z, b, c) = from q y d at has in o.held q z d b c;
    apart = λ q r y z d at at' has has'.
        let (y', b, c) = from q y d at has in
        let (z', b', c') = from r z d at' has' in o.apart q r y' z' d b b' c c';
  }

  -- A packet without such a pointer is written.
  pub IsOwned-without :
      {cell : ℕ → Option P} {h : Heap A} (p : ℕ) (x : P)
      → pointer x ≡ none
      → IsOwned cell h
      → IsOwned (write_at p (some x) cell) h
  IsOwned-without {cell} p x e = IsOwned-from λ q y d at has.
      elim (write_at-cases p (some x) cell q at) [
        | inl m ↦ absurd (none-some (sym e ∙ ap pointer (some-injective m.1) ∙ has))
        | inr m ↦ (y, m.1, has)
      ]

  -- A packet is written that has the pointer it had.
  pub IsOwned-same :
      {cell : ℕ → Option P} {h : Heap A} (p : ℕ) (old x : P)
      → cell p ≡ some old
      → pointer x ≡ pointer old
      → IsOwned cell h
      → IsOwned (write_at p (some x) cell) h
  IsOwned-same {cell} p old x was e = IsOwned-from λ q y d at has.
      elim (write_at-cases p (some x) cell q at) [
        | inl m ↦ (
          old,
          subst (λ r. cell r ≡ some old) m.0 was,
          sym e ∙ ap pointer (some-injective m.1) ∙ has,
        )
        | inr m ↦ (y, m.1, has)
      ]

  -- The object of a packet is deleted, and the packet has no pointer then.
  pub IsOwned-delete :
      {cell : ℕ → Option P} {h : Heap A} (p : ℕ) (old x : P) (d : ℕ)
      → cell p ≡ some old
      → pointer old ≡ some d
      → pointer x ≡ none
      → IsOwned cell h
      → IsOwned (write_at p (some x) cell) (clear d h)
  IsOwned-delete {cell} {h} p old x d was had e o =
      let o' = IsOwned-without p x e o in
      record {
        within = λ c a at. elim (write_at-cases d none h.cell c at) [
          | inl m ↦ absurd (none-some (m.1))
          | inr m ↦ o.within c a m.1
        ];
        held = λ q y c at has. elim (write_at-cases p (some x) cell q at) [
          | inl m ↦ absurd (none-some (sym e ∙ ap pointer (some-injective m.1) ∙ has))
          | inr m ↦
              let (a, there) = o.held q y c m.1 has in
              (
                a,
                write_at-other d none h.cell
                      (λ same. m.0 (o.apart p q old y d was m.1 had (has ∙ ap some (sym same))))
                    ∙ there,
              )
        ];
        apart = o'.apart;
      }

  -- A packet gets a new object.
  pub IsOwned-new :
      {cell : ℕ → Option P} {h : Heap A} (p : ℕ) (x : P) (a : A)
      → pointer x ≡ some h.fresh
      → IsOwned cell h
      → IsOwned (write_at p (some x) cell) (new_object a h).1
  IsOwned-new {cell} {h} p x a e o = record {
    within = λ c b at. elim (write_at-cases h.fresh (some a) h.cell c at) [
      | inl m ↦ omega (arith, m.0)
      | inr m ↦ omega (arith, o.within c b m.1)
    ];
    held = λ q y c at has. elim (write_at-cases p (some x) cell q at) [
      | inl m ↦ (
        a,
        subst (λ r. write_at h.fresh (some a) h.cell r ≡ some a)
            (fresh-eq y c (some-injective m.1) has) (write_at-same h.fresh (some a) h.cell),
      )
      | inr m ↦
          let (b, there) = o.held q y c m.1 has in
          (b, write_at-other h.fresh (some a) h.cell (beyond c b there) ∙ there)
    ];
    apart = λ q r y z c at at' has has'. elim (write_at-cases p (some x) cell q at) [
      | inl m ↦ elim (write_at-cases p (some x) cell r at') [
        | inl n ↦ sym (m.0) ∙ n.0
        | inr n ↦ absurd (taken r z c n.1 has' (fresh-eq y c (some-injective m.1) has))
      ]
      | inr m ↦ elim (write_at-cases p (some x) cell r at') [
        | inl n ↦ absurd (taken q y c m.1 has (fresh-eq z c (some-injective n.1) has'))
        | inr n ↦ o.apart q r y z c m.1 n.1 has has'
      ]
    ];
  }
    where
      fresh-eq : (y : P) (c : ℕ) → x ≡ y → pointer y ≡ some c → h.fresh ≡ c
      fresh-eq y c same has = some-injective (sym e ∙ ap pointer same ∙ has)

      beyond : (c : ℕ) (b : A) → h.cell c ≡ some b → h.fresh ≢ c
      beyond c b there same = omega (arith, o.within c b there, same)

      taken : (q : ℕ) (y : P) (c : ℕ) → cell q ≡ some y → pointer y ≡ some c → ¬ (h.fresh ≡ c)
      taken q y c at has = let (b, there) = o.held q y c at has in beyond c b there

-- The object behind the pointer is deleted, if the pointer is not null, and no other.
pub record IsDeleted {A : Type 0} (pointer : Option ℕ) (h h' : Heap A) : Type 0 where
  pub gone : (d : ℕ) → pointer ≡ some d → h'.cell d ≡ none
  pub kept : (d : ℕ) → pointer ≢ some d → h'.cell d ≡ h.cell d

-- The object of a packet is deleted, and the packet becomes one without.
pub delete_if_lem :
    {P A : Type 0} (pointer : P → Option ℕ) {cell : ℕ → Option P} {h : Heap A} (p : ℕ) (x y : P)
    → cell p ≡ some x
    → pointer y ≡ none
    → IsOwned pointer cell h
    → (h' : Heap A) × (delete_if (pointer x) h ≡ ok h')
      × IsOwned pointer (write_at p (some y) cell) h'
      × IsDeleted (pointer x) h h'
unfolding delete_if
delete_if_lem pointer {cell} {h} p x y at e o = elim (Option-cases (pointer x)) [
  | inl n ↦ (
    h,
    rw n refl,
    IsOwned-without pointer p y e o,
    record { gone = λ d has. absurd (none-some (sym n ∙ has)); kept = λ d differ. refl },
  )
  | inr (d, has) ↦
      let (a, there) = o.held p x d at has in
      (
        clear d h,
        rw (has, delete_if, delete, there) refl,
        IsOwned-delete pointer p x y d at has e o,
        record {
          gone = λ c has'.
              subst (λ b. write_at d none h.cell b ≡ none) (some-injective (sym has ∙ has'))
                (write_at-same d none h.cell);
          kept = λ c differ. write_at-other d none h.cell (λ same. differ (has ∙ ap some same));
        },
      )
]
