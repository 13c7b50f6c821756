-- ===== src/Queue/DropTail/Shed.antt =====
-- What `shrink_queue` may take out of a list of packets, and when it has to.

use ant_aodv.Base.{
  ℕ, ◌*◌, ◌<◌, ◌≡◌, ◌⊎◌, ap, subst, ◌∙◌, inl, inr, Bool, true, false, List, [], ◌∷◌, ◌++◌, length,
}
use ant_aodv.Queue.{bytes}
use ant_aodv.Queue.DropTail.{DropTail}
use ant_aodv.Queue.Lists.{append_nil, append_assoc}

-- What a limit counts, bytes or packets; the limit in packets; and the size of a mean packet.
abbrev pub Limits : Type 0
Limits = Bool × ℕ × ℕ

abbrev pub limits : {Q P : Type 0} → DropTail Q P → Limits
limits s = (s.qib, s.qlim, s.mean_pktsize)

module _ {P : Type 0} where
  unfoldable pub backwards : List P → List P
  backwards [] = []
  backwards (x ∷ xs) = backwards xs ++ x ∷ []

  -- `ys` is what is left of `xs` when `ds` were taken, in this order, from the head or from the tail.
  unfoldable pub IsShed : (front : Bool) → (xs ds ys : List P) → Type 0
  unfolding backwards
  IsShed true xs ds ys = xs ≡ ds ++ ys
  IsShed false xs ds ys = xs ≡ ys ++ backwards ds

  pub IsShed-more :
      (front : Bool) (x : P) (xs xs' ds ys : List P)
      → IsShed front xs (x ∷ []) xs'
      → IsShed front xs' ds ys
      → IsShed front xs (x ∷ ds) ys
  unfolding IsShed backwards
  IsShed-more true x xs xs' ds ys h h' = h ∙ ap (λ l. x ∷ l) h'
  IsShed-more false x xs xs' ds ys h h' =
      h ∙ ap (λ l. l ++ x ∷ []) h' ∙ append_assoc ys (backwards ds) (x ∷ [])

  -- The packets are more than the limit, or their bytes more than the limit's packets of mean size.
  unfoldable pub Exceeds : (size : P → ℕ) → Limits → List P → Type 0
  Exceeds size (false, qlim, mean) xs = qlim < length xs
  Exceeds size (true, qlim, mean) xs = qlim * mean < bytes size xs

  abbrev pub put_back : (front : Bool) → P → List P → List P
  put_back true x ys = x ∷ ys
  put_back false x ys = ys ++ x ∷ []

  -- Without the last packet dropped the rest would still exceed the limit.
  abbrev pub IsNeeded : (size : P → ℕ) → (front : Bool) → Limits → (ds ys : List P) → Type 0
  IsNeeded size front l ds ys =
      (ds ≡ [])
      ⊎ (ds' : List P) × (x : P) × (ds ≡ ds' ++ x ∷ []) × Exceeds size l (put_back front x ys)

  -- The packet in front of those that `IsNeeded` is about was needed too.
  pub IsNeeded-first :
      (size : P → ℕ) (front : Bool) (l : Limits) (x : P) (xs xs' ds ys : List P)
      → IsShed front xs (x ∷ []) xs'
      → Exceeds size l xs
      → IsShed front xs' ds ys
      → IsNeeded size front l ds ys
      → IsNeeded size front l (x ∷ ds) ys
  unfolding IsShed backwards
  IsNeeded-first size front l x xs xs' ds ys h over h' (inr (ds', y, e, over')) =
      inr (x ∷ ds', y, ap (λ d. x ∷ d) e, over')
  IsNeeded-first size true l x xs xs' ds ys h over h' (inl e) =
      let same : xs' ≡ ys = h' ∙ ap (λ d. d ++ ys) e in
      inr ([], x, ap (λ d. x ∷ d) e, subst (Exceeds size l) (h ∙ ap (λ d. x ∷ d) same) over)
  IsNeeded-first size false l x xs xs' ds ys h over h' (inl e) =
      let same : xs' ≡ ys = h' ∙ ap (λ d. ys ++ backwards d) e ∙ append_nil ys in
      inr ([], x, ap (λ d. x ∷ d) e, subst (Exceeds size l) (h ∙ ap (λ d. d ++ x ∷ []) same) over)
