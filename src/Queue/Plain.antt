-- ===== src/Queue/Plain.antt =====
-- A packet queue that keeps the laws of `IsFifo`: a list of packet numbers.
use ant_aodv.Base.{
  ℕ, ◌≡◌, refl, inl, inr, ℕ_discrete, if_pos, if_neg, List, [], ◌∷◌, ◌++◌, length, get_elem?, Among,
}
use ant_aodv.Queue.{PacketQueue, IsFifo, erase, head_of, rest_of, last?, bytes}

pub erase-after :
    (p pp : ℕ) (xs ys : List ℕ)
    → ¬ Among p (xs ++ pp ∷ [])
    → erase ℕ_discrete p (xs ++ pp ∷ p ∷ ys) ≡ xs ++ pp ∷ ys
unfolding erase
erase-after p pp [] ys out = rw (if_neg _ (λ e. out (inl e)), if_pos _ refl)
erase-after p pp (x ∷ xs) ys out =
    rw (if_neg _ (λ e. out (inl e)), erase-after p pp xs ys (λ m. out (inr m)))

unfoldable pub plain : PacketQueue (List ℕ) ℕ
unfolding erase ℕ_discrete
plain = record {
  enque = λ p q. q ++ p ∷ [];
  enque_head = λ p q. p ∷ q;
  deque = λ q. (head_of q, rest_of q);
  remove = erase ℕ_discrete;
  remove_after = λ p pp. erase ℕ_discrete p;
  lookup = λ i q. get_elem? q i;
  tail = last?;
  length_of = length;
  byte_length = bytes (λ p. p);
}

unfoldable pub plain-IsFifo : IsFifo ℕ_discrete (λ p. p) plain
unfolding plain
plain-IsFifo = record {
  view = λ q. q;
  view-enque = λ p q. refl;
  view-enque_head = λ p q. refl;
  deque-packet = λ q. refl;
  view-deque = λ q. refl;
  view-remove = λ p q. refl;
  view-remove_after = λ p pp q xs ys e out. rw e (erase-after p pp xs ys out);
  lookup-view = λ i q. refl;
  tail-view = λ q. refl;
  length-view = λ q. refl;
  bytes-view = λ q. refl;
}
