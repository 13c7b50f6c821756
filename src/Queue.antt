-- ===== src/Queue.antt =====
-- The queues of Ns2.35Files: drop-tail.cc and priqueue.cc in the children. Both keep their packets in
-- ns-2's `PacketQueue`, which is not in this repository: its operations are a parameter, and its
-- documented behaviour is stated on the list of packets that it holds.
mod Lists
pub mod DropTail
pub mod PriQueue
pub mod Plain
use ant_aodv.Base.{
  ℕ, suc, ◌+◌, ◌≡◌, ◌⊎◌, ite, List, [], ◌∷◌, ◌++◌, Option, none, some, length, get_elem?, Among,
}

-- A packet is its pointer: `P` has decidable equality.
pub record PacketQueue (Q P : Type 0) : Type 0 where
  pub enque : P → Q → Q
  pub enque_head : P → Q → Q
  -- The packet at the head, if there is one, and the queue without it.
  pub deque : Q → Option P × Q
  pub remove : P → Q → Q
  -- `remove(p, pp)`, for `pp` in front of `p`
  pub remove_after : (p pp : P) → Q → Q
  pub lookup : ℕ → Q → Option P
  pub tail : Q → Option P
  pub length_of : Q → ℕ
  pub byte_length : Q → ℕ

module _ {P : Type 0} (same : Discrete P) where
  -- The list without the first occurrence of `p`.
  unfoldable pub erase : P → List P → List P
  erase p [] = []
  erase p (x ∷ xs) = ite (same x p) xs (x ∷ erase p xs)

module _ {P : Type 0} where
  abbrev pub head_of : List P → Option P
  head_of [] = none
  head_of (x ∷ xs) = some x

  abbrev pub rest_of : List P → List P
  rest_of [] = []
  rest_of (x ∷ xs) = xs

  abbrev pub last? : List P → Option P
  last? [] = none
  last? (x ∷ []) = some x
  last? (x ∷ y ∷ xs) = last? (y ∷ xs)

  abbrev pub bytes : (P → ℕ) → List P → ℕ
  bytes size [] = 0
  bytes size (x ∷ xs) = size x + bytes size xs

-- `PacketQueue` is a list of packets, head first; `size` is what a packet's common header says.
pub record IsFifo {Q P : Type 0} (same : Discrete P) (size : P → ℕ) (k : PacketQueue Q P)
    : Type 0 where
  pub view : Q → List P
  pub view-enque : (p : P) (q : Q) → view (k.enque p q) ≡ view q ++ p ∷ []
  pub view-enque_head : (p : P) (q : Q) → view (k.enque_head p q) ≡ p ∷ view q
  pub deque-packet : (q : Q) → (k.deque q).0 ≡ head_of (view q)
  pub view-deque : (q : Q) → view (k.deque q).1 ≡ rest_of (view q)
  pub view-remove : (p : P) (q : Q) → view (k.remove p q) ≡ erase same p (view q)
  pub view-remove_after :
      (p pp : P) (q : Q) (xs ys : List P)
      → view q ≡ xs ++ pp ∷ p ∷ ys
      → ¬ Among p (xs ++ pp ∷ [])
      → view (k.remove_after p pp q) ≡ xs ++ pp ∷ ys
  pub lookup-view : (i : ℕ) (q : Q) → k.lookup i q ≡ get_elem? (view q) i
  pub tail-view : (q : Q) → k.tail q ≡ last? (view q)
  pub length-view : (q : Q) → k.length_of q ≡ length (view q)
  pub bytes-view : (q : Q) → k.byte_length q ≡ bytes size (view q)
