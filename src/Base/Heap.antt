-- ===== src/Base/Heap.antt =====
-- Objects on the heap: `new`, reads and writes through a pointer, and `delete`.
use Prim.Native.Nat.{ℕ, suc, ◌<◌}
use mathlib.Core.Path.{◌≡◌, refl}
use mathlib.Core.Logic.{◌≢◌, ite, if_pos, if_neg}
use mathlib.Core.Option.{Option, none, some}
use native.Mathlib.Decide.{ℕ_discrete}
use ant_aodv.Base.Result.{Result, ok, fault, Fault, or_fault}

-- `fresh` is the pointer that the next `new` gives.
pub record Heap (A : Type 0) : Type 0 where
  pub fresh : ℕ
  pub cell : ℕ → Option A

module _ {A : Type 0} where
  unfoldable pub write_at : ℕ → Option A → (ℕ → Option A) → ℕ → Option A
  write_at p v f q = ite (ℕ_discrete p q) v (f q)

  abbrev pub new_object : A → Heap A → ℕ × Heap A
  new_object a h =
      (h.fresh, record { fresh = suc (h.fresh); cell = write_at h.fresh (some a) h.cell })

  abbrev pub load : Heap A → ℕ → Result A
  load h p = or_fault (h.cell p) Fault.dangling

  abbrev pub store : ℕ → A → Heap A → Heap A
  store p a h = record h { cell = write_at p (some a) h.cell }

  abbrev pub clear : ℕ → Heap A → Heap A
  clear p h = record h { cell = write_at p none h.cell }

  -- `delete` of an object that is not there, such as a second one, is a fault.
  abbrev pub delete : ℕ → Heap A → Result (Heap A)
  delete p h = elim (h.cell p) [ none ↦ fault Fault.dangling | some _ ↦ ok (clear p h) ]

  pub write_at-same : (p : ℕ) (v : Option A) (f : ℕ → Option A) → write_at p v f p ≡ v
  unfolding write_at
  write_at-same p v f = if_pos (ℕ_discrete p p) refl v (f p)

  pub write_at-other :
      (p : ℕ) (v : Option A) (f : ℕ → Option A) {q : ℕ} → p ≢ q → write_at p v f q ≡ f q
  unfolding write_at
  write_at-other p v f {q} n = if_neg (ℕ_discrete p q) n v (f q)

  -- Nothing is beyond `fresh`.
  abbrev pub IsHeap : Heap A → Type 0
  IsHeap h = (p : ℕ) (a : A) → h.cell p ≡ some a → p < h.fresh
