-- ===== src/Examples/Ants.antt =====
-- The theorems on an ant's memory at concrete ants.
use ant_aodv.Base.{◌≡◌, refl, inl, inr, ℤ, pos, List, [], ◌∷◌, arith}
use ant_aodv.Base.Result.{ok, fault, Fault}
use ant_aodv.Double.Milli.{Milli, milli_double}
use ant_aodv.Ant.{HdrAntPkt, Memory, memory, memorize, path, IsValid}
use ant_aodv.Ant.Visits.{visit, SameRest, memorize_lem}
use ant_aodv.Ant.Bounds.{IsSmall, memorize-IsSmall, memorize_overflow}
use ant_aodv.Examples.{filled, ant}

-- It has been at 0, 3 and 1.
abbrev walker : HdrAntPkt Milli
walker =
    ant (pos 0) (pos 5) (filled 13 (memory (pos 0) 0 ∷ memory (pos 3) 10 ∷ memory (pos 1) 20 ∷ []))
      3

walker-IsValid : IsValid walker
walker-IsValid = record { array = refl; used = omega arith }

walker-IsSmall : IsSmall walker
walker-IsSmall = record { valid = walker-IsValid; distinct = ground arith; small = ground arith }

memorize_lem_example :
    (h' : HdrAntPkt Milli) × (memorize 40 (pos 3) walker ≡ ok h')
    × (path h' ≡ visit (pos 3) (pos 0 ∷ pos 3 ∷ pos 1 ∷ []))
    × IsValid h'
    × SameRest walker h'
memorize_lem_example = memorize_lem 40 (pos 3) walker walker-IsValid (inr (inr (inl refl)))

memorize-IsSmall_example :
    (h' : HdrAntPkt Milli) × (memorize 40 (pos 2) walker ≡ ok h')
    × IsSmall h'
    × (path h' ≡ visit (pos 2) (pos 0 ∷ pos 3 ∷ pos 1 ∷ []))
    × SameRest walker h'
memorize-IsSmall_example = memorize-IsSmall 40 (pos 2) walker walker-IsSmall (omega arith)

abbrev visits_to : List ℤ → List (Memory Milli)
visits_to [] = []
visits_to (a ∷ as') = memory a 0 ∷ visits_to as'

abbrev sixteen : List ℤ
sixteen =
    pos 0
    ∷ pos 1
    ∷ pos 2
    ∷ pos 3
    ∷ pos 4
    ∷ pos 5
    ∷ pos 6
    ∷ pos 7
    ∷ pos 8
    ∷ pos 9
    ∷ pos 10
    ∷ pos 11
    ∷ pos 12
    ∷ pos 13
    ∷ pos 14
    ∷ pos 15
    ∷ []

abbrev full : HdrAntPkt Milli
full = ant (pos 0) (pos 5) (visits_to sixteen) 16

memorize_overflow_example : memorize 40 (pos 16) full ≡ fault Fault.out_of_bounds
memorize_overflow_example =
    memorize_overflow 40 (pos 16) full (record { array = refl; used = omega arith }) refl
      (ground arith)
