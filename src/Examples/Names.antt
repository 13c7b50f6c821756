-- ===== src/Examples/Names.antt =====
-- The theorems on packet names at concrete tables.
use Prim.Native.String.{String}
use ant_aodv.Base.{◌≡◌, refl, [], ◌∷◌, some, arith}
use ant_aodv.Base.Result.{ok, fault, Fault}
use ant_aodv.Packet.Types.{pt_ant}
use ant_aodv.Packet.Info.{PInfo, init_name, name_of, get_type}
use ant_aodv.Packet.Info.Names.{init_name_lem, name_of_end}

-- The static members before the first `p_info` is made.
abbrev empty : PInfo
empty = record { name = []; n_pkt = 0; pc = [] }

init_name_lem_example :
    (s' : PInfo) × (n : String) × (init_name empty ≡ ok s')
    × (name_of s' pt_ant ≡ ok (some n))
    × (get_type s' n ≡ ok pt_ant)
init_name_lem_example = init_name_lem empty pt_ant refl (omega arith)

abbrev two_names : PInfo
two_names = record { name = some "tcp" ∷ some "udp" ∷ []; n_pkt = 2; pc = [] }

name_of_end_example : name_of two_names 2 ≡ fault Fault.out_of_bounds
name_of_end_example = name_of_end two_names refl
