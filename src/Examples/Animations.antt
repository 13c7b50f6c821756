-- ===== src/Examples/Animations.antt =====
-- The theorems on the lines for the animator, and on M-DART, at the packet of an ant.
use ant_aodv.Base.{◌+◌, ◌≡◌, refl, arith, false, [], replicate, none, some, length}
use ant_aodv.Base.Result.{fault, Fault}
use ant_aodv.Base.Text.{codes}
use ant_aodv.Double.Milli.{Milli, milli_double}
use ant_aodv.Ant.{Packet}
use ant_aodv.Packet.Types.{pt_ntype, pt_dccp_req}
use ant_aodv.Packet.Info.{PInfo, init_name, copy_names, assign, assigned, name_of, name_at}
use ant_aodv.Trace.State.{World, Nam, type_name}
use ant_aodv.Trace.Mac.{energy_of, node_model}
use ant_aodv.Trace.Written.{IsAdded}
use ant_aodv.Trace.Mdart.{format_mdart}
use ant_aodv.Trace.Mdart.Written.{format_mdart-IsAdded}
use ant_aodv.Trace.Nam.{
  nam_format, nam_ptype, copy_ptype, nam_op, is_hidden, node_level, energy_level,
}
use ant_aodv.Trace.Nam.Shown.{sent_lines, color_lines, packet_line, repaints}
use ant_aodv.Trace.Nam.Lines.{IsNamable, due_lines}
use ant_aodv.Trace.Nam.Overflow.{Copies, is_overlong, nam_format-overflow}
use ant_aodv.Examples.Traces.{world, router, an_ant}

-- Each node has 300 of 1000 thousandths of its energy left, which is the second of the levels.
abbrev tired : World Milli (Packet Milli)
tired = record world {
  get_node_by_address = λ a. some (record {
    node_id = a;
    energy_model = some (record {
      energy = 300;
      ei = 0;
      es = 0;
      et = 0;
      er = 0;
      powersaving = false;
      initial_energy = 1000;
      level1 = 500;
      level2 = 200;
    });
  });
}

tired-IsNamable : IsNamable tired router an_ant
unfolding nam_ptype copy_ptype type_name name_of name_at
tired-IsNamable = record {
  open_trace = refl;
  ptype = codes "ant";
  short = refl;
  numbered = λ has. (2, refl, refl);
}

-- Two lines for a packet that is sent, one for the color 2, and that of the packet.
four_lines : (m : Nam Milli) → length (due_lines tired router m an_ant (codes "ant")) ≡ 4
unfolding sent_lines packet_line is_hidden color_lines repaints energy_of node_model node_level
    energy_level nam_op
four_lines m = refl

-- The names that `initName` assigns, and a packet of DCCP.
abbrev named_world : World Milli (Packet Milli)
named_world = record world {
  packet_info = record {
    name = assign assigned (replicate (pt_ntype + 1) none);
    n_pkt = pt_ntype + 1;
    pc = [];
  };
}

abbrev a_request : Packet Milli
a_request = record an_ant { cmn = record (an_ant.cmn) { ptype = pt_dccp_req } }

abbrev no_names : PInfo
no_names = record { name = []; n_pkt = 0; pc = [] }

nam_format-overflow_example : Copies named_world router a_request (is_overlong pt_dccp_req)
unfolding init_name copy_names assign
nam_format-overflow_example =
    nam_format-overflow named_world router a_request no_names refl refl refl (omega arith) refl

-- The request is one of the nine.
request-overflows : nam_format named_world router a_request ≡ fault Fault.out_of_bounds
unfolding Copies is_overlong init_name copy_names assign
request-overflows =
    nam_format-overflow named_world router a_request no_names refl refl refl (omega arith) refl

format_mdart-IsAdded_example :
    IsAdded router (format_mdart world router an_ant (length router.buffer))
format_mdart-IsAdded_example = format_mdart-IsAdded world router an_ant
