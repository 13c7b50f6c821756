-- ===== src/Agent/Command.antt =====
-- `command` and `add_Neighbor` of AntNet/antnet.cc.
use Prim.Native.String.{String}
use ant_aodv.Base.{if◌then◌else◌, ◌&&◌, ◌||◌, List, [], ◌∷◌, Option, none, some}
use ant_aodv.Base.Result.{Result, ok, Fault, ◌>>◌, guard}
use ant_aodv.Base.Text.{same_text, same_text_nocase}
use ant_aodv.Double.{Double}
use ant_aodv.Rtable.{print}
use ant_aodv.Agent.{Env, Action, Sim, does}
use ant_aodv.Agent.Start.{initialize_rtable}

-- What a command returns; `parent` where it is the base class's to answer.
pub data Answer : Type 0 where
  tcl_ok tcl_error parent : Answer

module _ {W : Type 0} ⦃d : Double W⦄ where
  -- `add_Neighbor`
  unfoldable pub connect : String → String → Sim W → Sim W
  connect n1 n2 s = does (Action.add_neighbor n2 n1) (does (Action.add_neighbor n1 n2) s)

  -- `argv[1]` with no argument behind it.
  unfoldable command_2 : Env W → Sim W → String → Sim W × Answer
  command_2 env s arg =
      if same_text_nocase arg "start"
      then (does (Action.resched d.nought) (initialize_rtable env s), Answer.tcl_ok)
      else if same_text_nocase arg "stop"
      then (does Action.cancel s, Answer.tcl_ok)
      else if same_text_nocase arg "print_rtable"
      then (does (Action.append_table s.agent.addr (print s.agent.rtable)) s, Answer.tcl_ok)
      else (s, Answer.parent)

  -- `argv[1]` with one argument; an object that Tcl does not find leaves a null pointer.
  unfoldable command_3 : Env W → Sim W → (arg object : String) → Sim W × Answer
  command_3 env s arg object =
      let found : Option String = if env.exists object then some object else none in
      let answer = if env.exists object then Answer.tcl_ok else Answer.tcl_error in
      if same_text arg "port-dmux"
      then (record s { agent = record (s.agent) { dmux = found } }, answer)
      else if same_text arg "log-target" || same_text arg "tracetarget"
      then (record s { agent = record (s.agent) { logtarget = found } }, answer)
      else (s, Answer.parent)

  unfoldable command_4 : Env W → Sim W → (arg object object' : String) → Result (Sim W × Answer)
  command_4 env s arg object object' =
      if same_text arg "add-neighbor"
      then (do
        guard (env.exists object && env.exists object') Fault.null_pointer
        ok (connect object object' s, Answer.tcl_ok))
      else ok (s, Answer.parent)

  -- `argv` without the command's own name.
  unfoldable pub command : Env W → Sim W → List String → Result (Sim W × Answer)
  unfolding command_2 command_3 command_4
  command env s (arg ∷ []) = ok (command_2 env s arg)
  command env s (arg ∷ object ∷ []) = ok (command_3 env s arg object)
  command env s (arg ∷ object ∷ object' ∷ []) = command_4 env s arg object object'
  command env s args = ok (s, Answer.parent)
