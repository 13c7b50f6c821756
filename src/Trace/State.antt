-- ===== src/Trace/State.antt =====
-- The state of class `CMUTrace` of Ns2.35Files/cmu-trace.h and .cc, and what it reads of ns-2. Texts
-- are lists of character codes.
use Prim.Native.String.{String}
use ant_aodv.Base.{
  ℕ, ◌==◌, ◌||◌, ◌&&◌, ℤ, ℤ_discrete, ite, is_zero, not, Bool, true, false, if◌then◌else◌, List, [],
  ◌∷◌, ◌++◌, take, Option, none, some,
}
use ant_aodv.Base.Result.{Result, ok, Fault, ◌>>=◌, ◌>>◌, guard, or_fault}
use ant_aodv.Base.Text.{codes, same_codes}
use ant_aodv.Base.Format.{Arg, sprintf_at}
use ant_aodv.Double.{Double}
use ant_aodv.Packet.Types.{PacketT}
use ant_aodv.Packet.Info.{PInfo, name_of}
use ant_aodv.Trace.Headers.{TraceHeaders, Constants}

-- `type_`: `DROP`, `RECV`, `SEND`, `FWRD` and `EOT`
abbrev pub drop : ℕ
drop = b'D'

abbrev pub received : ℕ
received = b'r'

abbrev pub sent : ℕ
sent = b's'

abbrev pub forwarded : ℕ
forwarded = b'f'

abbrev pub eot : ℕ
eot = b'x'

pub data TraceType : Type 0 where
  tr_router tr_mac tr_ifq tr_agent tr_phy : TraceType

abbrev pub max_id_len : ℕ
max_id_len = 3

abbrev pub max_node : ℕ
max_node = 4096

pub record Energy (W : Type 0) : Type 0 where
  pub energy : W
  pub ei : W
  pub es : W
  pub et : W
  pub er : W
  pub powersaving : Bool
  pub initial_energy : W
  pub level1 : W
  pub level2 : W

pub record Node (W : Type 0) : Type 0 where
  pub node_id : ℤ
  pub energy_model : Option (Energy W)

-- What the lines for the animator need besides: `Nam802_15_4::Nam_Status`; the two `findAttrLink`, with
-- and without source and destination, which give the `attribute` of what they find;
-- `p802_15_4macSA` and `p802_15_4macDA`; `mess_type` of `HDR_CDIFF` and `DATA`; `IP_BROADCAST`; what
-- `atof` makes of Tcl's answer to a command; `pow`.
pub record NamWorld (W P : Type 0) : Type 0 where
  pub nam_status : Bool
  pub find_attr_link : PacketT → ℤ → ℤ → Option ℕ
  pub find_attr_link_any : PacketT → Option ℕ
  pub mac_sa : P → ℤ
  pub mac_da : P → ℤ
  pub mess_type : P → ℤ
  pub data_message : ℤ
  pub ip_broadcast : ℕ
  pub tcl_number : String → W
  pub pow : W → W → W

-- What the trace keeps for the animator: whether there is a channel, `nodeColor` by index, and the
-- static `bradius`, `radius_scaling_factor_` and `duration_scaling_factor_`.
pub record Nam (W : Type 0) : Type 0 where
  pub channel : Bool
  pub node_color : ℕ → ℕ
  pub bradius : W
  pub radius_scaling_factor : W
  pub duration_scaling_factor : W

-- What the trace reads of the simulator. `show_real` prints a `double` with so many digits after the
-- point, `show_time` as `TIME_FORMAT` does; `above_zero` is `> 0`; `minus_one` is -1.
pub record World (W P : Type 0) : Type 0 where
  pub headers : TraceHeaders W P
  pub constants : Constants
  pub packet_info : PInfo
  pub show_real : (precision : ℕ) → W → List ℕ
  pub show_time : W → List ℕ
  pub above_zero : W → Bool
  pub minus_one : W
  pub clock : W
  pub mac_type : List ℕ
  pub get_nodeaddr : ℤ → ℤ
  pub get_node_by_address : ℤ → Option (Node W)
  pub double : Double W
  pub nam : NamWorld W P

-- A tracer of other packets: `format`, which says whether it knows the packet, on the buffer.
abbrev pub PacketTracer : Type 0 → Type 0
PacketTracer P = P → (offset : ℕ) → (newtrace : ℤ) → List ℕ → Bool × List ℕ

-- What the trace does to the rest of the simulator.
pub data Effect (P : Type 0) : Type 0 where
  -- `set_node_state(EnergyModel::INROUTE)` of the node at the address
  in_route : ℤ → Effect P
  -- `God::instance()->stampPacket(p)`
  stamp : P → Effect P
  -- the line that `dump` writes
  dump : List ℕ → Effect P
  -- the line that `namdump` writes
  namdump : List ℕ → Effect P
  -- `HDR_LRWPAN(p)->attribute` is written
  set_attribute : P → ℕ → Effect P
  free : P → Effect P
  send : P → Effect P

-- `node` is the location that `getLoc` gives, `buffer` the text in `pt_->buffer()`, `tracers` the
-- chain of `pktTrc_`; `target` says whether there is a target; `effects` are oldest first.
pub record CmuTrace (W P : Type 0) : Type 0 where
  pub tracename : List ℕ
  pub tracetype : TraceType
  pub type : ℕ
  pub src : ℤ
  pub node : Option (W × W × W)
  pub newtrace : ℤ
  pub tagged : Bool
  pub buffer : List ℕ
  pub target : Bool
  pub tracers : List (PacketTracer P)
  pub nam : Nam W
  pub effects : List (Effect P)

unfoldable pub trace_type : List ℕ → Option TraceType
unfolding same_codes
trace_type name =
    if same_codes name (codes "RTR")
    then some TraceType.tr_router
    else if same_codes name (codes "TRP")
    then some TraceType.tr_router
    else if same_codes name (codes "PHY")
    then some TraceType.tr_phy
    else if same_codes name (codes "MAC")
    then some TraceType.tr_mac
    else if same_codes name (codes "IFQ")
    then some TraceType.tr_ifq
    else if same_codes name (codes "AGT")
    then some TraceType.tr_agent
    else none

abbrev pub is_mac : TraceType → Bool
is_mac TraceType.tr_mac = true
is_mac _ = false

abbrev pub is_router : TraceType → Bool
is_router TraceType.tr_router = true
is_router _ = false

abbrev pub is_agent : TraceType → Bool
is_agent TraceType.tr_agent = true
is_agent _ = false

abbrev pub is_phy : TraceType → Bool
is_phy TraceType.tr_phy = true
is_phy _ = false

module _ {W P : Type 0} where
  -- The constructor, on the members that the base class sets; a name it does not know ends the
  -- program.
  unfoldable pub new_trace : (base : CmuTrace W P) (s : String) (t : ℕ) → Result (CmuTrace W P)
  unfolding trace_type
  new_trace base s t = do
    let name = take max_id_len (codes s)
    kind ← or_fault (trace_type name) Fault.exit
    guard (t == drop || t == sent || t == received || (t == eot && is_mac kind))
        Fault.assertion_failed
    ok (record base {
      tracename = name;
      tracetype = kind;
      type = t;
      newtrace = ℤ.pos 0;
      nam = record (base.nam) { node_color = λ i. 3 };
      node = none;
    })

  -- `newtrace_`, as a condition.
  abbrev pub is_new : CmuTrace W P → Bool
  is_new s = not (is_zero s.newtrace)

  -- One of three, by the format of the trace: tagged, new, and that of old.
  unfoldable pub style : {A : Type 0} → CmuTrace W P → (tagged new old : A) → A
  style s tagged new old = if s.tagged then tagged else if is_new s then new else old

  abbrev pub does : Effect P → CmuTrace W P → CmuTrace W P
  does e s = record s { effects = s.effects ++ e ∷ [] }

  abbrev pub with_buffer : CmuTrace W P → List ℕ → CmuTrace W P
  with_buffer s cs = record s { buffer = cs }

  unfoldable pub write :
      World W P → CmuTrace W P → (offset : ℕ) → String → List (Arg W) → Result (CmuTrace W P)
  unfolding sprintf_at
  write w s offset format args = do
    cs ← sprintf_at w.show_real offset format args s.buffer
    ok (with_buffer s cs)

  -- `packet_info.name(type)`, as an argument
  unfoldable pub type_name : World W P → PacketT → Result (List ℕ)
  unfolding name_of
  type_name w t = do
    name ← name_of w.packet_info t
    s ← or_fault name Fault.null_pointer
    ok (codes s)

-- `==` on `int`.
unfoldable pub same_int : ℤ → ℤ → Bool
unfolding ℤ_discrete
same_int a b = ite (ℤ_discrete a b) true false
