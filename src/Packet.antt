-- ===== src/Packet.antt =====
-- Ns2.35Files/packet.h: packets and the common header. `hdr_ip` is ns-2's own; the model has the
-- fields that the code sets and reads.
pub mod Info
pub mod Types
pub mod Data
pub mod Pool
use Prim.Native.String.{String}
use ant_aodv.Base.{ℕ, ℤ}
use Types.{PacketT}

abbrev pub rt_port : ℤ
rt_port = ℤ.pos 255

-- `enum dir_t { DOWN= -1, NONE= 0, UP= 1 }`
pub data Dir : Type 0 where
  down none up : Dir

pub data ModulationScheme : Type 0 where
  bpsk qpsk qam16 qam64 : ModulationScheme

pub data NsAf : Type 0 where
  ns_af_none ns_af_ilink ns_af_inet : NsAf

-- The fields of `hdr_cmn` but the callback `xmit_failure_` with its argument.
pub record HdrCmn (W : Type 0) : Type 0 where
  pub ptype : PacketT
  pub size : ℤ
  pub uid : ℤ
  pub error : ℤ
  pub errbitcnt : ℤ
  pub fecsize : ℤ
  pub ts : W
  pub iface : ℤ
  pub direction : Dir
  pub src_rt_valid : ℤ
  pub ts_arr : W
  pub prev_hop : ℤ
  pub next_hop : ℤ
  pub addr_type : NsAf
  pub last_hop : ℤ
  pub aomdv_salvage_count : ℤ
  pub xmit_reason : ℤ
  pub num_forwards : ℤ
  pub opt_num_forwards : ℤ
  pub txtime : W
  pub mod_scheme : ModulationScheme

pub record HdrIp : Type 0 where
  pub saddr : ℤ
  pub daddr : ℤ
  pub sport : ℤ
  pub dport : ℤ
  pub ttl : ℤ

-- `iface_literal`: a special value of an interface and the text for it in Tcl.
pub record IfaceLiteral : Type 0 where
  pub value : ℤ
  pub name : String

abbrev pub unkn_iface : IfaceLiteral
unkn_iface = record { value = ℤ.negsuc 0; name = "?" }

abbrev pub any_iface : IfaceLiteral
any_iface = record { value = ℤ.negsuc 1; name = "*" }
