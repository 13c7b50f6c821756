-- ===== src/Packet/Data.antt =====
-- `PacketData` of Ns2.35Files/packet.h. `AppData`, its base class, is ns-2's: other kinds of data are
-- a type `X` with the operations that the packets use.
use ant_aodv.Base.{
  ℕ, ℤ, is_pos, true, false, if◌then◌else◌, List, replicate, take, Option, none, some,
}
use ant_aodv.Base.Result.{Result, ok, fault, Fault, ◌>>=◌}

-- The array `data_`: a byte is `none` before it is written.
pub record PacketData : Type 0 where
  pub bytes : Option (List (Option ℕ))
  pub datalen : ℤ

pub data AppData (X : Type 0) : Type 0 where
  packet_data : PacketData → AppData X
  other : X → AppData X

pub record AppDataClass (X : Type 0) : Type 0 where
  pub size : X → ℤ
  pub copy : X → X

abbrev pub count_of : ℤ → ℕ
count_of (ℤ.pos n) = n
count_of (ℤ.negsuc n) = 0

-- `PacketData(int sz)`
unfoldable pub new_packet_data : ℤ → PacketData
new_packet_data sz = record {
  bytes = if is_pos sz then some (replicate (count_of sz) none) else none;
  datalen = sz;
}

-- `memcpy` of `n` bytes to a new array.
unfoldable pub copy_bytes : ℕ → Option (List (Option ℕ)) → Result (List (Option ℕ))
copy_bytes n none = fault Fault.null_pointer
copy_bytes n (some array) = ok (take n array)

-- `PacketData(PacketData& d)`
unfoldable pub copy_packet_data : PacketData → Result PacketData
unfolding copy_bytes
copy_packet_data d = elim (is_pos d.datalen) [
  | true ↦ do
    copied ← copy_bytes (count_of d.datalen) d.bytes
    ok (record { bytes = some copied; datalen = d.datalen })
  | false ↦ ok (record { bytes = none; datalen = d.datalen })
]

module _ {X : Type 0} (c : AppDataClass X) where
  -- The virtual methods `size()` and `copy()`.
  unfoldable pub size_of : AppData X → ℤ
  size_of (AppData.packet_data d) = d.datalen
  size_of (AppData.other x) = c.size x

  unfoldable pub copy_of : AppData X → Result (AppData X)
  unfolding copy_packet_data
  copy_of (AppData.packet_data d) = do d' ← copy_packet_data d; ok (AppData.packet_data d')
  copy_of (AppData.other x) = ok (AppData.other (c.copy x))
