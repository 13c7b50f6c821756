-- ===== src/Packet/Pool.antt =====
-- Class `Packet` of Ns2.35Files/packet.h: the pool of packets with its free list, reference counts,
-- user data and the options of DCCP packets. A packet is its pointer. ns-2's classes `Event`,
-- `PacketStamp`, `AppData` and `DCCPOptions` are types; the headers are what the code reads of them.
pub mod Owned
pub mod Invariant
pub mod Alloc
pub mod Free
pub mod Twin
pub mod Copy
pub mod Reach
pub mod Works
pub mod Sized
pub mod Refine
use ant_aodv.Base.{
  ℕ, zero, suc, ◌==◌, ◌||◌, ℤ, pos, negsuc, pred_ℤ, ℤ_discrete, is_pos, is_zero, Bool, true, false,
  not, if◌then◌else◌, List, Option, none, some,
}
use ant_aodv.Base.Result.{Result, ok, fault, Fault, ◌>>=◌, ◌>>◌, guard}
use ant_aodv.Base.Heap.{Heap, new_object, load, store, delete}
use ant_aodv.Packet.{HdrCmn, Dir}
use ant_aodv.Packet.Types.{
  PacketT, pt_dccp, pt_dccp_req, pt_dccp_resp, pt_dccp_ack, pt_dccp_data, pt_dccp_dataack,
  pt_dccp_close, pt_dccp_closereq, pt_dccp_reset,
}
use ant_aodv.Packet.Data.{PacketData, AppData, AppDataClass, new_packet_data, size_of, copy_of}

-- The header bits: `zeroed` is what `bzero` leaves, `options` the pointer in the header of DCCP.
pub record Headers (H W : Type 0) : Type 0 where
  pub zeroed : H
  pub cmn : H → HdrCmn W
  pub with_cmn : HdrCmn W → H → H
  pub options : H → Option ℕ
  pub with_options : Option ℕ → H → H

-- `uid` and `time` are the members of `Event` that the class sets.
pub record Packet (H W S : Type 0) : Type 0 where
  pub bits : H
  pub userdata : Option ℕ
  pub fflag : Bool
  pub ref_count : ℤ
  pub next : Option ℕ
  pub uid : ℤ
  pub time : W
  pub txinfo : S
  pub incoming : ℕ

pub record Pool (H W S X O : Type 0) : Type 0 where
  pub packets : Heap (Packet H W S)
  pub free : Option ℕ
  pub appdata : Heap (AppData X)
  pub options : Heap O

-- What is not in this repository: `raw` has the members that the constructor `Packet()` leaves to
-- `Event` or unset, `time0` is the double 0, `stamp` is `PacketStamp::init`.
pub record Outside (H W S X : Type 0) : Type 0 where
  pub headers : Headers H W
  pub raw : Packet H W S
  pub time0 : W
  pub appdata : AppDataClass X
  pub stamp : (mine from : S) → S

-- The labels of the `switch` in `free` and `copy`.
unfoldable pub is_dccp : PacketT → Bool
is_dccp type =
    type == pt_dccp
    || type == pt_dccp_req
    || type == pt_dccp_resp
    || type == pt_dccp_ack
    || type == pt_dccp_data
    || type == pt_dccp_dataack
    || type == pt_dccp_close
    || type == pt_dccp_closereq
    || type == pt_dccp_reset

unfoldable pub is_null : Option ℕ → Bool
is_null none = true
is_null (some p) = false

-- `if (p != NULL) delete p;`
unfoldable pub delete_if : {A : Type 0} → Option ℕ → Heap A → Result (Heap A)
delete_if none h = ok h
delete_if (some p) h = delete p h

-- `++ref_count_`
abbrev pub succ_ℤ : ℤ → ℤ
succ_ℤ (ℤ.pos n) = pos (suc n)
succ_ℤ (ℤ.negsuc zero) = pos 0
succ_ℤ (ℤ.negsuc (suc n)) = negsuc n

module _ {H W : Type 0} (k : Headers H W) where
  -- The options that `free` deletes and `copy` copies.
  unfoldable pub options_of : H → Option ℕ
  unfolding is_dccp
  options_of bits = if is_dccp (k.cmn bits).ptype then k.options bits else none

  -- The bits after `memcpy`, and new options for a packet that has some.
  unfoldable pub copy_options : {O : Type 0} → H → Heap O → Result (H × Heap O)
  unfolding options_of
  copy_options bits h = elim (options_of bits) [
    | none ↦ ok (bits, h)
    | some o ↦ do
      value ← load h o
      let (o', h') = new_object value h
      ok (k.with_options (some o') bits, h')
  ]

module _ {H W S : Type 0} where
  -- The constructor `Packet()`, on what it finds.
  unfoldable pub new_packet : Packet H W S → Packet H W S
  new_packet raw = record raw { userdata = none; ref_count = pos 0; next = none }

-- The operations that need nothing from outside.
module _ {H W S X O : Type 0} where
  unfoldable pub allocdata : (n : ℤ) (p : ℕ) → Pool H W S X O → Result (Pool H W S X O)
  unfolding new_packet_data is_null
  allocdata n p s = do
    packet ← load s.packets p
    guard (is_null packet.userdata) Fault.assertion_failed
    let (d, appdata) = new_object (AppData.packet_data (new_packet_data n)) s.appdata
    ok (record s {
      packets = store p (record packet { userdata = some d }) s.packets;
      appdata = appdata;
    })

  unfoldable pub initdata : ℕ → Pool H W S X O → Result (Pool H W S X O)
  initdata p s = do
    packet ← load s.packets p
    ok (record s { packets = store p (record packet { userdata = none }) s.packets })

  unfoldable pub refcopy : ℕ → Pool H W S X O → Result (Pool H W S X O)
  refcopy p s = do
    packet ← load s.packets p
    let more = record packet { ref_count = succ_ℤ packet.ref_count }
    ok (record s { packets = store p more s.packets })

  unfoldable pub setdata : Option ℕ → ℕ → Pool H W S X O → Result (Pool H W S X O)
  unfolding delete_if
  setdata d p s = do
    packet ← load s.packets p
    appdata ← delete_if packet.userdata s.appdata
    ok (record s {
      packets = store p (record packet { userdata = d }) s.packets;
      appdata = appdata;
    })

unfoldable pub copy_data :
    {X : Type 0}
    → AppDataClass X
    → Option ℕ
    → Heap (AppData X)
    → Result (Option ℕ × Heap (AppData X))
unfolding copy_of
copy_data c none h = ok (none, h)
copy_data c (some d) h = do
  value ← load h d
  value' ← copy_of c value
  let (d', h') = new_object value' h
  ok (some d', h')

module _ {H W S X : Type 0} (e : Outside H W S X) where
  -- The end of `alloc`, from `init(p)` on.
  unfoldable pub prepare : Packet H W S → Packet H W S
  prepare p = record p {
    bits =
        e.headers.with_cmn
          (record (e.headers.cmn e.headers.zeroed) {
            next_hop = negsuc 1;
            last_hop = negsuc 1;
            direction = Dir.down;
          })
          e.headers.zeroed;
    fflag = true;
    next = none;
  }

  -- `zero` is the double 0.
  unfoldable pub alloc : {O : Type 0} → Pool H W S X O → Result (ℕ × Pool H W S X O)
  unfolding prepare new_packet is_null
  alloc s = elim s.free [
    | none ↦
        let (p, packets) = new_object (prepare (new_packet e.raw)) s.packets in
        ok (p, record s { packets = packets })
    | some p ↦ do
      packet ← load s.packets p
      guard (not packet.fflag) Fault.assertion_failed
      guard (is_null packet.userdata) Fault.assertion_failed
      let clean = prepare (record packet { uid = pos 0; time = e.time0 })
      ok (p, record s { packets = store p clean s.packets; free = packet.next })
  ]

  -- `alloc(int)`
  unfoldable pub alloc_sized : {O : Type 0} → (n : ℤ) → Pool H W S X O → Result (ℕ × Pool H W S X O)
  unfolding alloc allocdata
  alloc_sized n s = do
    (p, s') ← alloc s
    elim (is_pos n) [ true ↦ do s'' ← allocdata n p s'; ok (p, s'') | false ↦ ok (p, s') ]

  -- The branch of `free` for a packet without further references.
  unfoldable pub release :
      {O : Type 0} → (p : ℕ) (packet : Packet H W S) → Pool H W S X O → Result (Pool H W S X O)
  unfolding options_of delete_if
  release p packet s = do
    options ← delete_if (options_of e.headers packet.bits) s.options
    guard (not (is_pos packet.uid)) Fault.assertion_failed
    appdata ← delete_if packet.userdata s.appdata
    let spare = record packet {
      userdata = none;
      bits = e.headers.zeroed;
      next = s.free;
      fflag = false;
    }
    ok (record {
      packets = store p spare s.packets;
      free = some p;
      appdata = appdata;
      options = options;
    })

  -- The two tests of `free`: of the flag and of the reference count.
  unfoldable pub free_by :
      {O : Type 0}
      → (flagged last : Bool) (p : ℕ) (packet : Packet H W S) → Pool H W S X O
      → Result (Pool H W S X O)
  unfolding release
  free_by false last p packet s = ok s
  free_by true true p packet s = release p packet s
  free_by true false p packet s =
      let fewer = record packet { ref_count = pred_ℤ packet.ref_count } in
      ok (record s { packets = store p fewer s.packets })

  unfoldable pub free_packet : {O : Type 0} → ℕ → Pool H W S X O → Result (Pool H W S X O)
  unfolding free_by
  free_packet p s = do
    packet ← load s.packets p
    free_by packet.fflag (is_zero packet.ref_count) p packet s

  -- The packet copied is read after `alloc`.
  unfoldable pub copy : {O : Type 0} → (p : ℕ) → Pool H W S X O → Result (ℕ × Pool H W S X O)
  unfolding alloc copy_options copy_data
  copy p s = do
    (q, s') ← alloc s
    this ← load s'.packets p
    new ← load s'.packets q
    (bits, options) ← copy_options e.headers this.bits s'.options
    (owned, appdata) ← copy_data e.appdata this.userdata s'.appdata
    let twin = record new { bits = bits; userdata = owned; txinfo = e.stamp new.txinfo this.txinfo }
    ok (
      q,
      record {
        packets = store q twin s'.packets;
        free = s'.free;
        appdata = appdata;
        options = options;
      },
    )

module _ {H W S X O : Type 0} where
  -- `accessdata()`: the bytes of the user data, which must be a `PacketData`.
  unfoldable pub accessdata : ℕ → Pool H W S X O → Result (Option (List (Option ℕ)))
  accessdata p s = do
    packet ← load s.packets p
    elim packet.userdata [
      | none ↦ ok none
      | some d ↦ do
        value ← load s.appdata d
        elim value [
          | AppData.packet_data d' ↦ ok (d'.bytes)
          | AppData.other x ↦ fault Fault.assertion_failed
        ]
    ]

  unfoldable pub datalen : AppDataClass X → ℕ → Pool H W S X O → Result ℤ
  unfolding size_of
  datalen c p s = do
    packet ← load s.packets p
    elim packet.userdata [
      | none ↦ ok (pos 0)
      | some d ↦ do value ← load s.appdata d; ok (size_of c value)
    ]
