-- ===== src/Packet/Pool/Reach.antt =====
-- Runs of the pool's operations, and what they promise: who owns a packet.
use ant_aodv.Base.{ℕ, suc, ◌-◌, ◌≡◌, ◌≢◌, ℤ, is_pos, true, false, List, [], ◌∷◌, none, some}
use ant_aodv.Base.Result.{ok}
use ant_aodv.Base.Heap.{store}
use ant_aodv.Packet.Pool.{
  Packet, Pool, Outside, options_of, alloc, alloc_sized, allocdata, free_packet, setdata, refcopy,
  copy,
}
use ant_aodv.Packet.Pool.Free.{owners}
use ant_aodv.Packet.Pool.Twin.{IsCopyable}

-- A call as its clients see it: of which packet it makes or takes an owner.
pub data Call : Type 0 where
  -- `alloc`, `alloc(int)` or `copy` returns the packet
  gets : ℕ → Call
  shares : ℕ → Call
  frees : ℕ → Call
  -- a call that concerns no owner
  keeps : Call

-- The abstract pool counts the owners of each packet: from `o` a call leads to `o'`. A packet that is
-- handed out had no owner.
pub data Move : Call → (o o' : ℕ → ℕ) → Type 0 where
  acquire :
      {o o' : ℕ → ℕ} (p : ℕ)
      → o p ≡ 0
      → o' p ≡ 1
      → ((q : ℕ) → p ≢ q → o' q ≡ o q)
      → Move (Call.gets p) o o'
  share :
      {o o' : ℕ → ℕ} (p : ℕ)
      → o p ≢ 0
      → o' p ≡ suc (o p)
      → ((q : ℕ) → p ≢ q → o' q ≡ o q)
      → Move (Call.shares p) o o'
  -- A packet without an owner keeps none.
  release :
      {o o' : ℕ → ℕ} (p : ℕ)
      → o' p ≡ o p - 1
      → ((q : ℕ) → p ≢ q → o' q ≡ o q)
      → Move (Call.frees p) o o'
  rest : {o o' : ℕ → ℕ} → ((q : ℕ) → o' q ≡ o q) → Move Call.keeps o o'

pub data Moves : List Call → (o o' : ℕ → ℕ) → Type 0 where
  stop : {o : ℕ → ℕ} → Moves [] o o
  then_move :
      {o o' o'' : ℕ → ℕ} {call : Call} {calls : List Call}
      → Move call o o'
      → Moves calls o' o''
      → Moves (call ∷ calls) o o''

abbrev pub ownership : {H W S X O : Type 0} → Pool H W S X O → ℕ → ℕ
ownership s p = owners (s.packets.cell p)

module _ {H W S X O : Type 0} (e : Outside H W S X) where
  -- The calls that a client makes; all but the two `alloc` are for packets that the pool has made, and
  -- all but these and `free` for packets in use. In `works` the client writes to a packet in use what
  -- decides neither its ownership nor what it owns: other headers, the link, the uid, the time.
  pub data Step (s : Pool H W S X O) : Call → Pool H W S X O → Type 0 where
    allocates : {p : ℕ} {s' : Pool H W S X O} → alloc e s ≡ ok (p, s') → Step s (Call.gets p) s'
    allocates_sized :
        {p : ℕ} {s' : Pool H W S X O} (n : ℤ)
        → alloc_sized e n s ≡ ok (p, s')
        → Step s (Call.gets p) s'
    gets_data :
        {s' : Pool H W S X O} (n : ℤ) (p : ℕ) (x : Packet H W S)
        → s.packets.cell p ≡ some x
        → x.fflag ≡ true
        → x.userdata ≡ none
        → allocdata n p s ≡ ok s'
        → Step s Call.keeps s'
    drops_data :
        {s' : Pool H W S X O} (p : ℕ) (x : Packet H W S)
        → s.packets.cell p ≡ some x
        → x.fflag ≡ true
        → setdata none p s ≡ ok s'
        → Step s Call.keeps s'
    frees :
        {s' : Pool H W S X O} (p : ℕ) (x : Packet H W S)
        → s.packets.cell p ≡ some x
        → (owners (some x) ≡ 1 → is_pos x.uid ≡ false)
        → free_packet e p s ≡ ok s'
        → Step s (Call.frees p) s'
    refers :
        {s' : Pool H W S X O} (p : ℕ) (x : Packet H W S)
        → s.packets.cell p ≡ some x
        → x.fflag ≡ true
        → refcopy p s ≡ ok s'
        → Step s (Call.shares p) s'
    copies :
        {q : ℕ} {s' : Pool H W S X O} (p : ℕ) (x : Packet H W S)
        → s.packets.cell p ≡ some x
        → x.fflag ≡ true
        → IsCopyable e.appdata x.userdata s.appdata
        → copy e p s ≡ ok (q, s')
        → Step s (Call.gets q) s'
    works :
        (p : ℕ) (x y : Packet H W S)
        → s.packets.cell p ≡ some x
        → x.fflag ≡ true
        → y.fflag ≡ true
        → y.ref_count ≡ x.ref_count
        → y.userdata ≡ x.userdata
        → options_of e.headers y.bits ≡ options_of e.headers x.bits
        → Step s Call.keeps (record s { packets = store p y s.packets })

  pub data Steps : Pool H W S X O → List Call → Pool H W S X O → Type 0 where
    stop : {s : Pool H W S X O} → Steps s [] s
    then_step :
        {s s' s'' : Pool H W S X O} {call : Call} {calls : List Call}
        → Step s call s'
        → Steps s' calls s''
        → Steps s (call ∷ calls) s''
