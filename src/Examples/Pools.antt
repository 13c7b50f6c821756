-- ===== src/Examples/Pools.antt =====
-- The theorems on the pool of packets, from the empty pool on.
use ant_aodv.Base.{
  some-injective, none-some, ℕ, false, true, ◌≡◌, refl, sym, ap, ◌∙◌, subst, pos, negsuc,
  ℕ_discrete, List, [], ◌∷◌, Option, none, some,
}
use ant_aodv.Base.Result.{ok, ok-injective}
use ant_aodv.Base.Heap.{write_at, write_at-same, store, new_object}
use ant_aodv.Packet.{HdrCmn, Dir, NsAf, ModulationScheme}
use ant_aodv.Packet.Data.{AppData}
use ant_aodv.Packet.Pool.{
  Headers, Packet, Pool, Outside, options_of, prepare, new_packet, alloc, free_packet, refcopy,
  copy, is_dccp, free_by, release, delete_if,
}
use ant_aodv.Packet.Pool.Owned.{IsOwned, IsOwned-new, IsOwned-same}
use ant_aodv.Packet.Pool.Invariant.{IsPool, IsHeaders, IsFree-write}
use ant_aodv.Packet.Pool.Alloc.{IsAllocated, alloc_lem}
use ant_aodv.Packet.Pool.Free.{IsFreed, owners, given, free_packet_lem}
use ant_aodv.Packet.Pool.Twin.{IsCopyable, IsArray, IsWhole}
use ant_aodv.Packet.Pool.Copy.{IsCopied, copy_lem}
use ant_aodv.Packet.Pool.Reach.{Call, Moves, Step, Steps, ownership}
use ant_aodv.Packet.Pool.Refine.{Steps-refine}

abbrev blank : HdrCmn ℕ
blank = record {
  ptype = 0;
  size = pos 0;
  uid = pos 0;
  error = pos 0;
  errbitcnt = pos 0;
  fecsize = pos 0;
  ts = 0;
  iface = pos 0;
  direction = Dir.none;
  src_rt_valid = pos 0;
  ts_arr = 0;
  prev_hop = pos 0;
  next_hop = pos 0;
  addr_type = NsAf.ns_af_none;
  last_hop = pos 0;
  aomdv_salvage_count = pos 0;
  xmit_reason = pos 0;
  num_forwards = pos 0;
  opt_num_forwards = pos 0;
  txtime = 0;
  mod_scheme = ModulationScheme.bpsk;
}

-- Header bits that are the common header and the pointer to the options.
abbrev headers : Headers (HdrCmn ℕ × Option ℕ) ℕ
headers = record {
  zeroed = (blank, none);
  cmn = λ h. h.0;
  with_cmn = λ c h. (c, h.1);
  options = λ h. h.1;
  with_options = λ o h. (h.0, o);
}

headers-IsHeaders : IsHeaders headers
headers-IsHeaders = record {
  cmn-with_cmn = λ c h. refl;
  options-with_cmn = λ c h. refl;
  cmn-with_options = λ o h. refl;
  options-with_options = λ o h. refl;
  options-zeroed = refl;
}

-- Stamps and other data are numbers.
abbrev outside : Outside (HdrCmn ℕ × Option ℕ) ℕ ℕ ℕ
outside = record {
  headers = headers;
  raw = record {
    bits = (blank, some 77);
    userdata = none;
    fflag = false;
    ref_count = pos 9;
    next = none;
    uid = pos 0;
    time = 0;
    txinfo = 5;
    incoming = 3;
  };
  time0 = 0;
  appdata = record { size = pos; copy = λ x. x };
  stamp = λ mine from. from;
}

abbrev nowhere : {A : Type 0} → ℕ → Option A
nowhere p = none

abbrev empty : Pool (HdrCmn ℕ × Option ℕ) ℕ ℕ ℕ ℕ
empty = record {
  packets = record { fresh = 0; cell = nowhere };
  free = none;
  appdata = record { fresh = 0; cell = nowhere };
  options = record { fresh = 0; cell = nowhere };
}

nothing-IsOwned :
    {P A : Type 0} (pointer : P → Option ℕ)
    → IsOwned pointer nowhere (record { fresh = 0; cell = nowhere {A = A} })
nothing-IsOwned pointer = record {
  within = λ p a at. absurd (none-some at);
  held = λ p x d at. absurd (none-some at);
  apart = λ p q x y d at. absurd (none-some at);
}

empty-IsPool : IsPool headers empty []
empty-IsPool = record {
  free_list = record {
    within = λ p a at. absurd (none-some at);
    chain = refl;
    distinct = tt;
    unflagged = λ p x at. absurd (none-some at);
    counted = λ p x at. absurd (none-some at);
  };
  owns_data = nothing-IsOwned (λ x. x.userdata);
  owns_options = nothing-IsOwned (λ x. options_of headers x.bits);
}

alloc_lem_example :
    (s' : Pool (HdrCmn ℕ × Option ℕ) ℕ ℕ ℕ ℕ) × (alloc outside empty ≡ ok (0, s'))
    × IsAllocated outside 0 empty s'
    × IsPool headers s' []
alloc_lem_example = alloc_lem outside empty [] headers-IsHeaders empty-IsPool

-- A pool with one packet, in use.
abbrev first : Packet (HdrCmn ℕ × Option ℕ) ℕ ℕ
first = record {
  bits = (record blank { next_hop = negsuc 1; last_hop = negsuc 1; direction = Dir.down }, none);
  userdata = none;
  fflag = true;
  ref_count = pos 0;
  next = none;
  uid = pos 0;
  time = 0;
  txinfo = 5;
  incoming = 3;
}

abbrev one : Pool (HdrCmn ℕ × Option ℕ) ℕ ℕ ℕ ℕ
one = record empty { packets = (new_object first empty.packets).1 }

one-allocated : alloc outside empty ≡ ok (0, one)
unfolding alloc prepare new_packet
one-allocated = refl

one-IsPool : IsPool headers one []
one-IsPool =
    let (s, gives, made, valid) = alloc_lem_example in
    subst (λ s. IsPool headers s []) (ap (λ r. r.1) (ok-injective (sym gives ∙ one-allocated)))
      valid

free_packet_lem_example :
    (s' : Pool (HdrCmn ℕ × Option ℕ) ℕ ℕ ℕ ℕ) × (free_packet outside 0 one ≡ ok s')
    × IsFreed outside 0 first one s'
    × IsPool headers s' (given (owners (one.packets.cell 0)) 0 [])
free_packet_lem_example =
    free_packet_lem outside one [] 0 first headers-IsHeaders one-IsPool
      (write_at-same 0 (some first) nowhere) (λ last. refl)

-- The same with two bytes of user data.
abbrev second : Packet (HdrCmn ℕ × Option ℕ) ℕ ℕ
second = record first { userdata = some 0 }

abbrev bytes : AppData ℕ
bytes = AppData.packet_data (record { bytes = some (none ∷ none ∷ []); datalen = pos 2 })

abbrev loaded : Pool (HdrCmn ℕ × Option ℕ) ℕ ℕ ℕ ℕ
loaded = record one {
  packets = store 0 second one.packets;
  appdata = (new_object bytes empty.appdata).1;
}

loaded-IsPool : IsPool headers loaded []
loaded-IsPool = record {
  free_list =
      IsFree-write 0 first second (write_at-same 0 (some first) nowhere) refl refl (0, refl)
        one-IsPool.free_list;
  owns_data = IsOwned-new (λ x. x.userdata) 0 second bytes refl one-IsPool.owns_data;
  owns_options =
      IsOwned-same (λ x. options_of headers x.bits) 0 first second
        (write_at-same 0 (some first) nowhere) refl one-IsPool.owns_options;
}

loaded-second : loaded.packets.cell 0 ≡ some second
loaded-second = write_at-same 0 (some second) one.packets.cell

second-IsCopyable : IsCopyable outside.appdata second.userdata loaded.appdata
unfolding IsCopyable IsWhole
second-IsCopyable d a here at =
    subst (IsWhole outside.appdata)
      (some-injective (
        sym (
          ap loaded.appdata.cell (sym (some-injective here)) ∙ write_at-same 0 (some bytes) nowhere)
        ∙ at))
      (IsArray.full (none ∷ none ∷ []) refl refl)

copy_lem_example :
    (s' : Pool (HdrCmn ℕ × Option ℕ) ℕ ℕ ℕ ℕ) × (copy outside 0 loaded ≡ ok (1, s'))
    × IsCopied outside 1 second loaded s'
    × IsPool headers s' []
copy_lem_example =
    copy_lem outside loaded [] 0 second headers-IsHeaders loaded-IsPool loaded-second refl
      second-IsCopyable

-- A packet is made, shared, and freed twice.
abbrev shared : Pool (HdrCmn ℕ × Option ℕ) ℕ ℕ ℕ ℕ
shared = record one { packets = store 0 (record first { ref_count = pos 1 }) one.packets }

abbrev once_freed : Pool (HdrCmn ℕ × Option ℕ) ℕ ℕ ℕ ℕ
once_freed = record one { packets = store 0 first shared.packets }

abbrev twice_freed : Pool (HdrCmn ℕ × Option ℕ) ℕ ℕ ℕ ℕ
twice_freed = record one {
  packets = store 0 (record first { bits = (blank, none); fflag = false }) once_freed.packets;
  free = some 0;
}

run :
    Steps outside empty (Call.gets 0 ∷ Call.shares 0 ∷ Call.frees 0 ∷ Call.frees 0 ∷ []) twice_freed
unfolding owners write_at ℕ_discrete refcopy free_packet free_by release delete_if options_of
    is_dccp
run = Steps.then_step (Step.allocates one-allocated) (
    Steps.then_step (Step.refers {s' = shared} 0 first refl refl refl) (
      Steps.then_step
        (Step.frees {s' = once_freed} 0 (record first { ref_count = pos 1 }) refl (λ _. refl) refl)
        (Steps.then_step (Step.frees {s' = twice_freed} 0 first refl (λ _. refl) refl) Steps.stop)))

Steps-refine_example :
    ((spare : List ℕ) × IsPool headers twice_freed spare)
    × Moves
        (Call.gets 0 ∷ Call.shares 0 ∷ Call.frees 0 ∷ Call.frees 0 ∷ [])
        (ownership empty)
        (ownership twice_freed)
Steps-refine_example = Steps-refine outside [] headers-IsHeaders empty-IsPool run
