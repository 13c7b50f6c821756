-- ===== src/Trace/Mdart.antt =====
-- `format_mdart` of Ns2.35Files/cmu-trace.cc, which no code calls.
pub mod Written
use Prim.Native.String.{String}
use ant_aodv.Base.{ℕ, zero, suc, ◌+◌, ◌%◌, ℤ, if◌then◌else◌, List, [], ◌∷◌, ◌++◌}
use Prim.Native.Nat.{◌/◌}
use ant_aodv.Base.Result.{Result, ok}
use ant_aodv.Base.Format.{Arg, unsigned}
use ant_aodv.Trace.Headers.{HdrMdart}
use ant_aodv.Trace.State.{World, CmuTrace, style, write, same_int}

-- The lowest `k` bits of a number, as `bitset::to_string` writes them.
unfoldable pub bits : (k : ℕ) → ℕ → List ℕ
bits zero n = []
bits (suc k) n = let rest = bits k (n / 2) in rest ++ (b'0' + n % 2) ∷ []

module _ {W P : Type 0} (w : World W P) where
  unfoldable pub bit_text : ℤ → List ℕ
  bit_text a = bits w.constants.mdart.addr_size (unsigned a)

  abbrev pub hello_tagged : HdrMdart → List (Arg W)
  hello_tagged h = Arg.int h.md_type ∷ Arg.int h.dst_add ∷ Arg.int h.src_add ∷ Arg.int h.src_id ∷ []

  abbrev pub hello_new : HdrMdart → List (Arg W)
  hello_new h =
      Arg.int h.src_id
      ∷ Arg.text (bit_text h.src_add)
      ∷ Arg.text (bit_text h.dst_add)
      ∷ Arg.int h.seq_num
      ∷ []

  unfoldable pub mdart_hello : CmuTrace W P → P → ℕ → Result (CmuTrace W P)
  mdart_hello s p offset =
      let h = w.headers.mdart_hello p in
      style s
        (write w s offset "-mdart:t %x -mdart:dAdd %d -mdart:sAdd %d -mdart:sId %d"
          (hello_tagged h))
        (write w s offset "-type HELLO -srcId %d -srcAdd %s dstAdd %s -seqNum %d" (hello_new h))
        (write w s offset "[0x%x [%d %d] [%d]]" (hello_tagged h))

  -- The fields that the tagged and the old formats of all other messages begin with.
  abbrev pub common_args : HdrMdart → (rest : List (Arg W)) → List (Arg W)
  common_args h rest =
      Arg.int h.md_type
      ∷ Arg.int h.dst_add
      ∷ Arg.int h.src_add
      ∷ Arg.int h.dst_id
      ∷ Arg.int h.src_id
      ∷ Arg.int h.for_add
      ∷ Arg.int h.for_id
      ∷ rest

  -- The same for the new format.
  abbrev pub common_new : HdrMdart → (rest : List (Arg W)) → List (Arg W)
  common_new h rest =
      Arg.int h.src_id
      ∷ Arg.text (bit_text h.src_add)
      ∷ Arg.int h.for_id
      ∷ Arg.text (bit_text h.for_add)
      ∷ Arg.int h.dst_id
      ∷ Arg.text (bit_text h.dst_add)
      ∷ rest

  unfoldable pub mdart_darq : CmuTrace W P → P → ℕ → Result (CmuTrace W P)
  mdart_darq s p offset =
      let h = w.headers.mdart_darq p in
      let rest = Arg.int h.req_id ∷ Arg.int h.seq_num ∷ [] in
      style s
        (write w s offset
          "-mdart:t %x -mdart:dstAdd %d -mdart:srcAdd %d -mdart:dstId %d -mdart:srcId %d -mdart:forAdd %d -mdart:forId %d -mdart:rId %d -mdart:pId %u -mdart:c DARQ"
          (common_args h rest))
        (write w s offset
          "-type DARQ -srcId %d -srcAdd %s -forId %d -forAdd %s -dstId %d dstAdd %s -reqId %d -seqNum %d"
          (common_new h rest))
        (write w s offset "[0x%x [%d %d] [%d %d] [%d %d] [%d] %u] (DARQ)" (common_args h rest))

  unfoldable pub mdart_darp : CmuTrace W P → P → ℕ → Result (CmuTrace W P)
  mdart_darp s p offset =
      let h = w.headers.mdart_darp p in
      let rest = Arg.int h.req_add ∷ Arg.int h.req_id ∷ Arg.int h.seq_num ∷ [] in
      style s
        (write w s offset
          "-mdart:t %x -mdart:dAdd %d -mdart:sAdd %d -mdart:dId %d -mdart:sId %d -mdart:fAdd %d -mdart:fId %d -mdart:rAdd %d -mdart:rId %d -mdart:pAId %d mdart:c DARP"
          (common_args h rest))
        (write w s offset
          "-type DARP -srcId %d -srcAdd %s -forId %d -forAdd %s -dstId %d dstAdd %s -reqId %d -reqAdd %s -seqNum %d"
          (common_new h
            (Arg.int h.req_id ∷ Arg.text (bit_text h.req_add) ∷ Arg.int h.seq_num ∷ [])))
        (write w s offset "[0x%x [%d %d] [%d %d] [%d %d] [%d %d] %u] (DARP)" (common_args h rest))

  -- The tagged and the old format of DAUP, which DABR writes too.
  abbrev pub daup_tag : String
  daup_tag =
      "-mdart:t %x -mdart:dAdd %d -mdart:sAdd %d -mdart:dId %d -mdart:sId %d -mdart:fAdd %d -mdart:fId %d -mdart:pAId %u -mdart:c DAUP"

  abbrev pub daup_old : String
  daup_old = "[0x%x [%d %d] [%d %d] [%d %d] %u] (DAUP)"

  unfoldable pub mdart_daup : CmuTrace W P → P → ℕ → Result (CmuTrace W P)
  mdart_daup s p offset =
      let h = w.headers.mdart_daup p in
      let rest = Arg.int h.seq_num ∷ [] in
      style s (write w s offset daup_tag (common_args h rest))
        (write w s offset
          "-type DAUP -srcId %d -srcAdd %s -forId %d -forAdd %s -dstId %d dstAdd %s -seqNum %d"
          (common_new h rest))
        (write w s offset daup_old (common_args h rest))

  -- The new format reads the header of DARQ, the other two that of DAUP.
  unfoldable pub mdart_dabr : CmuTrace W P → P → ℕ → Result (CmuTrace W P)
  mdart_dabr s p offset =
      let q = w.headers.mdart_darq p in
      let h = w.headers.mdart_daup p in
      let rest = Arg.int h.seq_num ∷ [] in
      style s (write w s offset daup_tag (common_args h rest))
        (write w s offset "-type DABR -srcId %d -srcAdd %s dstAdd %s"
          (Arg.int q.src_id ∷ Arg.text (bit_text q.src_add) ∷ Arg.text (bit_text q.dst_add) ∷ []))
        (write w s offset daup_old (common_args h rest))

  unfoldable pub format_mdart : CmuTrace W P → P → ℕ → Result (CmuTrace W P)
  format_mdart s p offset =
      let type = w.headers.mdart_type p in
      let c = w.constants.mdart in
      if same_int type c.hello
      then mdart_hello s p offset
      else if same_int type c.darq
      then mdart_darq s p offset
      else if same_int type c.darp
      then mdart_darp s p offset
      else if same_int type c.daup
      then mdart_daup s p offset
      else if same_int type c.dabr
      then mdart_dabr s p offset
      else ok s
