-- ===== src/Trace/Sctp.antt =====
-- `format_sctp` of Ns2.35Files/cmu-trace.cc. The list has the elements of `SctpTrace()` up to
-- `NumChunks()`.
pub mod Last
use ant_aodv.Base.{ℕ, ◌||◌, ℤ, pos, if◌then◌else◌, List, [], ◌∷◌, length}
use ant_aodv.Base.Result.{Result, ok, fault, Fault, ◌>>=◌}
use ant_aodv.Base.Format.{Arg}
use ant_aodv.Packet.{HdrCmn}
use ant_aodv.Trace.Headers.{SctpChunk, SctpTypes}
use ant_aodv.Trace.State.{World, CmuTrace, write, is_new, same_int}

-- The letter for the type of a chunk; the default is `assert(false)`.
unfoldable pub chunk_letter : SctpTypes → ℤ → Result ℕ
unfolding same_int
chunk_letter c t =
    if same_int t c.chunk_init
      || same_int t c.chunk_init_ack
      || same_int t c.chunk_cookie_echo
      || same_int t c.chunk_cookie_ack
    then ok b'I'
    else if same_int t c.chunk_data
    then ok b'D'
    else if same_int t c.chunk_sack
    then ok b'S'
    else if same_int t c.chunk_forward_tsn
    then ok b'R'
    else if same_int t c.chunk_hb
    then ok b'H'
    else if same_int t c.chunk_hb_ack
    then ok b'B'
    else fault Fault.assertion_failed

module _ {W P : Type 0} (w : World W P) where
  abbrev pub chunk_args : (n : ℕ) → P → SctpChunk → (letter : ℕ) → List (Arg W)
  chunk_args n p chunk letter =
      Arg.int (pos n)
      ∷ Arg.chr letter
      ∷ Arg.int chunk.tsn
      ∷ Arg.int chunk.stream_id
      ∷ Arg.int chunk.stream_seq_num
      ∷ Arg.int (w.headers.cmn p).num_forwards
      ∷ Arg.int (w.headers.cmn p).opt_num_forwards
      ∷ []

  -- One round of the loop, for a packet of `n` chunks.
  unfoldable pub format_chunk : (n : ℕ) → CmuTrace W P → P → ℕ → SctpChunk → Result (CmuTrace W P)
  unfolding write chunk_letter
  format_chunk n s p offset chunk = do
    letter ← chunk_letter w.constants.sctp chunk.chunk_type
    write w s offset
        (if is_new s
          then "-Pn sctp -Pnc %d -Pct %c -Ptsn %d -Psid %d -Pssn %d -Pf %d -Po %d "
          else "[%d %c %d %d %d] %d %d")
        (chunk_args n p chunk letter)

  -- Each round writes at the same offset.
  unfoldable pub format_chunks :
      (n : ℕ) → CmuTrace W P → P → ℕ → List SctpChunk → Result (CmuTrace W P)
  unfolding format_chunk
  format_chunks n s p offset [] = ok s
  format_chunks n s p offset (chunk ∷ chunks) = do
    s' ← format_chunk n s p offset chunk
    format_chunks n s' p offset chunks

  unfoldable pub format_sctp : CmuTrace W P → P → ℕ → Result (CmuTrace W P)
  unfolding format_chunks
  format_sctp s p offset =
      let chunks = w.headers.sctp p in format_chunks (length chunks) s p offset chunks
