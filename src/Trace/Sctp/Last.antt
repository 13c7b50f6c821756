-- ===== src/Trace/Sctp/Last.antt =====
-- The loop of `format_sctp` writes every chunk over the one before.
use Prim.Native.String.{String}
use ant_aodv.Base.{
  ℕ, zero, suc, ◌≤◌, ◌≡◌, refl, sym, ap, subst, ◌∙◌, List, [], ◌∷◌, ◌++◌, length, take, All, arith,
}
use ant_aodv.Base.Result.{ok, ◌>>=◌}
use ant_aodv.Base.Format.{pieces, sprintf, sprintf_at}
use ant_aodv.Base.Format.Agree.{agrees, agree, fits, sprintf-agrees}
use ant_aodv.Trace.Headers.{SctpChunk}
use ant_aodv.Trace.State.{World, CmuTrace, write, with_buffer, is_new}
use ant_aodv.Trace.Sctp.{chunk_letter, chunk_args, format_chunk, format_chunks, format_sctp}
use ant_aodv.Trace.Written.{IsAdded, if-each, append_nil, take-all}

take-take :
    {A : Type 0} (n : ℕ) (xs ys : List A) → n ≤ length xs → take n (take n xs ++ ys) ≡ take n xs
take-take zero xs ys le = take-zero (take zero xs ++ ys)
  where
    take-zero : {A : Type 0} (zs : List A) → take zero zs ≡ []
    take-zero [] = refl
    take-zero (z ∷ zs) = refl
take-take (suc n) [] ys le = absurd (omega arith)
take-take (suc n) (x ∷ xs) ys le = ap (λ l. x ∷ l) (take-take n xs ys (omega arith))

module _ {W P : Type 0} (w : World W P) where
  -- The type of the chunk has a letter.
  abbrev pub IsLettered : SctpChunk → Type 0
  IsLettered chunk = (letter : ℕ) × (chunk_letter w.constants.sctp chunk.chunk_type ≡ ok letter)

  module _ (n : ℕ) (p : P) (offset : ℕ) where
    format_chunk-ok :
        (s : CmuTrace W P) (chunk : SctpChunk)
        → IsLettered chunk
        → (text : List ℕ) × (format_chunk w n s p offset chunk
            ≡ ok (with_buffer s (take offset s.buffer ++ text)))
    unfolding format_chunk write sprintf_at agrees pieces agree fits
    format_chunk-ok s chunk (letter, known) =
        let new : String = "-Pn sctp -Pnc %d -Pct %c -Ptsn %d -Psid %d -Pssn %d -Pf %d -Po %d " in
        let old : String = "[%d %c %d %d %d] %d %d" in
        let (text, gives) =
          if-each
            (λ format.
              (cs : List ℕ) × (sprintf w.show_real format (chunk_args w n p chunk letter) ≡ ok cs))
            (is_new s) new old (sprintf-agrees w.show_real new (chunk_args w n p chunk letter) refl)
            (sprintf-agrees w.show_real old (chunk_args w n p chunk letter) refl) in
        (text, rw (known, gives) refl)

    -- Only the buffer up to the offset matters to a round.
    format_chunk-again :
        (s : CmuTrace W P) (b : List ℕ) (chunk : SctpChunk)
        → take offset b ≡ take offset s.buffer
        → format_chunk w n (with_buffer s b) p offset chunk ≡ format_chunk w n s p offset chunk
    unfolding format_chunk write sprintf_at
    format_chunk-again s b chunk same = rw same refl

    format_chunks-again :
        (s : CmuTrace W P) (b : List ℕ) (chunk : SctpChunk) (chunks : List SctpChunk)
        → take offset b ≡ take offset s.buffer
        → format_chunks w n (with_buffer s b) p offset (chunk ∷ chunks)
          ≡ format_chunks w n s p offset (chunk ∷ chunks)
    unfolding format_chunks
    format_chunks-again s b chunk chunks same =
        ap (λ run. run >>= λ s'. format_chunks w n s' p offset chunks)
          (format_chunk-again s b chunk same)

    skip_round :
        (s : CmuTrace W P) (chunk d : SctpChunk) (ds : List SctpChunk)
        → offset ≤ length s.buffer
        → IsLettered chunk
        → format_chunks w n s p offset (chunk ∷ d ∷ ds) ≡ format_chunks w n s p offset (d ∷ ds)
    unfolding format_chunks
    skip_round s chunk d ds le known =
        let (text, gives) = format_chunk-ok s chunk known in
        rw gives (
          format_chunks-again s (take offset s.buffer ++ text) d ds
            (take-take offset s.buffer text le))

    -- When each chunk has a type that the method knows, and the offset lies within the line, the loop
    -- leaves what a single round for the last chunk would: the others are not in the line.
    pub format_chunks-last :
        (s : CmuTrace W P) (chunks : List SctpChunk) (last : SctpChunk)
        → offset ≤ length s.buffer
        → All IsLettered (chunks ++ last ∷ [])
        → format_chunks w n s p offset (chunks ++ last ∷ []) ≡ format_chunk w n s p offset last
    unfolding format_chunks
    format_chunks-last s [] last le known =
        let (text, gives) = format_chunk-ok s last known.0 in rw gives refl
    format_chunks-last s (chunk ∷ []) last le known =
        skip_round s chunk last [] le known.0 ∙ format_chunks-last s [] last le known.1
    format_chunks-last s (chunk ∷ d ∷ ds) last le known =
        skip_round s chunk d (ds ++ last ∷ []) le known.0
        ∙ format_chunks-last s (d ∷ ds) last le known.1

  format_chunks-IsAdded :
      (n : ℕ) (p : P) (s : CmuTrace W P) (chunks : List SctpChunk)
      → All IsLettered chunks
      → IsAdded s (format_chunks w n s p (length s.buffer) chunks)
  unfolding format_chunks
  format_chunks-IsAdded n p s [] known =
      (s, refl, record { kept = refl; quiet = refl }, ([], sym (append_nil s.buffer)))
  format_chunks-IsAdded n p s (chunk ∷ []) known =
      let (text, gives) = format_chunk-ok n p (length s.buffer) s chunk known.0 in
      (
        with_buffer s (take (length s.buffer) s.buffer ++ text),
        rw gives refl,
        record { kept = refl; quiet = refl },
        (text, ap (λ b. b ++ text) (take-all s.buffer)),
      )
  format_chunks-IsAdded n p s (chunk ∷ d ∷ ds) known =
      subst (IsAdded s) (sym (skip_round n p (length s.buffer) s chunk d ds (omega arith) known.0))
        (format_chunks-IsAdded n p s (d ∷ ds) known.1)

  pub format_sctp-IsAdded :
      (s : CmuTrace W P) (p : P)
      → All IsLettered (w.headers.sctp p)
      → IsAdded s (format_sctp w s p (length s.buffer))
  unfolding format_sctp
  format_sctp-IsAdded s p known =
      format_chunks-IsAdded (length (w.headers.sctp p)) p s (w.headers.sctp p) known
