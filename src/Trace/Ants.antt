-- ===== src/Trace/Ants.antt =====
-- The trace line of an ant says its source, its sequence number and its length.

use ant_aodv.Base.{
  ℕ, ◌-◌, ◌≡◌, refl, ap, ◌∙◌, ◌==◌, true, false, ℤ, pos, if◌then◌else◌, List, [], ◌∷◌, ◌++◌, length,
  replicate, Option, none, some, arith,
}
use ant_aodv.Base.Result.{ok}
use ant_aodv.Base.Text.{codes}
use ant_aodv.Base.Format.{Arg, show_int, sprintf, render, pieces, convert, pad, Spec}
use ant_aodv.Base.Format.Read.{read_int, is_digit, read_int-show_int}
use ant_aodv.Trace.State.{World, CmuTrace, style, is_new, write, with_buffer}
use ant_aodv.Trace.Formats.{format_antnet}
use ant_aodv.Trace.Written.{take-all, write-ok}

-- The text after `prefix`, when the text starts with it.
unfoldable pub after : (prefix : List ℕ) → List ℕ → Option (List ℕ)
after [] cs = some cs
after (x ∷ xs) [] = none
after (x ∷ xs) (c ∷ cs) = elim (x == c) [ true ↦ after xs cs | false ↦ none ]

-- The integer behind `prefix`, and the text behind the integer.
unfoldable pub read_field : (prefix : List ℕ) → List ℕ → Option (ℤ × List ℕ)
unfolding after read_int
read_field prefix cs = elim (after prefix cs) [ none ↦ none | some rest ↦ some (read_int rest) ]

abbrev and_then : {A B : Type 0} → Option A → (A → Option B) → Option B
and_then none rest = none
and_then (some a) rest = rest a

-- The three numbers of a text `[ant … … …]`.
unfoldable pub read_ant : List ℕ → Option (ℤ × ℤ × ℤ)
read_ant cs = and_then (read_field (codes "[ant ") cs) λ src.
    and_then (read_field (codes " ") src.1) λ seq_num.
      and_then (read_field (codes " ") seq_num.1)
        λ len. and_then (after (codes "]") len.1) λ _. some (src.0, seq_num.0, len.0)

ant_text : (a b c : ℤ) → List ℕ
ant_text a b c =
    codes "[ant " ++ (show_int a ++ b' ' ∷ (show_int b ++ b' ' ∷ (show_int c ++ codes "] ")))

no_width : (cs : List ℕ) → replicate (0 - length cs) b' ' ++ cs ≡ cs
no_width cs = ap (λ n. replicate n b' ' ++ cs) zero_minus
  where
    zero_minus : 0 - length cs ≡ 0
    zero_minus = omega arith

and_then-some :
    {A B : Type 0} {o : Option A} {a : A} {b : Option B} (rest : A → Option B)
    → o ≡ some a
    → rest a ≡ b
    → and_then o rest ≡ b
and_then-some rest e f = ap (λ o. and_then o rest) e ∙ f

field_of_ant :
    (z : ℤ) (cs : List ℕ)
    → read_field (codes "[ant ") (codes "[ant " ++ (show_int z ++ b' ' ∷ cs)) ≡ some (z, b' ' ∷ cs)
unfolding read_field after is_digit
field_of_ant z cs = ap some (read_int-show_int z b' ' cs refl)

next_field :
    (z : ℤ) (c : ℕ) (cs : List ℕ)
    → is_digit c ≡ false
    → read_field (codes " ") (b' ' ∷ (show_int z ++ c ∷ cs)) ≡ some (z, c ∷ cs)
unfolding read_field after
next_field z c cs stops = ap some (read_int-show_int z c cs stops)

read_ant_text : (a b c : ℤ) → read_ant (ant_text a b c) ≡ some (a, b, c)
unfolding read_ant ant_text is_digit after
read_ant_text a b c =
    and_then-some _ (field_of_ant a (show_int b ++ b' ' ∷ (show_int c ++ codes "] "))) (
      and_then-some _ (next_field b b' ' (show_int c ++ codes "] ") refl)
        (and_then-some _ (next_field c b']' (codes " ") refl) refl))

abbrev plain : Spec
plain = record { zeros = false; width = 0; precision = none; conversion = b'd' }

module _ {W : Type 0} (show_real : (precision : ℕ) → W → List ℕ) where
  sprintf-ant :
      (a b c : ℤ)
      → sprintf show_real "[ant %d %d %d] " (Arg.int a ∷ Arg.int b ∷ Arg.int c ∷ [])
        ≡ ok (ant_text a b c)
  unfolding sprintf pieces render convert ant_text
  sprintf-ant a b c =
      ap (λ l. ok (codes "[ant " ++ l))
        (ap
            (λ l.
              l ++ b' ' ∷ (pad plain (show_int b) ++ b' ' ∷ (pad plain (show_int c) ++ codes "] ")))
            (no_width (show_int a))
          ∙ ap (λ l. show_int a ++ b' ' ∷ (l ++ b' ' ∷ (pad plain (show_int c) ++ codes "] ")))
              (no_width (show_int b))
          ∙ ap (λ l. show_int a ++ b' ' ∷ (show_int b ++ b' ' ∷ (l ++ codes "] ")))
              (no_width (show_int c)))

module _ {W P : Type 0} (w : World W P) where
  ant_args : P → List (Arg W)
  ant_args p =
      let h = w.headers.ant p in
      Arg.int h.pkt_src ∷ Arg.int (pos h.pkt_seq_num) ∷ Arg.int (pos h.pkt_len) ∷ []

  style-old :
      {A : Type 0} (s : CmuTrace W P) (tagged new old : A)
      → s.tagged ≡ false
      → is_new s ≡ false
      → style s tagged new old ≡ old
  unfolding style
  style-old s tagged new old e f =
      ap (λ b. if b then tagged else if is_new s then new else old) e
      ∙ ap (λ b. if b then new else old) f

  write-ant :
      (s : CmuTrace W P) (p : P)
      → write w s (length s.buffer) "[ant %d %d %d] " (ant_args p)
        ≡ ok (
            with_buffer s (
              s.buffer
              ++ ant_text
                  (w.headers.ant p).pkt_src
                  (pos (w.headers.ant p).pkt_seq_num)
                  (pos (w.headers.ant p).pkt_len)))
  unfolding ant_args
  write-ant s p =
      let h = w.headers.ant p in
      let text = ant_text h.pkt_src (pos h.pkt_seq_num) (pos h.pkt_len) in
      write-ok w s (length s.buffer) "[ant %d %d %d] " (ant_args p)
        (sprintf-ant w.show_real h.pkt_src (pos h.pkt_seq_num) (pos h.pkt_len))
      ∙ ap (λ b. ok (with_buffer s (b ++ text))) (take-all s.buffer)

  ant_written :
      (s : CmuTrace W P) (p : P)
      → s.tagged ≡ false
      → is_new s ≡ false
      → format_antnet w s p (length s.buffer)
        ≡ ok (
            with_buffer s (
              s.buffer
              ++ ant_text
                  (w.headers.ant p).pkt_src
                  (pos (w.headers.ant p).pkt_seq_num)
                  (pos (w.headers.ant p).pkt_len)))
  unfolding format_antnet ant_args
  ant_written s p untagged old =
      ap (λ format. write w s (length s.buffer) format (ant_args p))
        (style-old s "-ant:o %d -ant:s %d -ant:l %d " "-P ant -Po %d -Ps %d -Pl %d "
          "[ant %d %d %d] " untagged old)
      ∙ write-ant s p

  -- In the old format of the trace, `format_antnet` at the end of the line adds a text from which the
  -- source, the sequence number and the length of the ant's header can be read back, and changes
  -- nothing else.
  pub format_antnet-read :
      (s : CmuTrace W P) (p : P)
      → s.tagged ≡ false
      → is_new s ≡ false
      → (text : List ℕ) × (format_antnet w s p (length s.buffer)
          ≡ ok (with_buffer s (s.buffer ++ text)))
        × (read_ant text
            ≡ some (
              (w.headers.ant p).pkt_src,
              pos (w.headers.ant p).pkt_seq_num,
              pos (w.headers.ant p).pkt_len,
            ))
  format_antnet-read s p untagged old =
      let h = w.headers.ant p in
      let text = ant_text h.pkt_src (pos h.pkt_seq_num) (pos h.pkt_len) in
      (
        text,
        ant_written s p untagged old,
        read_ant_text h.pkt_src (pos h.pkt_seq_num) (pos h.pkt_len),
      )
