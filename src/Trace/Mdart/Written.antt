-- ===== src/Trace/Mdart/Written.antt =====
-- Every message of M-DART is written by `format_mdart`, in each of the three formats.
use ant_aodv.Base.{refl, sym, length, []}
use ant_aodv.Base.Format.{pieces}
use ant_aodv.Base.Format.Agree.{agrees, agree, fits}
use ant_aodv.Trace.State.{World, CmuTrace, same_int}
use ant_aodv.Trace.Written.{IsAdded, append_nil, write-IsAdded, style-each, if-each}
use ant_aodv.Trace.Mdart.{mdart_hello, mdart_darq, mdart_darp, mdart_daup, mdart_dabr, format_mdart}

module _ {W P : Type 0} (w : World W P) where
  mdart_hello-IsAdded : (s : CmuTrace W P) (p : P) → IsAdded s (mdart_hello w s p (length s.buffer))
  unfolding mdart_hello agrees pieces agree fits
  mdart_hello-IsAdded s p =
      style-each (IsAdded s) s _ _ _ (write-IsAdded w s _ _ refl) (write-IsAdded w s _ _ refl)
        (write-IsAdded w s _ _ refl)

  mdart_darq-IsAdded : (s : CmuTrace W P) (p : P) → IsAdded s (mdart_darq w s p (length s.buffer))
  unfolding mdart_darq agrees pieces agree fits
  mdart_darq-IsAdded s p =
      style-each (IsAdded s) s _ _ _ (write-IsAdded w s _ _ refl) (write-IsAdded w s _ _ refl)
        (write-IsAdded w s _ _ refl)

  mdart_darp-IsAdded : (s : CmuTrace W P) (p : P) → IsAdded s (mdart_darp w s p (length s.buffer))
  unfolding mdart_darp agrees pieces agree fits
  mdart_darp-IsAdded s p =
      style-each (IsAdded s) s _ _ _ (write-IsAdded w s _ _ refl) (write-IsAdded w s _ _ refl)
        (write-IsAdded w s _ _ refl)

  mdart_daup-IsAdded : (s : CmuTrace W P) (p : P) → IsAdded s (mdart_daup w s p (length s.buffer))
  unfolding mdart_daup agrees pieces agree fits
  mdart_daup-IsAdded s p =
      style-each (IsAdded s) s _ _ _ (write-IsAdded w s _ _ refl) (write-IsAdded w s _ _ refl)
        (write-IsAdded w s _ _ refl)

  mdart_dabr-IsAdded : (s : CmuTrace W P) (p : P) → IsAdded s (mdart_dabr w s p (length s.buffer))
  unfolding mdart_dabr agrees pieces agree fits
  mdart_dabr-IsAdded s p =
      style-each (IsAdded s) s _ _ _ (write-IsAdded w s _ _ refl) (write-IsAdded w s _ _ refl)
        (write-IsAdded w s _ _ refl)

  -- At the end of the line `format_mdart` adds text, or nothing for a message of another type, and
  -- returns: in each of the three formats the arguments agree with the format. Only the line changes,
  -- and no packet is given on.
  pub format_mdart-IsAdded :
      (s : CmuTrace W P) (p : P) → IsAdded s (format_mdart w s p (length s.buffer))
  unfolding format_mdart
  format_mdart-IsAdded s p =
      let type = w.headers.mdart_type p in
      let c = w.constants.mdart in
      if-each (IsAdded s) (same_int type c.hello) _ _ (mdart_hello-IsAdded s p) (
        if-each (IsAdded s) (same_int type c.darq) _ _ (mdart_darq-IsAdded s p) (
          if-each (IsAdded s) (same_int type c.darp) _ _ (mdart_darp-IsAdded s p) (
            if-each (IsAdded s) (same_int type c.daup) _ _ (mdart_daup-IsAdded s p) (
              if-each (IsAdded s) (same_int type c.dabr) _ _ (mdart_dabr-IsAdded s p)
                (s, refl, record { kept = refl; quiet = refl }, ([], sym (append_nil s.buffer)))))))
