-- ===== src/Trace/Written.antt =====
-- What the methods that write a header do: they return, and add text at the end of the line.
use Prim.Native.String.{String}
use ant_aodv.Base.{
  arith, ℕ, suc, ◌+◌, ◌≡◌, refl, ap, ◌∙◌, Bool, true, false, if◌then◌else◌, List, [], ◌∷◌, ◌++◌,
  length, take,
}
use ant_aodv.Base.Result.{Result, ok}
use ant_aodv.Base.Format.{Arg, sprintf, sprintf_at}
use ant_aodv.Base.Format.Agree.{agrees, sprintf-agrees}
use ant_aodv.Trace.State.{World, CmuTrace, Effect, style, is_new, write, with_buffer}

-- How often a packet was given on.
unfoldable pub handed : {P : Type 0} → List (Effect P) → ℕ
handed [] = 0
handed (Effect.free p ∷ effects) = suc (handed effects)
handed (Effect.send p ∷ effects) = suc (handed effects)
handed (Effect.in_route a ∷ effects) = handed effects
handed (Effect.stamp p ∷ effects) = handed effects
handed (Effect.dump line ∷ effects) = handed effects
handed (Effect.namdump line ∷ effects) = handed effects
handed (Effect.set_attribute p a ∷ effects) = handed effects

pub take-append : {A : Type 0} (xs ys : List A) → take (length xs) (xs ++ ys) ≡ xs
take-append [] [] = refl
take-append [] (y ∷ ys) = refl
take-append (x ∷ xs) ys = ap (λ l. x ∷ l) (take-append xs ys)

pub take-all : {A : Type 0} (xs : List A) → take (length xs) xs ≡ xs
take-all [] = refl
take-all (x ∷ xs) = ap (λ l. x ∷ l) (take-all xs)

pub append_assoc : {A : Type 0} (xs ys zs : List A) → (xs ++ ys) ++ zs ≡ xs ++ (ys ++ zs)
append_assoc [] ys zs = refl
append_assoc (x ∷ xs) ys zs = ap (λ l. x ∷ l) (append_assoc xs ys zs)

pub append_nil : {A : Type 0} (xs : List A) → xs ++ [] ≡ xs
append_nil [] = refl
append_nil (x ∷ xs) = ap (λ l. x ∷ l) (append_nil xs)

pub handed-append :
    {P : Type 0} (xs ys : List (Effect P)) → handed (xs ++ ys) ≡ handed xs + handed ys
unfolding handed
handed-append [] ys = omega arith
handed-append (Effect.free p ∷ xs) ys = omega (arith, handed-append xs ys)
handed-append (Effect.send p ∷ xs) ys = omega (arith, handed-append xs ys)
handed-append (Effect.in_route a ∷ xs) ys = handed-append xs ys
handed-append (Effect.stamp p ∷ xs) ys = handed-append xs ys
handed-append (Effect.dump line ∷ xs) ys = handed-append xs ys
handed-append (Effect.namdump line ∷ xs) ys = handed-append xs ys
handed-append (Effect.set_attribute p a ∷ xs) ys = handed-append xs ys

-- What holds of both branches holds of the one taken.
pub if-each :
    {A : Type 0} (Q : A → Type 0) (b : Bool) (x y : A) → Q x → Q y → Q (if b then x else y)
if-each Q true x y e f = e
if-each Q false x y e f = f

module _ {W P : Type 0} where
  -- Only the buffer and the effects differ, and no packet was given on.
  pub record IsKept (s s' : CmuTrace W P) : Type 0 where
    pub kept : s' ≡ record s { buffer = s'.buffer; effects = s'.effects }
    pub quiet : handed s'.effects ≡ handed s.effects

  -- The run ends with more text in the buffer.
  abbrev pub IsAdded : CmuTrace W P → Result (CmuTrace W P) → Type 0
  IsAdded s run =
      (s' : CmuTrace W P) × (run ≡ ok s')
      × IsKept s s'
      × ((text : List ℕ) × (s'.buffer ≡ s.buffer ++ text))

  -- The same, but what the trace keeps for the animator may differ too.
  pub record IsTraced (s s' : CmuTrace W P) : Type 0 where
    pub kept : s' ≡ record s { buffer = s'.buffer; effects = s'.effects; nam = s'.nam }
    pub quiet : handed s'.effects ≡ handed s.effects

  pub IsTraced-kept : {s s' : CmuTrace W P} → IsKept s s' → IsTraced s s'
  IsTraced-kept {s} {s'} k = record {
    kept = ap {B = CmuTrace W P} (λ (x : CmuTrace W P). record x { nam = s'.nam }) k.kept;
    quiet = k.quiet;
  }

  pub IsTraced-trans : {s s' s'' : CmuTrace W P} → IsTraced s s' → IsTraced s' s'' → IsTraced s s''
  IsTraced-trans {s} {s'} {s''} k l = record {
    kept =
        l.kept
        ∙ ap {B = CmuTrace W P}
            (λ (x : CmuTrace W P). record x {
              buffer = s''.buffer;
              effects = s''.effects;
              nam = s''.nam;
            })
            k.kept;
    quiet = l.quiet ∙ k.quiet;
  }

  pub IsKept-trans : {s s' s'' : CmuTrace W P} → IsKept s s' → IsKept s' s'' → IsKept s s''
  IsKept-trans {s} {s'} {s''} k l = record {
    kept =
        l.kept
        ∙ ap {B = CmuTrace W P}
            (λ (x : CmuTrace W P). record x { buffer = s''.buffer; effects = s''.effects }) k.kept;
    quiet = l.quiet ∙ k.quiet;
  }

  -- A run after one that has added text.
  pub IsAdded-after :
      {s s' : CmuTrace W P} {run : Result (CmuTrace W P)}
      → IsKept s s'
      → (text : List ℕ) × (s'.buffer ≡ s.buffer ++ text)
      → IsAdded s' run
      → IsAdded s run
  IsAdded-after {s} {s'} k (text, adds) (s'', gives, l, (text', adds')) = (
    s'',
    gives,
    IsKept-trans k l,
    (text ++ text', adds' ∙ ap (λ b. b ++ text') adds ∙ append_assoc s.buffer text text'),
  )

  -- What holds of each of three holds of the one that `style` takes.
  pub style-each :
      {A : Type 0} (Q : A → Type 0) (s : CmuTrace W P) (tagged new old : A)
      → Q tagged
      → Q new
      → Q old
      → Q (style s tagged new old)
  unfolding style
  style-each Q s tagged new old e f g =
      if-each Q s.tagged tagged (if is_new s then new else old) e (if-each Q (is_new s) new old f g)

  module _ (w : World W P) where
    pub write-ok :
        (s : CmuTrace W P) (offset : ℕ) (format : String) (args : List (Arg W)) {cs : List ℕ}
        → sprintf w.show_real format args ≡ ok cs
        → write w s offset format args ≡ ok (with_buffer s (take offset s.buffer ++ cs))
    unfolding write sprintf_at
    write-ok s offset format args gives = rw gives refl

    -- The same at any offset, and on a buffer of its own.
    pub write-at :
        (s : CmuTrace W P) (offset : ℕ) (format : String) (args : List (Arg W))
        → agrees format args ≡ true
        → (line : List ℕ) × (write w s offset format args ≡ ok (with_buffer s line))
    unfolding write sprintf_at
    write-at s offset format args e =
        let (cs, gives) = sprintf-agrees w.show_real format args e in
        (take offset s.buffer ++ cs, rw gives refl)

    pub sprintf_at-agrees :
        (offset : ℕ) (format : String) (args : List (Arg W)) (buffer : List ℕ)
        → agrees format args ≡ true
        → (line : List ℕ) × (sprintf_at w.show_real offset format args buffer ≡ ok line)
    unfolding sprintf_at
    sprintf_at-agrees offset format args buffer e =
        let (cs, gives) = sprintf-agrees w.show_real format args e in
        (take offset buffer ++ cs, rw gives refl)

    -- The same at the end of the buffer.
    pub sprintf_at-adds :
        (format : String) (args : List (Arg W)) (buffer : List ℕ)
        → agrees format args ≡ true
        → (cs : List ℕ) × (sprintf_at w.show_real (length buffer) format args buffer
            ≡ ok (buffer ++ cs))
    unfolding sprintf_at
    sprintf_at-adds format args buffer e =
        let (cs, gives) = sprintf-agrees w.show_real format args e in
        (cs, rw gives (ap (λ b. ok (b ++ cs)) (take-all buffer)))

    -- `sprintf` with arguments that agree with the format writes at the end of the line.
    pub write-IsAdded :
        (s : CmuTrace W P) (format : String) (args : List (Arg W))
        → agrees format args ≡ true
        → IsAdded s (write w s (length s.buffer) format args)
    unfolding write sprintf_at
    write-IsAdded s format args e =
        let (cs, gives) = sprintf-agrees w.show_real format args e in
        (
          with_buffer s (s.buffer ++ cs),
          rw (gives, take-all) refl,
          record { kept = refl; quiet = refl },
          (cs, refl),
        )

    -- A choice of formats, with which the same arguments agree.
    pub style-IsAdded :
        (s : CmuTrace W P) (tagged new old : String) (args : List (Arg W))
        → agrees tagged args ≡ true
        → agrees new args ≡ true
        → agrees old args ≡ true
        → IsAdded s (write w s (length s.buffer) (style s tagged new old) args)
    style-IsAdded s tagged new old args e f g =
        style-each (λ format. IsAdded s (write w s (length s.buffer) format args)) s tagged new old
          (write-IsAdded s tagged args e) (write-IsAdded s new args f) (write-IsAdded s old args g)
