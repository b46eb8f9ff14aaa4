-- ===== src/CommandLine/Pointers.antt =====
-- Where the two port names point when main frees them.
use serial.Base.{
  ℕ, ◌≡◌, sym, ap, ◌∙◌, inl, inr, Option-cases, none-ne-some, false, some, List, [], ◌∷◌, ◌++◌,
  arith, if◌then◌else◌,
}
use serial.Text.{Text}
use serial.CommandLine.{
  Pointer, argument, Options, next_argument, default_options, scan_argument, scan, scan_stops,
  scan_goes_on, may_free,
}
use serial.CommandLine.Accepted.{is_option}

-- The argument behind the last option with this letter; with none, the pointer before.
abbrev pub last_value : ℕ → Pointer → List Text → Pointer
last_value c before [] = before
last_value c before (arg ∷ rest) =
    last_value c (if is_option arg c then next_argument rest else before) rest

scan_argument_ports :
    (o p : Options) (arg : Text) (rest : List Text)
    → scan_argument o arg rest ≡ some p
    → (p.portname ≡ (if is_option arg b's' then next_argument rest else o.portname))
      × (p.destinationportname
          ≡ (if is_option arg b'd' then next_argument rest else o.destinationportname))
unfolding scan_argument
scan_argument_ports o p arg rest h = ground arith

-- On an accepted command line each port is what stands behind the last -s or -d, the NULL behind
-- the arguments where that option is the last of them, or the pointer before without the option.
pub scan_ports :
    (o p : Options) (args : List Text)
    → scan o args ≡ some p
    → (p.portname ≡ last_value b's' o.portname args)
      × (p.destinationportname ≡ last_value b'd' o.destinationportname args)
unfolding scan
scan_ports o p [] h = (cc, cc)
scan_ports o p (arg ∷ rest) h = elim (Option-cases (scan_argument o arg rest)) [
  | inl e ↦ absurd (none-ne-some (sym (scan_stops o arg rest e) ∙ h))
  | inr (q, e) ↦
      let (port, destination) = scan_argument_ports o q arg rest e in
      let (later, later') = scan_ports q p rest (sym (scan_goes_on o q arg rest e) ∙ h) in
      (
        later ∙ ap (λ k. last_value b's' k rest) port,
        later' ∙ ap (λ k. last_value b'd' k rest) destination,
      )
]

last_value_ends :
    (c : ℕ) (before : List Text) (port : Pointer) (name : Text)
    → is_option name c ≡ false
    → last_value c port (before ++ ((b'-' ∷ c ∷ []) ∷ name ∷ [])) ≡ argument name
last_value_ends c [] port name plain = ground arith
last_value_ends c (arg ∷ before) port name plain =
    last_value_ends c before
      (if is_option arg c then next_argument (before ++ ((b'-' ∷ c ∷ []) ∷ name ∷ [])) else port)
      name plain

-- An accepted command line that ends in -s with a value behind it that is no -s itself leaves as
-- the port, which main frees, a pointer into argv that free() does not take.
pub scan_frees_argument :
    (basic destination name : Text) (before : List Text) (p : Options)
    → scan (default_options basic destination) (before ++ ((b'-' ∷ b's' ∷ []) ∷ name ∷ [])) ≡ some p
    → is_option name b's' ≡ false
    → may_free p.portname ≡ false
scan_frees_argument basic destination name before p h plain = ap may_free (
    (scan_ports (default_options basic destination) p _ h).0
    ∙ last_value_ends b's' before (default_options basic destination).portname name plain)
