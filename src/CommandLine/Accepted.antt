-- ===== src/CommandLine/Accepted.antt =====
-- Which command lines are accepted, and which device they choose.
use serial.Base.{
  ℕ, ◌≡◌, refl, sym, ap, ◌∙◌, inl, inr, Option-cases, none-ne-some, Bool, true, false, not, ◌&&◌,
  ◌||◌, Option, none, some, List, [], ◌∷◌, arith, ◌==◌, if◌then◌else◌, get_or,
}
use serial.Text.{Text}
use serial.CommandLine.{Options, scan_argument, scan, scan_stops, scan_goes_on}

-- The option that an argument is, if it begins with a dash.
abbrev pub is_option : Text → ℕ → Bool
is_option arg c = get_or arg 0 0 == b'-' && get_or arg 1 0 == c

-- The options that choose a mode, and those that do not.
abbrev pub is_mode : Text → Bool
is_mode arg = is_option arg b's' || is_option arg b'x' || is_option arg b'z' || is_option arg b'd'

-- The options behind which the scan goes on; -h, which has a case of its own, ends it in the usage, as
-- an unknown one does.
abbrev pub is_scanned : Text → Bool
is_scanned arg = is_mode arg || is_option arg b'f' || is_option arg b'o' || is_option arg b'v'

-- Each argument that begins with a dash is one of them, and no other text stands before an option that
-- chooses a mode.
abbrev pub accepted : Bool → List Text → Bool
accepted failure [] = true
accepted failure (arg ∷ rest) =
    (if get_or arg 0 0 == b'-' then is_scanned arg else not failure)
    && accepted (failure && not (is_mode arg)) rest

abbrev pub is_some {ℓ} : {A : Type ℓ} → Option A → Bool
is_some none = false
is_some (some a) = true

-- One argument: whether it is accepted, and the flag afterwards.
scan_argument_accepts :
    (o : Options) (arg : Text) (rest : List Text)
    → is_some (scan_argument o arg rest)
      ≡ (if get_or arg 0 0 == b'-' then is_scanned arg else not o.cmd_line_failure)
unfolding scan_argument
scan_argument_accepts o arg rest = ground arith

scan_argument_flag :
    (o p : Options) (arg : Text) (rest : List Text)
    → scan_argument o arg rest ≡ some p
    → p.cmd_line_failure ≡ (o.cmd_line_failure && not (is_mode arg))
unfolding scan_argument
scan_argument_flag o p arg rest h = ground arith

-- The arguments are scanned to their end exactly if each one that begins with a dash is one of -s,
-- -x, -z, -d, -f, -o and -v, by its second character, and no other text stands before the first of
-- -s, -x, -z and -d, unless a mode was chosen before. On any others, -h as much as an unknown
-- option, the scan ends in the usage.
pub scan_accepts :
    (o : Options) (args : List Text) → is_some (scan o args) ≡ accepted o.cmd_line_failure args
unfolding scan
scan_accepts o [] = refl
scan_accepts o (arg ∷ rest) =
    let here = scan_argument_accepts o arg rest in
    let front = λ (b : Bool). b && accepted (o.cmd_line_failure && not (is_mode arg)) rest in
    elim (Option-cases (scan_argument o arg rest)) [
      | inl e ↦ ap is_some (scan_stops o arg rest e) ∙ ap front (sym (ap is_some e) ∙ here)
      | inr (p, e) ↦
          ap is_some (scan_goes_on o p arg rest e)
          ∙ scan_accepts p rest
          ∙ ap (λ f. accepted f rest) (scan_argument_flag o p arg rest e)
          ∙ ap front (sym (ap is_some e) ∙ here)
    ]

-- The device of the last of -f, -s, -x and -d; with none of them, the one before.
abbrev pub last_ftdi : Bool → List Text → Bool
last_ftdi ftdi [] = ftdi
last_ftdi ftdi (arg ∷ rest) =
    last_ftdi
      (if is_option arg b'f'
        then true
        else if is_option arg b's' || is_option arg b'x' || is_option arg b'd'
        then false
        else ftdi)
      rest

scan_argument_ftdi :
    (o p : Options) (arg : Text) (rest : List Text)
    → scan_argument o arg rest ≡ some p
    → p.ftdi_mode ≡ (
        if is_option arg b'f'
        then true
        else if is_option arg b's' || is_option arg b'x' || is_option arg b'd'
        then false
        else o.ftdi_mode)
unfolding scan_argument
scan_argument_ftdi o p arg rest h = ground arith

-- An accepted command line reads from the FTDI device exactly if the last of its options -f, -s, -x
-- and -d is -f, or there is none of them and the mode before was FTDI.
pub scan_ftdi :
    (o p : Options) (args : List Text)
    → scan o args ≡ some p
    → p.ftdi_mode ≡ last_ftdi o.ftdi_mode args
unfolding scan
scan_ftdi o p [] h = cc
scan_ftdi o p (arg ∷ rest) h = elim (Option-cases (scan_argument o arg rest)) [
  | inl e ↦ absurd (none-ne-some (sym (scan_stops o arg rest e) ∙ h))
  | inr (q, e) ↦
      scan_ftdi q p rest (sym (scan_goes_on o q arg rest e) ∙ h)
      ∙ ap (λ f. last_ftdi f rest) (scan_argument_ftdi o q arg rest e)
]
