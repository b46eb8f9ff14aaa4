-- ===== src/CommandLine.antt =====
-- main.cpp: the options of the command line, and the start and the end of the program. The two
-- default port names come from SerialConfig.h, which the build generates; they are parameters.
pub mod Accepted
pub mod Pointers
use serial.Base.{
  ℕ, ◌≡◌, refl, Bool, true, false, Option, none, some, List, [], ◌∷◌, ◌==◌, if◌then◌else◌, get_or,
  take,
}
use serial.Text.{Text}

-- What a `char *` of main points at: memory from malloc, an element of argv, or the NULL behind
-- the last one.
pub data Pointer : Type 0 where
  allocated : Text → Pointer
  argument : Text → Pointer
  null : Pointer

pub record Options : Type 0 where
  pub portname : Pointer
  pub destinationportname : Pointer
  pub send_mode : Bool
  pub ftdi_mode : Bool
  pub cmd_line_failure : Bool
  pub cmd_verbose_mode : Bool
  pub lograwdata : Bool

-- snprintf(portname, 25, "%s", BASIC_PORTNAME), and the initial values.
unfoldable pub default_options : Text → Text → Options
default_options basic_portname destination_portname = record {
  portname = allocated (take 24 basic_portname);
  destinationportname = allocated (take 24 destination_portname);
  send_mode = false;
  ftdi_mode = true;
  cmd_line_failure = true;
  cmd_verbose_mode = false;
  lograwdata = false;
}

-- argv[n + 1]; the test `argc > n` around its uses always holds.
abbrev pub next_argument : List Text → Pointer
next_argument [] = null
next_argument (arg ∷ rest) = argument arg

-- The inner switch, at the character behind the dash and the arguments behind this one; `none` is
-- the usage and the end of the program.
unfoldable pub scan_option : Options → ℕ → List Text → Option Options
scan_option o c rest =
    if c == b's'
    then some
        (record o { portname = next_argument rest; cmd_line_failure = false; ftdi_mode = false })
    else if c == b'f'
    then some (record o { ftdi_mode = true })
    else if c == b'x'
    then some (record o { send_mode = true; cmd_line_failure = false; ftdi_mode = false })
    else if c == b'z'
    then some (record o { send_mode = false; cmd_line_failure = false })
    else if c == b'd'
    then some (record o {
      destinationportname = next_argument rest;
      cmd_line_failure = false;
      ftdi_mode = false;
    })
    else if c == b'o'
    then some (record o { lograwdata = true })
    else if c == b'v'
    then some (record o { cmd_verbose_mode = true })
    else none

-- One turn of the loop. A text that is no option is passed over once an option has been read that
-- clears `cmd_line_failure`.
unfoldable pub scan_argument : Options → Text → List Text → Option Options
unfolding scan_option
scan_argument o arg rest =
    if get_or arg 0 0 == b'-'
    then scan_option o (get_or arg 1 0) rest
    else if o.cmd_line_failure
    then none
    else some o

-- The loop over the arguments from argv[1] on.
unfoldable pub scan : Options → List Text → Option Options
scan o [] = some o
scan o (arg ∷ rest) = elim (scan_argument o arg rest) [ none ↦ none | some p ↦ scan p rest ]

-- What main does: print the usage, or run until `running` is cleared and free the two pointers.
pub data Outcome : Type 0 where
  usage : Outcome
  run : Options → Outcome

unfoldable pub main : Text → Text → List Text → Outcome
main basic_portname destination_portname args =
    elim (scan (default_options basic_portname destination_portname) args) [
      | none ↦ usage
      | some o ↦ run o
    ]

-- free() takes what malloc returned, and NULL.
abbrev pub may_free : Pointer → Bool
may_free (allocated t) = true
may_free (argument t) = false
may_free null = true

-- The loop after one argument.
pub scan_stops :
    (o : Options) (arg : Text) (rest : List Text)
    → scan_argument o arg rest ≡ none
    → scan o (arg ∷ rest) ≡ none
unfolding scan
scan_stops o arg rest h = rw (h, scan)

pub scan_goes_on :
    (o p : Options) (arg : Text) (rest : List Text)
    → scan_argument o arg rest ≡ some p
    → scan o (arg ∷ rest) ≡ scan p rest
unfolding scan
scan_goes_on o p arg rest h = rw (h, scan)
