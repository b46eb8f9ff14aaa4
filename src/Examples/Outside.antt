-- ===== src/Examples/Outside.antt =====
-- The command line at concrete inputs.
use serial.Base.{◌≡◌, refl, true, false, some, List, [], ◌∷◌}
use serial.Text.{Text, codes}
use serial.CommandLine.{argument, Options, default_options, scan_option, scan_argument, scan}
use serial.CommandLine.Accepted.{is_some, accepted, scan_accepts}
use serial.CommandLine.Pointers.{last_value, scan_ports}

abbrev defaults : Options
defaults = default_options (codes "/dev/ttyUSB0") (codes "/dev/ttyUSB1")

abbrev port_arguments : List Text
port_arguments = codes "-v" ∷ codes "-s" ∷ codes "com3" ∷ []

abbrev chosen : Options
chosen = record defaults {
  portname = argument (codes "com3");
  cmd_verbose_mode = true;
  cmd_line_failure = false;
  ftdi_mode = false;
}

port_scan : scan defaults port_arguments ≡ some chosen
unfolding scan scan_argument scan_option default_options
port_scan = refl

scan_accepts_example :
    is_some (scan defaults port_arguments) ≡ accepted defaults.cmd_line_failure port_arguments
scan_accepts_example = scan_accepts defaults port_arguments

scan_ports_example :
    (chosen.portname ≡ last_value b's' defaults.portname port_arguments)
    × (chosen.destinationportname ≡ last_value b'd' defaults.destinationportname port_arguments)
scan_ports_example = scan_ports defaults chosen port_arguments port_scan
