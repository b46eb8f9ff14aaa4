-- ===== src/Run.antt =====
-- main.cpp and utils/data.cpp put together: a run of the program from its arguments to its end.
pub mod Published
pub mod Silent
pub mod Watched
pub mod Accepted
use serial.Base.{ℕ, Bool, true, Option, none, some, List, []}
use serial.Text.{Text}
use serial.Lane.{Memory}
use serial.Mqtt.{Mosquitto, Mqtt}
use serial.Program.{Program, data_init, data_clean}
use serial.Listener.{Attempt, Listener, start_listen}
use serial.CommandLine.{Options, Outcome, usage, run, main}

-- What a run meets outside of the program: what malloc leaves in memory, the process id, the two
-- names of SerialConfig.h, what rawdata.txt held, and the attempts that are made at reading before
-- `running` is cleared.
pub record Environment : Type 0 where
  pub memory : Memory
  pub pid : ℕ
  pub basic_portname : Text
  pub destination_portname : Text
  pub rawdata : Text
  pub attempts : List Attempt

module _ (lib : Mosquitto) where
  -- `dataInit`: the receiver and the broker, and then the listener.
  unfoldable pub started : Environment → Mqtt lib → Listener lib
  started world mqtt = record {
    program = data_init lib world.memory world.pid mqtt;
    written = [];
    within = true;
    rawdata = world.rawdata;
    blocks = [];
  }

  -- What main does with its options: `dataInit`, and then `dataClean`.
  unfoldable pub run_options : Environment → Mqtt lib → Options → Listener lib
  run_options world mqtt o =
      let l =
        start_listen lib o.ftdi_mode o.send_mode o.lograwdata (started world mqtt) world.attempts in
      record l { program = data_clean lib l.program }

  -- `main`: nothing is done where the usage is printed.
  unfoldable pub run_main : Environment → Mqtt lib → List Text → Option (Listener lib)
  run_main world mqtt args = elim (main world.basic_portname world.destination_portname args) [
    | usage ↦ none
    | run o ↦ some (run_options world mqtt o)
  ]
