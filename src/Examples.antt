-- ===== src/Examples.antt =====
-- Runs of the program at concrete inputs: the samples that the tests and instances share.
mod Analysers
mod Bytes
mod Outside
mod Devices
mod Race
mod Windows
mod Whole
mod Signal
use serial.Base.{ℕ, true, false, List, [], ◌∷◌, ◌++◌, replicate}
use serial.Base.Int.{ℤ, pos, negsuc}
use serial.Text.{Text, codes}
use serial.Helper.{Row}
use serial.RunningTime.{RunningTime}
use serial.StartStop.{StartStop}
use serial.Lane.{Lanes, Memory, init_analyse_lane}
use serial.Protocol.LaneFrame.{spread}
use serial.Mqtt.{Mosquitto, Mqtt}

abbrev pub some_memory : Memory
some_memory = record { heat = λ i j. 0x41; place = λ i j. 0x42 }

abbrev pub ten_lanes : Lanes
ten_lanes = init_analyse_lane some_memory 10

-- Lane 3 with place 1 and the time 01:23,45.
abbrev pub result_digits : List ℕ
result_digits = 3 ∷ 1 ∷ 0 ∷ 1 ∷ 2 ∷ 3 ∷ 4 ∷ 5 ∷ []

abbrev pub result_row : Row
result_row = spread result_digits

-- Three nibbles of ten make a time of nine characters.
abbrev pub wide_row : Row
wide_row = spread (3 ∷ 1 ∷ 10 ∷ 10 ∷ 10 ∷ 3 ∷ 4 ∷ 5 ∷ [])

abbrev pub blank_row : Row
blank_row = replicate 16 0x0F

abbrev pub active_time : RunningTime
active_time = record { loopcount = 3; send_active_state = true; header_change = false }

abbrev pub running_race : StartStop
running_race = record { noworking = 4; pending = true; b_running = true; b_stopping = true }

abbrev pub idle_race : StartStop
idle_race = record { noworking = 0; pending = false; b_running = false; b_stopping = false }

-- A library whose state is the list of what was published; it is always up.
abbrev pub up : Mosquitto
up = record {
  World = List Text;
  lib_init = λ w. w;
  lib_cleanup = λ w. w;
  create = λ t w. (w, true);
  destroy = λ w. w;
  reconnect = λ w. (w, pos 0);
  connect = λ w. (w, pos 0);
  publish = λ m w. (w ++ m ∷ [], pos 0);
}

-- One whose connections fail.
abbrev pub down : Mosquitto
down = record up { connect = λ w. (w, pos 14) }
