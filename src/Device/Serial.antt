-- ===== src/Device/Serial.antt =====
-- receiver/read.cpp as a reader.
use serial.Base.{◌≡◌, refl, Bool, true, not, ◌&&◌, ◌||◌, List, [], ◌∷◌, arith}
use serial.Mqtt.{Mosquitto}
use serial.Program.{feed}
use serial.SerialPort.{Poll, poll_bytes, Transfer, poll_round, read_loop, read}
use serial.Device.{Device, loop, attempt}

module _ (lib : Mosquitto) where
  pub poll_program :
      (forward : Bool) (t : Transfer lib) (poll : Poll)
      → (poll_round lib forward t poll).program ≡ feed lib t.program (poll_bytes poll)
  unfolding poll_round
  poll_program forward t poll = refl

  -- `read` of receiver/read.cpp, with whether the two ports open.
  abbrev pub serial_port : Bool → Device lib
  serial_port forward = record {
    State = Transfer lib;
    Opening = Bool × Bool;
    Turn = Poll;
    tests_first = true;
    program = λ t. t.program;
    enter = λ t o. (t, o.0 && (not forward || o.1));
    round = λ t poll. (poll_round lib forward t poll, true);
    leave = λ t. t;
    bytes = λ t poll. poll_bytes poll;
    enter_program = λ t o. refl;
    round_program = poll_program forward;
    leave_program = λ t. refl;
  }

  loop-read_loop :
      (forward : Bool) (t : Transfer lib) (polls : List Poll)
      → loop (serial_port forward) t polls ≡ read_loop lib forward t polls
  unfolding loop read_loop
  loop-read_loop forward t [] = refl
  loop-read_loop forward t (poll ∷ polls) =
      loop-read_loop forward (poll_round lib forward t poll) polls

  -- An attempt at this reader is a call of `read`.
  pub attempt-read :
      (forward source_opens destination_opens : Bool) (t : Transfer lib) (polls : List Poll)
      → attempt (serial_port forward) t ((source_opens, destination_opens), polls)
        ≡ (read lib source_opens destination_opens forward t polls).0
  unfolding attempt read
  attempt-read forward source_opens destination_opens t polls =
      ground (arith, loop-read_loop forward t polls)
