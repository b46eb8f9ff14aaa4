-- ===== src/Examples/Signal.antt =====
-- Runs as steps, with the signal in between, at concrete inputs.
use serial.Base.{ℕ, ◌≤◌, ◌≡◌, refl, Bool, true, false, none, List, [], ◌∷◌, replicate}
use serial.Text.{Text}
use serial.Program.{data_init, data_clean}
use serial.Protocol.Decode.{decode, first_score}
use serial.Board.Score.{score_run}
use serial.SerialPort.{Poll, got, poll_round}
use serial.Ftdi.{Turn, ftdi_round, is_privileged}
use serial.WinPort.{Status, open_port, Event, characters, WinSession, win_event}
use serial.CommandLine.{Options}
use serial.Device.{Device, listen}
use serial.Device.Serial.{serial_port}
use serial.Device.Windows.{windows_port}
use serial.Device.Ftdi.{FtdiOpening, ftdi_device}
use serial.Device.Listener.{transfer_of}
use serial.Run.{Environment}
use serial.Run as Run
use serial.Run.Published.{first_message}
use serial.Control.{
  opening, turning, ended, Control, at_start, interrupted, listens, returns, enters, refuses,
  goes_on, leaves, turns, breaks, rests, skips, wakes, begun, along, Steps,
}
use serial.Control.Ends.{own_steps, own_turns, CanEnd, Steps_ends}
use serial.Control.Published.{Steps_published}
use serial.Control.Complete.{IsPossible, listen-Steps}
use serial.Control.Linux.{
  session_of, IsMain, IsSomeRun, main_serial, main_ftdi, left_serial, left_ftdi, Steps_serial,
  Steps_ftdi,
}
use serial.Examples.{some_memory, up}
use serial.Examples.Whole.{evening, no_client, port_options}

abbrev calls_succeed : Status
calls_succeed k = true

abbrev win_device : Device up
win_device = windows_port up true

abbrev first_session : WinSession up
first_session = record {
  program = data_init up some_memory 4711 no_client;
  read_data = 0;
  written = [];
  error_counter = 0;
  printed = 0;
}

abbrev entered_session : WinSession up
entered_session = record first_session { read_data = 0xCC; error_counter = 1000 }

abbrev first_event : Event
first_event = characters ((0xB8, true) ∷ (0x0F, false) ∷ []) true

abbrev read_session : WinSession up
read_session = win_event up true entered_session first_event

abbrev win_bytes : List ℕ
win_bytes = 0xB8 ∷ 0x0F ∷ 0x0F ∷ []

abbrev win_started : Control true win_device
win_started = at_start true win_device first_session

abbrev win_waiting : Control true win_device
win_waiting = record { running = true; place = turning; state = entered_session }

-- The signal comes while the first event is waited for.
abbrev win_signalled : Control true win_device
win_signalled = record { running = false; place = turning; state = entered_session }

abbrev win_last : Control true win_device
win_last = record { running = false; place = ended; state = read_session }

abbrev from_event : Steps true win_device win_signalled win_bytes win_last
from_event =
    along
      (along
        (along
          (along (along begun (turns win_signalled first_event refl refl)) (leaves _ refl refl))
          (rests _ refl refl))
        (wakes _ refl))
      (returns _ refl refl)

Steps_ends_example :
    (own_steps true win_device from_event ≤ 6)
    × (own_turns true win_device from_event ≤ 1)
    × CanEnd true win_device win_last
Steps_ends_example = Steps_ends true win_device (calls_succeed, 0) first_event from_event refl

abbrev win_run : Steps true win_device win_started win_bytes win_last
unfolding open_port
win_run =
    along
      (along
        (along
          (along
            (along
              (along
                (along (along begun (listens win_started refl refl))
                  (enters (record win_started { place = opening }) (calls_succeed, 0xCC) refl refl))
                (interrupted win_waiting))
              (turns win_signalled first_event refl refl))
            (leaves _ refl refl))
          (rests _ refl refl))
        (wakes _ refl))
      (returns _ refl refl)

abbrev win_shown : List Text
win_shown =
    first_message ∷ score_run first_score (decode none (replicate 32 (replicate 16 0x01)) win_bytes)

Steps_published_example :
    (read_session.program.mqtt.world ≡ win_shown)
    × ((data_clean up read_session.program).mqtt.world ≡ win_shown)
Steps_published_example =
    Steps_published up (λ w. w) (λ w. refl) (λ t w. (refl, refl)) (λ w. refl) (λ w. refl)
      (λ w. refl) (λ w. refl) (λ w. refl) (λ m w. (refl, refl)) true win_device some_memory 4711
      no_client first_session win_last win_bytes refl win_run

abbrev port_device : Device up
port_device = serial_port up false

abbrev port_started : Control false port_device
port_started = at_start false port_device (transfer_of up (Run.started up evening no_client))

abbrev first_poll : Poll
first_poll = got (0xB8 ∷ 0x0F ∷ [])

abbrev port_last : Control false port_device
port_last = record {
  running = false;
  place = ended;
  state = poll_round up false port_started.state first_poll;
}

abbrev one_port : Options
one_port = record port_options { send_mode = false }

port_run : Steps false port_device port_started (0xB8 ∷ 0x0F ∷ []) port_last
port_run =
    along
      (along
        (along
          (along
            (along
              (along
                (along (along begun (listens port_started refl refl))
                  (enters _ (true, false) refl refl))
                (goes_on _ refl refl))
              (turns _ first_poll refl refl))
            (interrupted _))
          (leaves _ refl refl))
        (skips _ refl refl))
      (returns _ refl refl)

-- The port does not open at first.
abbrev two_attempts : List ((Bool × Bool) × List Poll)
two_attempts = ((false, false), []) ∷ ((true, false), first_poll ∷ []) ∷ []

Steps_serial_example :
    IsMain port_device port_started.state
      (main_serial up evening no_client one_port)
      (left_serial up evening no_client)
      port_run
    × IsSomeRun port_device port_started.state
        (main_serial up evening no_client one_port)
        (left_serial up evening no_client)
        two_attempts
Steps_serial_example =
    Steps_serial up evening no_client one_port port_last (0xB8 ∷ 0x0F ∷ []) port_run two_attempts
      refl refl (tt, tt)

listen-Steps_example :
    (bs : List ℕ) × Steps false port_device port_started bs (record {
      running = false;
      place = ended;
      state = listen port_device port_started.state two_attempts;
    })
listen-Steps_example = listen-Steps false port_device port_started.state two_attempts refl (tt, tt)

abbrev ftdi_options : Options
ftdi_options = record port_options { ftdi_mode = true; lograwdata = true }

abbrev logging_device : Device up
logging_device = ftdi_device up true

abbrev ftdi_started : Control false logging_device
ftdi_started = at_start false logging_device (session_of up (Run.started up evening no_client))

abbrev two_devices : FtdiOpening
two_devices = record { uid = 0; euid = 0; devices = 2; junk = replicate 16 0x7F }

abbrev no_privileges : FtdiOpening
no_privileges = record two_devices { uid = 1000; euid = 1000 }

abbrev not_passed_on : Turn
not_passed_on = record { read_status = 0; bytes = 0xBE ∷ 0x0F ∷ []; write_status = 4 }

-- The first attempt ends at FT_Write, and the second has no privileges.
abbrev once_broken : Control false logging_device
once_broken = record {
  running = true;
  place = opening;
  state =
      (logging_device.round (logging_device.enter ftdi_started.state two_devices).0
        not_passed_on).0;
}

abbrev ftdi_last : Control false logging_device
ftdi_last = record {
  running = false;
  place = ended;
  state = (logging_device.enter once_broken.state no_privileges).0;
}

abbrev to_break : Steps false logging_device ftdi_started [] once_broken
unfolding is_privileged ftdi_round
to_break =
    along
      (along
        (along
          (along
            (along
              (along (along begun (listens ftdi_started refl refl))
                (enters _ two_devices refl refl))
              (goes_on _ refl refl))
            (breaks _ not_passed_on refl refl))
          (rests _ refl refl))
        (wakes _ refl))
      (listens _ refl refl)

ftdi_run : Steps false logging_device ftdi_started [] ftdi_last
unfolding is_privileged
ftdi_run =
    along
      (along (along (along to_break (refuses once_broken no_privileges refl refl)) (interrupted _))
        (skips _ refl refl))
      (returns _ refl refl)

-- A failed write to the second device, and then an attempt without privileges.
abbrev broken_attempts : List (FtdiOpening × List Turn)
broken_attempts = (two_devices, not_passed_on ∷ []) ∷ (no_privileges, []) ∷ []

broken-IsPossible : IsPossible false logging_device ftdi_started.state broken_attempts
unfolding is_privileged ftdi_round
broken-IsPossible = (tt, tt)

Steps_ftdi_example :
    IsMain logging_device ftdi_started.state
      (main_ftdi up evening no_client ftdi_options)
      (left_ftdi up evening no_client)
      ftdi_run
    × IsSomeRun logging_device ftdi_started.state
        (main_ftdi up evening no_client ftdi_options)
        (left_ftdi up evening no_client)
        broken_attempts
Steps_ftdi_example =
    Steps_ftdi up evening no_client ftdi_options ftdi_last [] ftdi_run broken_attempts refl refl
      broken-IsPossible
