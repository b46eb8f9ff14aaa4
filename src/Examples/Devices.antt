-- ===== src/Examples/Devices.antt =====
-- The FTDI device and the listener at concrete runs.
use serial.Base.{ℕ, ◌≡◌, refl, true, false, List, [], ◌∷◌, replicate, arith}
use serial.Protocol.{init_read_data, read_all}
use serial.Mqtt.{deliver}
use serial.Program.{Program, feed}
use serial.SerialPort.{failed, got}
use serial.Ftdi.{Call, reset_device, Turn, Session, ftdi_loop}
use serial.Ftdi.Hex.{read_hex}
use serial.Ftdi.Stream.{logged}
use serial.Ftdi.Log.{read_hex-ftdi_loop}
use serial.Ftdi.Blocks.{IsBlocked, ftdi_loop-IsBlocked}
use serial.Listener.{Attempt, Listener, start_listen}
use serial.Listener.Stream.{all_bytes, start_listen-read_all}
use serial.Listener.Restart.{sources, listen_within, listen_within_limit}
use serial.Text.{Text, codes}
use serial.Base.Int.{ℤ, pos}
use serial.Sender.{Sender, send_all}
use serial.Sender.Frames.{split, split-send_all}
use serial.Examples.{some_memory, up}

abbrev fails_at_reset : Call → ℕ
fails_at_reset reset_device = 4
fails_at_reset _ = 0

abbrev fresh : Program up
fresh = record {
  receiver = init_read_data some_memory;
  mqtt = record { mosq = true; error_state = false; world = [] };
}

abbrev session : Session up
session = record {
  program = fresh;
  buffer = replicate 16 0xCC;
  rawdata = [];
  blocks = [];
  used = [];
}

abbrev three_turns : List Turn
three_turns =
    record { read_status = 0; bytes = 0xB8 ∷ 0x0F ∷ []; write_status = 0 }
    ∷ record { read_status = 0; bytes = 0x1F ∷ []; write_status = 4 }
    ∷ record { read_status = 0; bytes = 0x2F ∷ []; write_status = 0 }
    ∷ []

read_hex-ftdi_loop_example :
    read_hex (ftdi_loop up true true session three_turns).0.rawdata ≡ logged true three_turns
read_hex-ftdi_loop_example =
    read_hex-ftdi_loop up true session three_turns refl
      ((omega arith, (omega arith, tt)), ((omega arith, tt), ((omega arith, tt), tt)))

session-IsBlocked : IsBlocked up session
session-IsBlocked = record { sixteen = omega arith; full = tt }

ftdi_loop-IsBlocked_example : IsBlocked up (ftdi_loop up true true session three_turns).0
ftdi_loop-IsBlocked_example =
    ftdi_loop-IsBlocked up true true session three_turns
      (omega arith, (omega arith, (omega arith, tt))) session-IsBlocked

abbrev no_port : Attempt
no_port = record {
  source_opens = false;
  destination_opens = false;
  polls = [];
  uid = 0;
  euid = 0;
  devices = 1;
  junk = replicate 16 0;
  turns = three_turns;
}

abbrev two_attempts : List Attempt
two_attempts =
    no_port
    ∷ record no_port { source_opens = true; polls = failed ∷ got (0xB8 ∷ 0x0F ∷ []) ∷ [] }
    ∷ []

abbrev listener : Listener up
listener = record { program = fresh; written = []; within = true; rawdata = []; blocks = [] }

start_listen-read_all_example :
    let bs = all_bytes false false two_attempts in
    (start_listen up false false false listener two_attempts).program ≡ record {
      receiver = (read_all fresh.receiver bs).0;
      mqtt = deliver up fresh.mqtt (read_all fresh.receiver bs).1;
    }
start_listen-read_all_example = start_listen-read_all up false false false listener two_attempts

abbrev idle_sender : Sender
idle_sender = record { fd = pos 3; line = [] }

abbrev two_sends : List (Text × ℤ × ℤ)
two_sends = (codes "start", pos 5, pos 1) ∷ (codes "stop", pos 4, pos 1) ∷ []

split-send_all_example :
    split [] (send_all idle_sender two_sends).line ≡ codes "start" ∷ codes "stop" ∷ []
split-send_all_example =
    split-send_all idle_sender two_sends refl ((refl, refl), ((refl, refl), tt))
      ((refl, (refl, (refl, (refl, (refl, tt))))), ((refl, (refl, (refl, (refl, tt)))), tt))

abbrev source_only : Attempt
source_only = record no_port { source_opens = true }

abbrev both_ports : Attempt
both_ports = record no_port {
  source_opens = true;
  destination_opens = true;
  polls = got (0xB8 ∷ 0x0F ∷ []) ∷ [];
}

-- Of five descriptors three are taken, and the second attempt takes one more.
listen_within_limit_example :
    (listen_within up 5 3 true listener (no_port ∷ source_only ∷ both_ports ∷ [])).program
    ≡ feed up fresh []
unfolding sources
listen_within_limit_example =
    listen_within_limit up 5 3 listener (no_port ∷ source_only ∷ []) both_ports (refl, (refl, tt))
      refl refl
