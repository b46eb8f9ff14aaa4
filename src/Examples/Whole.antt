-- ===== src/Examples/Whole.antt =====
-- Runs of the whole program, and a lane that is cleared, at concrete inputs.
use serial.Base.{
  ℕ, ◌≡◌, refl, true, false, none, some, List, [], ◌∷◌, ◌&&◌, replicate, length, set, arith,
  if◌then◌else◌, ◌==◌, ◌++◌,
}
use serial.Text.{Text, codes}
use serial.Helper.{digit}
use serial.Lane.{short_data, init_analyse_lane}
use serial.Lane.Valid.{IsValid, init_analyse_lane-IsValid}
use serial.Lane.Slot.{slot}
use serial.Protocol.{init_read_data, read_all}
use serial.Mqtt.{Mosquitto, Mqtt, mqtt_connect}
use serial.SerialPort.{failed, got}
use serial.Listener.{Listener}
use serial.Listener.Stream.{all_bytes}
use serial.CommandLine.{argument, Options, default_options, main, scan, scan_argument, scan_option}
use serial.Ftdi.{is_privileged}
use serial.Blocks.{main_blocks}
use serial.Blocks.Kept.{lost_by}
use serial.Blocks.Left.{Ends, fresh, lost_by_all, main_blocks-Ends}
use serial.Run.{Environment, run_options, run_main}
use serial.Run.Published.{first_message, stream_messages, shown_messages, run_main_published}
use serial.Base.Int.{pos, is_zero}
use serial.Mqtt.Accepted.{accepted}
use serial.Run.Accepted.{run_options-accepted}
use serial.Mqtt.Watched.{idle, watched}
use serial.Run.Watched.{run_options-watched}
use serial.Run.Silent.{run_options_silent}
use serial.PlaceOrder.{Places, init_places, has_place, get_place_time}
use serial.PlaceOrder.Refine.{order_place, order_step, order_messages, get_place_time-order_step}
use serial.Protocol.Decode.{decode}
use serial.PlaceOrder.Rows.Score.{places_run, first_places}
use serial.PlaceOrder.Rows.Bytes.{read_places, read_places-places_run}
use serial.Examples.{some_memory, result_row, up}

abbrev pub evening : Environment
evening = record {
  memory = some_memory;
  pid = 4711;
  basic_portname = codes "/dev/ttyUSB0";
  destination_portname = codes "/dev/ttyUSB1";
  rawdata = [];
  attempts =
      record {
        source_opens = true;
        destination_opens = false;
        polls = failed ∷ got (0xB8 ∷ 0x0F ∷ []) ∷ [];
        uid = 0;
        euid = 0;
        devices = 1;
        junk = replicate 16 0;
        turns = [];
      }
      ∷ [];
}

abbrev pub no_client : Mqtt up
no_client = record { mosq = false; error_state = false; world = [] }

abbrev pub port_options : Options
port_options = record (default_options evening.basic_portname evening.destination_portname) {
  portname = argument (codes "com3");
  cmd_line_failure = false;
  ftdi_mode = false;
}

abbrev arguments : List Text
arguments = codes "-s" ∷ codes "com3" ∷ []

scan-arguments :
    scan (default_options evening.basic_portname evening.destination_portname) arguments
    ≡ some port_options
unfolding scan scan_argument scan_option default_options
scan-arguments = refl

run_main_published_example :
    (l : Listener up) × (run_main up evening no_client arguments ≡ some l)
    × (l.program.mqtt.world ≡ first_message ∷ shown_messages evening port_options)
run_main_published_example =
    run_main_published up (λ w. w) (λ w. refl) (λ t w. (refl, refl)) (λ w. refl) (λ w. refl)
      (λ w. refl) (λ w. refl) (λ w. refl) (λ m w. (refl, refl)) evening no_client arguments
      port_options scan-arguments

-- A library that has no memory for a client.
abbrev exhausted : Mosquitto
exhausted = record up { create = λ t w. (w, false) }

abbrev exhausted_client : Mqtt exhausted
exhausted_client = record { mosq = false; error_state = false; world = [] }

run_options_silent_example :
    ((run_options exhausted evening exhausted_client port_options).program.mqtt.world ≡ [])
    × ((run_options exhausted evening exhausted_client port_options).program.receiver
        ≡ (read_all (init_read_data some_memory) (all_bytes false false evening.attempts)).0)
unfolding default_options
run_options_silent_example = run_options_silent exhausted evening exhausted_client port_options refl

abbrev places : Places
places = init_places some_memory (λ i. i) 10

ten_places : places.lanes.lane_count ≡ 10
unfolding init_places init_analyse_lane
ten_places = refl

places-IsValid : IsValid places.lanes
unfolding init_places
places-IsValid = init_analyse_lane-IsValid some_memory 10

get_place_time-order_step_example :
    let (t, reported) =
      order_step (slot places.lanes 2) (short_data result_row) (order_place 2 result_row) in
    (slot (get_place_time places true 2 result_row).0.lanes 2 ≡ t)
    × ((get_place_time places true 2 result_row).1
        ≡ (if reported && true then order_messages places.lanebyplaceorder 2 result_row else []))
    × ((get_place_time places true 2 result_row).0.lanebyplaceorder ≡ (
        if has_place result_row
        then set places.lanebyplaceorder 2 (digit result_row 2)
        else places.lanebyplaceorder))
get_place_time-order_step_example =
    get_place_time-order_step places places-IsValid true 2 (omega arith) (omega (arith, ten_places))
      (omega arith) result_row

-- A broker that takes a message only if it has none or more than one.
abbrev flaky : Mosquitto
flaky = record up { publish = λ m w. if length w == 1 then (w, pos 4) else (w ++ m ∷ [], pos 0) }

flaky_publishes :
    (m : Text) (w : List Text)
    → (flaky.publish m w).0 ≡ (if is_zero (flaky.publish m w).1 then w ++ m ∷ [] else w)
flaky_publishes m w = ground arith

abbrev flaky_client : Mqtt flaky
flaky_client = record { mosq = false; error_state = false; world = [] }

run_options-accepted_example :
    (run_options flaky evening flaky_client port_options).program.mqtt.world
    ≡ accepted flaky
        (mqtt_connect flaky 4711 flaky_client).0
        (first_message ∷ stream_messages evening port_options)
run_options-accepted_example =
    run_options-accepted flaky (λ w. w) (λ w. refl) (λ t w. refl) (λ w. refl) (λ w. refl)
      (λ w. refl) (λ w. refl) flaky_publishes evening flaky_client port_options refl

-- A result of lane 2 with a place, and then a blank row.
abbrev lane_two : List ℕ
lane_two =
    0xBA ∷ 0x0D ∷ 0x1E ∷ 0x2F ∷ 0x3E ∷ 0x4D ∷ 0x5C ∷ 0x6B ∷ 0x7A ∷ 0xBA ∷ 0x0F ∷ 0x1F ∷ 0x2F ∷ 0x3F
    ∷ 0x4F ∷ 0x5F ∷ 0x6F ∷ 0x7F ∷ 0xBE ∷ []

read_places-places_run_example :
    read_places some_memory (λ i. i) lane_two
    ≡ places_run (first_places (λ i. i)) (decode none (replicate 32 (replicate 16 0x01)) lane_two)
read_places-places_run_example = read_places-places_run some_memory (λ i. i) lane_two

-- An attempt at an FTDI device whose read fails, with a log.
abbrev failing_night : Environment
failing_night = record evening {
  attempts =
      record {
        source_opens = false;
        destination_opens = false;
        polls = [];
        uid = 0;
        euid = 0;
        devices = 1;
        junk = replicate 16 0;
        turns = record { read_status = 4; bytes = []; write_status = 0 } ∷ [];
      }
      ∷ [];
}

main_blocks-Ends_example :
    Ends true 58 (main_blocks up failing_night no_client (codes "-o" ∷ []) fresh)
unfolding main scan scan_argument scan_option default_options lost_by_all lost_by is_privileged
main_blocks-Ends_example = main_blocks-Ends up failing_night no_client (codes "-o" ∷ [])

abbrev watched_client : Mqtt (watched up)
watched_client = record { mosq = false; error_state = false; world = ([], idle) }

run_options-watched_example :
    (run_options (watched up) evening watched_client port_options).program.mqtt.world.1 ≡ idle
run_options-watched_example = run_options-watched up evening watched_client port_options refl refl
