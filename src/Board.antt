-- ===== src/Board.antt =====
-- The analysers behind serialconnect/analyseData.cpp, and its choice between them: the globals of
-- the serialconnect files that a complete row can change.
pub mod Sound
pub mod Fits
pub mod Score
pub mod Refine
use serial.Base.{ℕ, ◌+◌, Bool, not, ◌&&◌, List, [], ◌∷◌, ◌++◌, ltb, ◌==◌, if◌then◌else◌}
use serial.Text.{Text}
use serial.Helper.{Row}
use serial.RunningTime.{RunningTime, init_running_time, get_send_active_state, get_time}
use serial.StartStop.{StartStop, globals, check_start_stop}
use serial.Lane.{Lanes, Memory, init_analyse_lane, analyse_active_data}
use serial.Header.{Header, init_analyse_header, get_header}
use serial.Rounds.{Rounds, init_analyse_data, store_rounds}

pub record Board : Type 0 where
  pub time : RunningTime
  pub race : StartStop
  pub lanes : Lanes
  pub header : Header
  pub rounds : Rounds

abbrev pub display_lane_count : ℕ
display_lane_count = 10

abbrev pub mqtt_long_length : ℕ
mqtt_long_length = 25

-- The init calls of `initReadData`, at the memory that malloc returns.
unfoldable pub init_board : Memory → Board
init_board memory = record {
  time = init_running_time;
  race = globals;
  lanes = init_analyse_lane memory display_lane_count;
  header = init_analyse_header mqtt_long_length;
  rounds = init_analyse_data mqtt_long_length;
}

unfoldable pub on_lane : Board → ℕ → Row → Board × List Text
on_lane b channel row =
    let (lanes, sent) = analyse_active_data b.lanes (get_send_active_state b.time) channel row in
    (record b { lanes = lanes }, sent)

-- checkStartStop, then getTime.
unfoldable pub on_time : Board → Row → Board × List Text
on_time b row =
    let (race, lanes, told) = check_start_stop b.race b.lanes row in
    let (time, sent) = get_time b.time row in
    (record b { race = race; lanes = lanes; time = time }, told ++ sent)

unfoldable pub on_header : Board → Row → Board × List Text
on_header b row =
    let (header, lanes, time, sent) = get_header b.header b.lanes b.time row in
    (record b { header = header; lanes = lanes; time = time }, sent)

unfoldable pub on_rounds : Board → Row → Board × List Text
on_rounds b row =
    let (rounds, sent) = store_rounds b.rounds row in (record b { rounds = rounds }, sent)

-- The ladder of `colorado_control_channel` in `putReadData`.
unfoldable pub analyse : Board → ℕ → Row → Board × List Text
analyse b channel row =
    if not (channel == 0) && ltb channel (display_lane_count + 1)
    then on_lane b channel row
    else if channel == 0
    then on_time b row
    else if channel == 0x0c
    then on_header b row
    else if channel == 0x12
    then on_rounds b row
    else (b, [])
