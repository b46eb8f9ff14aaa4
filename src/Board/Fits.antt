-- ===== src/Board/Fits.antt =====
-- The messages of the analysers within the arrays that they are printed into.
use serial.Base.{
  ℕ, suc, ◌+◌, ◌≤◌, ◌<◌, Bool, true, false, ◌||◌, [], ◌∷◌, arith, length, length-append, All,
  All-append, get_or, ◌==◌, if◌then◌else◌,
}
use serial.Text.{Text, decimal}
use serial.Text.Decimal.{ten_times, length-decimal_fuel, length-decimal_le}
use serial.Helper.{Row, digit, digit-le, digits_text_bounds}
use serial.RunningTime.{RunningTime, time_text, get_time}
use serial.StartStop.{StartStop, start_text, stop_text, check_start_stop}
use serial.Lane.{Lanes, lane_text, send_lane_data, get_lane_time, analyse_active_data}
use serial.Header.{header_text, get_header}
use serial.Rounds.{Rounds, rounds_text, round_text, send_round, clear_rounds, store_rounds}
use serial.Board.{Board, on_lane, on_time, on_header, on_rounds, analyse, mqtt_long_length}

-- The size of the array that a message is printed into, told by its first letter: those of a round,
-- a start and a stop have MQTT_LONG_LENGTH bytes, the others 64.
abbrev pub array_size : Text → ℕ
array_size m = if get_or m 0 0 == b'r' || get_or m 0 0 == b's' then mqtt_long_length else 64

abbrev pub Fits : Text → Type 0
Fits m = length m + 1 ≤ array_size m

race-Fits : (b : Bool) → Fits (if b then start_text else stop_text)
unfolding start_text stop_text
race-Fits true = omega arith
race-Fits false = omega arith

time-Fits : (row : Row) → Fits (time_text row)
unfolding time_text
time-Fits row =
    let one = length-decimal_le (digit row 4) (digit-le row 4) in
    let two = length-decimal_le (digit row 6) (digit-le row 6) in
    let three = length-decimal_le (digit row 8) (digit-le row 8) in
    let four = length-decimal_le (digit row 10) (digit-le row 10) in
    let five = length-decimal_le (digit row 12) (digit-le row 12) in
    simp length-append (omega arith)

lane-Fits : (lane : ℕ) (row : Row) → lane ≤ 10 → Fits (lane_text lane row)
unfolding lane_text
lane-Fits lane row h =
    let minutes = digits_text_bounds row (4 ∷ 6 ∷ []) in
    let seconds = digits_text_bounds row (8 ∷ 10 ∷ []) in
    let hundredths = digits_text_bounds row (12 ∷ 14 ∷ []) in
    let place = length-decimal_le (digit row 2) (digit-le row 2) in
    let number = length-decimal_le lane h in simp length-append (omega arith)

header-Fits : (row : Row) → Fits (header_text row)
unfolding header_text
header-Fits row =
    let event = digits_text_bounds row (0 ∷ 2 ∷ 4 ∷ []) in
    let heat = digits_text_bounds row (10 ∷ 12 ∷ 14 ∷ []) in simp length-append (omega arith)

round-Fits : (n : ℕ) → n < ten_times 9 → Fits (round_text n)
unfolding round_text decimal
round-Fits n h = omega (arith, length-decimal_fuel 9 (suc n) n h)

lane_sent-Fits :
    (b : Board) (channel : ℕ) (row : Row) → channel ≤ 10 → All Fits (on_lane b channel row).1
unfolding on_lane analyse_active_data get_lane_time send_lane_data
lane_sent-Fits b channel row h = ground (arith, lane-Fits channel row h)

race_sent-Fits :
    (s : StartStop) (lanes : Lanes) (row : Row) → All Fits (check_start_stop s lanes row).2
unfolding check_start_stop
race_sent-Fits s lanes row = ground (arith, race-Fits true, race-Fits false)

running_time_sent-Fits : (s : RunningTime) (row : Row) → All Fits (get_time s row).1
unfolding get_time
running_time_sent-Fits s row = ground (arith, time-Fits row)

time_sent-Fits : (b : Board) (row : Row) → All Fits (on_time b row).1
unfolding on_time
time_sent-Fits b row =
    All-append Fits (check_start_stop b.race b.lanes row).2 (get_time b.time row).1
      (race_sent-Fits b.race b.lanes row) (running_time_sent-Fits b.time row)

header_sent-Fits : (b : Board) (row : Row) → All Fits (on_header b row).1
unfolding on_header get_header
header_sent-Fits b row = ground (arith, header-Fits row)

send_round-Fits : (s : Rounds) (t : Text) (n : ℕ) → n < ten_times 9 → All Fits (send_round s t n).1
unfolding send_round
send_round-Fits s t n h = ground (arith, round-Fits n h)

clear_rounds_lem :
    (s : Rounds) (t : Text)
    → All Fits (clear_rounds s t).1 × ((clear_rounds s t).0.p_round ≤ s.p_round)
unfolding clear_rounds send_round
clear_rounds_lem s t = (ground (arith, round-Fits 0 (omega arith)), ground arith)

rounds_sent-Fits :
    (b : Board) (row : Row) → b.rounds.p_round + 1 < ten_times 9 → All Fits (on_rounds b row).1
unfolding on_rounds store_rounds
rounds_sent-Fits b row h =
    let t = (clear_rounds b.rounds (rounds_text row)).0 in
    let (cleared, kept) = clear_rounds_lem b.rounds (rounds_text row) in
    All-append Fits (clear_rounds b.rounds (rounds_text row)).1
      (send_round t (rounds_text row) (t.p_round + 1)).1 cleared
      (send_round-Fits t (rounds_text row) (t.p_round + 1) (omega arith))

-- A row of any channel: each message fits its array, and the count of rounds is one more at most.
pub analyse-Fits :
    (b : Board) (channel : ℕ) (row : Row)
    → b.rounds.p_round + 1 < ten_times 9
    → All Fits (analyse b channel row).1
unfolding analyse
analyse-Fits b channel row h = ground (
  arith,
  lane_sent-Fits b channel row,
  time_sent-Fits b row,
  header_sent-Fits b row,
  rounds_sent-Fits b row h,
)

pub analyse_round :
    (b : Board) (channel : ℕ) (row : Row)
    → (analyse b channel row).0.rounds.p_round ≤ b.rounds.p_round + 1
unfolding analyse on_lane on_time on_header on_rounds store_rounds send_round
analyse_round b channel row = ground (arith, clear_rounds_lem b.rounds (rounds_text row))
