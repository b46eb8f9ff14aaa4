-- ===== src/Examples/Analysers.antt =====
-- The analysers at concrete rows.
use serial.Base.{
  ◌≡◌, ◌≢◌, refl, ap, true, false, ◌⊎◌, [], ◌∷◌, arith, length, get_or, sym, ◌∙◌, if◌then◌else◌,
  ◌&&◌, All, List,
}
use serial.Text.{codes, decimal, c_string}
use serial.Helper.{digit, digits_text, Row}
use serial.RunningTime.{RunningTime, get_times, set_send_active_state_off}
use serial.RunningTime.Sampled.{sampled, time_texts, active_after, judged, get_times-sampled}
use serial.StartStop.{check_rows}
use serial.StartStop.Alternate.{IsSteady, Alternates, check_rows-Alternates}
use serial.Lane.{
  short_data, place_text, lane_text, get_lane_time, reset_all_data, init_analyse_lane,
}
use serial.Lane.Valid.{init_analyse_lane-IsValid}
use serial.Lane.Slot.{slot, slot_step}
use serial.Lane.Refine.{get_lane_time-slot_step}
use serial.Lane.Repeat.{get_lane_time_long}
use serial.Header.{Header, init_analyse_header, header_text, null_header, get_header}
use serial.Header.Report.{stored, get_header_report, init_analyse_header-IsValid}
use serial.Rounds.{Rounds, init_analyse_data, null_rounds, rounds_text, store_rows}
use serial.Lane.Once.{Reading, Reads, messages_of, first_active, messages_of_once}
use serial.StartStop.Machine.{running, race_run, check_rows-race_run}
use serial.Rounds.Count.{init_analyse_data-IsValid, numbered, store_rows-numbered}
use serial.Examples.{
  some_memory, ten_lanes, result_row, wide_row, blank_row, active_time, running_race, idle_race,
}

ten_lanes_count : ten_lanes.lane_count ≡ 10
unfolding init_analyse_lane
ten_lanes_count = refl

get_lane_time-slot_step_example :
    (slot (get_lane_time ten_lanes true 3 result_row).0 3
      ≡ (slot_step (slot ten_lanes 3) (short_data result_row) (place_text result_row)).0)
    × ((get_lane_time ten_lanes true 3 result_row).1 ≡ (
        if (slot_step (slot ten_lanes 3) (short_data result_row) (place_text result_row)).1 && true
        then lane_text 3 result_row ∷ []
        else []))
get_lane_time-slot_step_example =
    get_lane_time-slot_step ten_lanes (init_analyse_lane-IsValid some_memory 10) true 3
      (omega arith) (omega (arith, ten_lanes_count)) result_row

result_text : short_data result_row ≡ codes "012345"
unfolding short_data digits_text digit decimal
result_text = refl

wide_text : short_data wide_row ≡ codes "101010345"
unfolding short_data digits_text digit decimal
wide_text = refl

result_stored : short_data result_row ≢ codes "000000"
result_stored e = omega (arith, ap (λ t. get_or t 1 0) (sym result_text ∙ e))

-- Lane 3 with its result three times, once while paused, and two other lanes.
abbrev five_readings : List Reading
five_readings =
    (true, 4, wide_row)
    ∷ (true, 3, result_row)
    ∷ (false, 3, result_row)
    ∷ (true, 5, blank_row)
    ∷ (true, 3, result_row)
    ∷ []

five_readings-Reads : All (Reads 10 3 result_row) five_readings
five_readings-Reads = (
  (omega arith, omega arith, λ e. absurd (omega arith)),
  (
    (omega arith, omega arith, λ e. refl),
    (
      (omega arith, omega arith, λ e. refl),
      (
        (omega arith, omega arith, λ e. absurd (omega arith)),
        ((omega arith, omega arith, λ e. refl), tt),
      ),
    ),
  ),
)

messages_of_once_example : messages_of 3 ten_lanes five_readings ≡ (
    if (slot_step (slot ten_lanes 3) (short_data result_row) (place_text result_row)).1
      && first_active 3 five_readings
    then lane_text 3 result_row ∷ []
    else [])
messages_of_once_example =
    messages_of_once 3 (omega arith) result_row ten_lanes five_readings
      (init_analyse_lane-IsValid some_memory 10) (rw ten_lanes_count five_readings-Reads)
      (omega (arith, ap length result_text)) result_stored

get_lane_time_long_example : (get_lane_time ten_lanes true 3 wide_row).1 ≡ lane_text 3 wide_row ∷ []
get_lane_time_long_example =
    get_lane_time_long ten_lanes (init_analyse_lane-IsValid some_memory 10) 3 (omega arith)
      (omega (arith, ten_lanes_count)) wide_row (omega (arith, ap length wide_text))

abbrev late_time : RunningTime
late_time = record { loopcount = 20; send_active_state = false; header_change = false }

get_times-sampled_example :
    ((get_times late_time (blank_row ∷ result_row ∷ [])).1
      ≡ time_texts (sampled 1 (blank_row ∷ result_row ∷ [])))
    × ((get_times late_time (blank_row ∷ result_row ∷ [])).0.send_active_state
        ≡ active_after false (judged false (sampled 1 (blank_row ∷ result_row ∷ []))))
get_times-sampled_example = get_times-sampled 1 late_time (blank_row ∷ result_row ∷ []) refl

check_rows-Alternates_example :
    Alternates false (check_rows idle_race ten_lanes (result_row ∷ blank_row ∷ [])).2
check_rows-Alternates_example =
    check_rows-Alternates idle_race ten_lanes (result_row ∷ blank_row ∷ [])

running-IsSteady : IsSteady running_race
running-IsSteady = record { counted = omega arith; pending_same = refl; running_same = refl }

abbrev three_rows : List Row
three_rows = blank_row ∷ blank_row ∷ result_row ∷ []

check_rows-race_run_example :
    ((check_rows running_race ten_lanes three_rows).1
      ≡ (race_run (running 4) ten_lanes three_rows).0)
    × ((check_rows running_race ten_lanes three_rows).2
        ≡ (race_run (running 4) ten_lanes three_rows).1)
check_rows-race_run_example = check_rows-race_run running_race ten_lanes three_rows running-IsSteady

abbrev new_header : Header
new_header = init_analyse_header 25

get_header_report_example :
    let (t, last, after, sent) = get_header new_header ten_lanes active_time result_row in
    (((header_text result_row ≡ null_header) ⊎ (header_text result_row ≡ stored new_header))
      × (t ≡ new_header)
      × (last ≡ ten_lanes)
      × (after ≡ active_time)
      × (sent ≡ []))
    ⊎ ((header_text result_row ≢ null_header)
        × (header_text result_row ≢ stored new_header)
        × (stored t ≡ header_text result_row)
        × (last ≡ reset_all_data ten_lanes)
        × (after ≡ set_send_active_state_off active_time)
        × (sent ≡ header_text result_row ∷ header_text result_row ∷ []))
get_header_report_example =
    get_header_report new_header ten_lanes active_time result_row init_analyse_header-IsValid

abbrev no_rounds : Rounds
no_rounds = init_analyse_data 25

store_rows-numbered_example :
    (store_rows no_rounds (result_row ∷ wide_row ∷ [])).1
    ≡ numbered no_rounds.p_round (result_row ∷ wide_row ∷ [])
unfolding rounds_text null_rounds digits_text digit decimal c_string init_analyse_data
store_rows-numbered_example =
    store_rows-numbered no_rounds (result_row ∷ wide_row ∷ []) init_analyse_data-IsValid (
      (λ e. omega (arith, ap (λ t. get_or t 0 0) e)),
      (λ e. omega (arith, ap (λ t. get_or t 0 0) e)),
      (
        (λ e. omega (arith, ap (λ t. get_or t 2 0) e)),
        (λ e. omega (arith, ap (λ t. get_or t 0 0) e)),
        tt,
      ),
    )
