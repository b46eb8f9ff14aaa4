-- ===== src/Board/Sound.antt =====
-- What holds of the analysers' globals between two bytes.
use serial.Base.{◌⊎◌, ℕ, ◌≤◌, ◌≡◌, refl, ◌∙◌, arith, inl, inr}
use serial.Helper.{Row}
use serial.RunningTime.{RunningTime, init_running_time, set_send_active_state_off}
use serial.StartStop.{globals, check_start_stop}
use serial.StartStop.Alternate.{IsSteady, check_start_stop-IsSteady, check_start_stop_turn}
use serial.Lane.{Lanes, Memory, reset_all_data, init_analyse_lane, analyse_active_data}
use serial.Lane.Valid
use serial.Lane.Valid.{get_lane_time-IsValid, reset_all_data-IsValid, init_analyse_lane-IsValid}
use serial.Lane.Ended.{
  PlacesEnd, reset_all_data-PlacesEnd, get_lane_time-PlacesEnd, init_analyse_lane-PlacesEnd,
}
use serial.Lane.Slot.{reset_all_data_count}
use serial.Lane.Refine.{get_lane_time_count}
use serial.RunningTime.Cadence.{get_time_count}
use serial.Header.{get_header}
use serial.Header.Report
use serial.Header.Report.{get_header-IsValid, get_header_report, init_analyse_header-IsValid}
use serial.Rounds.Count
use serial.Rounds.Count.{store_rounds-IsValid, init_analyse_data-IsValid}
use serial.Board.{
  Board, init_board, on_lane, on_time, on_header, on_rounds, analyse, display_lane_count,
}

-- The buffers have their sizes, and those of the lanes a NUL: at byte 8 of a time's (Valid.IsHeat) and
-- at byte 2 of a place's; the buffers of the header and the rounds begin as 25 zeros in ASCII, with no
-- NUL. There are ten lanes, the flags of the race agree and the counters are within their bounds.
pub record IsSound (b : Board) : Type 0 where
  pub lanes_valid : Valid.IsValid b.lanes
  pub places_end : PlacesEnd b.lanes
  pub ten_lanes : b.lanes.lane_count ≡ 10
  pub header_valid : Report.IsValid b.header
  pub rounds_valid : Count.IsValid b.rounds
  pub race_steady : IsSteady b.race
  pub counted : b.time.loopcount ≤ 21

pub init_board-IsSound : (memory : Memory) → IsSound (init_board memory)
unfolding init_board init_running_time globals init_analyse_lane
init_board-IsSound memory = record {
  lanes_valid = init_analyse_lane-IsValid memory display_lane_count;
  places_end = init_analyse_lane-PlacesEnd memory display_lane_count;
  ten_lanes = refl;
  header_valid = init_analyse_header-IsValid;
  rounds_valid = init_analyse_data-IsValid;
  race_steady = record { counted = omega arith; pending_same = refl; running_same = refl };
  counted = omega arith;
}

on_lane-IsSound :
    (b : Board) (channel : ℕ) (row : Row) → IsSound b → IsSound (on_lane b channel row).0
unfolding on_lane analyse_active_data
on_lane-IsSound b channel row v = record {
  lanes_valid = get_lane_time-IsValid b.lanes b.time.send_active_state channel row v.lanes_valid;
  places_end = get_lane_time-PlacesEnd b.lanes b.time.send_active_state channel row v.places_end;
  ten_lanes = get_lane_time_count b.lanes b.time.send_active_state channel row ∙ v.ten_lanes;
  header_valid = v.header_valid;
  rounds_valid = v.rounds_valid;
  race_steady = v.race_steady;
  counted = v.counted;
}

-- Lanes that are left or reset stay well formed.
left_or_reset :
    (s t : Lanes)
    → (t ≡ s) ⊎ (t ≡ reset_all_data s)
    → Valid.IsValid s
    → PlacesEnd s
    → s.lane_count ≡ 10
    → Valid.IsValid t × PlacesEnd t × (t.lane_count ≡ 10)
left_or_reset s t (inl e) v h n = rw e (v, h, n)
left_or_reset s t (inr e) v h n =
    rw e (reset_all_data-IsValid s v, reset_all_data-PlacesEnd s h, reset_all_data_count s ∙ n)

on_time-IsSound : (b : Board) (row : Row) → IsSound b → IsSound (on_time b row).0
unfolding on_time
on_time-IsSound b row v =
    let lanes =
      left_or_reset b.lanes (check_start_stop b.race b.lanes row).1
        (elim (check_start_stop_turn b.race b.lanes row) [
          | inl (none_sent, same, flag) ↦ inl same
          | inr (one_sent, cleared, flag) ↦ inr cleared
        ])
        v.lanes_valid v.places_end v.ten_lanes in
    record {
      lanes_valid = lanes.0;
      places_end = lanes.1;
      ten_lanes = lanes.2;
      header_valid = v.header_valid;
      rounds_valid = v.rounds_valid;
      race_steady = check_start_stop-IsSteady b.race b.lanes row v.race_steady;
      counted = (get_time_count b.time row v.counted).1;
    }

off_count : (s : RunningTime) → s.loopcount ≤ 21 → (set_send_active_state_off s).loopcount ≤ 21
unfolding set_send_active_state_off
off_count s h = h

on_header-IsSound : (b : Board) (row : Row) → IsSound b → IsSound (on_header b row).0
unfolding on_header
on_header-IsSound b row v = elim (get_header_report b.header b.lanes b.time row v.header_valid) [
  | inl (known, same, lanes, time, sent) ↦ rw (same, lanes, time) v
  | inr (some_header, new, kept, lanes, time, sent) ↦
      let cleared =
        left_or_reset b.lanes (get_header b.header b.lanes b.time row).1 (inr lanes) v.lanes_valid
          v.places_end v.ten_lanes in
      record {
        lanes_valid = cleared.0;
        places_end = cleared.1;
        ten_lanes = cleared.2;
        header_valid = get_header-IsValid b.header b.lanes b.time row v.header_valid;
        rounds_valid = v.rounds_valid;
        race_steady = v.race_steady;
        counted = rw time (off_count b.time v.counted);
      }
]

on_rounds-IsSound : (b : Board) (row : Row) → IsSound b → IsSound (on_rounds b row).0
unfolding on_rounds
on_rounds-IsSound b row v = record {
  lanes_valid = v.lanes_valid;
  places_end = v.places_end;
  ten_lanes = v.ten_lanes;
  header_valid = v.header_valid;
  rounds_valid = store_rounds-IsValid b.rounds row v.rounds_valid;
  race_steady = v.race_steady;
  counted = v.counted;
}

-- A row of any channel, whatever it holds, keeps the analysers' globals sound: the buffers keep
-- their sizes, those of each lane a NUL, at byte 8 of its time's and at byte 2 of its place's,
-- there are ten lanes, the flags of the race agree and the counters stay within their bounds.
pub analyse-IsSound :
    (b : Board) (channel : ℕ) (row : Row) → IsSound b → IsSound (analyse b channel row).0
unfolding analyse
analyse-IsSound b channel row v = ground (
  arith,
  on_lane-IsSound b channel row v,
  on_time-IsSound b row v,
  on_header-IsSound b row v,
  on_rounds-IsSound b row v,
)
