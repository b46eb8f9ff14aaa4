-- ===== src/PlaceOrder.antt =====
-- serialconnect/analyseLane.cpp with orderbyplace defined: a lane's message names its place first.
pub mod Refine
pub mod Ended
pub mod Clear
pub mod Rows
use serial.Base.{
  ℕ, ◌+◌, ◌-◌, Bool, true, false, not, ◌&&◌, ◌||◌, List, [], ◌∷◌, ◌++◌, ◌==◌, if◌then◌else◌, get_or,
  set,
}
use serial.Text.{Text, codes, decimal, same, c_string}
use serial.Helper.{Row, digit, digits_text}
use serial.Lane.{
  Lanes, Memory, malloc, init_analyse_lane, null_short_data, null_place, reset_time_and_place,
  short_data, send_lane_data, store_lane, is_odd_row,
}

-- The lanes with lanebyplaceorder, which malloc leaves as it finds it.
pub record Places : Type 0 where
  pub lanes : Lanes
  pub lanebyplaceorder : List ℕ

unfoldable pub init_places : Memory → (ℕ → ℕ) → ℕ → Places
init_places memory junk lane_count = record {
  lanes = init_analyse_lane memory lane_count;
  lanebyplaceorder = malloc junk 12;
}

-- data[2] != 0x0F
unfoldable pub has_place : Row → Bool
has_place row = not (get_or row 2 0 == 0x0F)

-- sprintf(…, "lane %d %d%d:%d%d,%d%d %d", …) between its first and its last number.
unfoldable pub place_message : ℕ → Row → ℕ → Text
place_message first row last =
    codes "lane "
    ++ decimal first
    ++ codes " "
    ++ digits_text row (4 ∷ 6 ∷ [])
    ++ codes ":"
    ++ digits_text row (8 ∷ 10 ∷ [])
    ++ codes ","
    ++ digits_text row (12 ∷ 14 ∷ [])
    ++ codes " "
    ++ decimal last

-- The first block: the message, the place and lanebyplaceorder.
unfoldable pub name_place : Places → ℕ → Row → Text × Text × List ℕ
name_place s lane row =
    if has_place row
    then (
      place_message (digit row 2) row lane,
      decimal lane,
      set s.lanebyplaceorder lane (digit row 2),
    )
    else (
      place_message (get_or s.lanebyplaceorder lane 0) row (digit row 2),
      null_place,
      s.lanebyplaceorder,
    )

-- The comparison: the lanes, reset for a null time, and `array_match`.
unfoldable pub compare_place : Lanes → ℕ → Text → Text → Lanes × Bool
compare_place s lane shortdata place =
    if same shortdata (c_string (get_or s.heat_data (lane - 1) []))
    then (s, same place (c_string (get_or s.place_data (lane - 1) [])) || same place null_place)
    else (
      (if same shortdata null_short_data then reset_time_and_place s lane else s),
      same shortdata null_short_data && not (same place null_place),
    )

-- The message for the first place, sent when lane 2 is cleared.
unfoldable pub first_place : List ℕ → Bool → ℕ → Row → List Text
first_place order active lane row =
    if lane == 2 && not (has_place row)
    then send_lane_data active (place_message (get_or order 1 0) row (digit row 2))
    else []

unfoldable pub get_place_time : Places → Bool → ℕ → Row → Places × List Text
unfolding name_place compare_place first_place
get_place_time s active lane row =
    let (message, place, order) = name_place s lane row in
    let (t, matches) = compare_place s.lanes lane (short_data row) place in
    if is_odd_row row || matches then (record { lanes = t; lanebyplaceorder = order }, []) else (
      record { lanes = store_lane t lane (short_data row) place; lanebyplaceorder = order },
      send_lane_data active message ++ first_place order active lane row,
    )
