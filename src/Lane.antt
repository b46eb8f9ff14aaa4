-- ===== src/Lane.antt =====
-- serialconnect/analyseLane.cpp: the last time and place of each lane, and the lane messages. The
-- texts that a function returns are its calls of mqtt_send; orderbyplace is not defined.
pub mod Valid
pub mod Ended
pub mod Slot
pub mod Refine
pub mod Repeat
pub mod Once
pub mod Start
use serial.Base.{
  ℕ, zero, suc, ◌+◌, ◌-◌, Bool, true, false, not, ◌&&◌, ◌||◌, List, [], ◌∷◌, ◌++◌, ◌==◌,
  if◌then◌else◌, get_or, set, take,
}
use serial.Text.{Text, codes, decimal, same, c_string, strncpy}
use serial.Helper.{Row, digit, digits_text, get_null_bit}

pub record Lanes : Type 0 where
  pub lane_count : ℕ
  pub heat_data : List (List ℕ)
  pub place_data : List (List ℕ)

-- sprintf(setshortdata, "%d%d%d%d%d%d", getNullBit(), …) and sprintf(nullplace, "%d", …).
unfoldable pub null_short_data : Text
null_short_data = codes "000000"

unfoldable pub null_place : Text
null_place = codes "0"

pub reset_buffers : Lanes → ℕ → Lanes
reset_buffers s i = record s {
  place_data = set s.place_data i (strncpy (get_or s.place_data i []) null_place 3);
  heat_data = set s.heat_data i (strncpy (get_or s.heat_data i []) null_short_data 8);
}

-- `resetTimeAndPlace`: lane 0 is only reported on the console.
unfoldable pub reset_time_and_place : Lanes → ℕ → Lanes
unfolding reset_buffers
reset_time_and_place s lane = if lane == 0 then s else reset_buffers s (lane - 1)

-- The loop of `resetAllData` with n rounds left, from clearnr on.
unfoldable pub reset_from : ℕ → ℕ → Lanes → Lanes
reset_from zero clearnr s = s
reset_from (suc n) clearnr s = reset_from n (clearnr + 1) (reset_time_and_place s (clearnr + 1))

unfoldable pub reset_all_data : Lanes → Lanes
unfolding reset_from
reset_all_data s = reset_from s.lane_count 0 s

-- malloc'ed buffers of 18 and 10 bytes, whose bytes are what memory holds.
pub record Memory : Type 0 where
  pub heat : ℕ → ℕ → ℕ
  pub place : ℕ → ℕ → ℕ

-- malloc(size) at the given contents.
pub malloc : (ℕ → ℕ) → ℕ → List ℕ
malloc junk zero = []
malloc junk (suc n) = junk n ∷ malloc junk n

unfoldable pub init_buffers : (ℕ → ℕ → ℕ) → ℕ → Text → ℕ → ℕ → List (List ℕ)
unfolding malloc
init_buffers junk size text count zero = []
init_buffers junk size text count (suc n) =
    strncpy (malloc (junk n) size) text count ∷ init_buffers junk size text count n

unfoldable pub init_analyse_lane : Memory → ℕ → Lanes
unfolding init_buffers
init_analyse_lane memory lane_count = record {
  lane_count = lane_count;
  heat_data = init_buffers memory.heat 18 null_short_data 12 lane_count;
  place_data = init_buffers memory.place 10 null_place 3 lane_count;
}

-- The time of a row, with its two digits of hundredths.
unfoldable pub short_data : Row → Text
short_data row = digits_text row (4 ∷ 6 ∷ 8 ∷ 10 ∷ 12 ∷ 14 ∷ [])

unfoldable pub place_text : Row → Text
place_text row = decimal (digit row 2)

unfoldable pub lane_text : ℕ → Row → Text
lane_text lane row =
    codes "lane "
    ++ decimal lane
    ++ codes " "
    ++ digits_text row (4 ∷ 6 ∷ [])
    ++ codes ":"
    ++ digits_text row (8 ∷ 10 ∷ [])
    ++ codes ","
    ++ digits_text row (12 ∷ 14 ∷ [])
    ++ codes " "
    ++ decimal (digit row 2)

-- `sendLaneData`; the flag is `getsendActiveState()`.
unfoldable pub send_lane_data : Bool → Text → List Text
send_lane_data active message = if active then message ∷ [] else []

-- The comparison with what is stored: the lanes, reset for a null time, and `array_match`.
unfoldable pub compare_stored : Lanes → ℕ → Text → Text → Lanes × Bool
compare_stored s lane shortdata place =
    if same shortdata (c_string (get_or s.heat_data (lane - 1) []))
    then (s, same place (c_string (get_or s.place_data (lane - 1) [])) || same place null_place)
    else if same shortdata null_short_data
    then (reset_time_and_place s lane, true)
    else (s, false)

-- The strncpy of a lane's new time and place.
unfoldable pub store_lane : Lanes → ℕ → Text → Text → Lanes
store_lane s lane shortdata place = record s {
  heat_data = set s.heat_data (lane - 1) (strncpy (get_or s.heat_data (lane - 1) []) shortdata 8);
  place_data = set s.place_data (lane - 1) (strncpy (get_or s.place_data (lane - 1) []) place 3);
}

-- The test behind the comment `???`.
unfoldable pub is_odd_row : Row → Bool
is_odd_row row = digit row 2 == 0 && digit row 14 == 13

-- `array_match` when the code reaches `if (!array_match)`.
unfoldable pub lane_matches : Lanes → ℕ → Row → Bool
unfolding is_odd_row compare_stored
lane_matches s lane row =
    if is_odd_row row then true else (compare_stored s lane (short_data row) (place_text row)).1

unfoldable pub get_lane_time : Lanes → Bool → ℕ → Row → Lanes × List Text
get_lane_time s active lane row =
    let t = (compare_stored s lane (short_data row) (place_text row)).0 in
    if lane_matches s lane row then (t, []) else (
      store_lane t lane (short_data row) (place_text row),
      send_lane_data active (lane_text lane row),
    )

-- `analyseActiveData`, with debug not defined.
unfoldable pub analyse_active_data : Lanes → Bool → ℕ → Row → Lanes × List Text
unfolding get_lane_time
analyse_active_data s active channel row = get_lane_time s active channel row
