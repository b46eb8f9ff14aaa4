-- ===== src/Lane/Refine.antt =====
-- analyseLane.cpp on its buffers against `slot_step` on a lane's slot.
use serial.Base.{ℕ, ◌≤◌, ◌≡◌, ◌≢◌, Bool, false, ◌&&◌, [], ◌∷◌, arith, length, if◌then◌else◌}
use serial.Text.Buffer.{HasNoNul}
use serial.Text.Decimal.{decimal-HasNoNul, length-decimal_le}
use serial.Helper.{Row, digit, digit-le, digits_text-HasNoNul}
use serial.Lane.{
  Lanes, null_short_data, null_place, reset_time_and_place, store_lane, short_data, place_text,
  lane_text, is_odd_row, send_lane_data, compare_stored, lane_matches, get_lane_time,
}
use serial.Lane.Valid.{IsValid}
use serial.Lane.Slot.{
  slot, slot_step, slot-store_lane, slot-store_lane_ne, slot-reset_time_and_place,
  slot-reset_time_and_place_ne, reset_time_and_place_count,
}

-- No digit is above 10, so the test `checkBitValue(data[14]) == 13` never holds.
pub is_odd_row-false : (row : Row) → is_odd_row row ≡ false
unfolding is_odd_row
is_odd_row-false row = ground (arith, digit-le row 14)

pub short_data-HasNoNul : (row : Row) → HasNoNul (short_data row)
unfolding short_data
short_data-HasNoNul row = digits_text-HasNoNul row _

place_text_lem : (row : Row) → HasNoNul (place_text row) × (length (place_text row) ≤ 2)
unfolding place_text
place_text_lem row =
    (decimal-HasNoNul (digit row 2), length-decimal_le (digit row 2) (digit-le row 2))

module _ (s : Lanes) (v : IsValid s) (active : Bool) (lane : ℕ) (first : 1 ≤ lane)
    (last : lane ≤ s.lane_count) (row : Row) where
  -- With valid buffers and a lane among those counted, `getLaneTime` leaves in the lane's buffers
  -- what the step on two texts makes of them, and sends the lane's message exactly if that step
  -- reports the row and the state is active.
  pub get_lane_time-slot_step :
      (slot (get_lane_time s active lane row).0 lane
        ≡ (slot_step (slot s lane) (short_data row) (place_text row)).0)
      × ((get_lane_time s active lane row).1 ≡ (
          if (slot_step (slot s lane) (short_data row) (place_text row)).1 && active
          then lane_text lane row ∷ []
          else []))
  unfolding get_lane_time slot_step send_lane_data lane_matches null_short_data null_place
  get_lane_time-slot_step = ground (
    arith,
    is_odd_row-false row,
    slot-reset_time_and_place s v lane first last,
    slot-store_lane s v lane first last (short_data row) (place_text row) (short_data-HasNoNul row)
        (place_text_lem row).0 (place_text_lem row).1,
  )

-- A row of one lane leaves what is stored of another.
pub slot-get_lane_time_ne :
    (s : Lanes) (active : Bool) (lane other : ℕ) (row : Row)
    → 1 ≤ lane
    → 1 ≤ other
    → other ≢ lane
    → slot (get_lane_time s active lane row).0 other ≡ slot s other
unfolding get_lane_time compare_stored lane_matches
slot-get_lane_time_ne s active lane other row first too apart = ground (
  arith,
  slot-reset_time_and_place_ne s lane other first too apart,
  slot-store_lane_ne s lane other first too apart (short_data row) (place_text row),
  slot-store_lane_ne (reset_time_and_place s lane) lane other first too apart (short_data row)
      (place_text row),
)

pub get_lane_time_count :
    (s : Lanes) (active : Bool) (lane : ℕ) (row : Row)
    → (get_lane_time s active lane row).0.lane_count ≡ s.lane_count
unfolding get_lane_time compare_stored lane_matches store_lane
get_lane_time_count s active lane row = ground (arith, reset_time_and_place_count s lane)
