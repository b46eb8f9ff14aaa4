-- ===== src/PlaceOrder/Refine.antt =====
-- The code with its buffers against a step on a lane's two texts.
use serial.Base.{
  Bool-cases, inl, inr, ℕ, ◌-◌, ◌≤◌, ◌≡◌, Bool, true, false, not, ◌&&◌, ◌||◌, List, [], ◌∷◌, arith,
  length, get_or, set, take, ◌==◌, if◌then◌else◌,
}
use serial.Text.{Text, codes, decimal, same, c_string}
use serial.Text.Buffer.{HasNoNul}
use serial.Text.Decimal.{decimal-HasNoNul, length-decimal_le}
use serial.Helper.{Row, digit}
use serial.Lane.{
  Lanes, is_odd_row, store_lane, reset_time_and_place, null_short_data, null_place, short_data,
  send_lane_data,
}
use serial.Lane.Valid.{IsValid, store_lane-IsValid, reset_time_and_place-IsValid}
use serial.Lane.Slot.{
  Slot, slot, null_slot, slot-store_lane, slot-reset_time_and_place, reset_time_and_place_count,
}
use serial.Lane.Refine.{is_odd_row-false, short_data-HasNoNul}
use serial.PlaceOrder.{Places, has_place, place_message, name_place, compare_place, get_place_time}

-- The place that is stored: the lane's number, or 0 without a place.
abbrev pub order_place : ℕ → Row → Text
order_place lane row = if has_place row then decimal lane else codes "0"

-- A row is reported if its time is new and not zero, if its time is new and it has no place, or if
-- its time is stored with another place and it has one.
unfoldable pub order_step : Slot → Text → Text → Slot × Bool
order_step s t p =
    if same t s.time
    then (if same p s.place || same p (codes "0")
        then (s, false)
        else (record { time = take 8 t; place = p }, true))
    else if same t (codes "000000") && not (same p (codes "0"))
    then (null_slot, false)
    else (record { time = take 8 t; place = p }, true)

-- The message of a row, and the one behind it when lane 2 is cleared.
abbrev pub order_messages : List ℕ → ℕ → Row → List Text
order_messages order lane row =
    if has_place row
    then place_message (digit row 2) row lane ∷ []
    else place_message (get_or order lane 0) row (digit row 2)
      ∷ (if lane == 2 then place_message (get_or order 1 0) row (digit row 2) ∷ [] else [])

order_place_lem :
    (lane : ℕ) (row : Row)
    → lane ≤ 10
    → HasNoNul (order_place lane row) × (length (order_place lane row) ≤ 2)
order_place_lem lane row h = elim (Bool-cases (has_place row)) [
  | inl e ↦ rw e (decimal-HasNoNul lane, length-decimal_le lane h)
  | inr e ↦ rw e (grind arith, omega arith)
]

module _ (s : Places) (v : IsValid s.lanes) (active : Bool) (lane : ℕ) (first : 1 ≤ lane)
    (last : lane ≤ s.lanes.lane_count) (ten : lane ≤ 10) (row : Row) where
  -- The two ways in which the row's time and place come into the buffers.
  stored :
      (slot (store_lane s.lanes lane (short_data row) (order_place lane row)) lane
        ≡ record { time = take 8 (short_data row); place = order_place lane row })
      × (slot
            (store_lane
              (reset_time_and_place s.lanes lane)
              lane
              (short_data row)
              (order_place lane row))
            lane
          ≡ record { time = take 8 (short_data row); place = order_place lane row })
  stored =
      let (plain, short) = order_place_lem lane row ten in
      let time = short_data-HasNoNul row in
      let valid = reset_time_and_place-IsValid s.lanes lane v in
      let counted = reset_time_and_place_count s.lanes lane in
      (
        slot-store_lane s.lanes v lane first last (short_data row) (order_place lane row) time plain
            short,
        slot-store_lane (reset_time_and_place s.lanes lane) valid lane first (omega arith)
            (short_data row) (order_place lane row) time plain short,
      )

  -- With orderbyplace, valid buffers and a lane among those counted and of at most ten,
  -- `getLaneTime` leaves in the lane's buffers what the step on two texts makes of them, sends the
  -- row's messages exactly if that step reports the row and the state is active, and sets the
  -- lane's element of lanebyplaceorder exactly if the row has a place.
  pub get_place_time-order_step :
      let (t, reported) = order_step (slot s.lanes lane) (short_data row) (order_place lane row) in
      (slot (get_place_time s active lane row).0.lanes lane ≡ t)
      × ((get_place_time s active lane row).1
          ≡ (if reported && active then order_messages s.lanebyplaceorder lane row else []))
      × ((get_place_time s active lane row).0.lanebyplaceorder ≡ (
          if has_place row then set s.lanebyplaceorder lane (digit row 2) else s.lanebyplaceorder))
  unfolding get_place_time order_step send_lane_data null_short_data null_place
  get_place_time-order_step =
      ground
        (arith, is_odd_row-false row, slot-reset_time_and_place s.lanes v lane first last, stored)

compare_place-IsValid :
    (s : Lanes) (lane : ℕ) (t p : Text) → IsValid s → IsValid (compare_place s lane t p).0
unfolding compare_place
compare_place-IsValid s lane t p v =
    elim (Bool-cases (same t (c_string (get_or s.heat_data (lane - 1) [])))) [
      | inl e ↦ rw e v
      | inr e ↦ elim (Bool-cases (same t null_short_data)) [
        | inl f ↦ rw (e, f) (reset_time_and_place-IsValid s lane v)
        | inr f ↦ rw (e, f) v
      ]
    ]

-- A lane's row keeps the buffers well formed, whatever it holds.
pub get_place_time-IsValid :
    (s : Places) (active : Bool) (lane : ℕ) (row : Row)
    → IsValid s.lanes
    → IsValid (get_place_time s active lane row).0.lanes
unfolding get_place_time
get_place_time-IsValid s active lane row v =
    let p = (name_place s lane row).1 in
    let (t, matches) = compare_place s.lanes lane (short_data row) p in
    let kept = compare_place-IsValid s.lanes lane (short_data row) p v in
    elim (Bool-cases (is_odd_row row || matches)) [
      | inl e ↦ rw e kept
      | inr e ↦ rw e (store_lane-IsValid t lane (short_data row) p kept)
    ]

pub get_place_time_count :
    (s : Places) (active : Bool) (lane : ℕ) (row : Row)
    → (get_place_time s active lane row).0.lanes.lane_count ≡ s.lanes.lane_count
unfolding get_place_time store_lane
get_place_time_count s active lane row = ground (arith, reset_time_and_place_count s.lanes lane)
