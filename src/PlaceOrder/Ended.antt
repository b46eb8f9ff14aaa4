-- ===== src/PlaceOrder/Ended.antt =====
-- The NUL behind a lane's place in its buffer, with orderbyplace.
use serial.Base.{Bool-cases, inl, inr, ℕ, ◌-◌, ◌≤◌, Bool, [], ◌||◌, length, get_or}
use serial.Text.{Text, same, c_string}
use serial.Text.Decimal.{length-decimal_le}
use serial.Helper.{Row}
use serial.Lane.{Lanes, is_odd_row, null_short_data, short_data}
use serial.Lane.Ended.{
  PlacesEnd, length-null_place, store_lane-PlacesEnd, reset_time_and_place-PlacesEnd,
}
use serial.PlaceOrder.{Places, has_place, name_place, compare_place, get_place_time}

length-name_place :
    (s : Places) (lane : ℕ) (row : Row) → lane ≤ 10 → length (name_place s lane row).1 ≤ 2
unfolding name_place
length-name_place s lane row last = elim (Bool-cases (has_place row)) [
  | inl e ↦ rw e (length-decimal_le lane last)
  | inr e ↦ rw e length-null_place
]

compare_place-PlacesEnd :
    (s : Lanes) (lane : ℕ) (t p : Text) → PlacesEnd s → PlacesEnd (compare_place s lane t p).0
unfolding compare_place
compare_place-PlacesEnd s lane t p h =
    elim (Bool-cases (same t (c_string (get_or s.heat_data (lane - 1) [])))) [
      | inl e ↦ rw e h
      | inr e ↦ elim (Bool-cases (same t null_short_data)) [
        | inl f ↦ rw (e, f) (reset_time_and_place-PlacesEnd s lane h)
        | inr f ↦ rw (e, f) h
      ]
    ]

-- A row of one of the ten lanes leaves a NUL behind each place, whatever it holds.
pub get_place_time-PlacesEnd :
    (s : Places) (active : Bool) (lane : ℕ) (row : Row)
    → lane ≤ 10
    → PlacesEnd s.lanes
    → PlacesEnd (get_place_time s active lane row).0.lanes
unfolding get_place_time
get_place_time-PlacesEnd s active lane row last h =
    let p = (name_place s lane row).1 in
    let (t, matches) = compare_place s.lanes lane (short_data row) p in
    let kept = compare_place-PlacesEnd s.lanes lane (short_data row) p h in
    elim (Bool-cases (is_odd_row row || matches)) [
      | inl e ↦ rw e kept
      | inr e ↦
          rw e (
            store_lane-PlacesEnd t lane (short_data row) p (length-name_place s lane row last) kept)
    ]
