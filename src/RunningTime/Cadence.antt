-- ===== src/RunningTime/Cadence.antt =====
-- How often the running time is sent, and the range of its value.
use serial.Base.{◌+◌, ◌-◌, ◌*◌, ◌/◌, ◌≤◌, ◌<◌, ◌≡◌, List, [], ◌∷◌, arith, length, length-append}
use serial.Helper.{Row, digit-le}
use serial.RunningTime.{RunningTime, hundredths, get_time, get_times}

-- A call counts up by one; a row that is sent takes 21 off the count.
pub get_time_count :
    (s : RunningTime) (row : Row)
    → s.loopcount ≤ 21
    → (1 ≤ (get_time s row).0.loopcount)
      × ((get_time s row).0.loopcount ≤ 21)
      × (length (get_time s row).1 * 21 + (get_time s row).0.loopcount ≡ s.loopcount + 1)
unfolding get_time
get_time_count s row h = ground arith

-- From a count of at most 21, n rows send (n + count - 1) / 21 messages, rounded down: after the
-- first, a time is sent on every 21st row.
pub get_times_cadence :
    (s : RunningTime) (rows : List Row)
    → s.loopcount ≤ 21
    → length (get_times s rows).1 ≡ (length rows + s.loopcount - 1) / 21
unfolding get_times
get_times_cadence s [] h = omega arith
get_times_cadence s (row ∷ rows) h =
    let t = (get_time s row).0 in
    let (low, high, count) = get_time_count s row h in
    omega (
      arith,
      low,
      high,
      count,
      get_times_cadence t rows high,
      length-append (get_time s row).1 (get_times t rows).1,
    )

-- The value fits an int: below 673,000 hundredths, whatever the row holds.
pub hundredths_bound : (row : Row) → hundredths row < 673000
unfolding hundredths
hundredths_bound row =
    omega (arith, digit-le row 4, digit-le row 6, digit-le row 8, digit-le row 10, digit-le row 12)
