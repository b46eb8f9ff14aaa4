-- ===== src/RunningTime/Arming.antt =====
-- When lane results are let through: the state that `timehundredth` and a new header set.
use serial.Base.{
  ◌≤◌, ◌<◌, ◌≡◌, refl, true, false, List, [], ◌∷◌, ◌⊎◌, inl, inr, ◌∙◌, arith, length, length-append,
}
use serial.Helper.{Row}
use serial.RunningTime.{
  RunningTime, hundredths, time_hundredth, get_time, get_times, set_send_active_state_off,
}

-- Above 200 hundredths the state is active, below it is not, and at 200 it stays as it was.
pub time_hundredth_hysteresis :
    (s : RunningTime) (row : Row)
    → (200 < hundredths row → (time_hundredth s row).0.send_active_state ≡ true)
      × (hundredths row < 200 → (time_hundredth s row).0.send_active_state ≡ false)
      × (hundredths row ≡ 200 → (time_hundredth s row).0.send_active_state ≡ s.send_active_state)
unfolding time_hundredth
time_hundredth_hysteresis s row = (λ h. ground arith, λ h. ground arith, λ h. ground arith)

-- A row that sends nothing leaves both flags.
get_time_quiet :
    (s : RunningTime) (row : Row)
    → length (get_time s row).1 ≡ 0
    → ((get_time s row).0.send_active_state ≡ s.send_active_state)
      × ((get_time s row).0.header_change ≡ s.header_change)
unfolding get_time
get_time_quiet s row h = ground arith

get_times_quiet :
    (s : RunningTime) (rows : List Row)
    → length (get_times s rows).1 ≡ 0
    → (get_times s rows).0.send_active_state ≡ s.send_active_state
unfolding get_times
get_times_quiet s [] h = refl
get_times_quiet s (row ∷ rows) h =
    let (t, sent) = get_time s row in
    let cut = length-append sent (get_times t rows).1 in
    ground (arith, get_time_quiet s row (omega arith), get_times_quiet t rows (omega arith))

-- While a header change waits, a row keeps the lane results held back; the first one sent clears
-- the change.
get_time_waits :
    (s : RunningTime) (row : Row)
    → s.header_change ≡ true
    → s.send_active_state ≡ false
    → ((get_time s row).0.send_active_state ≡ false)
      × (((get_time s row).0.header_change ≡ true) ⊎ (length (get_time s row).1 ≡ 1))
unfolding get_time
get_time_waits s row h a = ground arith

get_times_waits :
    (s : RunningTime) (rows : List Row)
    → s.header_change ≡ true
    → s.send_active_state ≡ false
    → length (get_times s rows).1 ≤ 1
    → (get_times s rows).0.send_active_state ≡ false
unfolding get_times
get_times_waits s [] h a n = a
get_times_waits s (row ∷ rows) h a n =
    let t = (get_time s row).0 in
    let cut = length-append (get_time s row).1 (get_times t rows).1 in
    let (off, next) = get_time_waits s row h a in
    elim next [
      | inl still ↦ get_times_waits t rows still off (omega (arith, cut))
      | inr sent ↦ get_times_quiet t rows (omega (arith, cut, sent)) ∙ off
    ]

-- After a header change the state is not active as long as at most one running time has been sent,
-- whatever the rows hold.
pub header_change_holds :
    (s : RunningTime) (rows : List Row)
    → length (get_times (set_send_active_state_off s) rows).1 ≤ 1
    → (get_times (set_send_active_state_off s) rows).0.send_active_state ≡ false
unfolding set_send_active_state_off
header_change_holds s rows n =
    get_times_waits (record s { send_active_state = false; header_change = true }) rows refl refl n
