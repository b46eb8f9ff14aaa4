-- ===== src/StartStop/Debounce.antt =====
-- How fast a start and a stop are told.
use serial.Base.{
  ◌+◌, ◌<◌, ◌≡◌, refl, true, false, ◌⊎◌, inl, inr, List, [], ◌∷◌, arith, length, if◌then◌else◌, ltb,
  All,
}
use serial.Helper.{Row}
use serial.Lane.{Lanes, reset_all_data}
use serial.StartStop.{
  StartStop, start_text, stop_text, any_digit, time_indices, check_start_stop, check_rows,
}
use serial.StartStop.Alternate.{IsSteady, check_start_stop-IsSteady}

-- No digit of the row says that the clock runs.
abbrev pub IsBlank : Row → Type 0
IsBlank row = any_digit row time_indices ≡ false

-- While the race does not run and its flags agree, the first row with a digit sends a start and
-- nothing else, and clears the lanes.
pub start_at_once :
    (s : StartStop) (lanes : Lanes) (row : Row)
    → IsSteady s
    → s.b_stopping ≡ false
    → any_digit row time_indices ≡ true
    → ((check_start_stop s lanes row).2 ≡ start_text ∷ [])
      × ((check_start_stop s lanes row).1 ≡ reset_all_data lanes)
unfolding check_start_stop
start_at_once s lanes row v stopped seen = ground arith

idle_row :
    (s : StartStop) (lanes : Lanes) (row : Row)
    → IsSteady s
    → s.b_stopping ≡ false
    → IsBlank row
    → let (t, last, sent) = check_start_stop s lanes row in
      (t.b_stopping ≡ false) × (last ≡ lanes) × (sent ≡ [])
unfolding check_start_stop
idle_row s lanes row v stopped blank = ground arith

running_row :
    (s : StartStop) (lanes : Lanes) (row : Row)
    → IsSteady s
    → s.b_stopping ≡ true
    → IsBlank row
    → let (t, last, sent) = check_start_stop s lanes row in
      ((s.noworking < 5) × (t.b_stopping ≡ true) × (t.noworking ≡ s.noworking + 1) × (sent ≡ []))
      ⊎ ((s.noworking ≡ 5) × (t.b_stopping ≡ false) × (sent ≡ stop_text ∷ []))
unfolding check_start_stop
running_row s lanes row v running blank = ground arith

idle_rows :
    (s : StartStop) (lanes : Lanes) (rows : List Row)
    → IsSteady s
    → s.b_stopping ≡ false
    → All IsBlank rows
    → (check_rows s lanes rows).2 ≡ []
unfolding check_rows
idle_rows s lanes [] v stopped blank = refl
idle_rows s lanes (row ∷ rows) v stopped blank =
    let (still, same, quiet) = idle_row s lanes row v stopped blank.0 in
    rw quiet (
      idle_rows (check_start_stop s lanes row).0 (check_start_stop s lanes row).1 rows
        (check_start_stop-IsSteady s lanes row v) still blank.1)

-- While the race runs and its flags agree, blank rows tell one stop in all if their number brings
-- the counter past five, and nothing if it does not.
pub stop_delay :
    (s : StartStop) (lanes : Lanes) (rows : List Row)
    → IsSteady s
    → s.b_stopping ≡ true
    → All IsBlank rows
    → (check_rows s lanes rows).2
      ≡ (if ltb 5 (s.noworking + length rows) then stop_text ∷ [] else [])
unfolding check_rows
stop_delay s lanes [] v running blank = ground (arith, v.counted)
stop_delay s lanes (row ∷ rows) v running blank =
    let t = (check_start_stop s lanes row).0 in
    let reset = (check_start_stop s lanes row).1 in
    let steady = check_start_stop-IsSteady s lanes row v in
    elim (running_row s lanes row v running blank.0) [
      | inl (low, still, count, quiet) ↦
          rw quiet (ground (arith, stop_delay t reset rows steady still blank.1))
      | inr (full, stopped, told) ↦
          rw (told, idle_rows t reset rows steady stopped blank.1) (ground arith)
    ]
