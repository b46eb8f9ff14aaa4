-- ===== src/StartStop/Machine.antt =====
-- The start and the stop of a race as a machine with two states.
use serial.Base.{
  ℕ, ◌+◌, ◌≡◌, refl, ap, ◌∙◌, Bool, List, [], ◌∷◌, ◌++◌, arith, ltb, if◌then◌else◌, Bool-cases, inl,
  inr,
}
use mathlib.Core.Path.{ap₂}
use serial.Text.{Text}
use serial.Helper.{Row}
use serial.Lane.{Lanes, reset_all_data}
use serial.StartStop.{
  StartStop, start_text, stop_text, any_digit, time_indices, check_start_stop, check_rows,
}
use serial.StartStop.Alternate.{IsSteady, check_start_stop-IsSteady}

-- A race that runs, with the number of rows since one was looked at.
pub data Race : Type 0 where
  idle : Race
  running : ℕ → Race

-- While the race does not run every row is looked at, and one with a digit starts it. While it runs
-- every sixth row is looked at, and one without a digit stops it.
unfoldable pub race_step : Race → Bool → Race × List Text
race_step idle seen = if seen then (running 0, start_text ∷ []) else (idle, [])
race_step (running n) seen =
    if ltb n 5
    then (running (n + 1), [])
    else if seen
    then (running 0, [])
    else (idle, stop_text ∷ [])

abbrev pub cleared : List Text → Lanes → Lanes
cleared [] lanes = lanes
cleared (m ∷ ms) lanes = reset_all_data lanes

-- The messages over rows, and the lanes, which each message clears.
unfoldable pub race_run : Race → Lanes → List Row → Lanes × List Text
race_run r lanes [] = (lanes, [])
race_run r lanes (row ∷ rows) =
    let (next, told) = race_step r (any_digit row time_indices) in
    let (last, later) = race_run next (cleared told lanes) rows in (last, told ++ later)

abbrev pub race_of : StartStop → Race
race_of s = if s.b_stopping then running s.noworking else idle

pub check_start_stop-race_step :
    (s : StartStop) (lanes : Lanes) (row : Row)
    → IsSteady s
    → let (next, told) = race_step (race_of s) (any_digit row time_indices) in
      (race_of (check_start_stop s lanes row).0 ≡ next)
      × ((check_start_stop s lanes row).1 ≡ cleared told lanes)
      × ((check_start_stop s lanes row).2 ≡ told)
unfolding check_start_stop race_step
check_start_stop-race_step s lanes row v = elim (Bool-cases s.b_stopping) [
  | inl e ↦ (ground arith, ground arith, ground arith)
  | inr e ↦ (ground arith, ground arith, ground arith)
]

-- Where the flags agree, the rows of the time channel send what a machine with two states says, and
-- leave the lanes as it does: while the race does not run each row is looked at, and one with a
-- digit sends a start; while it runs every sixth row is looked at, whatever the five between hold,
-- and one without a digit sends a stop; each of these messages clears the lanes.
pub check_rows-race_run :
    (s : StartStop) (lanes : Lanes) (rows : List Row)
    → IsSteady s
    → ((check_rows s lanes rows).1 ≡ (race_run (race_of s) lanes rows).0)
      × ((check_rows s lanes rows).2 ≡ (race_run (race_of s) lanes rows).1)
unfolding check_rows race_run
check_rows-race_run s lanes [] v = (refl, refl)
check_rows-race_run s lanes (row ∷ rows) v =
    let (t, reset, sent) = check_start_stop s lanes row in
    let (next, told) = race_step (race_of s) (any_digit row time_indices) in
    let (state, emptied, same) = check_start_stop-race_step s lanes row v in
    let (last, later) =
      check_rows-race_run t reset rows (check_start_stop-IsSteady s lanes row v) in
    let along : race_run (race_of t) reset rows ≡ race_run next (cleared told lanes) rows =
      ap₂ (λ r l. race_run r l rows) state emptied in
    (
      last ∙ ap (λ p. p.0) along,
      ap (λ m. m ++ (check_rows t reset rows).2) same
          ∙ ap (λ m. told ++ m) (later ∙ ap (λ p. p.1) along),
    )
