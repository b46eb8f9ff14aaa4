-- ===== src/StartStop.antt =====
-- serialconnect/analyseStartStop.cpp: the start and the stop of a race, told from whether the
-- running time shows a digit, looked at on every sixth time row while the race runs.
pub mod Alternate
pub mod Debounce
pub mod Machine
use serial.Base.{
  ℕ, ◌+◌, Bool, true, false, not, ◌||◌, List, [], ◌∷◌, ◌++◌, ltb, ◌==◌, beq, if◌then◌else◌, get_or,
}
use serial.Text.{Text, codes}
use serial.Helper.{Row}
use serial.Lane.{Lanes, reset_all_data}

pub record StartStop : Type 0 where
  pub noworking : ℕ
  pub pending : Bool
  pub b_running : Bool
  pub b_stopping : Bool

-- The globals of the file have no initialiser, and are zero at the start of the program.
unfoldable pub globals : StartStop
globals = record { noworking = 0; pending = false; b_running = false; b_stopping = false }

-- The loop of `checknotnull` over the indices that are left: is there a digit that is not blank
-- and not 0?
unfoldable pub any_digit : Row → List ℕ → Bool
any_digit row [] = false
any_digit row (i ∷ is) =
    let rest = any_digit row is in
    if get_or row i 0 == 0x0F then rest else if ltb 0 (get_or row i 0) then true else rest

-- for (i = 12; i > 4; i = i - 2)
abbrev pub time_indices : List ℕ
time_indices = 12 ∷ 10 ∷ 8 ∷ 6 ∷ []

unfoldable pub check_not_null : StartStop → Row → StartStop × Bool
unfolding any_digit
check_not_null s row =
    let noworking = s.noworking + 1 in
    let seen = any_digit row time_indices in
    if ltb 5 noworking || not s.pending
    then (record s { noworking = 0; pending = seen }, seen)
    else (record s { noworking = noworking }, s.pending)

unfoldable pub start_text : Text
start_text = codes "start"

unfoldable pub stop_text : Text
stop_text = codes "stop"

unfoldable pub check_start_stop : StartStop → Lanes → Row → StartStop × Lanes × List Text
unfolding check_not_null
check_start_stop s lanes row =
    let (t, running) = check_not_null s row in
    let u = record t { b_running = running; b_stopping = running } in
    if beq s.b_stopping running
    then (u, lanes, [])
    else (u, reset_all_data lanes, (if running then start_text else stop_text) ∷ [])

-- The rows of the time channel, one after the other, with the messages sent.
unfoldable pub check_rows : StartStop → Lanes → List Row → StartStop × Lanes × List Text
check_rows s lanes [] = (s, lanes, [])
check_rows s lanes (row ∷ rows) =
    let (t, reset, sent) = check_start_stop s lanes row in
    let (u, last, later) = check_rows t reset rows in (u, last, sent ++ later)
