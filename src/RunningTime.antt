-- ===== src/RunningTime.antt =====
-- serialconnect/analyseRunningTime.cpp: the running time, sent every so many rows of its channel,
-- and the state that decides whether lane results are sent. The texts that a function returns are
-- its calls of mqtt_send.
pub mod Cadence
pub mod Arming
pub mod Sampled
use serial.Base.{ℕ, ◌+◌, ◌*◌, Bool, true, false, not, List, [], ◌∷◌, ◌++◌, ltb, if◌then◌else◌}
use serial.Text.{Text, codes, decimal}
use serial.Helper.{Row, digit}

pub record RunningTime : Type 0 where
  pub loopcount : ℕ
  pub send_active_state : Bool
  pub header_change : Bool

abbrev pub inactive_time_after_start : ℕ
inactive_time_after_start = 200

abbrev pub send_time_every_counts : ℕ
send_time_every_counts = 20

unfoldable pub init_running_time : RunningTime
init_running_time = record { loopcount = 0; send_active_state = false; header_change = false }

-- The time of a row in hundredths of a second; the row has no digit for the hundredths.
unfoldable pub hundredths : Row → ℕ
hundredths row =
    let minutes = digit row 4 * 10 + digit row 6 in
    let seconds = digit row 8 * 10 + digit row 10 in
    (minutes * 60 + seconds) * 100 + digit row 12 * 10

-- `timehundredth`: its effect on the state, and its result.
unfoldable pub time_hundredth : RunningTime → Row → RunningTime × ℕ
time_hundredth s row =
    let time = hundredths row in
    let armed = if ltb inactive_time_after_start time then true else s.send_active_state in
    let paused = if ltb time inactive_time_after_start then false else armed in
    (record s { send_active_state = paused }, time)

unfoldable pub time_text : Row → Text
time_text row =
    codes "time "
    ++ decimal (digit row 4)
    ++ decimal (digit row 6)
    ++ codes ":"
    ++ decimal (digit row 8)
    ++ decimal (digit row 10)
    ++ codes ","
    ++ decimal (digit row 12)

-- `if (!headerChange) timehundredth(data)`: a header change is waited out once.
unfoldable pub judge : RunningTime → Row → RunningTime
unfolding time_hundredth
judge s row = if s.header_change then s else (time_hundredth s row).0

unfoldable pub get_time : RunningTime → Row → RunningTime × List Text
unfolding judge
get_time s row =
    if ltb send_time_every_counts s.loopcount
    then (record (judge s row) { header_change = false; loopcount = 1 }, time_text row ∷ [])
    else (record s { loopcount = s.loopcount + 1 }, [])

abbrev pub get_send_active_state : RunningTime → Bool
get_send_active_state s = s.send_active_state

unfoldable pub set_send_active_state_off : RunningTime → RunningTime
set_send_active_state_off s = record s { send_active_state = false; header_change = true }

-- The rows of the time channel, one after the other.
unfoldable pub get_times : RunningTime → List Row → RunningTime × List Text
get_times s [] = (s, [])
get_times s (row ∷ rows) =
    let (t, sent) = get_time s row in let (u, later) = get_times t rows in (u, sent ++ later)
