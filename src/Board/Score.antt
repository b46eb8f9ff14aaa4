-- ===== src/Board/Score.antt =====
-- The scoreboard as it is meant: what the analysers remember, with no buffers. The running time is the
-- record that the code keeps.
use serial.Base.{ℕ, ◌+◌, not, ◌&&◌, ◌||◌, List, [], ◌∷◌, ◌++◌, ltb, ◌==◌, if◌then◌else◌}
use serial.Text.{Text, same}
use serial.Helper.{Row}
use serial.RunningTime.{RunningTime, get_time, set_send_active_state_off}
use serial.StartStop.{any_digit, time_indices}
use serial.StartStop.Machine.{Race, race_step}
use serial.Lane.{short_data, place_text, lane_text}
use serial.Lane.Slot.{Slot, slot_step, null_slot}
use serial.Header.{header_text, null_header}
use serial.Rounds.{rounds_text, null_rounds, round_text}

-- The race, the running time, the time and place of each lane, the header, and the rounds with their
-- number.
pub record Score : Type 0 where
  pub race : Race
  pub time : RunningTime
  pub slots : ℕ → Slot
  pub header : Text
  pub rounds : Text
  pub round : ℕ

abbrev pub put : (ℕ → Slot) → ℕ → Slot → ℕ → Slot
put slots lane k l = if l == lane then k else slots l

abbrev pub emptied : List Text → (ℕ → Slot) → ℕ → Slot
emptied [] slots = slots
emptied (m ∷ ms) slots = λ l. null_slot

unfoldable pub score_lane : Score → ℕ → Row → Score × List Text
score_lane sc lane row =
    let (k, reported) = slot_step (sc.slots lane) (short_data row) (place_text row) in
    (
      record sc { slots = put sc.slots lane k },
      if reported && sc.time.send_active_state then lane_text lane row ∷ [] else [],
    )

unfoldable pub score_time : Score → Row → Score × List Text
score_time sc row =
    let (race, told) = race_step sc.race (any_digit row time_indices) in
    let (time, sent) = get_time sc.time row in
    (record sc { race = race; time = time; slots = emptied told sc.slots }, told ++ sent)

unfoldable pub score_header : Score → Row → Score × List Text
score_header sc row =
    if same (header_text row) null_header || same (header_text row) sc.header then (sc, []) else (
      record sc {
        header = header_text row;
        slots = λ l. null_slot;
        time = set_send_active_state_off sc.time;
      },
      header_text row ∷ header_text row ∷ [],
    )

unfoldable pub score_rounds : Score → Row → Score × List Text
score_rounds sc row =
    let known = same (rounds_text row) sc.rounds in
    let n =
      if same (rounds_text row) null_rounds then 0 else if known then sc.round else sc.round + 1 in
    (record sc { rounds = rounds_text row; round = n }, if known then [] else round_text n ∷ [])

-- A row of a channel: the lanes are 1 to 10, the running time is 0, the header 12 and the rounds 18.
unfoldable pub score_step : Score → ℕ → Row → Score × List Text
score_step sc channel row =
    if not (channel == 0) && ltb channel 11
    then score_lane sc channel row
    else if channel == 0
    then score_time sc row
    else if channel == 12
    then score_header sc row
    else if channel == 18
    then score_rounds sc row
    else (sc, [])

unfoldable pub score_run : Score → List (ℕ × Row) → List Text
score_run sc [] = []
score_run sc ((channel, row) ∷ rows) =
    let (next, sent) = score_step sc channel row in sent ++ score_run next rows
