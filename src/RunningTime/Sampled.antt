-- ===== src/RunningTime/Sampled.antt =====
-- The running time against every 21st row of its channel.
use serial.Base.{
  ℕ, zero, suc, ◌+◌, ◌<◌, ◌≡◌, refl, ap, ◌∙◌, Bool, true, false, List, [], ◌∷◌, ◌++◌, arith, ltb,
  if◌then◌else◌, Bool-cases, inl, inr,
}
use serial.Text.{Text}
use serial.Helper.{Row}
use serial.RunningTime.{
  RunningTime, hundredths, time_hundredth, time_text, judge, get_time, get_times,
}

-- The row behind k others, and from there on every 21st.
abbrev pub sampled : ℕ → List Row → List Row
sampled k [] = []
sampled zero (row ∷ rows) = row ∷ sampled 20 rows
sampled (suc k) (row ∷ rows) = sampled k rows

abbrev pub time_texts : List Row → List Text
time_texts [] = []
time_texts (row ∷ rows) = time_text row ∷ time_texts rows

-- Whether results are let through behind some rows: above two seconds they are, below they are not.
abbrev pub active_after : Bool → List Row → Bool
active_after active [] = active
active_after active (row ∷ rows) =
    active_after
      (if ltb 200 (hundredths row)
        then true
        else if ltb (hundredths row) 200
        then false
        else active)
      rows

-- A header change is waited out with the first of the rows.
abbrev pub judged : Bool → List Row → List Row
judged header_change [] = []
judged header_change (row ∷ rows) = if header_change then rows else row ∷ rows

-- A row that is sent, and one that is not.
get_time_sent :
    (s : RunningTime) (row : Row)
    → s.loopcount ≡ 21
    → get_time s row
      ≡ (record (judge s row) { header_change = false; loopcount = 1 }, time_text row ∷ [])
unfolding get_time
get_time_sent s row h = rw (h, get_time) refl

get_time_kept :
    (s : RunningTime) (row : Row)
    → s.loopcount < 21
    → get_time s row ≡ (record s { loopcount = s.loopcount + 1 }, [])
unfolding get_time
get_time_kept s row h = ground arith

-- The two tests of timehundredth.
hysteresis :
    (s : RunningTime) (row : Row)
    → (time_hundredth s row).0.send_active_state ≡ (
        if ltb 200 (hundredths row)
        then true
        else if ltb (hundredths row) 200
        then false
        else s.send_active_state)
unfolding time_hundredth
hysteresis s row = ground arith

judged_none : (rows : List Row) → judged false rows ≡ rows
judged_none [] = refl
judged_none (row ∷ rows) = refl

-- What a row that is sent makes of the state, once those behind it have been read.
judge_active :
    (s : RunningTime) (row : Row) (rows : List Row)
    → active_after (judge s row).send_active_state (judged false rows)
      ≡ active_after s.send_active_state (judged s.header_change (row ∷ rows))
unfolding judge time_hundredth
judge_active s row rows = elim (Bool-cases s.header_change) [
  | inl e ↦ rw e (ap (active_after s.send_active_state) (judged_none rows))
  | inr e ↦ rw e (
      ap (λ b. active_after b (judged false rows)) (hysteresis s row)
      ∙ ap (active_after _) (judged_none rows))
]

-- From a count that is k short of 21, the rows of the time channel send the times of exactly the
-- row behind the next k and of every 21st row from there on; and the state in which they leave the
-- lanes' results is what those rows alone make of it: active above 200 hundredths, not active
-- below, kept at 200, where the first of them is passed over if a header change was waiting.
pub get_times-sampled :
    (k : ℕ) (s : RunningTime) (rows : List Row)
    → s.loopcount + k ≡ 21
    → ((get_times s rows).1 ≡ time_texts (sampled k rows))
      × ((get_times s rows).0.send_active_state
          ≡ active_after s.send_active_state (judged s.header_change (sampled k rows)))
unfolding get_times
get_times-sampled k s [] h = (refl, refl)
get_times-sampled zero s (row ∷ rows) h =
    let t : RunningTime = record (judge s row) { header_change = false; loopcount = 1 } in
    let sent = get_time_sent s row (omega arith) in
    let (texts, active) = get_times-sampled 20 t rows refl in
    (
      ap (λ r. r.1 ++ (get_times r.0 rows).1) sent ∙ ap (λ m. time_text row ∷ m) texts,
      ap (λ r. (get_times r.0 rows).0.send_active_state) sent
          ∙ active
          ∙ judge_active s row (sampled 20 rows),
    )
get_times-sampled (suc k) s (row ∷ rows) h =
    let t : RunningTime = record s { loopcount = s.loopcount + 1 } in
    let kept = get_time_kept s row (omega arith) in
    let (texts, active) = get_times-sampled k t rows (omega arith) in
    (
      ap (λ r. r.1 ++ (get_times r.0 rows).1) kept ∙ texts,
      ap (λ r. (get_times r.0 rows).0.send_active_state) kept ∙ active,
    )
