-- ===== src/Lane/Repeat.antt =====
-- Repeated rows of a lane, and the sizes of its messages.
use serial.Base.{
  ℕ, zero, suc, ◌+◌, ◌-◌, ◌≤◌, ◌<◌, ◌≡◌, ◌≢◌, ◌∙◌, Bool, true, false, List, [], ◌∷◌, arith, length,
  get_or, All-get_or, length-append,
}
use serial.Text.{Text, codes, c_string}
use serial.Text.Buffer.{same_iff, same-false, take_all}
use serial.Text.Decimal.{length-decimal_le}
use serial.Helper.{Row, digit, digit-le, digits_text_bounds}
use serial.Lane.{Lanes, short_data, place_text, lane_text, get_lane_time}
use serial.Lane.Valid.{IsValid, IsHeat, get_lane_time-IsValid}
use serial.Lane.Slot.{Slot, slot, slot_step, heat_in}
use serial.Lane.Refine.{get_lane_time-slot_step, get_lane_time_count}

-- A time of at most 8 characters other than zero is not reported twice in a row.
pub slot_step_repeat :
    (s : Slot) (t p : Text)
    → length t ≤ 8
    → t ≢ codes "000000"
    → (slot_step (slot_step s t p).0 t p).1 ≡ false
unfolding slot_step
slot_step_repeat s t p short ne = ground (
  arith,
  take_all 8 t short,
  same_iff t s.time,
  same_iff t t,
  same_iff p p,
  same_iff t (codes "000000"),
)

-- From the third on, no equal row with a time of at most 8 characters is reported.
pub slot_step_third :
    (s : Slot) (t p : Text)
    → length t ≤ 8
    → (slot_step (slot_step (slot_step s t p).0 t p).0 t p).1 ≡ false
unfolding slot_step
slot_step_third s t p short = ground (
  arith,
  take_all 8 t short,
  same_iff t s.time,
  same_iff t t,
  same_iff p p,
  same_iff t (codes "000000"),
)

-- A time of more than 8 characters is never equal to a stored one.
slot_step_long :
    (s : Slot) (t p : Text) → length s.time ≤ 8 → 8 < length t → (slot_step s t p).1 ≡ true
unfolding slot_step
slot_step_long s t p stored long = ground (
  arith,
  same-false t s.time (λ e. omega arith),
  same-false t (codes "000000") (λ e. omega arith),
)

c_string_bound : (buf : List ℕ) (n : ℕ) → get_or buf n 1 ≡ 0 → length (c_string buf) ≤ n
unfolding c_string
c_string_bound [] n h = omega arith
c_string_bound (b ∷ buf) zero h = ground arith
c_string_bound (b ∷ buf) (suc n) h = ground (arith, c_string_bound buf n h)

module _ (s : Lanes) (v : IsValid s) (lane : ℕ) (first : 1 ≤ lane) (last : lane ≤ s.lane_count)
    (row : Row) where
  -- With valid buffers and a lane among those counted, a row whose time is not zero and has at most
  -- 8 characters is not sent when it is read again, whether or not the state was active then or is
  -- active now: a result that was read while paused is not made up for.
  pub get_lane_time_repeat :
      (before now : Bool)
      → length (short_data row) ≤ 8
      → short_data row ≢ codes "000000"
      → (get_lane_time (get_lane_time s before lane row).0 now lane row).1 ≡ []
  get_lane_time_repeat before now short ne =
      let t = (get_lane_time s before lane row).0 in
      let counted = get_lane_time_count s before lane row in
      let valid = get_lane_time-IsValid s before lane row v in
      let once = (get_lane_time-slot_step s v before lane first last row).0 in
      let again = (get_lane_time-slot_step t valid now lane first (omega arith) row).1 in
      again ∙ rw (once, slot_step_repeat (slot s lane) (short_data row) (place_text row) short ne)

  -- With valid buffers and a lane among those counted, a row whose time takes more than 8
  -- characters is sent each time that it is read in the active state, because only 8 characters of
  -- it are stored.
  pub get_lane_time_long :
      8 < length (short_data row) → (get_lane_time s true lane row).1 ≡ lane_text lane row ∷ []
  get_lane_time_long long =
      let stored =
        c_string_bound (get_or s.heat_data (lane - 1) []) 8
          (All-get_or IsHeat s.heat_data (lane - 1) [] (heat_in s v lane first last) v.heat_ok).1 in
      (get_lane_time-slot_step s v true lane first last row).1
      ∙ rw (slot_step_long (slot s lane) (short_data row) (place_text row) stored long)

-- For a lane of at most ten, every sprintf of `getLaneTime` ends within its array, shortdata[16],
-- place[3] and mydata[64], each with its NUL.
pub lane_sprintf_fits :
    (lane : ℕ) (row : Row)
    → lane ≤ 10
    → (length (short_data row) + 1 ≤ 16)
      × (length (place_text row) + 1 ≤ 3)
      × (length (lane_text lane row) + 1 ≤ 64)
unfolding short_data place_text lane_text
lane_sprintf_fits lane row h =
    let time = digits_text_bounds row (4 ∷ 6 ∷ 8 ∷ 10 ∷ 12 ∷ 14 ∷ []) in
    let minutes = digits_text_bounds row (4 ∷ 6 ∷ []) in
    let seconds = digits_text_bounds row (8 ∷ 10 ∷ []) in
    let hundredths = digits_text_bounds row (12 ∷ 14 ∷ []) in
    let place = length-decimal_le (digit row 2) (digit-le row 2) in
    let number = length-decimal_le lane h in
    (omega arith, omega arith, simp length-append (omega arith))
