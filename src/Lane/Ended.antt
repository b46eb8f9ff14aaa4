-- ===== src/Lane/Ended.antt =====
-- The NUL behind a lane's place in its buffer of analyseLane.cpp.
use serial.Base.{
  ℕ, zero, suc, ◌+◌, ◌-◌, ◌≤◌, ◌≡◌, ◌∙◌, List, arith, length, get_or, All, ◌==◌, Bool-cases, Bool,
  inl, inr,
}
use serial.Text.{Text, strncpy}
use serial.Text.Buffer.{length-strncpy, get_or-strncpy_pad}
use serial.Text.Decimal.{length-decimal_le}
use serial.Helper.{Row, digit, digit-le}
use serial.Lane.{
  Lanes, Memory, null_place, reset_buffers, reset_time_and_place, reset_from, reset_all_data,
  init_analyse_lane, compare_stored, store_lane, short_data, place_text, lane_matches,
  get_lane_time,
}
use serial.Lane.Valid.{All-set-strncpy, All-init_buffers}

-- A place's buffer: 10 bytes, with a NUL at byte 2.
abbrev IsEnded : List ℕ → Type 0
IsEnded buf = (length buf ≡ 10) × (get_or buf 2 1 ≡ 0)

abbrev pub PlacesEnd : Lanes → Type 0
PlacesEnd s = All IsEnded s.place_data

-- strncpy of three bytes pads a text of two.
strncpy-IsEnded :
    (buf : List ℕ) (src : Text) → length src ≤ 2 → length buf ≡ 10 → IsEnded (strncpy buf src 3)
strncpy-IsEnded buf src short size = (
  length-strncpy buf src 3 ∙ size,
  get_or-strncpy_pad buf src 3 2 1 short (omega arith) (omega arith),
)

length-place_text : (row : Row) → length (place_text row) ≤ 2
unfolding place_text
length-place_text row = length-decimal_le (digit row 2) (digit-le row 2)

pub length-null_place : length null_place ≤ 2
unfolding null_place
length-null_place = omega arith

pub store_lane-PlacesEnd :
    (s : Lanes) (lane : ℕ) (time place : Text)
    → length place ≤ 2
    → PlacesEnd s
    → PlacesEnd (store_lane s lane time place)
unfolding store_lane
store_lane-PlacesEnd s lane time place short h =
    All-set-strncpy IsEnded 3 s.place_data (lane - 1) place
      (λ b e. strncpy-IsEnded b place short e.0) h

reset_buffers-PlacesEnd : (s : Lanes) (i : ℕ) → PlacesEnd s → PlacesEnd (reset_buffers s i)
unfolding reset_buffers
reset_buffers-PlacesEnd s i h =
    All-set-strncpy IsEnded 3 s.place_data i null_place
      (λ b e. strncpy-IsEnded b null_place length-null_place e.0) h

pub reset_time_and_place-PlacesEnd :
    (s : Lanes) (lane : ℕ) → PlacesEnd s → PlacesEnd (reset_time_and_place s lane)
unfolding reset_time_and_place
reset_time_and_place-PlacesEnd s lane h = elim (Bool-cases (lane == 0)) [
  | inl e ↦ rw e h
  | inr e ↦ rw e (reset_buffers-PlacesEnd s (lane - 1) h)
]

reset_from-PlacesEnd :
    (n clearnr : ℕ) (s : Lanes) → PlacesEnd s → PlacesEnd (reset_from n clearnr s)
unfolding reset_from
reset_from-PlacesEnd zero clearnr s h = h
reset_from-PlacesEnd (suc n) clearnr s h =
    reset_from-PlacesEnd n (clearnr + 1) _ (reset_time_and_place-PlacesEnd s (clearnr + 1) h)

pub reset_all_data-PlacesEnd : (s : Lanes) → PlacesEnd s → PlacesEnd (reset_all_data s)
unfolding reset_all_data
reset_all_data-PlacesEnd s h = reset_from-PlacesEnd s.lane_count 0 s h

compare_stored-PlacesEnd :
    (s : Lanes) (lane : ℕ) (time place : Text)
    → PlacesEnd s
    → PlacesEnd (compare_stored s lane time place).0
unfolding compare_stored
compare_stored-PlacesEnd s lane time place h =
    ground (arith, reset_time_and_place-PlacesEnd s lane h)

-- A lane's row leaves a NUL behind each place, whatever it holds.
pub get_lane_time-PlacesEnd :
    (s : Lanes) (active : Bool) (lane : ℕ) (row : Row)
    → PlacesEnd s
    → PlacesEnd (get_lane_time s active lane row).0
unfolding get_lane_time
get_lane_time-PlacesEnd s active lane row h =
    let t = (compare_stored s lane (short_data row) (place_text row)).0 in
    let kept = compare_stored-PlacesEnd s lane (short_data row) (place_text row) h in
    elim (Bool-cases (lane_matches s lane row)) [
      | inl e ↦ rw e kept
      | inr e ↦ rw e (
          store_lane-PlacesEnd t lane (short_data row) (place_text row) (length-place_text row)
            kept)
    ]

pub init_analyse_lane-PlacesEnd : (memory : Memory) (n : ℕ) → PlacesEnd (init_analyse_lane memory n)
unfolding init_analyse_lane
init_analyse_lane-PlacesEnd memory n =
    All-init_buffers IsEnded memory.place 10 null_place 3 n
      (λ buf e. strncpy-IsEnded buf null_place length-null_place e)
