-- ===== src/Lane/Slot.antt =====
-- What analyseLane.cpp keeps of a lane, seen as two texts, and the step that a row makes on it.
use serial.Base.{
  refl, ℕ, zero, suc, ◌+◌, ◌-◌, ◌≤◌, ◌<◌, ◌≡◌, ◌≢◌, ◌∙◌, Bool, true, false, ◌||◌, [], arith, length,
  get_or, take, if◌then◌else◌, All-get_or, get_or-set_self, get_or-set_ne, ◌==◌, Bool-cases, inl,
  inr,
}
use native.Mathlib.Decide.{ℕ_discrete}
use serial.Text.{Text, codes, same, c_string, strncpy}
use serial.Text.Buffer.{HasNoNul, c_string-strncpy, c_string-strncpy_short}
use serial.Lane.{
  Lanes, null_short_data, null_place, reset_buffers, reset_time_and_place, reset_from,
  reset_all_data, store_lane,
}
use serial.Lane.Valid.{IsValid, IsHeat, IsPlace, reset_time_and_place-IsValid}

pub record Slot : Type 0 where
  pub time : Text
  pub place : Text

-- The stored time and place of a lane, as strings.
abbrev pub slot : Lanes → ℕ → Slot
slot s lane = record {
  time = c_string (get_or s.heat_data (lane - 1) []);
  place = c_string (get_or s.place_data (lane - 1) []);
}

abbrev pub null_slot : Slot
null_slot = record { time = codes "000000"; place = codes "0" }

-- What a row with this time and place makes of a slot, and whether it is reported: a change of the
-- time to another than zero, or of the place to another than 0. A time is kept to 8 characters.
unfoldable pub slot_step : Slot → Text → Text → Slot × Bool
slot_step s t p =
    if same t s.time
    then (if same p s.place || same p (codes "0")
        then (s, false)
        else (record { time = take 8 t; place = p }, true))
    else if same t (codes "000000")
    then (null_slot, false)
    else (record { time = take 8 t; place = p }, true)

reset-store_lane :
    (s : Lanes) (lane : ℕ)
    → 1 ≤ lane
    → reset_time_and_place s lane ≡ store_lane s lane (codes "000000") (codes "0")
unfolding reset_time_and_place reset_buffers null_short_data null_place store_lane
reset-store_lane s lane first = elim (Bool-cases (lane == 0)) [
  | inl e ↦ absurd (ground arith)
  | inr e ↦ rw e
]

pub reset_time_and_place_count :
    (s : Lanes) (lane : ℕ) → (reset_time_and_place s lane).lane_count ≡ s.lane_count
unfolding reset_time_and_place reset_buffers
reset_time_and_place_count s lane = ground arith

module _ (s : Lanes) (v : IsValid s) (lane : ℕ) (first : 1 ≤ lane)
    (last : lane ≤ s.lane_count) where
  pub heat_in : lane - 1 < length s.heat_data
  heat_in = omega (arith, v.heat_length)

  pub place_in : lane - 1 < length s.place_data
  place_in = omega (arith, v.place_length)

  IsHeat-at : IsHeat (get_or s.heat_data (lane - 1) [])
  IsHeat-at = All-get_or IsHeat s.heat_data (lane - 1) [] heat_in v.heat_ok

  IsPlace-at : IsPlace (get_or s.place_data (lane - 1) [])
  IsPlace-at = All-get_or IsPlace s.place_data (lane - 1) [] place_in v.place_ok

  -- A stored time is read back up to 8 characters, a place of up to two characters whole.
  pub slot-store_lane :
      (t p : Text)
      → HasNoNul t
      → HasNoNul p
      → length p ≤ 2
      → slot (store_lane s lane t p) lane ≡ record { time = take 8 t; place = p }
  unfolding store_lane
  slot-store_lane t p ht hp short = rw (
    get_or-set_self s.heat_data (lane - 1) (strncpy (get_or s.heat_data (lane - 1) []) t 8) []
        heat_in,
    get_or-set_self s.place_data (lane - 1) (strncpy (get_or s.place_data (lane - 1) []) p 3) []
        place_in,
    c_string-strncpy (get_or s.heat_data (lane - 1) []) t 8 ht (omega (arith, IsHeat-at))
        IsHeat-at.1,
    c_string-strncpy_short (get_or s.place_data (lane - 1) []) p 3 hp (omega arith)
        (omega (arith, IsPlace-at)),
  )

  pub slot-reset_time_and_place : slot (reset_time_and_place s lane) lane ≡ null_slot
  slot-reset_time_and_place =
      rw (reset-store_lane s lane first)
        (slot-store_lane (codes "000000") (codes "0") (grind arith) (grind arith) (omega arith))

-- A write to one lane leaves the others.
module _ (s : Lanes) (lane other : ℕ) (first : 1 ≤ lane) (too : 1 ≤ other)
    (apart : other ≢ lane) where
  apart_index : lane - 1 ≢ other - 1
  apart_index e = apart (omega arith)

  pub slot-store_lane_ne : (t p : Text) → slot (store_lane s lane t p) other ≡ slot s other
  unfolding store_lane
  slot-store_lane_ne t p = rw (
    get_or-set_ne s.heat_data (lane - 1) (other - 1) _ [] apart_index,
    get_or-set_ne s.place_data (lane - 1) (other - 1) _ [] apart_index,
  )

  pub slot-reset_time_and_place_ne : slot (reset_time_and_place s lane) other ≡ slot s other
  slot-reset_time_and_place_ne =
      rw (reset-store_lane s lane first) (slot-store_lane_ne (codes "000000") (codes "0"))

-- The loop of `resetAllData` clears the slots that it has come to.
reset_from-slot :
    (n clearnr : ℕ) (s : Lanes) (lane : ℕ)
    → IsValid s
    → clearnr + n ≡ s.lane_count
    → 1 ≤ lane
    → lane ≤ s.lane_count
    → (lane ≤ clearnr → slot s lane ≡ null_slot)
    → slot (reset_from n clearnr s) lane ≡ null_slot
unfolding reset_from
reset_from-slot zero clearnr s lane v e first last done = done (omega arith)
reset_from-slot (suc n) clearnr s lane v e first last done =
    let t = reset_time_and_place s (clearnr + 1) in
    let same_count : t.lane_count ≡ s.lane_count = reset_time_and_place_count s (clearnr + 1) in
    reset_from-slot n (clearnr + 1) t lane (reset_time_and_place-IsValid s (clearnr + 1) v)
      (omega arith) first (omega arith)
      (λ h. elim (ℕ_discrete lane (clearnr + 1)) [
        | yes here ↦
            rw here (slot-reset_time_and_place s v (clearnr + 1) (omega arith) (omega arith))
        | no apart ↦
            slot-reset_time_and_place_ne s (clearnr + 1) lane (omega arith) first apart
            ∙ done (omega arith)
      ])

-- With valid buffers, after `resetAllData` every lane counted holds the null time and the null
-- place.
pub slot-reset_all_data :
    (s : Lanes) (lane : ℕ)
    → IsValid s
    → 1 ≤ lane
    → lane ≤ s.lane_count
    → slot (reset_all_data s) lane ≡ null_slot
unfolding reset_all_data
slot-reset_all_data s lane v first last =
    reset_from-slot s.lane_count 0 s lane v (omega arith) first last (λ h. absurd (omega arith))

reset_from_count : (n clearnr : ℕ) (s : Lanes) → (reset_from n clearnr s).lane_count ≡ s.lane_count
unfolding reset_from
reset_from_count zero clearnr s = refl
reset_from_count (suc n) clearnr s =
    reset_from_count n (clearnr + 1) (reset_time_and_place s (clearnr + 1))
    ∙ reset_time_and_place_count s (clearnr + 1)

pub reset_all_data_count : (s : Lanes) → (reset_all_data s).lane_count ≡ s.lane_count
unfolding reset_all_data
reset_all_data_count s = reset_from_count s.lane_count 0 s
