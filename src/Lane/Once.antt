-- ===== src/Lane/Once.antt =====
-- A lane's result among the rows of all lanes.
use serial.Base.{
  ℕ, ◌≤◌, ◌≡◌, ◌≢◌, refl, ap, ◌∙◌, Bool, false, ◌&&◌, List, [], ◌∷◌, ◌++◌, arith, length, All,
  append-nil, ◌==◌, ==_iff, Bool-cases, inl, inr, if◌then◌else◌,
}
use serial.Text.{Text, codes}
use serial.Text.Buffer.{same_iff, take_all}
use serial.Helper.{Row}
use serial.Lane.{Lanes, short_data, place_text, lane_text, get_lane_time}
use serial.Lane.Valid.{IsValid, get_lane_time-IsValid}
use serial.Lane.Slot.{Slot, slot, slot_step}
use serial.Lane.Refine.{get_lane_time-slot_step, get_lane_time_count, slot-get_lane_time_ne}
use serial.Lane.Repeat.{slot_step_repeat}

-- Whether the state is active, the lane, and its row.
abbrev pub Reading : Type 0
Reading = Bool × ℕ × Row

-- The messages of one lane while the rows of all lanes are read.
unfoldable pub messages_of : ℕ → Lanes → List Reading → List Text
messages_of l s [] = []
messages_of l s ((active, lane, row) ∷ readings) =
    let (t, sent) = get_lane_time s active lane row in
    let rest = messages_of l t readings in if lane == l then sent ++ rest else rest

-- Whether the state is active when the lane is read for the first time.
abbrev pub first_active : ℕ → List Reading → Bool
first_active l [] = false
first_active l ((active, lane, row) ∷ readings) =
    if lane == l then active else first_active l readings

-- A reading of one of `count` lanes, which has the given row if it is one of lane l.
abbrev pub Reads : ℕ → ℕ → Row → Reading → Type 0
Reads count l r (active, lane, row) = (1 ≤ lane) × (lane ≤ count) × (lane ≡ l → row ≡ r)

-- A row that has been stored is no step any more.
slot_step_stored :
    (s : Slot) (t p : Text)
    → length t ≤ 8
    → t ≢ codes "000000"
    → (slot_step (slot_step s t p).0 t p).0 ≡ (slot_step s t p).0
unfolding slot_step
slot_step_stored s t p short ne = ground (
  arith,
  take_all 8 t short,
  same_iff t s.time,
  same_iff t t,
  same_iff p p,
  same_iff t (codes "000000"),
)

module _ (l : ℕ) (first : 1 ≤ l) (r : Row) where
  abbrev step : Slot → Slot × Bool
  step k = slot_step k (short_data r) (place_text r)

  -- A reading of the lane itself.
  own_reading :
      (s : Lanes) (active : Bool) (lane : ℕ) (row : Row)
      → IsValid s
      → lane ≤ s.lane_count
      → lane ≡ l
      → row ≡ r
      → (slot (get_lane_time s active lane row).0 l ≡ (step (slot s l)).0)
        × ((get_lane_time s active lane row).1
            ≡ (if (step (slot s l)).1 && active then lane_text l r ∷ [] else []))
  own_reading s active lane row v hi here same =
      rw (here, same) (get_lane_time-slot_step s v active l first (omega (arith, here)) r)

  -- What the readings that follow are read with.
  go_on :
      (s : Lanes) (active : Bool) (lane : ℕ) (row : Row) (readings : List Reading)
      → All (Reads s.lane_count l r) readings
      → All (Reads (get_lane_time s active lane row).0.lane_count l r) readings
  go_on s active lane row readings h = rw (get_lane_time_count s active lane row) h

  -- A lane whose slot the row leaves as it is has no message.
  messages_of_none :
      (s : Lanes) (readings : List Reading)
      → IsValid s
      → All (Reads s.lane_count l r) readings
      → (step (slot s l)).0 ≡ slot s l
      → (step (slot s l)).1 ≡ false
      → messages_of l s readings ≡ []
  unfolding messages_of
  messages_of_none s [] v h kept quiet = refl
  messages_of_none s ((active, lane, row) ∷ readings) v ((lo, hi, same), h) kept quiet =
      let t = (get_lane_time s active lane row).0 in
      let valid = get_lane_time-IsValid s active lane row v in
      let more = go_on s active lane row readings h in
      elim (Bool-cases (lane == l)) [
        | inl e ↦
            let here = (==_iff lane l).0 e in
            let (held, sent) = own_reading s active lane row v hi here (same here) in
            let held' = held ∙ kept in
            let silent : (get_lane_time s active lane row).1 ≡ [] = sent ∙ rw quiet refl in
            rw e (
              ap (λ m. m ++ messages_of l t readings) silent
              ∙ messages_of_none t readings valid more (rw held' kept) (rw held' quiet))
        | inr e ↦
            let apart : l ≢ lane = λ q. ground arith in
            let held = slot-get_lane_time_ne s active lane l row lo first apart in
            rw e (messages_of_none t readings valid more (rw held kept) (rw held quiet))
      ]

  -- With valid buffers, while rows of any lanes among those counted are read in any order, and one
  -- of these lanes always shows the same row, whose time is not zero and has at most 8 characters:
  -- that lane's messages in all are one, if its slot reports the row and the state is active when
  -- the row is read first, and none otherwise. A result that is first read while paused is not made
  -- up for.
  pub messages_of_once :
      (s : Lanes) (readings : List Reading)
      → IsValid s
      → All (Reads s.lane_count l r) readings
      → length (short_data r) ≤ 8
      → short_data r ≢ codes "000000"
      → messages_of l s readings ≡ (
          if (slot_step (slot s l) (short_data r) (place_text r)).1 && first_active l readings
          then lane_text l r ∷ []
          else [])
  unfolding messages_of
  messages_of_once s [] v h short ne = ground arith
  messages_of_once s ((active, lane, row) ∷ readings) v ((lo, hi, same), h) short ne =
      let t = (get_lane_time s active lane row).0 in
      let valid = get_lane_time-IsValid s active lane row v in
      let more = go_on s active lane row readings h in
      elim (Bool-cases (lane == l)) [
        | inl e ↦
            let here = (==_iff lane l).0 e in
            let (held, sent) = own_reading s active lane row v hi here (same here) in
            let stored = slot_step_stored (slot s l) (short_data r) (place_text r) short ne in
            let again = slot_step_repeat (slot s l) (short_data r) (place_text r) short ne in
            rw e (
              ap (λ m. (get_lane_time s active lane row).1 ++ m)
                (messages_of_none t readings valid more (rw held stored) (rw held again))
              ∙ append-nil (get_lane_time s active lane row).1
              ∙ sent)
        | inr e ↦
            let apart : l ≢ lane = λ q. ground arith in
            let held = slot-get_lane_time_ne s active lane l row lo first apart in
            rw e (messages_of_once t readings valid more short ne ∙ rw held)
      ]
