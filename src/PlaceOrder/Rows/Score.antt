-- ===== src/PlaceOrder/Rows/Score.antt =====
-- The scoreboard as it is meant, with the lanes in the order of their places.
use serial.Base.{
  ℕ, ◌≤◌, ◌≡◌, ◌≢◌, refl, ap, ◌∙◌, Bool, true, false, not, ◌&&◌, List, [], ◌∷◌, ◌++◌, arith, ltb,
  ◌==◌, if◌then◌else◌, Bool-cases, inl, inr, ==_iff, get_or, get_or-set_self, get_or-set_ne, set,
  length, length-set,
}
use mathlib.Core.Path.{ap₂}
use serial.Text.{Text}
use serial.Helper.{Row, digit}
use serial.Lane.{Memory, short_data, malloc, reset_time_and_place}
use serial.Lane.Slot.{Slot, slot, slot-store_lane_ne, slot-reset_time_and_place_ne}
use serial.Board.Sound.{IsSound, init_board-IsSound, analyse-IsSound}
use serial.Board.Score.{Score, put, score_step}
use serial.Board.Refine.{Shows, analyse-score_step}
use serial.Lane.Valid.{length-malloc}
use serial.Protocol.Decode.{first_score, first-Shows}
use serial.PlaceOrder.{Places, has_place, place_message, name_place, compare_place, get_place_time}
use serial.PlaceOrder.Refine.{
  order_place, order_step, order_messages, get_place_time-order_step, get_place_time-IsValid,
  get_place_time_count,
}
use serial.PlaceOrder.Ended.{get_place_time-PlacesEnd}
use serial.PlaceOrder.Rows.{
  PlaceBoard, init_place_board, places_of, on_places, analyse_places, analyse_rows,
}

-- The scoreboard, and the place that each lane had last.
pub record PlaceScore : Type 0 where
  pub score : Score
  pub place : ℕ → ℕ

-- A row with a place names the place and the lane; one without names the lane's last place, and for
-- lane 2 that of lane 1 too.
abbrev pub shown_places : (ℕ → ℕ) → ℕ → Row → List Text
shown_places place lane row =
    if has_place row
    then place_message (digit row 2) row lane ∷ []
    else place_message (place lane) row (digit row 2)
      ∷ (if lane == 2 then place_message (place 1) row (digit row 2) ∷ [] else [])

abbrev pub new_place : (ℕ → ℕ) → ℕ → Row → ℕ → ℕ
new_place place lane row l = if has_place row && l == lane then digit row 2 else place l

unfoldable pub places_lane : PlaceScore → ℕ → Row → PlaceScore × List Text
places_lane q lane row =
    let (k, reported) = order_step (q.score.slots lane) (short_data row) (order_place lane row) in
    (
      record {
        score = record q.score { slots = put q.score.slots lane k };
        place = new_place q.place lane row;
      },
      if reported && q.score.time.send_active_state then shown_places q.place lane row else [],
    )

unfoldable pub places_step : PlaceScore → ℕ → Row → PlaceScore × List Text
places_step q channel row =
    let (score, sent) = score_step q.score channel row in
    if not (channel == 0) && ltb channel 11
    then places_lane q channel row
    else (record q { score = score }, sent)

unfoldable pub places_run : PlaceScore → List (ℕ × Row) → List Text
places_run q [] = []
places_run q ((channel, row) ∷ rows) =
    let (next, sent) = places_step q channel row in sent ++ places_run next rows

-- The globals hold what is shown.
pub record ShowsPlaces (b : PlaceBoard) (q : PlaceScore) : Type 0 where
  pub sound : IsSound b.board
  pub shows : Shows b.board q.score
  pub twelve : length b.lanebyplaceorder ≡ 12
  pub places_same : (l : ℕ) → l ≤ 10 → get_or b.lanebyplaceorder l 0 ≡ q.place l

slot-get_place_time_ne :
    (s : Places) (active : Bool) (lane other : ℕ) (row : Row)
    → 1 ≤ lane
    → 1 ≤ other
    → other ≢ lane
    → slot (get_place_time s active lane row).0.lanes other ≡ slot s.lanes other
unfolding get_place_time compare_place
slot-get_place_time_ne s active lane other row first too apart =
    let place = (name_place s lane row).1 in
    let reset = reset_time_and_place s.lanes lane in
    ground (
      arith,
      slot-reset_time_and_place_ne s.lanes lane other first too apart,
      slot-store_lane_ne s.lanes lane other first too apart (short_data row) place,
      slot-store_lane_ne reset lane other first too apart (short_data row) place,
    )

-- An element of lanebyplaceorder behind a row of a lane.
set_place :
    (order : List ℕ) (place : ℕ → ℕ) (lane : ℕ) (row : Row)
    → length order ≡ 12
    → lane ≤ 10
    → ((l : ℕ) → l ≤ 10 → get_or order l 0 ≡ place l)
    → (l : ℕ) → l ≤ 10
    → get_or (if has_place row then set order lane (digit row 2) else order) l 0
      ≡ new_place place lane row l
set_place order place lane row twelve last same l inside = elim (Bool-cases (has_place row)) [
  | inl e ↦ elim (Bool-cases (l == lane)) [
    | inl f ↦
        rw (e, f, (==_iff l lane).0 f)
          (get_or-set_self order lane (digit row 2) 0 (omega (arith, twelve)))
    | inr f ↦
        rw (e, f) (get_or-set_ne order lane l (digit row 2) 0 (λ g. ground arith) ∙ same l inside)
  ]
  | inr e ↦ rw e (same l inside)
]

length-set_place :
    (order : List ℕ) (lane : ℕ) (row : Row)
    → length (if has_place row then set order lane (digit row 2) else order) ≡ length order
length-set_place order lane row = ground (arith, length-set order lane (digit row 2))

order_messages_lem :
    (order : List ℕ) (place : ℕ → ℕ) (lane : ℕ) (row : Row)
    → lane ≤ 10
    → ((l : ℕ) → l ≤ 10 → get_or order l 0 ≡ place l)
    → order_messages order lane row ≡ shown_places place lane row
order_messages_lem order place lane row last same = rw (same lane last, same 1 (omega arith)) refl

abbrev Meets : PlaceBoard × List Text → PlaceScore × List Text → Type 0
Meets (b, sent) (q, told) = ShowsPlaces b q × (sent ≡ told)

module _ (b : PlaceBoard) (q : PlaceScore) (h : ShowsPlaces b q) (row : Row) where
  on_places-places_lane :
      (lane : ℕ) → 1 ≤ lane → lane ≤ 10 → Meets (on_places b lane row) (places_lane q lane row)
  unfolding on_places places_lane
  on_places-places_lane lane first last =
      let v = h.sound in
      let s = places_of b in
      let active = b.board.time.send_active_state in
      let t = (get_place_time s active lane row).0 in
      let step = λ (k : Slot). order_step k (short_data row) (order_place lane row) in
      let inside : lane ≤ b.board.lanes.lane_count = omega (arith, v.ten_lanes) in
      let (held, sent, order) =
        get_place_time-order_step s v.lanes_valid active lane first inside last row in
      let here = h.shows.slots_same lane first last in
      (
        record {
          sound = record {
            lanes_valid = get_place_time-IsValid s active lane row v.lanes_valid;
            places_end = get_place_time-PlacesEnd s active lane row last v.places_end;
            ten_lanes = get_place_time_count s active lane row ∙ v.ten_lanes;
            header_valid = v.header_valid;
            rounds_valid = v.rounds_valid;
            race_steady = v.race_steady;
            counted = v.counted;
          };
          shows = record {
            race_same = h.shows.race_same;
            time_same = h.shows.time_same;
            header_same = h.shows.header_same;
            rounds_same = h.shows.rounds_same;
            round_same = h.shows.round_same;
            slots_same = λ l low high. elim (Bool-cases (l == lane)) [
              | inl e ↦
                  rw e (ap (slot t.lanes) ((==_iff l lane).0 e) ∙ held ∙ ap (λ k. (step k).0) here)
              | inr e ↦ rw e (
                  slot-get_place_time_ne s active lane l row first low (λ f. ground arith)
                  ∙ h.shows.slots_same l low high)
            ];
          };
          twelve = ap length order ∙ length-set_place b.lanebyplaceorder lane row ∙ h.twelve;
          places_same = λ l high.
              ap (λ k. get_or k l 0) order
              ∙ set_place b.lanebyplaceorder q.place lane row h.twelve last h.places_same l high;
        },
        sent
            ∙ ap (λ ms. if (step (slot s.lanes lane)).1 && active then ms else [])
                (order_messages_lem b.lanebyplaceorder q.place lane row last h.places_same)
            ∙ ap₂ (λ k a. if (step k).1 && a then shown_places q.place lane row else []) here
                (ap (λ w. w.send_active_state) h.shows.time_same),
      )

  pick :
      (c : Bool) (x y : PlaceBoard × List Text) (p r : PlaceScore × List Text)
      → (c ≡ true → Meets x p)
      → Meets y r
      → Meets (if c then x else y) (if c then p else r)
  pick true x y p r hx hy = hx refl
  pick false x y p r hx hy = hy

  -- A row of any channel.
  analyse_places-places_step :
      (channel : ℕ) → Meets (analyse_places b channel row) (places_step q channel row)
  unfolding analyse_places places_step
  analyse_places-places_step channel =
      let (shows, sent) = analyse-score_step b.board q.score row h.sound h.shows channel in
      pick (not (channel == 0) && ltb channel 11) _ _ _ _
        (λ e. on_places-places_lane channel (ground arith) (ground arith))
        (
          record {
            sound = analyse-IsSound b.board channel row h.sound;
            shows = shows;
            twelve = h.twelve;
            places_same = h.places_same;
          },
          sent,
        )

analyse_rows-run :
    (b : PlaceBoard) (q : PlaceScore) (rows : List (ℕ × Row))
    → ShowsPlaces b q
    → analyse_rows b rows ≡ places_run q rows
unfolding analyse_rows places_run
analyse_rows-run b q [] h = refl
analyse_rows-run b q ((channel, row) ∷ rows) h =
    let (next, sent) = analyse_places-places_step b q h row channel in
    ap₂ ◌++◌ sent
      (analyse_rows-run (analyse_places b channel row).0 (places_step q channel row).0 rows next)

-- What is shown at first: the places are what malloc leaves.
abbrev pub first_places : (ℕ → ℕ) → PlaceScore
first_places junk = record { score = first_score; place = λ l. get_or (malloc junk 12) l 0 }

-- With orderbyplace, whatever malloc leaves in memory and over any rows of any channels from the
-- start of the program, the messages are those of the scoreboard as it is meant, which keeps two
-- texts and the last place for each lane in place of the buffers.
pub analyse_rows-places_run :
    (memory : Memory) (junk : ℕ → ℕ) (rows : List (ℕ × Row))
    → analyse_rows (init_place_board memory junk) rows ≡ places_run (first_places junk) rows
unfolding init_place_board
analyse_rows-places_run memory junk rows =
    analyse_rows-run (init_place_board memory junk) (first_places junk) rows (record {
      sound = init_board-IsSound memory;
      shows = first-Shows memory;
      twelve = length-malloc junk 12;
      places_same = λ l inside. refl;
    })
