-- ===== src/Board/Refine.antt =====
-- The analysers with their globals against the scoreboard as it is meant.
use serial.Base.{
  ℕ, ◌+◌, ◌≤◌, ◌≡◌, ◌≢◌, ◌⊎◌, refl, ap, ◌∙◌, Bool, true, false, not, ◌&&◌, List, [], ◌∷◌, ◌++◌,
  arith, ltb, ◌==◌, if◌then◌else◌, Bool-cases, inl, inr, ==_iff,
}
use mathlib.Core.Path.{ap₂}
use serial.Text.{Text, same}
use serial.Text.Buffer.{same_iff}
use serial.Helper.{Row}
use serial.RunningTime.{get_time, set_send_active_state_off}
use serial.StartStop.{any_digit, time_indices}
use serial.StartStop.Machine.{race_step, race_of, cleared, check_start_stop-race_step}
use serial.Lane.{Lanes, short_data, place_text, lane_text, get_lane_time, analyse_active_data}
use serial.Lane.Valid
use serial.Lane.Slot.{Slot, slot, slot_step, null_slot, slot-reset_all_data}
use serial.Lane.Refine.{get_lane_time-slot_step, slot-get_lane_time_ne}
use serial.Header.{header_text, null_header}
use serial.Header.Report
use serial.Header.Report.{get_header_report}
use serial.Rounds.{store_rounds, rounds_text, null_rounds, round_text}
use serial.Rounds.Count
use serial.Rounds.Count.{store_rounds_step}
use serial.Board.{Board, on_lane, on_time, on_header, on_rounds, analyse}
use serial.Board.Sound.{IsSound}
use serial.Board.Score.{
  Score, emptied, score_lane, score_time, score_header, score_rounds, score_step,
}

-- The globals hold what the scoreboard shows.
pub record Shows (b : Board) (sc : Score) : Type 0 where
  pub race_same : race_of b.race ≡ sc.race
  pub time_same : b.time ≡ sc.time
  pub slots_same : (l : ℕ) → 1 ≤ l → l ≤ 10 → slot b.lanes l ≡ sc.slots l
  pub header_same : Report.stored b.header ≡ sc.header
  pub rounds_same : Count.stored b.rounds ≡ sc.rounds
  pub round_same : b.rounds.p_round ≡ sc.round

-- A handler and its meaning: what they leave and what they send.
abbrev Meets : Board × List Text → Score × List Text → Type 0
Meets (b, sent) (sc, told) = Shows b sc × (sent ≡ told)

pick :
    (c : Bool) (x y : Board × List Text) (p q : Score × List Text)
    → (c ≡ true → Meets x p)
    → (c ≡ false → Meets y q)
    → Meets (if c then x else y) (if c then p else q)
pick true x y p q hx hy = hx refl
pick false x y p q hx hy = hy refl

cleared-emptied :
    (told : List Text) (s : Lanes) (slots : ℕ → Slot) (l : ℕ)
    → Valid.IsValid s
    → 1 ≤ l
    → l ≤ s.lane_count
    → slot s l ≡ slots l
    → slot (cleared told s) l ≡ emptied told slots l
cleared-emptied [] s slots l v first last h = h
cleared-emptied (m ∷ ms) s slots l v first last h = slot-reset_all_data s l v first last

module _ (b : Board) (sc : Score) (row : Row) (v : IsSound b) (h : Shows b sc) where
  on_time-score_time : Meets (on_time b row) (score_time sc row)
  unfolding on_time score_time
  on_time-score_time =
      let (race, lanes, told) = check_start_stop-race_step b.race b.lanes row v.race_steady in
      let step = ap (λ r. race_step r (any_digit row time_indices)) h.race_same in
      (
        record {
          race_same = race ∙ ap (λ p. p.0) step;
          time_same = ap (λ t. (get_time t row).0) h.time_same;
          slots_same = λ l first last.
              ap (λ s. slot s l) (lanes ∙ ap (λ p. cleared p.1 b.lanes) step)
              ∙ cleared-emptied (race_step sc.race (any_digit row time_indices)).1 b.lanes sc.slots
                  l v.lanes_valid first (omega (arith, v.ten_lanes)) (h.slots_same l first last);
          header_same = h.header_same;
          rounds_same = h.rounds_same;
          round_same = h.round_same;
        },
        ap₂ ◌++◌ (told ∙ ap (λ p. p.1) step) (ap (λ t. (get_time t row).1) h.time_same),
      )

  on_rounds-score_rounds : Meets (on_rounds b row) (score_rounds sc row)
  unfolding on_rounds score_rounds
  on_rounds-score_rounds =
      let (stored, sent, count) = store_rounds_step b.rounds row v.rounds_valid in
      let sum : (store_rounds b.rounds row).0.p_round ≡ _ =
        count
        ∙ ap₂
            (λ t n.
              if same (rounds_text row) null_rounds
              then 0
              else if same (rounds_text row) t
              then n
              else n + 1)
            h.rounds_same h.round_same in
      (
        record {
          race_same = h.race_same;
          time_same = h.time_same;
          slots_same = h.slots_same;
          header_same = h.header_same;
          rounds_same = stored;
          round_same = sum;
        },
        sent
            ∙ ap₂ (λ t n. if same (rounds_text row) t then [] else round_text n ∷ []) h.rounds_same
                sum,
      )

  on_lane-score_lane :
      (lane : ℕ) → 1 ≤ lane → lane ≤ 10 → Meets (on_lane b lane row) (score_lane sc lane row)
  unfolding on_lane score_lane analyse_active_data
  on_lane-score_lane lane first last =
      let active = b.time.send_active_state in
      let t = (get_lane_time b.lanes active lane row).0 in
      let step = λ (k : Slot). slot_step k (short_data row) (place_text row) in
      let inside : lane ≤ b.lanes.lane_count = omega (arith, v.ten_lanes) in
      let (held, sent) =
        get_lane_time-slot_step b.lanes v.lanes_valid active lane first inside row in
      let here = h.slots_same lane first last in
      (
        record {
          race_same = h.race_same;
          time_same = h.time_same;
          slots_same = λ l low high. elim (Bool-cases (l == lane)) [
            | inl e ↦ rw e (ap (slot t) ((==_iff l lane).0 e) ∙ held ∙ ap (λ k. (step k).0) here)
            | inr e ↦ rw e (
                slot-get_lane_time_ne b.lanes active lane l row first low (λ q. ground arith)
                ∙ h.slots_same l low high)
          ];
          header_same = h.header_same;
          rounds_same = h.rounds_same;
          round_same = h.round_same;
        },
        sent
            ∙ ap₂ (λ k a. if (step k).1 && a then lane_text lane row ∷ [] else []) here
                (ap (λ w. w.send_active_state) h.time_same),
      )

  header_known :
      (header_text row ≡ null_header) ⊎ (header_text row ≡ Report.stored b.header)
      → score_header sc row ≡ (sc, [])
  unfolding score_header
  header_known known = ground (
    arith,
    h.header_same,
    same_iff (header_text row) null_header,
    same_iff (header_text row) sc.header,
  )

  header_new :
      header_text row ≢ null_header
      → header_text row ≢ Report.stored b.header
      → score_header sc row ≡ (
        record sc {
          header = header_text row;
          slots = λ l. null_slot;
          time = set_send_active_state_off sc.time;
        },
        header_text row ∷ header_text row ∷ [],
      )
  unfolding score_header
  header_new some_header new = ground (
    arith,
    h.header_same,
    same_iff (header_text row) null_header,
    same_iff (header_text row) sc.header,
  )

  on_header-score_header : Meets (on_header b row) (score_header sc row)
  unfolding on_header score_header
  on_header-score_header = elim (get_header_report b.header b.lanes b.time row v.header_valid) [
    | inl (known, same, lanes, time, sent) ↦ rw (header_known known) (
      record {
        race_same = h.race_same;
        time_same = time ∙ h.time_same;
        slots_same = λ l low high. ap (λ s. slot s l) lanes ∙ h.slots_same l low high;
        header_same = ap Report.stored same ∙ h.header_same;
        rounds_same = h.rounds_same;
        round_same = h.round_same;
      },
      sent,
    )
    | inr (some_header, new, kept, lanes, time, sent) ↦ rw (header_new some_header new) (
      record {
        race_same = h.race_same;
        time_same = time ∙ ap set_send_active_state_off h.time_same;
        slots_same = λ l low high.
            ap (λ s. slot s l) lanes
            ∙ slot-reset_all_data b.lanes l v.lanes_valid low (omega (arith, v.ten_lanes));
        header_same = kept;
        rounds_same = h.rounds_same;
        round_same = h.round_same;
      },
      sent,
    )
  ]

  -- A row of any channel.
  pub analyse-score_step : (channel : ℕ) → Meets (analyse b channel row) (score_step sc channel row)
  unfolding analyse score_step
  analyse-score_step channel =
      pick (not (channel == 0) && ltb channel 11) _ _ _ _
        (λ e. on_lane-score_lane channel (ground arith) (ground arith))
        (λ e.
          pick (channel == 0) _ _ _ _ (λ f. on_time-score_time)
            (λ f.
              pick (channel == 12) _ _ _ _ (λ g. on_header-score_header)
                (λ g. pick (channel == 18) _ _ _ _ (λ k. on_rounds-score_rounds) (λ k. (h, refl)))))
