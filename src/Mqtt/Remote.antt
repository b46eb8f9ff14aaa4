-- ===== src/Mqtt/Remote.antt =====
-- The memset of mqtt_send: which messages it writes past the end of, with pointers of 8 bytes.
use serial.StartStop.Alternate.{check_start_stop_turn}
use serial.Base.{
  Bool, true, false, inl, inr, if◌then◌else◌, ℕ, ◌≤◌, ◌<◌, ◌≡◌, [], ◌∷◌, arith, length-append, All,
}
use serial.Text.Decimal.{decimal-ne-nil, decimal_small}
use serial.Helper.{Row, digit, digits_text_bounds}
use serial.Lane.{Lanes, lane_text}
use serial.Header.{header_text}
use serial.RunningTime.{time_text}
use serial.Rounds.{round_text}
use serial.StartStop.{StartStop, start_text, stop_text, check_start_stop}
use serial.Mqtt.{past_end}

race_text_past_end : (b : Bool) → 3 ≤ past_end 8 (if b then stop_text else start_text)
unfolding past_end start_text stop_text
race_text_past_end true = omega arith
race_text_past_end false = omega arith

-- With pointers of 8 bytes, each message of a start or a stop has three bytes or more written
-- behind its allocation.
pub race_messages_past_end :
    (s : StartStop) (lanes : Lanes) (row : Row)
    → All (λ m. 3 ≤ past_end 8 m) (check_start_stop s lanes row).2
race_messages_past_end s lanes row = elim (check_start_stop_turn s lanes row) [
  | inl (none_sent, same, flag) ↦ rw none_sent tt
  | inr (one_sent, cleared, flag) ↦ rw one_sent (race_text_past_end s.b_stopping, tt)
]

-- With pointers of 8 bytes, the message of each of the rounds 0 to 9 has one byte written behind
-- its allocation.
pub small_round_past_end : (n : ℕ) → n < 10 → past_end 8 (round_text n) ≡ 1
unfolding past_end round_text
small_round_past_end n h = rw (decimal_small n h) (omega arith)

-- With pointers of 8 bytes, no message of a time, a header or a lane has a byte written behind its
-- allocation.
pub long_messages_fit :
    (row : Row) (lane : ℕ)
    → (past_end 8 (time_text row) ≡ 0)
      × (past_end 8 (header_text row) ≡ 0)
      × (past_end 8 (lane_text lane row) ≡ 0)
unfolding past_end time_text header_text lane_text
long_messages_fit row lane =
    let m = decimal-ne-nil (digit row 4) in
    let n = decimal-ne-nil lane in
    let t = digits_text_bounds row (4 ∷ 6 ∷ []) in
    (
      simp length-append (omega arith),
      simp length-append (omega arith),
      simp length-append (omega arith),
    )
