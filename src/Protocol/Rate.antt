-- ===== src/Protocol/Rate.antt =====
-- How many messages the bytes of a stream can send.
use serial.Base.{
  ℕ, zero, suc, ◌+◌, ◌-◌, ◌*◌, ◌≤◌, ◌≡◌, refl, ap, ◌∙◌, not, ◌&&◌, List, [], ◌∷◌, arith, length,
  length-append, get_or, ltb, ◌==◌, ==_iff, if◌then◌else◌, Bool-cases, inl, inr,
}
use serial.Text.{Text}
use serial.Helper.{Row}
use serial.Lane.{Lanes, Memory, send_lane_data, get_lane_time, analyse_active_data}
use serial.RunningTime.{RunningTime, get_time}
use serial.StartStop.{StartStop, check_start_stop}
use serial.Header.{get_header}
use serial.Rounds.{Rounds, send_round, clear_rounds, rounds_text, store_rounds}
use serial.Board.{Board, on_lane, on_time, on_header, on_rounds, analyse}
use serial.Protocol.LaneFrame.{lane_channel_length}
use serial.Protocol.{
  Receiver, channel_length, init_read_data, store_digit, store_digits, process, finish, restart,
  collect, put_read_data, read_all,
}

lane_rate : (b : Board) (channel : ℕ) (row : Row) → length (on_lane b channel row).1 ≤ 1
unfolding on_lane analyse_active_data get_lane_time send_lane_data
lane_rate b channel row = ground arith

race_rate :
    (s : StartStop) (lanes : Lanes) (row : Row) → length (check_start_stop s lanes row).2 ≤ 1
unfolding check_start_stop
race_rate s lanes row = ground arith

running_time_rate : (s : RunningTime) (row : Row) → length (get_time s row).1 ≤ 1
unfolding get_time
running_time_rate s row = ground arith

time_rate : (b : Board) (row : Row) → length (on_time b row).1 ≤ 2
unfolding on_time
time_rate b row = omega (
  arith,
  length-append (check_start_stop b.race b.lanes row).2 (get_time b.time row).1,
  race_rate b.race b.lanes row,
  running_time_rate b.time row,
)

header_rate : (b : Board) (row : Row) → length (on_header b row).1 ≤ 2
unfolding on_header get_header
header_rate b row = ground arith

round_rate : (s : Rounds) (t : Text) (n : ℕ) → length (send_round s t n).1 ≤ 1
unfolding send_round
round_rate s t n = ground arith

clear_rate : (s : Rounds) (t : Text) → length (clear_rounds s t).1 ≤ 1
unfolding clear_rounds send_round
clear_rate s t = ground arith

rounds_rate : (b : Board) (row : Row) → length (on_rounds b row).1 ≤ 2
unfolding on_rounds store_rounds
rounds_rate b row =
    let (t, cleared) = clear_rounds b.rounds (rounds_text row) in
    omega (
      arith,
      length-append cleared (send_round t (rounds_text row) (t.p_round + 1)).1,
      clear_rate b.rounds (rounds_text row),
      round_rate t (rounds_text row) (t.p_round + 1),
    )

time_length : channel_length 0 ≡ 7
unfolding channel_length
time_length = refl

header_length : channel_length 12 ≡ 9
unfolding channel_length
header_length = refl

rounds_length : channel_length 18 ≡ 9
unfolding channel_length
rounds_length = refl

-- A row sends two messages at most, and only those of channels with seven bytes or more send any.
analyse_rate :
    (b : Board) (channel : ℕ) (row : Row)
    → length (analyse b channel row).1 * 7 ≤ channel_length channel * 2
unfolding analyse
analyse_rate b channel row = elim (Bool-cases (not (channel == 0) && ltb channel 11)) [
  | inl e ↦
      let nine = lane_channel_length channel (ground (arith, e)) (ground (arith, e)) in
      rw e (omega (arith, nine, lane_rate b channel row))
  | inr e ↦ rw e (elim (Bool-cases (channel == 0)) [
    | inl f ↦
        let seven = ap channel_length ((==_iff channel 0).0 f) ∙ time_length in
        rw f (omega (arith, seven, time_rate b row))
    | inr f ↦ rw f (elim (Bool-cases (channel == 12)) [
      | inl g ↦
          let nine = ap channel_length ((==_iff channel 12).0 g) ∙ header_length in
          rw g (omega (arith, nine, header_rate b row))
      | inr g ↦ rw g (elim (Bool-cases (channel == 18)) [
        | inl k ↦
            let nine = ap channel_length ((==_iff channel 18).0 k) ∙ rounds_length in
            rw k (omega (arith, nine, rounds_rate b row))
        | inr k ↦ rw k (omega arith)
      ])
    ])
  ])
]

-- The bytes behind the last address byte, that one included, while they are collected.
abbrev pending : Receiver → ℕ
pending r = if r.colorado_start_detected == 1 then r.in_count else 0

store_digits_channel :
    (n j : ℕ) (r : Receiver)
    → (store_digits n j r).colorado_control_channel ≡ r.colorado_control_channel
unfolding store_digits store_digit
store_digits_channel zero j r = refl
store_digits_channel (suc n) j r = store_digits_channel n (j + 1) (store_digit r j)

process_rate :
    (r : Receiver) → length (process r).1 * 7 ≤ channel_length r.colorado_control_channel * 2
unfolding process
process_rate r =
    let n = channel_length r.colorado_control_channel - 1 in
    let s = store_digits n 1 r in
    let row = get_or s.colorado_data s.colorado_control_channel [] in
    omega (
      arith,
      ap channel_length (store_digits_channel n 1 r),
      analyse_rate s.board s.colorado_control_channel row,
    )

finish_rate : (r : Receiver) → length (finish r).1 * 7 ≤ pending r * 2
unfolding finish
finish_rate r = ground (arith, process_rate r)

collect_rate : (r : Receiver) (b : ℕ) → pending (collect r b) ≤ pending r + 1
unfolding collect
collect_rate r b = ground arith

put_read_data_rate :
    (r : Receiver) (b : ℕ)
    → length (put_read_data r b).1 * 7 + pending (put_read_data r b).0 * 2 ≤ (pending r + 1) * 2
unfolding put_read_data restart
put_read_data_rate r b = ground (arith, finish_rate r, collect_rate r b)

read_all_rate :
    (r : Receiver) (bs : List ℕ) → length (read_all r bs).1 * 7 ≤ (pending r + length bs) * 2
unfolding read_all
read_all_rate r [] = omega arith
read_all_rate r (b ∷ bs) =
    let (s, sent) = put_read_data r b in
    omega (arith, length-append sent (read_all s bs).1, put_read_data_rate r b, read_all_rate s bs)

-- From the start of the program, and whatever malloc leaves in memory, any n bytes send at most 2 n
-- / 7 messages in all.
pub read_all_bounded :
    (memory : Memory) (bs : List ℕ)
    → length (read_all (init_read_data memory) bs).1 * 7 ≤ length bs * 2
unfolding init_read_data
read_all_bounded memory bs = omega (arith, read_all_rate (init_read_data memory) bs)
