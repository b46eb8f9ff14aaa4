-- ===== src/Protocol/Fits.antt =====
-- What any stream has printed into the analysers' arrays.
use serial.Base.{
  ℕ, zero, suc, ◌+◌, ◌-◌, ◌≤◌, ◌<◌, ◌≡◌, refl, ap, List, [], ◌∷◌, arith, length, All, All-append,
  get_or,
}
use serial.Lane.{Memory}
use serial.Rounds.{init_analyse_data}
use serial.Board.{init_board}
use serial.Text.Decimal.{ten_times}
use serial.Board.Fits.{Fits, analyse-Fits, analyse_round}
use serial.Protocol.{
  Receiver, channel_length, init_read_data, store_digit, store_digits, process, finish, restart,
  collect, put_read_data, read_all,
}

store_digits_board : (n j : ℕ) (r : Receiver) → (store_digits n j r).board ≡ r.board
unfolding store_digits store_digit
store_digits_board zero j r = refl
store_digits_board (suc n) j r = store_digits_board n (j + 1) (store_digit r j)

process_lem :
    (r : Receiver)
    → r.board.rounds.p_round + 1 < ten_times 9
    → All Fits (process r).1 × ((process r).0.board.rounds.p_round ≤ r.board.rounds.p_round + 1)
unfolding process
process_lem r h =
    let s = store_digits (channel_length r.colorado_control_channel - 1) 1 r in
    let row = get_or s.colorado_data s.colorado_control_channel [] in
    let same = store_digits_board (channel_length r.colorado_control_channel - 1) 1 r in
    (
      analyse-Fits s.board s.colorado_control_channel row (rw same h),
      omega (
        arith,
        analyse_round s.board s.colorado_control_channel row,
        ap (λ b. b.rounds.p_round) same,
      ),
    )

finish_lem :
    (r : Receiver)
    → r.board.rounds.p_round + 1 < ten_times 9
    → All Fits (finish r).1 × ((finish r).0.board.rounds.p_round ≤ r.board.rounds.p_round + 1)
unfolding finish
finish_lem r h = (ground (arith, process_lem r h), ground (arith, process_lem r h))

put_read_data_lem :
    (r : Receiver) (b : ℕ)
    → r.board.rounds.p_round + 1 < ten_times 9
    → All Fits (put_read_data r b).1
      × ((put_read_data r b).0.board.rounds.p_round ≤ r.board.rounds.p_round + 1)
unfolding put_read_data restart collect
put_read_data_lem r b h = (ground (arith, finish_lem r h), ground (arith, finish_lem r h))

read_all_lem :
    (r : Receiver) (bs : List ℕ)
    → r.board.rounds.p_round + length bs < ten_times 9
    → All Fits (read_all r bs).1
unfolding read_all
read_all_lem r [] h = tt
read_all_lem r (b ∷ bs) h =
    let s = (put_read_data r b).0 in
    let (fits, more) = put_read_data_lem r b (omega arith) in
    All-append Fits (put_read_data r b).1 (read_all s bs).1 fits (read_all_lem s bs (omega arith))

-- Over any stream of fewer than 2^31 bytes from the start of the program, every message fits, with
-- its NUL, the array that it is printed into: MQTT_LONG_LENGTH bytes for a round, a start and a
-- stop, and 64 for a lane, a time and a header.
pub read_all-Fits :
    (memory : Memory) (bs : List ℕ)
    → length bs < 2147483648
    → All Fits (read_all (init_read_data memory) bs).1
unfolding init_read_data init_board init_analyse_data
read_all-Fits memory bs h = read_all_lem (init_read_data memory) bs (omega arith)
