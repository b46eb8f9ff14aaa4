-- ===== src/Examples/Bytes.antt =====
-- The receiver at concrete streams of bytes.
use serial.Base.{
  ◌≢◌, ◌⊎◌, ℕ, ◌+◌, ◌*◌, ◌≤◌, ◌<◌, ◌≡◌, refl, true, List, [], ◌∷◌, ◌++◌, replicate, arith, length,
  get_or, All, none,
}
use serial.Board.{init_board, analyse, on_header}
use serial.Board.Sound.{IsSound, init_board-IsSound, analyse-IsSound}
use serial.Text.{codes, decimal, c_string, same}
use serial.Helper.{digit, digits_text}
use serial.Header.{get_header, header_text, null_header, init_analyse_header}
use serial.Protocol.{
  finish, restart, collect, process, store_digits, store_digit, channel_of, control_bit_of,
  Receiver, channel_length, is_address, digit_index, init_read_data, put_read_data, read_all,
}
use serial.Protocol.Digits.{write_all}
use serial.Protocol.Link.{link_run}
use serial.Protocol.Agree.{Agrees}
use serial.Protocol.Refine.{init_link, init-Agrees, read_all-link_run}
use serial.Protocol.Sound.{read_all_in_bounds}
use serial.Protocol.Rate.{read_all_bounded}
use serial.Protocol.Typed.{IsByte, IsTyped, read_all-IsTyped}
use serial.Protocol.Coding.{address_byte, digit_bytes, write_all-digit_bytes}
use serial.Protocol.LaneFrame.{lane_messages, read_all-lane_frame}
use serial.Board.Fits.{Fits}
use serial.Board.Score.{score_run}
use serial.Protocol.Decode.{decode, first_score, read_all-score_run}
use serial.Protocol.Fits.{read_all-Fits}
use serial.Examples.{some_memory, result_digits, result_row}

-- A time of 3.5 seconds on channel 0 (six digits), then the result of lane 3.
abbrev time_stream : List ℕ
time_stream = address_byte 0 0 ∷ digit_bytes 2 (10 ∷ 10 ∷ 10 ∷ 3 ∷ 5 ∷ 0 ∷ [])

abbrev lane_stream : List ℕ
lane_stream = time_stream ++ address_byte 3 0 ∷ (digit_bytes 0 result_digits ++ 0xBE ∷ [])

abbrev receiver_start : Receiver
receiver_start = init_read_data some_memory

read_all-link_run_example :
    Agrees (read_all receiver_start lane_stream).0 (link_run (init_link some_memory) lane_stream).0
    × ((read_all receiver_start lane_stream).1 ≡ (link_run (init_link some_memory) lane_stream).1)
read_all-link_run_example =
    read_all-link_run receiver_start (init_link some_memory) lane_stream (init-Agrees some_memory)

read_all_in_bounds_example :
    let r = (read_all receiver_start lane_stream).0 in
    ((r.colorado_start_detected ≢ 1) ⊎ (r.in_count < length r.buf))
    × (channel_length r.colorado_control_channel ≤ length r.buf)
    × (r.colorado_control_channel < length r.colorado_data)
    × (digit_index r.colorado_control_bit 0x7F
        < length (get_or r.colorado_data r.colorado_control_channel []))
read_all_in_bounds_example = read_all_in_bounds some_memory lane_stream 0x7F

lane_address : is_address (address_byte 3 0) ≡ true
unfolding is_address
lane_address = refl

next_address : is_address 0xBE ≡ true
unfolding is_address
next_address = refl

read_all-lane_frame_example :
    let r = (read_all receiver_start time_stream).0 in
    let (s, sent) = put_read_data r (address_byte 3 0) in
    (read_all r (address_byte 3 0 ∷ (digit_bytes 0 result_digits ++ 0xBE ∷ []))).1
    ≡ sent ++ lane_messages s.board 3 result_row
read_all-lane_frame_example =
    read_all-lane_frame some_memory time_stream result_digits 3 0xBE (omega arith) (omega arith)
      (omega arith)
      (
        omega arith,
        (
          omega arith,
          (
            omega arith,
            (omega arith, (omega arith, (omega arith, (omega arith, (omega arith, tt))))),
          ),
        ),
      )
      next_address

write_all-digit_bytes_example :
    get_or (write_all 1 (replicate 16 0) (digit_bytes 2 (7 ∷ 9 ∷ []))) ((2 + 1) * 2 + 1) 0
    ≡ get_or (7 ∷ 9 ∷ []) 1 0
write_all-digit_bytes_example =
    write_all-digit_bytes 1 2 1 (replicate 16 0) (7 ∷ 9 ∷ []) (omega arith) (omega arith)
      (omega arith) (omega arith, (omega arith, tt)) (omega arith)

analyse-IsSound_example : IsSound (analyse (init_board some_memory) 3 result_row).0
analyse-IsSound_example =
    analyse-IsSound (init_board some_memory) 3 result_row (init_board-IsSound some_memory)

-- A header with the digits 012 and 034, and two that the message leaves out between them.
abbrev header_stream : List ℕ
header_stream =
    address_byte 12 0 ∷ (digit_bytes 0 (0 ∷ 1 ∷ 2 ∷ 15 ∷ 15 ∷ 15 ∷ 3 ∷ 4 ∷ []) ++ 0xBE ∷ [])

header_messages :
    (read_all receiver_start header_stream).1 ≡ codes "header 012 034" ∷ codes "header 012 034" ∷ []
unfolding read_all put_read_data finish restart collect is_address channel_of control_bit_of
    channel_length process store_digits store_digit analyse on_header get_header header_text
    null_header init_read_data init_board init_analyse_header digit decimal c_string same
    digits_text
header_messages = refl

read_all-Fits_example : All Fits (read_all (init_read_data some_memory) lane_stream).1
read_all-Fits_example = read_all-Fits some_memory lane_stream (omega arith)

read_all-score_run_example :
    (read_all (init_read_data some_memory) lane_stream).1
    ≡ score_run first_score (decode none (replicate 32 (replicate 16 0x01)) lane_stream)
read_all-score_run_example = read_all-score_run some_memory lane_stream

-- The running time's frame, and a first byte of lane 1.
abbrev short_stream : List ℕ
short_stream = 0xBE ∷ 0x0F ∷ 0x1F ∷ 0x2F ∷ 0x39 ∷ 0x4C ∷ 0x5D ∷ 0xBC ∷ 0x0F ∷ []

short_stream_bytes : All IsByte short_stream
short_stream_bytes = ground arith

read_all-IsTyped_example : IsTyped (read_all (init_read_data some_memory) short_stream).0
read_all-IsTyped_example = read_all-IsTyped some_memory short_stream short_stream_bytes

read_all_bounded_example :
    length (read_all (init_read_data some_memory) lane_stream).1 * 7 ≤ length lane_stream * 2
read_all_bounded_example = read_all_bounded some_memory lane_stream
