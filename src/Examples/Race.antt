-- ===== src/Examples/Race.antt =====
-- A race from its first byte to a lane's result.
use serial.Base.{ℕ, zero, suc, ◌≡◌, refl, List, [], ◌∷◌, ◌++◌}
use serial.Text.{codes, decimal, c_string, same, strncpy}
use serial.Helper.{digit, digits_text}
use serial.RunningTime.{init_running_time, get_time, judge, time_hundredth, hundredths, time_text}
use serial.StartStop.{globals, any_digit, check_not_null, check_start_stop, start_text}
use serial.Lane.{
  null_short_data, null_place, reset_from, reset_all_data, reset_time_and_place, init_buffers,
  init_analyse_lane, short_data, place_text, lane_text, send_lane_data, compare_stored, store_lane,
  is_odd_row, lane_matches, get_lane_time, analyse_active_data,
}
use serial.Board.{init_board, on_lane, on_time, analyse}
use serial.Protocol.{
  finish, restart, collect, process, store_digits, store_digit, channel_of, control_bit_of,
  channel_length, is_address, init_read_data, put_read_data, read_all,
}
use serial.Protocol.Coding.{address_byte, digit_bytes}
use serial.Examples.{some_memory, result_digits}

-- The running time 00:03,5 as often as said.
abbrev running : ℕ → List ℕ
running zero = []
running (suc n) = address_byte 0 0 ∷ (digit_bytes 2 (15 ∷ 15 ∷ 15 ∷ 3 ∷ 5 ∷ 15 ∷ []) ++ running n)

-- 22 times, and then the result of lane 3 twice.
abbrev race : List ℕ
race =
    running 22
    ++ address_byte 3 0
      ∷ (digit_bytes 0 result_digits
          ++ address_byte 3 0 ∷ (digit_bytes 0 result_digits ++ 0xBE ∷ []))

race_messages :
    (read_all (init_read_data some_memory) race).1
    ≡ codes "start" ∷ codes "time 00:03,5" ∷ codes "lane 3 01:23,45 1" ∷ []
unfolding read_all put_read_data finish restart collect is_address channel_of control_bit_of
    channel_length process store_digits store_digit analyse on_lane on_time init_read_data
    init_board init_analyse_lane init_buffers init_running_time globals get_time judge
    time_hundredth hundredths time_text any_digit check_not_null check_start_stop start_text
    reset_from reset_all_data reset_time_and_place null_short_data null_place short_data place_text
    lane_text send_lane_data compare_stored store_lane is_odd_row lane_matches get_lane_time
    analyse_active_data digit digits_text decimal c_string same strncpy
race_messages = refl
