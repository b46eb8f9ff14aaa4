-- ===== src/Protocol/Sound.antt =====
-- The indices that `putReadData` uses, and the sizes of its arrays.
use mathlib.Core.Bool.{true≢false}
use serial.Base.{
  ◌≢◌, ◌⊎◌, sym, ==_iff, ◌==◌, ℕ, zero, suc, ◌+◌, ◌-◌, ◌≤◌, ◌<◌, ◌≡◌, refl, ◌∙◌, List, [], ◌∷◌,
  arith, length, length-set, replicate, inl, inr, Bool-cases, get_or, All, All-set, All-get_or,
  All-replicate,
}
use serial.Helper.{Row}
use serial.Lane.{Memory}
use serial.Board.{Board}
use serial.Board.Sound.{IsSound, init_board-IsSound, analyse-IsSound}
use serial.Protocol.{
  Receiver, colorado_channel_length, channel_length, is_address, digit_index, init_read_data,
  store_digit, store_digits, process, finish, restart, collect, put_read_data, read_all,
}
use serial.Protocol.Bits.{channel_of_lt, control_bit_of_le, digit_index_lt}

abbrev pub IsRow : Row → Type 0
IsRow row = length row ≡ 16

-- The arrays have their sizes, the channel and the control bit their ranges, and a frame that is
-- being read leaves room in the buffer.
pub record IsSafe (r : Receiver) : Type 0 where
  pub buf_length : length r.buf ≡ 10
  pub rows_length : length r.colorado_data ≡ 32
  pub rows_ok : All (λ (row : Row). length row ≡ 16) r.colorado_data
  pub channel_lt : r.colorado_control_channel < 32
  pub bit_le : r.colorado_control_bit ≤ 1
  pub flag_le : r.colorado_start_detected ≤ 1
  pub room : r.colorado_start_detected ≡ 1 → (1 ≤ r.in_count) × (r.in_count ≤ 9)
  pub board_sound : IsSound r.board

pub init_read_data-IsSafe : (memory : Memory) → IsSafe (init_read_data memory)
unfolding init_read_data
init_read_data-IsSafe memory = record {
  buf_length = refl;
  rows_length = refl;
  rows_ok = All-replicate IsRow 32 (replicate 16 0x01) refl;
  channel_lt = omega arith;
  bit_le = omega arith;
  flag_le = omega arith;
  room = λ h. absurd (omega arith);
  board_sound = init_board-IsSound memory;
}

pub IsRow-at :
    (r : Receiver) → IsSafe r → IsRow (get_or r.colorado_data r.colorado_control_channel [])
IsRow-at r v =
    All-get_or IsRow r.colorado_data r.colorado_control_channel []
      (omega (arith, v.channel_lt, v.rows_length)) v.rows_ok

-- The write of a digit keeps all but the rows, and each row its length.
store_digit-IsSafe : (r : Receiver) (j : ℕ) → IsSafe r → IsSafe (store_digit r j)
unfolding store_digit
store_digit-IsSafe r j v = record {
  buf_length = v.buf_length;
  rows_length = length-set r.colorado_data r.colorado_control_channel _ ∙ v.rows_length;
  rows_ok =
      All-set IsRow r.colorado_data r.colorado_control_channel _ v.rows_ok
        (length-set (get_or r.colorado_data r.colorado_control_channel []) _ _ ∙ IsRow-at r v);
  channel_lt = v.channel_lt;
  bit_le = v.bit_le;
  flag_le = v.flag_le;
  room = v.room;
  board_sound = v.board_sound;
}

store_digits-IsSafe : (n j : ℕ) (r : Receiver) → IsSafe r → IsSafe (store_digits n j r)
unfolding store_digits
store_digits-IsSafe zero j r v = v
store_digits-IsSafe (suc n) j r v =
    store_digits-IsSafe n (j + 1) (store_digit r j) (store_digit-IsSafe r j v)

with_board-IsSafe :
    (r : Receiver) (b : Board) → IsSafe r → IsSound b → IsSafe (record r { board = b })
with_board-IsSafe r b v s = record {
  buf_length = v.buf_length;
  rows_length = v.rows_length;
  rows_ok = v.rows_ok;
  channel_lt = v.channel_lt;
  bit_le = v.bit_le;
  flag_le = v.flag_le;
  room = v.room;
  board_sound = s;
}

process-IsSafe : (r : Receiver) → IsSafe r → IsSafe (process r).0
unfolding process
process-IsSafe r v =
    let s = store_digits (channel_length r.colorado_control_channel - 1) 1 r in
    let kept = store_digits-IsSafe (channel_length r.colorado_control_channel - 1) 1 r v in
    with_board-IsSafe s _ kept (
      analyse-IsSound s.board s.colorado_control_channel
        (get_or s.colorado_data s.colorado_control_channel []) kept.board_sound)

finish-IsSafe : (r : Receiver) → IsSafe r → IsSafe (finish r).0
unfolding finish
finish-IsSafe r v = ground (arith, process-IsSafe r v)

restart-IsSafe : (r : Receiver) (b : ℕ) → IsSafe r → IsSafe (restart r b)
unfolding restart
restart-IsSafe r b v = record {
  buf_length = length-set r.buf 0 b ∙ v.buf_length;
  rows_length = v.rows_length;
  rows_ok = v.rows_ok;
  channel_lt = channel_of_lt b;
  bit_le = control_bit_of_le b;
  flag_le = omega arith;
  room = λ h. (omega arith, omega arith);
  board_sound = v.board_sound;
}

collect-IsSafe : (r : Receiver) (b : ℕ) → IsSafe r → IsSafe (collect r b)
unfolding collect
collect-IsSafe r b v = ground (arith, length-set r.buf r.in_count b)

-- A byte of any value keeps the arrays and their indices safe.
pub put_read_data-IsSafe : (r : Receiver) (b : ℕ) → IsSafe r → IsSafe (put_read_data r b).0
unfolding put_read_data
put_read_data-IsSafe r b v = elim (Bool-cases (is_address b)) [
  | inl e ↦ rw e (restart-IsSafe (finish r).0 b (finish-IsSafe r v))
  | inr e ↦ rw e (collect-IsSafe r b v)
]

pub read_all-IsSafe : (r : Receiver) (bs : List ℕ) → IsSafe r → IsSafe (read_all r bs).0
unfolding read_all
read_all-IsSafe r [] v = v
read_all-IsSafe r (b ∷ bs) v = read_all-IsSafe (put_read_data r b).0 bs (put_read_data-IsSafe r b v)

pub channel_length_le : (c : ℕ) → c < 32 → channel_length c ≤ 9
unfolding channel_length
channel_length_le c h = All-get_or (λ n. n ≤ 9) colorado_channel_length c 0 h (omega arith)

-- After any stream from the start of the program, and for any byte that a digit is read from: while
-- a channel is collected there is room in the buffer for the next byte, no channel's length exceeds
-- the buffer, and the channel and the digit's index are within the rows.
pub read_all_in_bounds :
    (memory : Memory) (bs : List ℕ) (b : ℕ)
    → let r = (read_all (init_read_data memory) bs).0 in
      ((r.colorado_start_detected ≢ 1) ⊎ (r.in_count < length r.buf))
      × (channel_length r.colorado_control_channel ≤ length r.buf)
      × (r.colorado_control_channel < length r.colorado_data)
      × (digit_index r.colorado_control_bit b
          < length (get_or r.colorado_data r.colorado_control_channel []))
read_all_in_bounds memory bs b =
    let r = (read_all (init_read_data memory) bs).0 in
    let v = read_all-IsSafe (init_read_data memory) bs (init_read_data-IsSafe memory) in
    (
      elim (Bool-cases (r.colorado_start_detected == 1)) [
        | inl e ↦
            inr (omega (arith, v.room ((==_iff r.colorado_start_detected 1).0 e), v.buf_length))
        | inr e ↦ inl (λ h. true≢false (sym ((==_iff r.colorado_start_detected 1).1 h) ∙ e))
      ],
      omega (arith, channel_length_le r.colorado_control_channel v.channel_lt, v.buf_length),
      omega (arith, v.channel_lt, v.rows_length),
      omega (arith, digit_index_lt r.colorado_control_bit b v.bit_le, IsRow-at r v),
    )
