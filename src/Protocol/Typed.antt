-- ===== src/Protocol/Typed.antt =====
-- The C types of the globals of serialconnect/analyseData.cpp: each number that the code keeps in a
-- uint8_t is one.
use serial.Base.{
  ℕ, zero, suc, ◌+◌, ◌-◌, ◌≤◌, ◌<◌, List, [], ◌∷◌, arith, get_or, All, All-set, All-replicate,
  Bool-cases, inl, inr, replicate,
}
use serial.Helper.{Row}
use serial.Lane.{Memory}
use serial.Protocol.{
  Receiver, channel_length, is_address, init_read_data, store_digit, store_digits, process, finish,
  restart, collect, put_read_data, read_all,
}
use serial.Protocol.Bits.{channel_of_lt, control_bit_of_le, digit_value_le}

abbrev pub IsByte : ℕ → Type 0
IsByte b = b < 256

abbrev pub IsNibble : ℕ → Type 0
IsNibble b = b < 16

abbrev pub IsDigits : Row → Type 0
IsDigits row = All IsNibble row

-- The buffer holds bytes, the rows nibbles, and the counters and flags fit.
pub record IsTyped (r : Receiver) : Type 0 where
  pub buf_typed : All IsByte r.buf
  pub data_typed : All IsDigits r.colorado_data
  pub channel_typed : r.colorado_control_channel < 32
  pub bit_typed : r.colorado_control_bit ≤ 1
  pub flag_typed : r.colorado_start_detected ≤ 1
  pub count_typed : IsByte r.in_count

init_read_data-IsTyped : (memory : Memory) → IsTyped (init_read_data memory)
unfolding init_read_data
init_read_data-IsTyped memory = record {
  buf_typed = All-replicate IsByte 10 0 (omega arith);
  data_typed =
      All-replicate IsDigits 32 (replicate 16 1) (All-replicate IsNibble 16 1 (omega arith));
  channel_typed = omega arith;
  bit_typed = omega arith;
  flag_typed = omega arith;
  count_typed = omega arith;
}

IsDigits-get_or : (rows : List Row) (i : ℕ) → All IsDigits rows → IsDigits (get_or rows i [])
IsDigits-get_or [] i h = tt
IsDigits-get_or (row ∷ rows) zero h = h.0
IsDigits-get_or (row ∷ rows) (suc i) h = IsDigits-get_or rows i h.1

store_digit-IsTyped : (r : Receiver) (j : ℕ) → IsTyped r → IsTyped (store_digit r j)
unfolding store_digit
store_digit-IsTyped r j v = record {
  buf_typed = v.buf_typed;
  data_typed = All-set IsDigits r.colorado_data r.colorado_control_channel _ v.data_typed (
      All-set IsNibble (get_or r.colorado_data r.colorado_control_channel []) _ _
        (IsDigits-get_or r.colorado_data r.colorado_control_channel v.data_typed)
        (omega (arith, digit_value_le (get_or r.buf j 0))));
  channel_typed = v.channel_typed;
  bit_typed = v.bit_typed;
  flag_typed = v.flag_typed;
  count_typed = v.count_typed;
}

store_digits-IsTyped : (n j : ℕ) (r : Receiver) → IsTyped r → IsTyped (store_digits n j r)
unfolding store_digits
store_digits-IsTyped zero j r v = v
store_digits-IsTyped (suc n) j r v =
    store_digits-IsTyped n (j + 1) (store_digit r j) (store_digit-IsTyped r j v)

process-IsTyped : (r : Receiver) → IsTyped r → IsTyped (process r).0
unfolding process
process-IsTyped r v =
    let k = store_digits-IsTyped (channel_length r.colorado_control_channel - 1) 1 r v in
    record {
      buf_typed = k.buf_typed;
      data_typed = k.data_typed;
      channel_typed = k.channel_typed;
      bit_typed = k.bit_typed;
      flag_typed = k.flag_typed;
      count_typed = k.count_typed;
    }

finish-IsTyped : (r : Receiver) → IsTyped r → IsTyped (finish r).0
unfolding finish
finish-IsTyped r v = ground (arith, process-IsTyped r v)

restart-IsTyped : (r : Receiver) (b : ℕ) → IsByte b → IsTyped r → IsTyped (restart r b)
unfolding restart
restart-IsTyped r b byte v = record {
  buf_typed = All-set IsByte r.buf 0 b v.buf_typed byte;
  data_typed = v.data_typed;
  channel_typed = channel_of_lt b;
  bit_typed = control_bit_of_le b;
  flag_typed = omega arith;
  count_typed = omega arith;
}

collect-IsTyped : (r : Receiver) (b : ℕ) → IsByte b → IsTyped r → IsTyped (collect r b)
unfolding collect
collect-IsTyped r b byte v =
    let stored = All-set IsByte r.buf r.in_count b v.buf_typed byte in ground (arith, stored)

put_read_data-IsTyped :
    (r : Receiver) (b : ℕ) → IsByte b → IsTyped r → IsTyped (put_read_data r b).0
unfolding put_read_data
put_read_data-IsTyped r b byte v = elim (Bool-cases (is_address b)) [
  | inl e ↦ rw e (restart-IsTyped (finish r).0 b byte (finish-IsTyped r v))
  | inr e ↦ rw e (collect-IsTyped r b byte v)
]

read_on-IsTyped :
    (r : Receiver) (bs : List ℕ) → All IsByte bs → IsTyped r → IsTyped (read_all r bs).0
unfolding read_all
read_on-IsTyped r [] bytes v = v
read_on-IsTyped r (b ∷ bs) bytes v =
    read_on-IsTyped (put_read_data r b).0 bs bytes.1 (put_read_data-IsTyped r b bytes.0 v)

-- After any stream of bytes from the start of the program each global of the receiver fits its
-- uint8_t: the buffer and its counter hold bytes, each row nibbles, and the channel, the control
-- bit and the flag have their ranges.
pub read_all-IsTyped :
    (memory : Memory) (bs : List ℕ)
    → All IsByte bs
    → IsTyped (read_all (init_read_data memory) bs).0
read_all-IsTyped memory bs bytes =
    read_on-IsTyped (init_read_data memory) bs bytes (init_read_data-IsTyped memory)
