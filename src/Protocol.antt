-- ===== src/Protocol.antt =====
-- serialconnect/analyseData.cpp: `putReadData` collects the bytes of a channel behind an address
-- byte, and the next address byte has them stored and analysed if their number is the channel's.
pub mod Bits
pub mod Digits
pub mod Link
pub mod Agree
pub mod Refine
pub mod Sound
pub mod Typed
pub mod Coding
pub mod Stream
pub mod Frames
pub mod LaneFrame
pub mod Runs
pub mod Fits
pub mod Rate
pub mod Decode
pub mod Handed
use Prim.Native.Nat.{bit_and}
use serial.Base.{
  ℕ, zero, suc, ◌+◌, ◌-◌, ◌*◌, ◌/◌, ◌%◌, ◌^◌, Bool, List, [], ◌∷◌, ◌++◌, ltb, ◌==◌, if◌then◌else◌,
  get_or, set, replicate,
}
use serial.Text.{Text}
use serial.Helper.{Row}
use serial.Lane.{Memory}
use serial.Board.{Board, init_board, analyse}

-- The globals of the file that the code reads; the last is the state behind the analysers.
pub record Receiver : Type 0 where
  pub colorado_start_detected : ℕ  -- uint8_t
  pub buf : List ℕ
  pub colorado_data : List Row
  pub colorado_control_channel : ℕ  -- uint8_t
  pub colorado_control_bit : ℕ  -- uint8_t
  pub in_count : ℕ  -- uint8_t
  pub board : Board

abbrev pub colorado_channels : ℕ
colorado_channels = 32

abbrev pub colorado_rows : ℕ
colorado_rows = 16

abbrev pub buffer_length : ℕ
buffer_length = 10

abbrev pub colorado_channel_length : List ℕ
colorado_channel_length =
    7 ∷ 9 ∷ 9 ∷ 9 ∷ 9 ∷ 9 ∷ 9 ∷ 9 ∷ 9 ∷ 9 ∷ 9 ∷ 0 ∷ 9 ∷ 0 ∷ 9 ∷ 9 ∷ 0 ∷ 9 ∷ 9 ∷ 0 ∷ 0 ∷ 0 ∷ 5 ∷ 0
    ∷ 0 ∷ 0 ∷ 0 ∷ 0 ∷ 0 ∷ 0 ∷ 0 ∷ 0 ∷ []

unfoldable pub channel_length : ℕ → ℕ
channel_length channel = get_or colorado_channel_length channel 0

-- x >> k, x & (2^k - 1) and (~x) & (2^k - 1).
abbrev pub shr : ℕ → ℕ → ℕ
shr x k = x / 2 ^ k

abbrev pub low_bits : ℕ → ℕ → ℕ
low_bits x k = x % 2 ^ k

abbrev pub not_low_bits : ℕ → ℕ → ℕ
not_low_bits x k = 2 ^ k - 1 - x % 2 ^ k

-- (ReadData & COLORADO_ADDRESS_WORD_MASK) == COLORADO_ADDRESS_WORD_MASK
unfoldable pub is_address : ℕ → Bool
is_address b = bit_and b 0x80 == 0x80

-- (~(buf[0] >> 1)) & 0x1F, and buf[0] & 0x01.
unfoldable pub channel_of : ℕ → ℕ
channel_of b = not_low_bits (shr b 1) 5

unfoldable pub control_bit_of : ℕ → ℕ
control_bit_of b = low_bits b 1

-- (colorado_digit_no << 1) + colorado_control_bit, and (~buf[j]) & 0x0F.
unfoldable pub digit_index : ℕ → ℕ → ℕ
digit_index bit b = low_bits (shr b 4) 3 * 2 + bit

unfoldable pub digit_value : ℕ → ℕ
digit_value b = not_low_bits b 4

-- The globals are zero, and `initReadData` fills the rows with 0x01.
unfoldable pub init_read_data : Memory → Receiver
init_read_data memory = record {
  colorado_start_detected = 0;
  buf = replicate buffer_length 0;
  colorado_data = replicate colorado_channels (replicate colorado_rows 0x01);
  colorado_control_channel = 0;
  colorado_control_bit = 0;
  in_count = 0;
  board = init_board memory;
}

-- The body of the loop over the collected bytes: one digit of the channel's row.
unfoldable pub store_digit : Receiver → ℕ → Receiver
unfolding digit_index digit_value
store_digit r j =
    let b = get_or r.buf j 0 in
    let row = get_or r.colorado_data r.colorado_control_channel [] in
    record r {
      colorado_data =
          set r.colorado_data r.colorado_control_channel
            (set row (digit_index r.colorado_control_bit b) (digit_value b));
    }

-- The loop with n rounds left, from j on.
unfoldable pub store_digits : ℕ → ℕ → Receiver → Receiver
store_digits zero j r = r
store_digits (suc n) j r = store_digits n (j + 1) (store_digit r j)

-- A channel is complete: store it and hand its row to the analysers.
unfoldable pub process : Receiver → Receiver × List Text
process r =
    let s = store_digits (channel_length r.colorado_control_channel - 1) 1 r in
    let (board, sent) =
      analyse s.board s.colorado_control_channel
        (get_or s.colorado_data s.colorado_control_channel []) in
    (record s { board = board }, sent)

-- What an address byte does with the channel before it.
unfoldable pub finish : Receiver → Receiver × List Text
finish r =
    if r.colorado_start_detected == 1
    then (if r.in_count == channel_length r.colorado_control_channel then process r else (r, []))
    else (r, [])

-- The address byte itself.
unfoldable pub restart : Receiver → ℕ → Receiver
restart r b = record r {
  in_count = 1;
  colorado_start_detected = 1;
  buf = set r.buf 0 b;
  colorado_control_bit = control_bit_of b;
  colorado_control_channel = channel_of b;
}

-- Any other byte.
unfoldable pub collect : Receiver → ℕ → Receiver
collect r b =
    let in_count = (r.in_count + 1) % 256 in
    let s = record r { buf = set r.buf r.in_count b; in_count = in_count } in
    if r.colorado_start_detected == 1
    then (if ltb 9 in_count then record s { colorado_start_detected = 0 } else s)
    else r

unfoldable pub put_read_data : Receiver → ℕ → Receiver × List Text
put_read_data r b =
    let (s, sent) = finish r in if is_address b then (restart s b, sent) else (collect r b, [])

-- The bytes of a stream, one after the other, with all that is sent.
unfoldable pub read_all : Receiver → List ℕ → Receiver × List Text
read_all r [] = (r, [])
read_all r (b ∷ bs) =
    let (s, sent) = put_read_data r b in let (t, later) = read_all s bs in (t, sent ++ later)
