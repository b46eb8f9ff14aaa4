-- ===== src/Protocol/Coding.antt =====
-- The bytes of a frame, as the scoreboard writes them, and how the masks and shifts of
-- analyseData.cpp read them.
use serial.Base.{
  ℕ, zero, suc, ◌+◌, ◌-◌, ◌*◌, ◌≤◌, ◌<◌, ◌≡◌, ◌≢◌, refl, sym, ap, ◌∙◌, true, false, List, [], ◌∷◌,
  arith, length, get_or, set, get_or-set_self, get_or-set_ne, length-set, All,
}
use serial.Helper.{Row}
use serial.Protocol.{is_address, channel_of, control_bit_of, digit_index, digit_value}
use serial.Protocol.Bits.{is_address_lem}
use serial.Protocol.Digits.{write_all}

-- The address byte of a channel with a control bit, and the byte of a digit's value.
abbrev pub address_byte : ℕ → ℕ → ℕ
address_byte channel bit = 128 + (31 - channel) * 2 + bit

abbrev pub digit_byte : ℕ → ℕ → ℕ
digit_byte number value = number * 16 + (15 - value)

-- The bytes of values for the digits from `number` on.
abbrev pub digit_bytes : ℕ → List ℕ → List ℕ
digit_bytes number [] = []
digit_bytes number (v ∷ vs) = digit_byte number v ∷ digit_bytes (number + 1) vs

-- The address byte of any of the 32 channels, with either control bit, is told from the other bytes
-- and gives back its channel and control bit.
pub address_byte_read :
    (channel bit : ℕ)
    → channel < 32
    → bit ≤ 1
    → (is_address (address_byte channel bit) ≡ true)
      × (channel_of (address_byte channel bit) ≡ channel)
      × (control_bit_of (address_byte channel bit) ≡ bit)
unfolding channel_of control_bit_of
address_byte_read channel bit hc hb =
    (ground (arith, is_address_lem (address_byte channel bit)), omega arith, omega arith)

pub digit_byte_read :
    (bit number value : ℕ)
    → number < 8
    → value ≤ 15
    → (is_address (digit_byte number value) ≡ false)
      × (digit_index bit (digit_byte number value) ≡ number * 2 + bit)
      × (digit_value (digit_byte number value) ≡ value)
unfolding digit_index digit_value
digit_byte_read bit number value hn hv =
    (ground (arith, is_address_lem (digit_byte number value)), omega arith, omega arith)

-- Digits that come later leave an index that is not theirs.
write_all_other :
    (bit number i : ℕ) (row : Row) (vs : List ℕ)
    → number + length vs ≤ 8
    → All (λ v. v ≤ 15) vs
    → ((n : ℕ) → number ≤ n → n < number + length vs → n * 2 + bit ≢ i)
    → get_or (write_all bit row (digit_bytes number vs)) i 0 ≡ get_or row i 0
unfolding write_all
write_all_other bit number i row [] fits small apart = refl
write_all_other bit number i row (v ∷ vs) fits small apart =
    let (data_byte, index, kept) = digit_byte_read bit number v (omega arith) small.0 in
    write_all_other bit (number + 1) i
      (set row (digit_index bit (digit_byte number v)) (digit_value (digit_byte number v))) vs
      (omega arith) small.1 (λ n lo hi. apart n (omega arith) (omega arith))
    ∙ get_or-set_ne row (digit_index bit (digit_byte number v)) i
        (digit_value (digit_byte number v)) 0
        (λ e. apart number (omega arith) (omega arith) (sym index ∙ e))

-- Up to eight nibbles, written into a row of 16 for the digits from `number` on with either control
-- bit, stand at the indices of their digits: each is read back.
pub write_all-digit_bytes :
    (bit number i : ℕ) (row : Row) (vs : List ℕ)
    → bit ≤ 1
    → length row ≡ 16
    → number + length vs ≤ 8
    → All (λ v. v ≤ 15) vs
    → i < length vs
    → get_or (write_all bit row (digit_bytes number vs)) ((number + i) * 2 + bit) 0 ≡ get_or vs i 0
unfolding write_all
write_all-digit_bytes bit number i row [] hb sixteen fits small within = elim within [ ]
write_all-digit_bytes bit number zero row (v ∷ vs) hb sixteen fits small within =
    let (data_byte, index, kept) = digit_byte_read bit number v (omega arith) small.0 in
    let row' =
      set row (digit_index bit (digit_byte number v)) (digit_value (digit_byte number v)) in
    let here : (number + 0) * 2 + bit ≡ digit_index bit (digit_byte number v) = omega arith in
    write_all_other bit (number + 1) ((number + 0) * 2 + bit) row' vs (omega arith) small.1
      (λ n lo hi e. omega arith)
    ∙ ap (λ k. get_or row' k 0) here
    ∙ get_or-set_self row (digit_index bit (digit_byte number v)) _ 0 (omega arith)
    ∙ kept
write_all-digit_bytes bit number (suc i) row (v ∷ vs) hb sixteen fits small within =
    let row' =
      set row (digit_index bit (digit_byte number v)) (digit_value (digit_byte number v)) in
    let shift : (number + suc i) * 2 + bit ≡ (number + 1 + i) * 2 + bit = omega arith in
    ap (λ k. get_or (write_all bit row' (digit_bytes (number + 1) vs)) k 0) shift
    ∙ write_all-digit_bytes bit (number + 1) i row' vs hb (length-set row _ _ ∙ sixteen)
        (omega arith) small.1 (omega arith)

odd_index : (b i : ℕ) → digit_index 1 b ≢ i * 2
unfolding digit_index
odd_index b i e = omega arith

-- The bytes of a frame with control bit 1, whatever they are, leave the digits of even index, which
-- are those that the analysers read.
pub write_all_odd :
    (i : ℕ) (row : Row) (bs : List ℕ) → get_or (write_all 1 row bs) (i * 2) 0 ≡ get_or row (i * 2) 0
unfolding write_all
write_all_odd i row [] = refl
write_all_odd i row (b ∷ bs) =
    write_all_odd i (set row (digit_index 1 b) (digit_value b)) bs
    ∙ get_or-set_ne row (digit_index 1 b) (i * 2) (digit_value b) 0 (odd_index b i)
