-- ===== src/Protocol/Bits.antt =====
-- What the mask, the shifts and the complement of the protocol select, over all bytes.
use Prim.Native.Nat.{bit_and}
use serial.Base.{ℕ, zero, suc, ◌≤◌, ◌<◌, ◌≡◌, refl, Bool, true, ◌&&◌, arith, leb, beq, ◌==◌}
use serial.Protocol.{is_address, channel_of, control_bit_of, digit_index, digit_value}

-- Whether a test passes at every number under a bound.
unfoldable pub passes : (ℕ → Bool) → ℕ → Bool
passes test zero = true
passes test (suc last) = passes test last && test last

pub passes_lem :
    (test : ℕ → Bool) (bound : ℕ) → passes test bound ≡ true → (x : ℕ) → x < bound → test x ≡ true
unfolding passes
passes_lem test zero all x within = elim within [ ]
passes_lem test (suc last) all x within = ground (arith, passes_lem test last _ x)

byte_passes : passes (λ b. beq (bit_and b 0x80 == 0x80) (leb 128 b)) 256 ≡ true
unfolding passes
byte_passes = refl

beq→eq : (a b : Bool) → beq a b ≡ true → a ≡ b
beq→eq a b h = ground arith

-- A byte is an address byte when it is 128 or more.
pub is_address_lem : (b : ℕ) → b < 256 → is_address b ≡ leb 128 b
unfolding is_address
is_address_lem b h = beq→eq _ _ (passes_lem _ 256 byte_passes b h)

pub channel_of_lt : (b : ℕ) → channel_of b < 32
unfolding channel_of
channel_of_lt b = omega arith

pub control_bit_of_le : (b : ℕ) → control_bit_of b ≤ 1
unfolding control_bit_of
control_bit_of_le b = omega arith

pub digit_index_lt : (bit b : ℕ) → bit ≤ 1 → digit_index bit b < 16
unfolding digit_index
digit_index_lt bit b h = omega arith

pub digit_value_le : (b : ℕ) → digit_value b ≤ 15
unfolding digit_value
digit_value_le b = omega arith
