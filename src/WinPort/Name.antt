-- ===== src/WinPort/Name.antt =====
-- The number of a port, read from its name.
use serial.Base.{ℕ, ◌+◌, ◌-◌, ◌*◌, ◌≤◌, ◌≡◌, true, false, [], ◌∷◌, arith}
use serial.Base.Int.{pos}
use serial.Text.{Text}
use serial.WinPort.{is_digit, digits_value, comport_number, in_table}

-- `com` with one digit, and with two.
abbrev pub short_name : ℕ → Text
short_name d = b'c' ∷ b'o' ∷ b'm' ∷ (b'0' + d) ∷ []

abbrev pub long_name : ℕ → ℕ → Text
long_name d e = b'c' ∷ b'o' ∷ b'm' ∷ (b'0' + d) ∷ (b'0' + e) ∷ []

-- A name with one digit has its number, whatever stands behind it.
pub comport_number_short :
    (d : ℕ) (behind : Text) → 1 ≤ d → d ≤ 9 → comport_number (short_name d) behind ≡ pos (d - 1)
unfolding comport_number digits_value
comport_number_short d behind lo hi = ground arith

-- A name with two digits has its number, if no digit stands behind the two characters in memory.
pub comport_number_long :
    (d e : ℕ) (c : ℕ) (behind : Text)
    → 1 ≤ d
    → d ≤ 9
    → e ≤ 9
    → is_digit c ≡ false
    → comport_number (long_name d e) (c ∷ behind) ≡ pos (d * 10 + e - 1)
unfolding comport_number digits_value
comport_number_long d e c behind lo hi he no_digit = ground arith

digits_value-le : (n : ℕ) (cs : Text) → n ≤ digits_value n cs
unfolding digits_value
digits_value-le n [] = omega arith
digits_value-le n (c ∷ cs) = ground (arith, digits_value-le (n * 10 + (c - b'0')) cs)

-- For a port name with two digits of which the first is not 0, a digit that stands behind the two
-- copied characters in memory makes a port number that is outside the table of ports.
pub comport_number_outside :
    (d e : ℕ) (c : ℕ) (behind : Text)
    → 1 ≤ d
    → d ≤ 9
    → e ≤ 9
    → is_digit c ≡ true
    → in_table (comport_number (long_name d e) (c ∷ behind)) ≡ false
unfolding comport_number digits_value
comport_number_outside d e c behind lo hi he digit =
    ground (arith, digits_value-le ((d * 10 + e) * 10 + (c - b'0')) behind)
