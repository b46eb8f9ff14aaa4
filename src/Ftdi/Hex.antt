-- ===== src/Ftdi/Hex.antt =====
-- What is printed to rawdata.txt, read back.
use serial.Base.{
  ℕ, ◌+◌, ◌-◌, ◌*◌, ◌/◌, ◌%◌, ◌<◌, ◌≡◌, refl, List, [], ◌∷◌, All, arith, ltb, if◌then◌else◌,
}
use mathlib.Core.Path.{ap₂}
use serial.Text.{Text}
use serial.Ftdi.{hex_digit, dump_to_file}

-- The value of a digit that %X prints.
unfoldable pub hex_value : ℕ → ℕ
hex_value c = if ltb c b'A' then c - b'0' else c - b'A' + 10

abbrev pub read_hex : Text → List ℕ
read_hex [] = []
read_hex (c ∷ []) = []
read_hex (c ∷ d ∷ cs) = (hex_value c * 16 + hex_value d) ∷ read_hex cs

hex_value-hex_digit : (n : ℕ) → n < 16 → hex_value (hex_digit n) ≡ n
unfolding hex_value hex_digit
hex_value-hex_digit n h = ground arith

-- The digits that `dumpToFile` writes for bytes are read back as the bytes.
pub read_hex-dump_to_file :
    (bytes : List ℕ) → All (λ b. b < 256) bytes → read_hex (dump_to_file bytes) ≡ bytes
unfolding dump_to_file
read_hex-dump_to_file [] small = refl
read_hex-dump_to_file (b ∷ bytes) small =
    let high = hex_value-hex_digit (b / 16) (omega arith) in
    let low = hex_value-hex_digit (b % 16) (omega arith) in
    let byte : hex_value (hex_digit (b / 16)) * 16 + hex_value (hex_digit (b % 16)) ≡ b =
      omega (arith, high, low) in
    ap₂ ◌∷◌ byte (read_hex-dump_to_file bytes small.1)
