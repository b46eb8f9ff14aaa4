-- ===== src/Helper.antt =====
-- serialconnect/helperFunctions.cpp: the digits of a channel's row and their text.
use serial.Base.{
  ℕ, ◌+◌, ◌≤◌, List, [], ◌∷◌, ◌++◌, arith, ltb, ◌==◌, if◌then◌else◌, get_or, length, length-append,
  All-append,
}
use serial.Text.{Text, codes, decimal}
use serial.Text.Buffer.{HasNoNul}
use serial.Text.Decimal.{decimal-HasNoNul, decimal-ne-nil, length-decimal_le}

-- One row of `colorado_data`: 16 bytes, the digits of even index for control bit 0.
abbrev pub Row : Type 0
Row = List ℕ

unfoldable pub check_display_bit : ℕ → ℕ
check_display_bit displaybit = if displaybit == 0x0F then 0 else displaybit

abbrev pub get_null_bit : ℕ
get_null_bit = 0

-- A nibble above 10 is an empty digit and counts as 0.
unfoldable pub check_bit_value : ℕ → ℕ
check_bit_value d = if ltb 10 d then 0 else d

-- `checkBitValue(data[i])`.
unfoldable pub digit : Row → ℕ → ℕ
unfolding check_bit_value
digit row i = check_bit_value (get_or row i 0)

-- The arguments of a `%d%d…` in sprintf, one digit of the row for each index.
unfoldable pub digits_text : Row → List ℕ → Text
digits_text row [] = []
digits_text row (i ∷ is) = decimal (digit row i) ++ digits_text row is

-- The line that `showDisplayInternal` prints, every digit with the sign before it.
unfoldable pub dashed : Row → List ℕ → Text
dashed row [] = []
dashed row (i ∷ is) = codes "-" ++ decimal (digit row i) ++ dashed row is

unfoldable pub show_display_internal : Row → Text
unfolding dashed
show_display_internal row =
    codes "-> " ++ decimal (digit row 0) ++ dashed row (2 ∷ 4 ∷ 6 ∷ 8 ∷ 10 ∷ 12 ∷ 14 ∷ [])

pub digit-le : (row : Row) (i : ℕ) → digit row i ≤ 10
unfolding digit
digit-le row i = ground arith

pub digits_text-HasNoNul : (row : Row) (is : List ℕ) → HasNoNul (digits_text row is)
unfolding digits_text
digits_text-HasNoNul row [] = tt
digits_text-HasNoNul row (i ∷ is) =
    All-append _ (decimal (digit row i)) (digits_text row is) (decimal-HasNoNul (digit row i))
      (digits_text-HasNoNul row is)

-- sprintf of n digits writes between n and 2 n characters.
pub digits_text_bounds :
    (row : Row) (is : List ℕ)
    → (length is ≤ length (digits_text row is))
      × (length (digits_text row is) ≤ length is + length is)
unfolding digits_text
digits_text_bounds row [] = (omega arith, omega arith)
digits_text_bounds row (i ∷ is) =
    let ih = digits_text_bounds row is in
    let cut = length-append (decimal (digit row i)) (digits_text row is) in
    let short = length-decimal_le (digit row i) (digit-le row i) in
    let some_digit = decimal-ne-nil (digit row i) in (omega arith, omega arith)
