-- ===== src/Text/Decimal.antt =====
-- Laws of `decimal`, the model of `%d`.
use serial.Base.{
  ℕ, zero, suc, ◌+◌, ◌-◌, ◌*◌, ◌/◌, ◌%◌, ◌≤◌, ◌<◌, ◌≡◌, refl, sym, ap, ◌∙◌, [], ◌∷◌, ◌++◌, inl, inr,
  arith, ltb, Bool-cases, length, length-append, All, All-append,
}
use serial.Text.{Text, decimal_fuel, decimal}
use serial.Text.Buffer.{HasNoNul}

-- The number that decimal digits stand for.
abbrev pub value_from : ℕ → Text → ℕ
value_from acc [] = acc
value_from acc (c ∷ cs) = value_from (acc * 10 + (c - b'0')) cs

abbrev pub value : Text → ℕ
value = value_from 0

value_from-append :
    (acc : ℕ) (xs ys : Text) → value_from acc (xs ++ ys) ≡ value_from (value_from acc xs) ys
value_from-append acc [] ys = refl
value_from-append acc (x ∷ xs) ys = value_from-append (acc * 10 + (x - b'0')) xs ys

value-decimal_fuel : (f n : ℕ) → n < f → value (decimal_fuel f n) ≡ n
unfolding decimal_fuel
value-decimal_fuel zero n h = elim h [ ]
value-decimal_fuel (suc f) n h = ground (
  arith,
  value-decimal_fuel f (n / 10),
  value_from-append 0 (decimal_fuel f (n / 10)) ((b'0' + n % 10) ∷ []),
)

-- `%d` of any number is read back as that number.
pub value-decimal : (n : ℕ) → value (decimal n) ≡ n
unfolding decimal
value-decimal n = value-decimal_fuel (suc n) n (omega arith)

pub decimal_injective : (m n : ℕ) → decimal m ≡ decimal n → m ≡ n
decimal_injective m n e = sym (value-decimal m) ∙ ap value e ∙ value-decimal n

abbrev pub IsDigit : ℕ → Type 0
IsDigit c = (b'0' ≤ c) × (c ≤ b'9')

decimal_fuel-IsDigit : (f n : ℕ) → All IsDigit (decimal_fuel f n)
unfolding decimal_fuel
decimal_fuel-IsDigit zero n = tt
decimal_fuel-IsDigit (suc f) n = ground (
  arith,
  decimal_fuel-IsDigit f (n / 10),
  All-append IsDigit (decimal_fuel f (n / 10)) ((b'0' + n % 10) ∷ []),
)

pub decimal-IsDigit : (n : ℕ) → All IsDigit (decimal n)
unfolding decimal
decimal-IsDigit n = decimal_fuel-IsDigit (suc n) n

-- A number below 10 takes one digit.
pub decimal_small : (n : ℕ) → n < 10 → decimal n ≡ (b'0' + n) ∷ []
unfolding decimal decimal_fuel
decimal_small n h = ground arith

-- A number up to 10 takes two digits at most.
pub length-decimal_le : (n : ℕ) → n ≤ 10 → length (decimal n) ≤ 2
unfolding decimal decimal_fuel
length-decimal_le n h = elim (Bool-cases (ltb n 10)) [
  | inl e ↦ ground arith
  | inr e ↦ let t : n ≡ 10 = ground arith in ground (arith, ap (λ k. length (decimal k)) t)
]

-- `%d` prints one character at least, and no NUL.
pub decimal-ne-nil : (n : ℕ) → 0 < length (decimal n)
unfolding decimal decimal_fuel
decimal-ne-nil n = ground (arith, length-append (decimal_fuel n (n / 10)) ((b'0' + n % 10) ∷ []))

IsDigit-HasNoNul : (t : Text) → All IsDigit t → HasNoNul t
IsDigit-HasNoNul [] h = tt
IsDigit-HasNoNul (c ∷ t) h = (λ e. omega arith, IsDigit-HasNoNul t h.1)

pub decimal-HasNoNul : (n : ℕ) → HasNoNul (decimal n)
decimal-HasNoNul n = IsDigit-HasNoNul (decimal n) (decimal-IsDigit n)

-- 10 to the power k + 1.
abbrev pub ten_times : ℕ → ℕ
ten_times zero = 10
ten_times (suc k) = ten_times k * 10

-- A number below 10 to the power k + 1 takes k + 1 digits at most.
pub length-decimal_fuel : (k f n : ℕ) → n < ten_times k → length (decimal_fuel f n) ≤ k + 1
unfolding decimal_fuel
length-decimal_fuel k zero n h = omega arith
length-decimal_fuel zero (suc f) n h = ground arith
length-decimal_fuel (suc k) (suc f) n h = ground (
  arith,
  length-decimal_fuel k f (n / 10),
  length-append (decimal_fuel f (n / 10)) ((b'0' + n % 10) ∷ []),
)
