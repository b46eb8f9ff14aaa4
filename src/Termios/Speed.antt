-- ===== src/Termios/Speed.antt =====
-- see_speed of receiver/read.cpp: the name of a speed, printed into a static array.
use serial.Base.{
  ℕ, suc, ◌+◌, ◌<◌, ◌≤◌, List, [], ◌∷◌, ◌++◌, ◌==◌, if◌then◌else◌, length, length-append, All,
  arith,
}
use serial.Text.{Text, codes, decimal}
use serial.Text.Decimal.{ten_times, length-decimal_fuel}

abbrev pub speed_names : List Text
speed_names =
    codes "B0"
    ∷ codes "B50"
    ∷ codes "B75"
    ∷ codes "B110"
    ∷ codes "B134"
    ∷ codes "B150"
    ∷ codes "B200"
    ∷ codes "B300"
    ∷ codes "B600"
    ∷ codes "B1200"
    ∷ codes "B1800"
    ∷ codes "B2400"
    ∷ codes "B4800"
    ∷ codes "B9600"
    ∷ codes "B19200"
    ∷ codes "B38400"
    ∷ []

-- The default case, for a speed below 2^31.
abbrev pub unknown_speed : ℕ → Text
unknown_speed speed = codes "unknown (" ++ decimal speed ++ codes ")"

-- The cases of the switch, at the constants that are left and their names.
unfoldable pub name_of : List ℕ → List Text → ℕ → Text
name_of [] names speed = unknown_speed speed
name_of (b ∷ bs) [] speed = unknown_speed speed
name_of (b ∷ bs) (name ∷ names) speed =
    let rest = name_of bs names speed in if speed == b then name else rest

-- `see_speed`, at the values that the platform gives to B0 and the other constants, in order.
unfoldable pub see_speed : List ℕ → ℕ → Text
see_speed constants speed = name_of constants speed_names speed

-- A name ends within SPEED[20], with its NUL.
abbrev Short : Text → Type 0
Short name = length name + 1 ≤ 20

unknown_speed-Short : (speed : ℕ) → speed < ten_times 8 → Short (unknown_speed speed)
unfolding decimal
unknown_speed-Short speed h =
    let digits : length (decimal speed) ≤ 9 = length-decimal_fuel 8 (suc speed) speed h in
    simp length-append (omega arith)

name_of-Short :
    (constants : List ℕ) (names : List Text) (speed : ℕ)
    → speed < ten_times 8
    → All Short names
    → Short (name_of constants names speed)
unfolding name_of
name_of-Short [] names speed h short = unknown_speed-Short speed h
name_of-Short (b ∷ bs) [] speed h short = unknown_speed-Short speed h
name_of-Short (b ∷ bs) (name ∷ names) speed h short =
    ground (arith, name_of-Short bs names speed h short.1, short.0)

-- Whatever the constants are, what see_speed prints for a speed of at most nine digits ends within
-- SPEED[20], with its NUL.
pub see_speed-Short :
    (constants : List ℕ) (speed : ℕ)
    → speed < ten_times 8
    → length (see_speed constants speed) + 1 ≤ 20
unfolding see_speed
see_speed-Short constants speed h = name_of-Short constants speed_names speed h (grind arith)
