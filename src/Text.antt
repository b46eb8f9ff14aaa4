-- ===== src/Text.antt =====
-- What the program uses of the C string functions: sprintf's %d, strcmp, strncpy and strcpy, over lists of
-- bytes. A `Text` is what stands before the NUL; a buffer is the bytes of an allocation.
pub mod Decimal
pub mod Buffer
use Prim.Native.Char.{code}
use Prim.Native.String.{String}
use serial.Base.{
  ℕ, zero, suc, ◌+◌, ◌/◌, ◌%◌, ◌≡◌, Bool, true, false, ◌&&◌, List, [], ◌∷◌, ◌++◌, ltb, ◌==◌,
  if◌then◌else◌, take, drop,
}

abbrev pub Text : Type 0
Text = List ℕ

-- The code points of a literal; the program's literals are ASCII.
abbrev pub codes : String → Text
codes String.[] = []
codes (String.◌∷◌ c s) = code c ∷ codes s

-- `strcmp(a, b) == 0` on what stands before the NULs.
unfoldable pub same : Text → Text → Bool
same [] [] = true
same (x ∷ xs) (y ∷ ys) = x == y && same xs ys
same _ _ = false

-- The digits of `n`, the last one first made; the fuel is more than the number of digits.
unfoldable pub decimal_fuel : ℕ → ℕ → Text
decimal_fuel zero n = []
decimal_fuel (suc f) n =
    let front = decimal_fuel f (n / 10) in
    if ltb n 10 then (b'0' + n) ∷ [] else front ++ (b'0' + n % 10) ∷ []

-- `%d` of a number that is not negative.
unfoldable pub decimal : ℕ → Text
unfolding decimal_fuel
decimal n = decimal_fuel (suc n) n

-- What a buffer holds as a C string: the bytes up to the first NUL.
unfoldable pub c_string : List ℕ → Text
c_string [] = []
c_string (b ∷ bs) = let rest = c_string bs in if b == 0 then [] else b ∷ rest

-- `strncpy(dst, src, n)`: n bytes are written, those past the end of the source as NUL; where the
-- source has n bytes or more, no NUL is written.
unfoldable pub strncpy : List ℕ → Text → ℕ → List ℕ
strncpy dst src zero = dst
strncpy [] src (suc n) = []
strncpy (b ∷ dst) [] (suc n) = 0 ∷ strncpy dst [] n
strncpy (b ∷ dst) (c ∷ src) (suc n) = c ∷ strncpy dst src n

-- `strcpy(dst, src)`: the bytes of the source and one NUL.
unfoldable pub strcpy : List ℕ → Text → List ℕ
strcpy [] src = []
strcpy (b ∷ dst) [] = 0 ∷ dst
strcpy (b ∷ dst) (c ∷ src) = c ∷ strcpy dst src
