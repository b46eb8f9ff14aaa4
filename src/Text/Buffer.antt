-- ===== src/Text/Buffer.antt =====
-- Laws of `same`, `c_string` and `strncpy`.
use serial.Base.{
  ℕ, zero, suc, ◌≤◌, ◌<◌, ◌≡◌, ◌≢◌, ◌↔◌, refl, ap, true, List, [], ◌∷◌, arith, Bool-cases, inl, inr,
  false, length, take, All, get_or,
}
use serial.Text.{Text, same, c_string, strncpy, strcpy}

pub same_iff : (a b : Text) → (same a b ≡ true) ↔ (a ≡ b)
unfolding same
same_iff (x ∷ a) (y ∷ b) = ground (arith, same_iff a b)
same_iff _ _ = ground arith

pub same-false : (a b : Text) → length a ≢ length b → same a b ≡ false
same-false a b h = elim (Bool-cases (same a b)) [
  | inl e ↦ absurd (h (ap length ((same_iff a b).0 e)))
  | inr e ↦ e
]

pub length-strncpy : (dst src : List ℕ) (n : ℕ) → length (strncpy dst src n) ≡ length dst
unfolding strncpy
length-strncpy dst src zero = refl
length-strncpy [] src (suc n) = refl
length-strncpy (b ∷ dst) [] (suc n) = ap suc (length-strncpy dst [] n)
length-strncpy (b ∷ dst) (c ∷ src) (suc n) = ap suc (length-strncpy dst src n)

-- Bytes from the n-th on keep their value.
pub get_or-strncpy_above :
    (dst src : List ℕ) (n i d : ℕ) → n ≤ i → get_or (strncpy dst src n) i d ≡ get_or dst i d
unfolding strncpy
get_or-strncpy_above dst src zero i d h = refl
get_or-strncpy_above [] src (suc n) i d h = refl
get_or-strncpy_above (b ∷ dst) [] (suc n) (suc i) d h =
    get_or-strncpy_above dst [] n i d (omega arith)
get_or-strncpy_above (b ∷ dst) (c ∷ src) (suc n) (suc i) d h =
    get_or-strncpy_above dst src n i d (omega arith)
get_or-strncpy_above (b ∷ dst) src (suc n) zero d h = elim h [ ]

-- No byte of a text is the NUL.
abbrev pub HasNoNul : Text → Type 0
HasNoNul = All (λ c. c ≢ 0)

-- A copy of n bytes before a NUL leaves the first n bytes of the source as the string.
pub c_string-strncpy :
    (dst src : List ℕ) (n : ℕ)
    → HasNoNul src
    → n < length dst
    → get_or dst n 1 ≡ 0
    → c_string (strncpy dst src n) ≡ take n src
unfolding strncpy c_string
c_string-strncpy [] src n s h z = elim h [ ]
c_string-strncpy (b ∷ dst) src zero s h z = ground arith
c_string-strncpy (b ∷ dst) [] (suc n) s h z = refl
c_string-strncpy (b ∷ dst) (c ∷ src) (suc n) s h z =
    ground (arith, c_string-strncpy dst src n s.1 (omega arith) z)

pub take_all {ℓ} : {A : Type ℓ} (n : ℕ) (xs : List A) → length xs ≤ n → take n xs ≡ xs
take_all zero [] h = refl
take_all zero (x ∷ xs) h = elim h [ ]
take_all (suc n) [] h = refl
take_all (suc n) (x ∷ xs) h = ap (◌∷◌ x) (take_all n xs (omega arith))

pub length-take_le {ℓ} : {A : Type ℓ} (n : ℕ) (xs : List A) → length (take n xs) ≤ n
length-take_le zero xs = omega arith
length-take_le (suc n) [] = omega arith
length-take_le (suc n) (x ∷ xs) = omega (arith, length-take_le n xs)

-- A text that is shorter than the count comes over whole, with its NUL.
pub c_string-strncpy_short :
    (dst src : List ℕ) (n : ℕ)
    → HasNoNul src
    → length src < n
    → n ≤ length dst
    → c_string (strncpy dst src n) ≡ src
unfolding strncpy c_string
c_string-strncpy_short dst src zero s h k = elim h [ ]
c_string-strncpy_short [] src (suc n) s h k = elim k [ ]
c_string-strncpy_short (b ∷ dst) [] (suc n) s h k = refl
c_string-strncpy_short (b ∷ dst) (c ∷ src) (suc n) s h k =
    ground (arith, c_string-strncpy_short dst src n s.1 (omega arith) (omega arith))

pub length-strcpy : (dst src : List ℕ) → length (strcpy dst src) ≡ length dst
unfolding strcpy
length-strcpy [] src = refl
length-strcpy (b ∷ dst) [] = refl
length-strcpy (b ∷ dst) (c ∷ src) = ap suc (length-strcpy dst src)

pub c_string-strcpy :
    (dst src : List ℕ) → HasNoNul src → length src < length dst → c_string (strcpy dst src) ≡ src
unfolding strcpy c_string
c_string-strcpy [] src s h = elim h [ ]
c_string-strcpy (b ∷ dst) [] s h = refl
c_string-strcpy (b ∷ dst) (c ∷ src) s h = ground (arith, c_string-strcpy dst src s.1 (omega arith))

-- The bytes between the end of the source and the count are NUL.
pub get_or-strncpy_pad :
    (dst src : List ℕ) (n i d : ℕ)
    → length src ≤ i
    → i < n
    → i < length dst
    → get_or (strncpy dst src n) i d ≡ 0
unfolding strncpy
get_or-strncpy_pad dst src zero i d h k m = elim k [ ]
get_or-strncpy_pad [] src (suc n) i d h k m = elim m [ ]
get_or-strncpy_pad (b ∷ dst) [] (suc n) zero d h k m = refl
get_or-strncpy_pad (b ∷ dst) [] (suc n) (suc i) d h k m =
    get_or-strncpy_pad dst [] n i d (omega arith) (omega arith) (omega arith)
get_or-strncpy_pad (b ∷ dst) (c ∷ src) (suc n) zero d h k m = elim h [ ]
get_or-strncpy_pad (b ∷ dst) (c ∷ src) (suc n) (suc i) d h k m =
    get_or-strncpy_pad dst src n i d (omega arith) (omega arith) (omega arith)
