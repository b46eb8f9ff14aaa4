-- ===== src/Rounds/Count.antt =====
-- The counter of changes on channel 18.
use serial.Base.{
  ℕ, ◌+◌, ◌≤◌, ◌≡◌, ◌≢◌, refl, sym, List, [], ◌∷◌, arith, length, length-replicate, if◌then◌else◌,
}
use serial.Text.{Text, same, c_string, strcpy}
use serial.Text.Buffer.{same_iff, length-strcpy, c_string-strcpy}
use serial.Helper.{Row, digits_text_bounds, digits_text-HasNoNul}
use serial.Rounds.{
  Rounds, init_analyse_data, rounds_text, null_rounds, round_text, store_rounds, store_rows,
}

-- The buffer has 25 bytes.
abbrev pub IsValid : Rounds → Type 0
IsValid s = length s.store_rounds_data ≡ 25

abbrev pub stored : Rounds → Text
stored s = c_string s.store_rounds_data

pub init_analyse_data-IsValid : IsValid (init_analyse_data 25)
unfolding init_analyse_data
init_analyse_data-IsValid = length-replicate {A = ℕ} 25 b'0'

-- The eight digits of a row take 16 characters at most, so strcpy ends within the 25 bytes.
pub length-rounds_text : (row : Row) → length (rounds_text row) ≤ 16
unfolding rounds_text
length-rounds_text row =
    omega (arith, digits_text_bounds row (0 ∷ 2 ∷ 4 ∷ 6 ∷ 8 ∷ 10 ∷ 12 ∷ 14 ∷ []))

stored-strcpy :
    (s : Rounds) (row : Row)
    → IsValid s
    → c_string (strcpy s.store_rounds_data (rounds_text row)) ≡ rounds_text row
unfolding rounds_text
stored-strcpy s row v =
    c_string-strcpy s.store_rounds_data (rounds_text row) (digits_text-HasNoNul row _)
      (omega (arith, v, length-rounds_text row))

pub store_rounds-IsValid : (s : Rounds) (row : Row) → IsValid s → IsValid (store_rounds s row).0
unfolding store_rounds
store_rounds-IsValid s row v = ground (
  arith,
  length-strcpy s.store_rounds_data (rounds_text row),
  length-strcpy (strcpy s.store_rounds_data (rounds_text row)) (rounds_text row),
)

-- With a valid buffer, on every branch: an unchanged row sends nothing and any other sends the
-- round; a null row leaves the round at 0, another that is new counts one more, an unchanged one
-- none; and the row is stored.
pub store_rounds_step :
    (s : Rounds) (row : Row)
    → IsValid s
    → let (t, sent) = store_rounds s row in
      (stored t ≡ rounds_text row)
      × (sent ≡ (if same (rounds_text row) (stored s) then [] else round_text t.p_round ∷ []))
      × (t.p_round ≡ (
          if same (rounds_text row) null_rounds
          then 0
          else if same (rounds_text row) (stored s)
          then s.p_round
          else s.p_round + 1))
unfolding store_rounds
store_rounds_step s row v = ground (
  arith,
  stored-strcpy s row v,
  same_iff (rounds_text row) (stored s),
  same_iff (rounds_text row) (rounds_text row),
)

-- Each row differs from the one before it and is not null.
abbrev pub Changes : Text → List Row → Type 0
Changes last [] = Unit
Changes last (row ∷ rows) =
    (rounds_text row ≢ last) × (rounds_text row ≢ null_rounds) × Changes (rounds_text row) rows

-- The messages of n rounds after round p.
abbrev pub numbered : ℕ → List Row → List Text
numbered p [] = []
numbered p (row ∷ rows) = round_text (p + 1) ∷ numbered (p + 1) rows

store_rounds_counts :
    (s : Rounds) (row : Row)
    → IsValid s
    → rounds_text row ≢ stored s
    → rounds_text row ≢ null_rounds
    → let (t, sent) = store_rounds s row in
      (stored t ≡ rounds_text row)
      × (sent ≡ round_text (s.p_round + 1) ∷ [])
      × (t.p_round ≡ s.p_round + 1)
store_rounds_counts s row v new some_round = ground (
  arith,
  store_rounds_step s row v,
  same_iff (rounds_text row) (stored s),
  same_iff (rounds_text row) null_rounds,
)

-- With a valid buffer, rows of which each differs from the one before and none is null are
-- announced as the rounds after the present one, in order and each once.
pub store_rows-numbered :
    (s : Rounds) (rows : List Row)
    → IsValid s
    → Changes (stored s) rows
    → (store_rows s rows).1 ≡ numbered s.p_round rows
unfolding store_rows
store_rows-numbered s [] v changes = refl
store_rows-numbered s (row ∷ rows) v (new, some_round, later) =
    let t = (store_rounds s row).0 in
    let (now, told, count) = store_rounds_counts s row v new some_round in
    rw (
      told,
      store_rows-numbered t rows (store_rounds-IsValid s row v) (rw (sym now) at later),
      count,
    )
