-- ===== src/Rounds.antt =====
-- serialconnect/serialUtils.cpp (initanalyseData, storeRoundsInternal): how often the row of channel
-- 18 has changed since it was last all 0. The texts that a function returns are its calls of
-- mqtt_send. `p_round` is an int; it is a number without bound here.
pub mod Count
use serial.Base.{ℕ, ◌+◌, List, [], ◌∷◌, ◌++◌, if◌then◌else◌, replicate}
use serial.Text.{Text, codes, decimal, same, c_string, strcpy}
use serial.Helper.{Row, digits_text}

pub record Rounds : Type 0 where
  pub p_round : ℕ
  pub store_rounds_data : List ℕ

-- The buffer is filled with '0' to its end, with no NUL.
unfoldable pub init_analyse_data : ℕ → Rounds
init_analyse_data mqtt_long_length = record {
  p_round = 0;
  store_rounds_data = replicate mqtt_long_length b'0';
}

unfoldable pub rounds_text : Row → Text
rounds_text row = digits_text row (0 ∷ 2 ∷ 4 ∷ 6 ∷ 8 ∷ 10 ∷ 12 ∷ 14 ∷ [])

unfoldable pub null_rounds : Text
null_rounds = codes "00000000"

unfoldable pub round_text : ℕ → Text
round_text n = codes "round " ++ decimal n

-- `if (strcmp(mydata, storeRoundsData) != 0)` with its body: a changed text is stored and sent.
unfoldable pub send_round : Rounds → Text → ℕ → Rounds × List Text
send_round s mydata n = if same mydata (c_string s.store_rounds_data) then (s, []) else (
  record { p_round = n; store_rounds_data = strcpy s.store_rounds_data mydata },
  round_text n ∷ [],
)

-- The first `if`: at the null text the count starts again.
unfoldable pub clear_rounds : Rounds → Text → Rounds × List Text
clear_rounds s mydata =
    if same mydata null_rounds then send_round (record s { p_round = 0 }) mydata 0 else (s, [])

unfoldable pub store_rounds : Rounds → Row → Rounds × List Text
unfolding clear_rounds send_round
store_rounds s row =
    let (t, cleared) = clear_rounds s (rounds_text row) in
    let (u, counted) = send_round t (rounds_text row) (t.p_round + 1) in (u, cleared ++ counted)

-- The rows of channel 18, one after the other.
unfoldable pub store_rows : Rounds → List Row → Rounds × List Text
store_rows s [] = (s, [])
store_rows s (row ∷ rows) =
    let (t, sent) = store_rounds s row in let (u, later) = store_rows t rows in (u, sent ++ later)
