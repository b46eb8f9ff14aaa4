-- ===== src/Header/Report.antt =====
-- When a header is reported, and what else it changes.
use serial.Base.{
  ℕ, ◌<◌, ◌≡◌, ◌≢◌, refl, ◌⊎◌, [], ◌∷◌, ◌++◌, arith, length, length-append, length-replicate,
  All-append,
}
use serial.Text.{Text, codes, c_string}
use serial.Text.Buffer.{HasNoNul, same_iff, length-strncpy, c_string-strncpy_short}
use serial.Helper.{Row, digits_text, digits_text_bounds, digits_text-HasNoNul}
use serial.Lane.{Lanes, reset_all_data}
use serial.RunningTime.{RunningTime, set_send_active_state_off}
use serial.Header.{Header, init_analyse_header, header_text, null_header, store_header, get_header}

-- The buffer has the length that the module was told, 25.
pub record IsValid (s : Header) : Type 0 where
  pub told : s.mqtt_long_length ≡ 25
  pub sized : length s.header_data ≡ 25

pub init_analyse_header-IsValid : IsValid (init_analyse_header 25)
unfolding init_analyse_header
init_analyse_header-IsValid = record { told = refl; sized = length-replicate {A = ℕ} 25 b'0' }

abbrev pub stored : Header → Text
stored s = c_string s.header_data

-- A header ends within mydata[64] and, with its NUL, within the 25 bytes that are copied.
pub length-header_text : (row : Row) → length (header_text row) < 25
unfolding header_text
length-header_text row =
    let event = digits_text_bounds row (0 ∷ 2 ∷ 4 ∷ []) in
    let heat = digits_text_bounds row (10 ∷ 12 ∷ 14 ∷ []) in simp length-append (omega arith)

header_text-HasNoNul : (row : Row) → HasNoNul (header_text row)
unfolding header_text
header_text-HasNoNul row =
    let event = digits_text row (0 ∷ 2 ∷ 4 ∷ []) in
    let heat = digits_text row (10 ∷ 12 ∷ 14 ∷ []) in
    All-append _ (codes "header " ++ event ++ codes " ") heat
      (All-append _ (codes "header " ++ event) (codes " ")
        (All-append _ (codes "header ") event (grind arith) (digits_text-HasNoNul row _))
        (grind arith))
      (digits_text-HasNoNul row _)

stored-store_header :
    (s : Header) (row : Row)
    → IsValid s
    → stored (store_header s (header_text row)) ≡ header_text row
unfolding store_header
stored-store_header s row v =
    c_string-strncpy_short s.header_data (header_text row) s.mqtt_long_length
      (header_text-HasNoNul row) (omega (arith, v.told, length-header_text row))
      (omega (arith, v.told, v.sized))

pub get_header-IsValid :
    (s : Header) (lanes : Lanes) (time : RunningTime) (row : Row)
    → IsValid s
    → IsValid (get_header s lanes time row).0
unfolding get_header
get_header-IsValid s lanes time row v =
    ground (arith, length-strncpy s.header_data (header_text row) s.mqtt_long_length)

-- With a valid header buffer, the null header and the stored one change nothing and send nothing;
-- any other is sent twice, is stored, clears the lanes, and has the running time hold the results
-- back.
pub get_header_report :
    (s : Header) (lanes : Lanes) (time : RunningTime) (row : Row)
    → IsValid s
    → let (t, last, after, sent) = get_header s lanes time row in
      (((header_text row ≡ null_header) ⊎ (header_text row ≡ stored s))
        × (t ≡ s)
        × (last ≡ lanes)
        × (after ≡ time)
        × (sent ≡ []))
      ⊎ ((header_text row ≢ null_header)
          × (header_text row ≢ stored s)
          × (stored t ≡ header_text row)
          × (last ≡ reset_all_data lanes)
          × (after ≡ set_send_active_state_off time)
          × (sent ≡ header_text row ∷ header_text row ∷ []))
unfolding get_header
get_header_report s lanes time row v = ground (
  arith,
  same_iff (header_text row) null_header,
  same_iff (header_text row) (stored s),
  stored-store_header s row v,
)

-- With a valid header buffer, a header is not sent when it is read again, whatever the lanes and
-- the running time have become.
pub get_header_repeat :
    (s : Header) (lanes later : Lanes) (time now : RunningTime) (row : Row)
    → IsValid s
    → (get_header (get_header s lanes time row).0 later now row).3 ≡ []
unfolding get_header
get_header_repeat s lanes later time now row v = ground (
  arith,
  same_iff (header_text row) null_header,
  same_iff (header_text row) (stored s),
  same_iff (header_text row) (stored (store_header s (header_text row))),
  stored-store_header s row v,
)
