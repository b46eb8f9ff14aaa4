-- ===== src/Header.antt =====
-- serialconnect/analyseHeader.cpp: the event and heat of the scoreboard's header. The texts that a
-- function returns are its calls of mqtt_send.
pub mod Report
use serial.Base.{ℕ, List, [], ◌∷◌, ◌++◌, if◌then◌else◌, replicate}
use serial.Text.{Text, codes, same, c_string, strncpy}
use serial.Helper.{Row, digits_text}
use serial.Lane.{Lanes, reset_all_data}
use serial.RunningTime.{RunningTime, set_send_active_state_off}

pub record Header : Type 0 where
  pub mqtt_long_length : ℕ
  pub header_data : List ℕ

-- malloc, and the loop that writes '0' to every byte.
unfoldable pub init_analyse_header : ℕ → Header
init_analyse_header mqtt_length = record {
  mqtt_long_length = mqtt_length;
  header_data = replicate mqtt_length b'0';
}

unfoldable pub header_text : Row → Text
header_text row =
    codes "header "
    ++ digits_text row (0 ∷ 2 ∷ 4 ∷ [])
    ++ codes " "
    ++ digits_text row (10 ∷ 12 ∷ 14 ∷ [])

unfoldable pub null_header : Text
null_header = codes "header 000 000"

-- The loop that copies mqttLongLength bytes of mydata. What it copies from behind the NUL is not
-- set by the code and is not seen by strcmp; it is NUL here.
unfoldable pub store_header : Header → Text → Header
store_header s mydata = record s { header_data = strncpy s.header_data mydata s.mqtt_long_length }

-- A null header is renamed to "clock" and goes no further, since `array_match` is true from the start.
unfoldable pub get_header :
    Header → Lanes → RunningTime → Row → Header × Lanes × RunningTime × List Text
unfolding store_header
get_header s lanes time row =
    let mydata = header_text row in
    if same mydata null_header
    then (s, lanes, time, [])
    else if same mydata (c_string s.header_data)
    then (s, lanes, time, [])
    else (
      store_header s mydata,
      reset_all_data lanes,
      set_send_active_state_off time,
      mydata ∷ mydata ∷ [],
    )
