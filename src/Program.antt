-- ===== src/Program.antt =====
-- utils/data.cpp: the receiver and the broker together, and what the start and the end of a run do.
-- Messages leave in the order in which the analysers call mqtt_send, each before the next byte.
pub mod Feed
use serial.Base.{ℕ, zero, suc, List, [], ◌∷◌, ◌++◌}
use serial.Text.{Text, codes}
use serial.Lane.{Memory}
use serial.Protocol.{Receiver, init_read_data, put_read_data}
use serial.Mqtt.{Mosquitto, Mqtt, mqtt_connect, mqtt_send, mqtt_clean, deliver}

module _ (lib : Mosquitto) where
  pub record Program : Type 0 where
    pub receiver : Receiver
    pub mqtt : Mqtt lib

  -- `putReadData` with its calls of mqtt_send.
  unfoldable pub put_byte : Program → ℕ → Program
  put_byte p b =
      let (r, sent) = put_read_data p.receiver b in
      record { receiver = r; mqtt = deliver lib p.mqtt sent }

  unfoldable pub feed : Program → List ℕ → Program
  feed p [] = p
  feed p (b ∷ bs) = feed (put_byte p b) bs

  -- Up to the call of `startListen`: the result of mqtt_connect is not looked at.
  unfoldable pub data_init : Memory → ℕ → Mqtt lib → Program
  data_init memory pid mqtt = record {
    receiver = init_read_data memory;
    mqtt = (mqtt_send lib (mqtt_connect lib pid mqtt).0 (codes "utils init (mqtt rawdata)")).0;
  }

  -- `dataClean`: cleanReadData, whose calls of free stand in Blocks.
  unfoldable pub data_clean : Program → Program
  data_clean p = record p { mqtt = mqtt_clean lib p.mqtt }

-- The bytes of `dataStart`, which plays ten times two readings of lane 7 ten times over, 360 rows of
-- the time channel and a header's address.
abbrev pub lane_bytes : List ℕ
lane_bytes =
    0xb0 ∷ 0x3 ∷ 0x1f ∷ 0x2f ∷ 0x49 ∷ 0x56 ∷ 0x5d ∷ 0x6f ∷ 0x7f ∷ 0xb0 ∷ 0x3 ∷ 0x1f ∷ 0x2f ∷ 0x49
    ∷ 0x56 ∷ 0x4d ∷ 0x6f ∷ 0x7f ∷ []

abbrev pub empty_time_bytes : List ℕ
empty_time_bytes = 0xbe ∷ 0xF ∷ 0x1F ∷ 0x2f ∷ 0x3f ∷ 0x4f ∷ 0x5f ∷ []

abbrev pub time_bytes : List ℕ
time_bytes = 0xbe ∷ 0xF ∷ 0x1F ∷ 0x2f ∷ 0x39 ∷ 0x4c ∷ 0x5d ∷ []

pub repeat : ℕ → List ℕ → List ℕ
repeat zero bs = []
repeat (suc n) bs = bs ++ repeat n bs

unfoldable pub data_start_bytes : List ℕ
unfolding repeat
data_start_bytes = repeat 10 (
    repeat 10 lane_bytes
    ++ (repeat 120 empty_time_bytes
        ++ (repeat 120 time_bytes ++ (repeat 120 empty_time_bytes ++ 0x80 ∷ []))))

unfoldable pub data_start : (lib : Mosquitto) → Program lib → Program lib
data_start lib p = feed lib p data_start_bytes
