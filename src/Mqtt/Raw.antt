-- ===== src/Mqtt/Raw.antt =====
-- mqtt/raw_connect.cpp: one message to the broker, with a client of its own.
use serial.Base.{◌≡◌, Bool, true, false, not, arith, if◌then◌else◌, take}
use serial.Base.Int.{ℤ, pos, is_zero}
use serial.Text.{Text, codes}
use serial.Mqtt.{Mosquitto, Mqtt, recover, settle, transmit, mqtt_send}

-- snprintf(buf, 50, "%s", …)
abbrev pub starting_text : Text
starting_text = take 49 (codes "Starting Colorado Timing ...")

-- `create_null` is mosquitto_new with no client id.
module _ (lib : Mosquitto) (create_null : lib.World → lib.World × Bool) where
  open lib use {World, lib_init, lib_cleanup, connect, publish}

  unfoldable pub raw_connect : World → World × ℤ
  raw_connect world =
      let (w, made) = create_null (lib_init world) in
      let (w', rc) = connect w in
      let (w'', rc') = publish starting_text w' in
      if not made
      then (lib_cleanup w, pos 1)
      else if not (is_zero rc)
      then (lib_cleanup w', rc)
      else if not (is_zero rc')
      then (lib_cleanup w'', rc')
      else (lib_cleanup w'', pos 0)

  -- A program that has just made its client in the same way.
  abbrev pub client : World → Mqtt lib
  client world = record {
    mosq = true;
    error_state = false;
    world = (create_null (lib_init world)).0;
  }

  -- Where mosquitto_new gives a handle, `raw_connect` does to the library, and returns, what
  -- `mqtt_send` does with its text in a program that has just made its client, with a cleanup
  -- behind it.
  raw_connect-mqtt_send :
      (world : World)
      → (create_null (lib_init world)).1 ≡ true
      → raw_connect world ≡ (
        lib_cleanup (mqtt_send lib (client world) starting_text).0.world,
        (mqtt_send lib (client world) starting_text).1,
      )
  unfolding raw_connect mqtt_send recover transmit settle
  raw_connect-mqtt_send world made = ground arith
