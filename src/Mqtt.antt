-- ===== src/Mqtt.antt =====
-- mqtt/mqttUtils.cpp: messages go to the topic rawdata of a broker on localhost. The mosquitto
-- library is a parameter: its state, and what the calls that the file makes do to it.
pub mod Recovery
pub mod Remote
pub mod Raw
pub mod Accepted
pub mod Watched
use serial.Base.{ℕ, ◌+◌, ◌-◌, Bool, true, false, List, [], ◌∷◌, ◌++◌, if◌then◌else◌, length, take}
use serial.Base.Int.{ℤ, pos, is_zero}
use serial.Text.{Text, codes, decimal}

-- Each call with the state that it leaves and its result; `create` is mosquitto_new, and says
-- whether the handle is not NULL. The host, the port and the topic are constants of the file.
pub record Mosquitto : Type 1 where
  pub World : Type 0
  pub lib_init : World → World
  pub lib_cleanup : World → World
  pub create : Text → World → World × Bool
  pub destroy : World → World
  pub reconnect : World → World × ℤ
  pub connect : World → World × ℤ
  pub publish : Text → World → World × ℤ

-- snprintf(clientid, 23, "mysql_log_%d", getpid())
unfoldable pub client_id : ℕ → Text
client_id pid = take 22 (codes "mysql_log_" ++ decimal pid)

-- The bytes that `memset(&remotechar[0], 0, sizeof(remotechar))` writes behind the end of
-- `malloc(strlen(message))`, at a given size of a pointer.
unfoldable pub past_end : ℕ → Text → ℕ
past_end pointer_size message = pointer_size - length message

module _ (lib : Mosquitto) where
  open lib use {World, lib_init, lib_cleanup, create, destroy, reconnect, connect, publish}

  -- `mosq` is whether the handle is not NULL.
  pub record Mqtt : Type 0 where
    pub mosq : Bool
    pub error_state : Bool
    pub world : World

  unfoldable pub mqtt_connect : ℕ → Mqtt → Mqtt × ℤ
  mqtt_connect pid s =
      let (w, made) = create (client_id pid) (lib_init s.world) in
      if made
      then (record s { mosq = true; world = w }, pos 0)
      else (record s { mosq = false; world = lib_cleanup w }, pos 1)

  -- `if (error_state)`: one attempt to reconnect, whose result is not looked at.
  unfoldable pub recover : Mqtt → Mqtt
  recover s =
      if s.error_state then record s { error_state = false; world = (reconnect s.world).0 } else s

  -- A call's result: an error is kept for the next message.
  unfoldable pub settle : Mqtt → World → ℤ → Mqtt
  settle s w rc = record s { world = w; error_state = if is_zero rc then s.error_state else true }

  -- Connect, and publish if that succeeded.
  unfoldable pub transmit : Mqtt → Text → Mqtt × ℤ
  unfolding settle
  transmit s message =
      let (w, rc) = connect s.world in
      let (w', rc') = publish message w in
      if is_zero rc
      then (settle s w' rc', if is_zero rc' then pos 0 else rc')
      else (settle s w rc, rc)

  unfoldable pub mqtt_send : Mqtt → Text → Mqtt × ℤ
  mqtt_send s message = if s.mosq then transmit (recover s) message else (s, pos 0)

  unfoldable pub mqtt_clean : Mqtt → Mqtt
  mqtt_clean s = record s { world = lib_cleanup (destroy s.world) }

  -- The messages of an analyser, one after the other; it does not look at the results.
  unfoldable pub deliver : Mqtt → List Text → Mqtt
  deliver s [] = s
  deliver s (m ∷ ms) = deliver (mqtt_send s m).0 ms
