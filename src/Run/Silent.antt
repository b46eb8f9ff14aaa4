-- ===== src/Run/Silent.antt =====
-- A run of the program without a handle of the mosquitto library.
use serial.Base.{◌≡◌, refl, ap, ◌∙◌, false, List, [], ◌∷◌, arith}
use serial.Text.{Text}
use serial.Protocol.{init_read_data, read_all}
use serial.Mqtt.{Mosquitto, Mqtt, mqtt_connect, mqtt_send, mqtt_clean, deliver, client_id}
use serial.Program.{data_init, data_clean}
use serial.Listener.Stream.{all_bytes, start_listen-read_all}
use serial.CommandLine.{Options}
use serial.Run.{Environment, started, run_options}

module _ (lib : Mosquitto) where
  mqtt_send_off : (s : Mqtt lib) (m : Text) → s.mosq ≡ false → (mqtt_send lib s m).0 ≡ s
  unfolding mqtt_send
  mqtt_send_off s m h = ground arith

  pub deliver_off : (s : Mqtt lib) (ms : List Text) → s.mosq ≡ false → deliver lib s ms ≡ s
  unfolding deliver
  deliver_off s [] h = refl
  deliver_off s (m ∷ ms) h =
      let same = mqtt_send_off s m h in ap (λ t. deliver lib t ms) same ∙ deliver_off s ms h

  pub init_off :
      (world : Environment) (s : Mqtt lib)
      → (lib.create (client_id world.pid) (lib.lib_init s.world)).1 ≡ false
      → let w = (lib.create (client_id world.pid) (lib.lib_init s.world)).0 in
        (data_init lib world.memory world.pid s).mqtt
        ≡ record s { mosq = false; world = lib.lib_cleanup w }
  unfolding data_init mqtt_connect
  init_off world s failed = rw failed (mqtt_send_off _ _ refl)

  -- Where mosquitto_new fails, a run reads its bytes to the end with the receiver that they make,
  -- but the library sees, behind mosquitto_new, only a cleanup, the destruction of a handle that
  -- there is not, and a second cleanup: no connection and no publication.
  pub run_options_silent :
      (world : Environment) (s : Mqtt lib) (o : Options)
      → (lib.create (client_id world.pid) (lib.lib_init s.world)).1 ≡ false
      → let bs = all_bytes o.ftdi_mode o.send_mode world.attempts in
        let w = (lib.create (client_id world.pid) (lib.lib_init s.world)).0 in
        ((run_options lib world s o).program.mqtt.world
          ≡ lib.lib_cleanup (lib.destroy (lib.lib_cleanup w)))
        × ((run_options lib world s o).program.receiver
            ≡ (read_all (init_read_data world.memory) bs).0)
  unfolding run_options started data_clean mqtt_clean data_init
  run_options_silent world s o failed =
      let l = started lib world s in
      let p = data_init lib world.memory world.pid s in
      let ms =
        (read_all (init_read_data world.memory)
          (all_bytes o.ftdi_mode o.send_mode world.attempts)).1 in
      let run = start_listen-read_all lib o.ftdi_mode o.send_mode o.lograwdata l world.attempts in
      let off = init_off world s failed in
      (
        ap (λ q. lib.lib_cleanup (lib.destroy q.mqtt.world)) run
            ∙ ap (λ t. lib.lib_cleanup (lib.destroy t.world))
                (deliver_off p.mqtt ms (ap (λ t. t.mosq) off) ∙ off),
        ap (λ q. q.receiver) run,
      )
