-- ===== src/Run/Accepted.antt =====
-- What a run of the program publishes with a broker that fails now and then.
use serial.Base.{◌≡◌, ap, ◌∙◌, true, List, [], ◌∷◌, ◌++◌, if◌then◌else◌}
use serial.Base.Int.{is_zero}
use serial.Text.{Text}
use serial.Mqtt.{Mosquitto, Mqtt, mqtt_connect, mqtt_clean, deliver, client_id}
use serial.Mqtt.Accepted.{accepted, deliver-accepted}
use serial.Program.{data_init, data_clean}
use serial.Listener.{start_listen}
use serial.Listener.Stream.{start_listen-read_all}
use serial.CommandLine.{Options}
use serial.Run.{Environment, started, run_options}
use serial.Run.Published.{first_message, stream_messages}

-- A library of which only a mosquitto_publish that succeeds publishes.
module _ (lib : Mosquitto) (published : lib.World → List Text)
    (inits : (w : lib.World) → published (lib.lib_init w) ≡ published w)
    (creates : (t : Text) (w : lib.World) → published (lib.create t w).0 ≡ published w)
    (destroys : (w : lib.World) → published (lib.destroy w) ≡ published w)
    (cleans : (w : lib.World) → published (lib.lib_cleanup w) ≡ published w)
    (reconnects : (w : lib.World) → published (lib.reconnect w).0 ≡ published w)
    (connects : (w : lib.World) → published (lib.connect w).0 ≡ published w)
    (publishes : (m : Text) (w : lib.World)
      → published (lib.publish m w).0
        ≡ (if is_zero (lib.publish m w).1 then published w ++ m ∷ [] else published w)) where
  -- With a library of which only a mosquitto_publish that succeeds publishes, and a handle from
  -- mosquitto_new, whatever else fails and when: a run has published, behind what was there,
  -- exactly those of its first message and the receiver's messages for all bytes for which
  -- mqtt_send returns 0, each once and in order.
  pub run_options-accepted :
      (world : Environment) (s : Mqtt lib) (o : Options)
      → (lib.create (client_id world.pid) (lib.lib_init s.world)).1 ≡ true
      → published (run_options lib world s o).program.mqtt.world
        ≡ published s.world
          ++ accepted lib (mqtt_connect lib world.pid s).0 (first_message ∷ stream_messages world o)
  unfolding run_options started data_clean mqtt_clean data_init deliver mqtt_connect
  run_options-accepted world s o made =
      let l = started lib world s in
      let t = (mqtt_connect lib world.pid s).0 in
      let all = first_message ∷ stream_messages world o in
      let run = start_listen-read_all lib o.ftdi_mode o.send_mode o.lograwdata l world.attempts in
      let listened = start_listen lib o.ftdi_mode o.send_mode o.lograwdata l world.attempts in
      let same : published t.world ≡ published s.world =
        rw made (creates (client_id world.pid) (lib.lib_init s.world) ∙ inits s.world) in
      cleans (lib.destroy listened.program.mqtt.world)
      ∙ destroys listened.program.mqtt.world
      ∙ ap (λ q. published q.mqtt.world) run
      ∙ deliver-accepted lib published reconnects connects publishes t all (rw made)
      ∙ ap (λ k. k ++ accepted lib t all) same
