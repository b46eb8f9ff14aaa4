-- ===== src/Run/Watched.antt =====
-- In what order a run calls the mosquitto library.
use serial.Base.{
  ◌≡◌, refl, ap, ◌∙◌, Bool, true, false, ◌∷◌, arith, if◌then◌else◌, Bool-cases, inl, inr,
}
use serial.Protocol.{init_read_data, read_all}
use serial.Text.{codes}
use serial.Mqtt.{Mosquitto, Mqtt, mqtt_connect, mqtt_clean, deliver, client_id}
use serial.Mqtt.Watched.{
  Phase, idle, misused, after_destroy, after_cleanup, after_init, after_create, between, watched,
  deliver-between,
}
use serial.Program.{data_init, data_clean}
use serial.Listener.Stream.{all_bytes, start_listen-read_all}
use serial.CommandLine.{Options}
use serial.Run.{Environment, started, run_options}
use serial.Run.Silent.{init_off, deliver_off}

between-clean : (e : Bool) (p : Phase) → between e p ≡ true → after_cleanup (after_destroy p) ≡ idle
between-clean e p fits = ground arith

unmade :
    (ok : Bool) (p : Phase)
    → ok ≡ false
    → p ≡ idle
    → after_cleanup (after_destroy (after_cleanup (after_create ok (after_init p)))) ≡ misused
unmade ok p off fresh = rw (off, fresh) refl

module _ (lib : Mosquitto) where
  connect_between :
      (world : Environment) (s : Mqtt (watched lib))
      → s.error_state ≡ false
      → s.world.1 ≡ idle
      → (lib.create (client_id world.pid) (lib.lib_init s.world.0)).1 ≡ true
      → let t = (mqtt_connect (watched lib) world.pid s).0 in
        (t.mosq ≡ true) × (between t.error_state t.world.1 ≡ true)
  unfolding mqtt_connect
  connect_between world s fine fresh given = ground (arith, fine, fresh, given)

  -- Whatever each call of the mosquitto library answers, a run that begins with no error kept and
  -- the library not yet initialised calls it in the order that its header asks for,
  -- mosquitto_lib_init first, the handle between mosquitto_new and mosquitto_destroy,
  -- mosquitto_reconnect only behind a mosquitto_connect, mosquitto_publish only while connected,
  -- and mosquitto_lib_cleanup last, exactly if mosquitto_new gives a handle.
  pub run_options-watched :
      (world : Environment) (s : Mqtt (watched lib)) (o : Options)
      → s.error_state ≡ false
      → s.world.1 ≡ idle
      → (run_options (watched lib) world s o).program.mqtt.world.1
        ≡ (if (lib.create (client_id world.pid) (lib.lib_init s.world.0)).1 then idle else misused)
  unfolding run_options started data_clean mqtt_clean data_init deliver
  run_options-watched world s o fine fresh =
      let w = watched lib in
      let l = started w world s in
      let p = data_init w world.memory world.pid s in
      let ms =
        (read_all (init_read_data world.memory)
          (all_bytes o.ftdi_mode o.send_mode world.attempts)).1 in
      let run = start_listen-read_all w o.ftdi_mode o.send_mode o.lograwdata l world.attempts in
      ap (λ q. after_cleanup (after_destroy q.mqtt.world.1)) run
      ∙ elim (Bool-cases (lib.create (client_id world.pid) (lib.lib_init s.world.0)).1) [
        | inl e ↦
            let t = (mqtt_connect w world.pid s).0 in
            let (on, fits) = connect_between world s fine fresh e in
            let all = codes "utils init (mqtt rawdata)" ∷ ms in
            let used = deliver-between lib t all on fits in
            let u = deliver w t all in rw e (between-clean u.error_state u.world.1 used)
        | inr e ↦
            let off = init_off w world s e in
            rw e (
              ap (λ t. after_cleanup (after_destroy t.world.1))
                (deliver_off w p.mqtt ms (ap (λ t. t.mosq) off) ∙ off)
              ∙ unmade _ s.world.1 e fresh)
      ]
