-- ===== src/Run/Published.antt =====
-- What a run of the program publishes.
use serial.Base.{ℕ, ◌≡◌, ap, ◌∙◌, true, some, List, [], ◌∷◌, ◌++◌, append_assoc, none, replicate}
use serial.Base.Int.{is_zero}
use serial.Text.{Text, codes}
use serial.Lane.{Memory}
use serial.Protocol.{init_read_data, read_all}
use serial.Mqtt.{Mosquitto, Mqtt, mqtt_connect, mqtt_clean, deliver, client_id}
use serial.Mqtt.Recovery.{mqtt_send_mosq, mqtt_send_published, deliver_published}
use serial.Program.{data_init, data_clean}
use serial.Listener.{Listener, start_listen}
use serial.Listener.Stream.{all_bytes, start_listen-read_all}
use serial.CommandLine.{Options, default_options, scan, run, main}
use serial.Board.Score.{score_run}
use serial.Protocol.Decode.{decode, first_score, read_all-score_run}
use serial.Run.{Environment, started, run_options, run_main}

abbrev pub first_message : Text
first_message = codes "utils init (mqtt rawdata)"

-- The messages of the stream that the attempts bring.
abbrev pub stream_messages : Environment → Options → List Text
stream_messages world o =
    (read_all (init_read_data world.memory) (all_bytes o.ftdi_mode o.send_mode world.attempts)).1

-- What the scoreboard shows over these bytes.
abbrev pub shown_messages : Environment → Options → List Text
shown_messages world o = score_run first_score (
    decode none (replicate 32 (replicate 16 0x01))
      (all_bytes o.ftdi_mode o.send_mode world.attempts))

-- A broker that is up, and a library of which only mosquitto_publish publishes.
module _ (lib : Mosquitto) (published : lib.World → List Text)
    (inits : (w : lib.World) → published (lib.lib_init w) ≡ published w)
    (creates : (t : Text) (w : lib.World)
      → ((lib.create t w).1 ≡ true) × (published (lib.create t w).0 ≡ published w))
    (destroys : (w : lib.World) → published (lib.destroy w) ≡ published w)
    (cleans : (w : lib.World) → published (lib.lib_cleanup w) ≡ published w)
    (reconnects : (w : lib.World) → published (lib.reconnect w).0 ≡ published w)
    (connects : (w : lib.World) → is_zero (lib.connect w).1 ≡ true)
    (connects_only : (w : lib.World) → published (lib.connect w).0 ≡ published w)
    (publishes : (m : Text) (w : lib.World)
      → (is_zero (lib.publish m w).1 ≡ true)
        × (published (lib.publish m w).0 ≡ published w ++ m ∷ [])) where
  connect_published :
      (pid : ℕ) (s : Mqtt lib)
      → ((mqtt_connect lib pid s).0.mosq ≡ true)
        × (published (mqtt_connect lib pid s).0.world ≡ published s.world)
  unfolding mqtt_connect
  connect_published pid s =
      let (made, same) = creates (client_id pid) (lib.lib_init s.world) in
      (rw made, rw made (same ∙ inits s.world))

  pub init_published :
      (memory : Memory) (pid : ℕ) (s : Mqtt lib)
      → let p = data_init lib memory pid s in
        (p.mqtt.mosq ≡ true) × (published p.mqtt.world ≡ published s.world ++ first_message ∷ [])
  unfolding data_init
  init_published memory pid s =
      let t = (mqtt_connect lib pid s).0 in
      let (made, same) = connect_published pid s in
      (
        mqtt_send_mosq lib t first_message made,
        mqtt_send_published lib published reconnects connects connects_only publishes t
              first_message made
            ∙ ap (λ k. k ++ first_message ∷ []) same,
      )

  delivered :
      (world : Environment) (s : Mqtt lib) (o : Options)
      → s.mosq ≡ true
      → published (deliver lib s (stream_messages world o)).world
        ≡ published s.world ++ stream_messages world o
  delivered world s o made =
      deliver_published lib published reconnects connects connects_only publishes s
        (stream_messages world o) made

  run_options_published :
      (world : Environment) (s : Mqtt lib) (o : Options)
      → published (run_options lib world s o).program.mqtt.world
        ≡ published s.world ++ first_message ∷ stream_messages world o
  unfolding run_options started data_clean mqtt_clean data_init
  run_options_published world s o =
      let l = started lib world s in
      let p = data_init lib world.memory world.pid s in
      let listened = start_listen lib o.ftdi_mode o.send_mode o.lograwdata l world.attempts in
      let (made, first) = init_published world.memory world.pid s in
      cleans (lib.destroy listened.program.mqtt.world)
      ∙ destroys listened.program.mqtt.world
      ∙ ap (λ q. published q.mqtt.world)
          (start_listen-read_all lib o.ftdi_mode o.send_mode o.lograwdata l world.attempts)
      ∙ delivered world p.mqtt o made
      ∙ ap (λ k. k ++ stream_messages world o) first
      ∙ append_assoc (published s.world) (first_message ∷ []) (stream_messages world o)

  main_runs :
      (world : Environment) (args : List Text) (o : Options)
      → scan (default_options world.basic_portname world.destination_portname) args ≡ some o
      → main world.basic_portname world.destination_portname args ≡ run o
  unfolding main
  main_runs world args o h = rw (h, main)

  -- With arguments that are scanned to their end, a broker that is up, and a library of which
  -- mosquitto_publish alone publishes, a run of main from its arguments to its end has published,
  -- behind what was there, the first message and then what the scoreboard as it is meant says for
  -- all bytes that the attempts at reading bring, once each and in order.
  pub run_main_published :
      (world : Environment) (s : Mqtt lib) (args : List Text) (o : Options)
      → scan (default_options world.basic_portname world.destination_portname) args ≡ some o
      → (l : Listener lib) × (run_main lib world s args ≡ some l)
        × (published l.program.mqtt.world
            ≡ published s.world ++ first_message ∷ shown_messages world o)
  unfolding run_main
  run_main_published world s args o h = (
    run_options lib world s o,
    rw (main_runs world args o h, run_main),
    run_options_published world s o
        ∙ ap (λ k. published s.world ++ first_message ∷ k)
            (read_all-score_run world.memory (all_bytes o.ftdi_mode o.send_mode world.attempts)),
  )
