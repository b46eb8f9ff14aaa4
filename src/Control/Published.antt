-- ===== src/Control/Published.antt =====
-- What has been published at any moment of a run, from `dataInit` on.
use serial.Base.{ℕ, ◌≡◌, ap, ◌∙◌, Bool, true, none, List, [], ◌∷◌, ◌++◌, append_assoc, replicate}
use serial.Base.Int.{is_zero}
use serial.Text.{Text}
use serial.Lane.{Memory}
use serial.Protocol.{init_read_data, read_all}
use serial.Protocol.Decode.{decode, first_score, read_all-score_run}
use serial.Board.Score.{score_run}
use serial.Mqtt.{Mosquitto, Mqtt, mqtt_clean}
use serial.Mqtt.Recovery.{deliver_published}
use serial.Program.{feed, data_init, data_clean}
use serial.Program.Feed.{feed-read_all}
use serial.Device.{Device}
use serial.Run.Published.{first_message, init_published}
use serial.Control.{Control, at_start, Steps}
use serial.Control.Bytes.{Steps_program}

-- A broker that is up, and a library of which only mosquitto_publish publishes.
module _ (lib : Mosquitto) (published : lib.World → List Text)
    (inits : (w : lib.World) → published (lib.lib_init w) ≡ published w)
    (creates : (t : Text) (w : lib.World)
      → ((lib.create t w).1 ≡ true) × (published (lib.create t w).0 ≡ published w))
    (destroys : (w : lib.World) → published (lib.destroy w) ≡ published w)
    (cleans : (w : lib.World) → published (lib.lib_cleanup w) ≡ published w)
    (reconnects : (w : lib.World) → published (lib.reconnect w).0 ≡ published w)
    (connects : (w : lib.World) → is_zero (lib.connect w).1 ≡ true)
    (connects_only : (w : lib.World) → published (lib.connect w).0 ≡ published w)
    (publishes : (m : Text) (w : lib.World)
      → (is_zero (lib.publish m w).1 ≡ true)
        × (published (lib.publish m w).0 ≡ published w ++ m ∷ [])) where
  feed_published :
      (memory : Memory) (pid : ℕ) (mqtt : Mqtt lib) (bs : List ℕ)
      → published (feed lib (data_init lib memory pid mqtt) bs).mqtt.world
        ≡ published mqtt.world ++ first_message ∷ (read_all (init_read_data memory) bs).1
  unfolding data_init
  feed_published memory pid mqtt bs =
      let p = data_init lib memory pid mqtt in
      let sent = (read_all (init_read_data memory) bs).1 in
      let (made, first) =
        init_published lib published inits creates destroys cleans reconnects connects connects_only
          publishes memory pid mqtt in
      ap (λ q. published q.mqtt.world) (feed-read_all lib p bs)
      ∙ deliver_published lib published reconnects connects connects_only publishes p.mqtt sent made
      ∙ ap (λ k. k ++ sent) first
      ∙ append_assoc (published mqtt.world) (first_message ∷ []) sent

  -- With a broker that is up and a library of which mosquitto_publish alone publishes, whichever
  -- reader is built and whenever the signal comes: in every state that a run of the listener can
  -- reach from dataInit on, what has been published, behind what was there, is the first message
  -- and then what the scoreboard as it is meant says for the bytes so far; and dataClean publishes
  -- nothing more.
  pub Steps_published :
      (windows : Bool) (d : Device lib) (memory : Memory) (pid : ℕ) (mqtt : Mqtt lib) (s : d.State)
      (c : Control windows d) (bs : List ℕ)
      → d.program s ≡ data_init lib memory pid mqtt
      → Steps windows d (at_start windows d s) bs c
      → let all =
          published mqtt.world
          ++ first_message
            ∷ score_run first_score (decode none (replicate 32 (replicate 16 0x01)) bs) in
        (published (d.program c.state).mqtt.world ≡ all)
        × (published (data_clean lib (d.program c.state)).mqtt.world ≡ all)
  unfolding data_clean mqtt_clean
  Steps_published windows d memory pid mqtt s c bs first run =
      let w = (d.program c.state).mqtt.world in
      let shown =
        ap (λ p. published p.mqtt.world)
          (Steps_program windows d run ∙ ap (λ p. feed lib p bs) first)
        ∙ feed_published memory pid mqtt bs
        ∙ ap (λ k. published mqtt.world ++ first_message ∷ k) (read_all-score_run memory bs) in
      (shown, cleans (lib.destroy w) ∙ destroys w ∙ shown)
