-- ===== src/Mqtt/Accepted.antt =====
-- What a broker that fails now and then has published.
use serial.Base.{
  ◌≡◌, sym, ap, ◌∙◌, true, List, [], ◌∷◌, ◌++◌, append-nil, append_assoc, arith, if◌then◌else◌,
  Bool-cases, inl, inr,
}
use serial.Base.Int.{is_zero}
use serial.Text.{Text}
use serial.Mqtt.{Mosquitto, Mqtt, recover, settle, transmit, mqtt_send, deliver}
use serial.Mqtt.Recovery.{mqtt_send_on, mqtt_send_mosq, recover_error}

-- The messages, each of which once or not at all, for which mqtt_send returns 0.
module _ (lib : Mosquitto) where
  unfoldable pub accepted : Mqtt lib → List Text → List Text
  accepted s [] = []
  accepted s (m ∷ ms) =
      let (t, rc) = mqtt_send lib s m in
      let rest = accepted t ms in if is_zero rc then m ∷ rest else rest

-- A library of which only a mosquitto_publish that succeeds publishes.
module _ (lib : Mosquitto) (published : lib.World → List Text)
    (reconnects : (w : lib.World) → published (lib.reconnect w).0 ≡ published w)
    (connects : (w : lib.World) → published (lib.connect w).0 ≡ published w)
    (publishes : (m : Text) (w : lib.World)
      → published (lib.publish m w).0
        ≡ (if is_zero (lib.publish m w).1 then published w ++ m ∷ [] else published w)) where
  recover_published : (s : Mqtt lib) → published (recover lib s).world ≡ published s.world
  recover_published s = elim (Bool-cases s.error_state) [
    | inl e ↦ ap (λ u. published u.world) ((recover_error lib s).0 e) ∙ reconnects s.world
    | inr e ↦ ap (λ u. published u.world) ((recover_error lib s).1 e)
  ]

  transmit_published :
      (s : Mqtt lib) (m : Text)
      → published (transmit lib s m).0.world
        ≡ (if is_zero (transmit lib s m).1 then published s.world ++ m ∷ [] else published s.world)
  unfolding transmit settle
  transmit_published s m = ground (arith, connects s.world, publishes m (lib.connect s.world).0)

  mqtt_send_published :
      (s : Mqtt lib) (m : Text)
      → s.mosq ≡ true
      → published (mqtt_send lib s m).0.world
        ≡ (if is_zero (mqtt_send lib s m).1 then published s.world ++ m ∷ [] else published s.world)
  mqtt_send_published s m h =
      let r = recover lib s in
      let sent = mqtt_send_on lib s m h in
      let base = λ (w : List Text). if is_zero (transmit lib r m).1 then w ++ m ∷ [] else w in
      ap (λ t. published t.0.world) sent
      ∙ transmit_published r m
      ∙ ap base (recover_published s)
      ∙ ap (λ t. if is_zero t.1 then published s.world ++ m ∷ [] else published s.world) (sym sent)

  -- With a handle, the messages for which mqtt_send returns 0 are published once each and in order,
  -- and nothing else is.
  pub deliver-accepted :
      (s : Mqtt lib) (ms : List Text)
      → s.mosq ≡ true
      → published (deliver lib s ms).world ≡ published s.world ++ accepted lib s ms
  unfolding deliver accepted
  deliver-accepted s [] h = sym (append-nil (published s.world))
  deliver-accepted s (m ∷ ms) h =
      let t = (mqtt_send lib s m).0 in
      let here = ap (λ k. k ++ accepted lib t ms) (mqtt_send_published s m h) in
      deliver-accepted t ms (mqtt_send_mosq lib s m h)
      ∙ here
      ∙ elim (Bool-cases (is_zero (mqtt_send lib s m).1)) [
        | inl e ↦ rw (e, accepted) (append_assoc (published s.world) (m ∷ []) (accepted lib t ms))
        | inr e ↦ rw (e, accepted)
      ]
