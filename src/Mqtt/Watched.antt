-- ===== src/Mqtt/Watched.antt =====
-- A library of which the calls are watched: mosquitto_lib_init comes before any other call, a handle
-- is used between mosquitto_new and mosquitto_destroy, mosquitto_reconnect not before the first
-- mosquitto_connect, and mosquitto_publish only while connected.
use serial.Base.{
  ◌≡◌, ◌∙◌, Bool, true, false, not, List, [], ◌∷◌, arith, if◌then◌else◌, Bool-cases, inl, inr,
}
use serial.Base.Int.{is_zero}
use serial.Text.{Text}
use mathlib.Core.Path.{subst}
use serial.Mqtt.Recovery.{transmit_mosq, recover_fine, recover_mosq, mqtt_send_on}
use serial.Mqtt.{Mosquitto, Mqtt, recover, settle, transmit, mqtt_send, deliver}

pub data Phase : Type 0 where
  idle : Phase
  ready : Phase
  made : Phase
  tried : Phase
  connected : Phase
  misused : Phase

abbrev pub after_init : Phase → Phase
after_init idle = ready
after_init _ = misused

abbrev pub after_cleanup : Phase → Phase
after_cleanup ready = idle
after_cleanup _ = misused

abbrev pub after_create : Bool → Phase → Phase
after_create ok ready = if ok then made else ready
after_create ok _ = misused

abbrev pub after_destroy : Phase → Phase
after_destroy made = ready
after_destroy tried = ready
after_destroy connected = ready
after_destroy _ = misused

abbrev pub after_connect : Bool → Phase → Phase
after_connect ok made = if ok then connected else tried
after_connect ok tried = if ok then connected else tried
after_connect ok connected = if ok then connected else tried
after_connect ok _ = misused

abbrev pub after_reconnect : Bool → Phase → Phase
after_reconnect ok tried = if ok then connected else tried
after_reconnect ok connected = if ok then connected else tried
after_reconnect ok _ = misused

abbrev pub after_publish : Bool → Phase → Phase
after_publish ok connected = if ok then connected else tried
after_publish ok _ = misused

-- The library, with the phase behind each of its calls.
abbrev pub watched : Mosquitto → Mosquitto
watched lib = record {
  World = lib.World × Phase;
  lib_init = λ w. (lib.lib_init w.0, after_init w.1);
  lib_cleanup = λ w. (lib.lib_cleanup w.0, after_cleanup w.1);
  create = λ t w. let (v, ok) = lib.create t w.0 in ((v, after_create ok w.1), ok);
  destroy = λ w. (lib.destroy w.0, after_destroy w.1);
  reconnect = λ w. let (v, rc) = lib.reconnect w.0 in ((v, after_reconnect (is_zero rc) w.1), rc);
  connect = λ w. let (v, rc) = lib.connect w.0 in ((v, after_connect (is_zero rc) w.1), rc);
  publish = λ m w. let (v, rc) = lib.publish m w.0 in ((v, after_publish (is_zero rc) w.1), rc);
}

-- Between the messages, by whether an error is kept.
abbrev pub between : Bool → Phase → Bool
between e made = not e
between e tried = true
between e connected = true
between e _ = false

between_connect :
    (ok : Bool) (p : Phase)
    → between false p ≡ true
    → after_connect ok p ≡ (if ok then connected else tried)
between_connect ok p fits = ground arith

between_reconnect :
    (ok : Bool) (p : Phase) → between true p ≡ true → between false (after_reconnect ok p) ≡ true
between_reconnect ok p fits = ground arith

module _ (lib : Mosquitto) where
  recover-between :
      (s : Mqtt (watched lib))
      → between s.error_state s.world.1 ≡ true
      → between false (recover (watched lib) s).world.1 ≡ true
  unfolding recover
  recover-between s fits =
      let kept : Bool → Type 0 = λ b. between b s.world.1 ≡ true in
      elim (Bool-cases s.error_state) [
        | inl e ↦ rw e (between_reconnect _ s.world.1 (subst kept e fits))
        | inr e ↦ rw e (subst kept e fits)
      ]

  transmit-between :
      (s : Mqtt (watched lib)) (m : Text)
      → s.error_state ≡ false
      → between false s.world.1 ≡ true
      → let t = (transmit (watched lib) s m).0 in between t.error_state t.world.1 ≡ true
  unfolding transmit settle
  transmit-between s m fine fits =
      let (v, rc) = lib.connect s.world.0 in
      let step = between_connect (is_zero rc) s.world.1 fits in ground (arith, step)

  mqtt_send-between :
      (s : Mqtt (watched lib)) (m : Text)
      → s.mosq ≡ true
      → between s.error_state s.world.1 ≡ true
      → let t = (mqtt_send (watched lib) s m).0 in
        (t.mosq ≡ true) × (between t.error_state t.world.1 ≡ true)
  mqtt_send-between s m on fits =
      let w = watched lib in
      rw (mqtt_send_on w s m on) (
        transmit_mosq w (recover w s) m ∙ recover_mosq w s ∙ on,
        transmit-between (recover w s) m (recover_fine w s) (recover-between s fits),
      )

  pub deliver-between :
      (s : Mqtt (watched lib)) (ms : List Text)
      → s.mosq ≡ true
      → between s.error_state s.world.1 ≡ true
      → let t = deliver (watched lib) s ms in between t.error_state t.world.1 ≡ true
  unfolding deliver
  deliver-between s [] on fits = fits
  deliver-between s (m ∷ ms) on fits =
      let (on', fits') = mqtt_send-between s m on fits in
      deliver-between (mqtt_send (watched lib) s m).0 ms on' fits'
