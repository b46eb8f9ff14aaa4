-- ===== src/Mqtt/Recovery.antt =====
-- What mqtt_send returns, and how it comes back from an error.
use serial.Base.{
  zero, suc, ◌≡◌, refl, sym, Bool, true, false, not, List, [], ◌∷◌, ◌++◌, append-nil, append_assoc,
  ap, ◌∙◌, arith, if◌then◌else◌, Bool-cases, inl, inr,
}
use serial.Base.Int.{ℤ, pos, negsuc, is_zero}
use serial.Text.{Text}
use serial.Mqtt.{Mosquitto, Mqtt, recover, transmit, mqtt_send, deliver}

-- The flag and the result that follow from the result of mosquitto_publish.
publish_flag :
    (rc : ℤ) (b : Bool)
    → b ≡ false
    → (if is_zero rc then b else true) ≡ not (is_zero (if is_zero rc then pos 0 else rc))
publish_flag (pos zero) b fine = fine
publish_flag (pos (suc n)) b fine = refl
publish_flag (negsuc n) b fine = refl

connect_flag :
    (rc : ℤ) (b : Bool) → is_zero rc ≡ false → (if is_zero rc then b else true) ≡ not (is_zero rc)
connect_flag rc b h = rw h

module _ (lib : Mosquitto) where
  transmit_flag :
      (t : Mqtt lib) (message : Text)
      → t.error_state ≡ false
      → (transmit lib t message).0.error_state ≡ not (is_zero (transmit lib t message).1)
  unfolding transmit
  transmit_flag t message fine = elim (Bool-cases (is_zero (lib.connect t.world).1)) [
    | inl e ↦
        simp e (publish_flag (lib.publish message (lib.connect t.world).0).1 t.error_state fine)
    | inr e ↦ rw e (rw e)
  ]

  pub transmit_mosq : (t : Mqtt lib) (message : Text) → (transmit lib t message).0.mosq ≡ t.mosq
  unfolding transmit
  transmit_mosq t message = ground arith

  pub recover_fine : (s : Mqtt lib) → (recover lib s).error_state ≡ false
  unfolding recover
  recover_fine s = ground arith

  pub recover_mosq : (s : Mqtt lib) → (recover lib s).mosq ≡ s.mosq
  unfolding recover
  recover_mosq s = ground arith

  pub mqtt_send_on :
      (s : Mqtt lib) (message : Text)
      → s.mosq ≡ true
      → mqtt_send lib s message ≡ transmit lib (recover lib s) message
  unfolding mqtt_send
  mqtt_send_on s message h = ground arith

  -- With a handle, the error flag after a message is set exactly if the result is an error.
  pub mqtt_send_flag :
      (s : Mqtt lib) (message : Text)
      → s.mosq ≡ true
      → (mqtt_send lib s message).0.error_state ≡ not (is_zero (mqtt_send lib s message).1)
  mqtt_send_flag s message h =
      ap (λ r. r.0.error_state) (mqtt_send_on s message h)
      ∙ transmit_flag (recover lib s) message (recover_fine s)
      ∙ ap (λ r. not (is_zero r.1)) (sym (mqtt_send_on s message h))

  pub mqtt_send_mosq :
      (s : Mqtt lib) (message : Text) → s.mosq ≡ true → (mqtt_send lib s message).0.mosq ≡ true
  mqtt_send_mosq s message h =
      ap (λ r. r.0.mosq) (mqtt_send_on s message h)
      ∙ transmit_mosq (recover lib s) message
      ∙ recover_mosq s
      ∙ h

  pub recover_error :
      (s : Mqtt lib)
      → (s.error_state ≡ true
          → recover lib s ≡ record s { error_state = false; world = (lib.reconnect s.world).0 })
        × (s.error_state ≡ false → recover lib s ≡ s)
  unfolding recover
  recover_error s = (λ h. ground arith, λ h. ground arith)

  -- With a handle, the message after one that failed is sent behind one attempt to reconnect, and
  -- the message after one that succeeded is sent as it is.
  pub mqtt_send_next :
      (s : Mqtt lib) (message later : Text)
      → s.mosq ≡ true
      → let (t, rc) = mqtt_send lib s message in
        let again = record t { error_state = false; world = (lib.reconnect t.world).0 } in
        mqtt_send lib t later ≡ transmit lib (if is_zero rc then t else again) later
  mqtt_send_next s message later h =
      let t = (mqtt_send lib s message).0 in
      let rc = (mqtt_send lib s message).1 in
      let again = record t { error_state = false; world = (lib.reconnect t.world).0 } in
      let flag = mqtt_send_flag s message h in
      let sends = mqtt_send_on t later (mqtt_send_mosq s message h) in
      let choose = λ (b : Bool). transmit lib (if b then t else again) later in
      elim (Bool-cases (is_zero rc)) [
        | inl z ↦
            sends
            ∙ ap (λ u. transmit lib u later) ((recover_error t).1 (flag ∙ ap not z))
            ∙ ap choose (sym z)
        | inr z ↦
            sends
            ∙ ap (λ u. transmit lib u later) ((recover_error t).0 (flag ∙ ap not z))
            ∙ ap choose (sym z)
      ]

-- A broker that is up: the calls succeed, and a publication puts its message behind the others.
module _ (lib : Mosquitto) (published : lib.World → List Text)
    (reconnects : (w : lib.World) → published (lib.reconnect w).0 ≡ published w)
    (connects : (w : lib.World) → is_zero (lib.connect w).1 ≡ true)
    (connects_only : (w : lib.World) → published (lib.connect w).0 ≡ published w)
    (publishes : (m : Text) (w : lib.World)
      → (is_zero (lib.publish m w).1 ≡ true)
        × (published (lib.publish m w).0 ≡ published w ++ m ∷ [])) where
  recover_published : (s : Mqtt lib) → published (recover lib s).world ≡ published s.world
  recover_published s = elim (Bool-cases s.error_state) [
    | inl e ↦ ap (λ u. published u.world) ((recover_error lib s).0 e) ∙ reconnects s.world
    | inr e ↦ ap (λ u. published u.world) ((recover_error lib s).1 e)
  ]

  transmit_published :
      (s : Mqtt lib) (m : Text) → published (transmit lib s m).0.world ≡ published s.world ++ m ∷ []
  unfolding transmit
  transmit_published s m =
      rw (connects s.world)
        ((publishes m (lib.connect s.world).0).1 ∙ ap (λ k. k ++ m ∷ []) (connects_only s.world))

  pub mqtt_send_published :
      (s : Mqtt lib) (m : Text)
      → s.mosq ≡ true
      → published (mqtt_send lib s m).0.world ≡ published s.world ++ m ∷ []
  mqtt_send_published s m h =
      ap (λ r. published r.0.world) (mqtt_send_on lib s m h)
      ∙ transmit_published (recover lib s) m
      ∙ ap (λ k. k ++ m ∷ []) (recover_published s)

  -- With a handle and a broker whose connections and publications succeed, where reconnecting and
  -- connecting publish nothing and a publication puts its message behind the others, the messages
  -- are published once each and in order.
  pub deliver_published :
      (s : Mqtt lib) (ms : List Text)
      → s.mosq ≡ true
      → published (deliver lib s ms).world ≡ published s.world ++ ms
  unfolding deliver
  deliver_published s [] h = sym (append-nil (published s.world))
  deliver_published s (m ∷ ms) h =
      deliver_published (mqtt_send lib s m).0 ms (mqtt_send_mosq lib s m h)
      ∙ ap (λ k. k ++ ms) (mqtt_send_published s m h)
      ∙ append_assoc (published s.world) (m ∷ []) ms
