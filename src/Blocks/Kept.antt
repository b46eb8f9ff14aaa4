-- ===== src/Blocks/Kept.antt =====
-- What messages, bytes and attempts leave of the memory that they take.
use serial.Base.{
  ℕ, ◌+◌, ◌≡◌, refl, sym, ◌∙◌, Bool, true, false, List, [], ◌∷◌, arith, ltb, ◌==◌, if◌then◌else◌,
  Bool-cases, inl, inr,
}
use serial.Base.Int.{is_zero}
use serial.Text.{Text}
use serial.Mqtt.{Mosquitto, Mqtt, mqtt_send, recover}
use serial.Protocol.{put_read_data}
use serial.Program.{Program, put_byte}
use serial.Ftdi.{Session, readftdi, is_privileged, open_devices, ftdi_loop}
use serial.Ftdi.Stream.{all_succeed, ftdi_loop-feed}
use serial.Listener.{Attempt}
use serial.Listener.Stream.{ftdi_bytes}
use mathlib.Core.Path.{subst}
use serial.Ledger.{Ledger, Command, give, ◌>>=◌, malloc, free}
use serial.Ledger.Held.{
  Returns, bind, Owns, recount, malloc-owned, free-owned, Owns-forget, Owns-swap,
}
use serial.Blocks.{mqtt_send_blocks, deliver_blocks, feed_blocks, readftdi_blocks}

-- A command that ends without a fault, loses k blocks, and leaves those that are held.
abbrev pub Loses : ℕ → Command (Unit {0}) → Type 0
Loses k c = (ps : List ℕ) (n : ℕ) (h : Ledger) → Owns ps n h → Returns (λ u. Owns ps (n + k)) (c h)

pub Loses-nothing : Loses 0 (give tt)
Loses-nothing ps n h o = recount ps n (n + 0) h o (omega arith)

pub Loses-then :
    (k m : ℕ) (c d : Command (Unit {0})) → Loses k c → Loses m d → Loses (k + m) (c >>= (λ _. d))
Loses-then k m c d first next ps n h o =
    bind (λ u. Owns ps (n + k)) (λ u. Owns ps (n + (k + m))) c (λ _. d) h (first ps n h o)
      (λ u t kept.
        subst (λ j. Returns (λ u. Owns ps j) (d t)) (omega arith) (next ps (n + k) t kept))

same_way :
    (a b c : Bool) (d : Command (Unit {0}))
    → (if a then if b then if c then d else d else d else d) ≡ d
same_way true true true d = refl
same_way true true false d = refl
same_way true false c d = refl
same_way false b c d = refl

-- How the loop over an FTDI device ends: both blocks are freed, or neither.
loop_ends :
    (b : Bool) (devices buffer : ℕ) (ps : List ℕ) (n : ℕ) (h : Ledger)
    → Owns (devices ∷ buffer ∷ ps) (n + 2) h
    → Returns
        (λ u. Owns ps (n + (if b then 0 else 2)))
        ((if b then (free buffer >>= (λ _. free devices)) else give tt) h)
loop_ends true devices buffer ps n h o =
    bind (λ u. Owns (devices ∷ ps) (n + 1)) (λ u. Owns ps (n + 0)) (free buffer) (λ _. free devices)
      h
      (free-owned buffer (devices ∷ ps) (n + 1) h (
        recount (buffer ∷ devices ∷ ps) (n + 2) (n + 1 + 1) h
          (Owns-swap devices buffer ps (n + 2) h o) (omega arith)))
      (λ u t kept.
        free-owned devices ps (n + 0) t
          (recount (devices ∷ ps) (n + 1) (n + 0 + 1) t kept (omega arith)))
loop_ends false devices buffer ps n h o =
    Owns-forget buffer ps (n + 2) h (Owns-forget devices (buffer ∷ ps) (n + 2) h o)

-- Both blocks are lost where a call fails.
unfoldable pub lost_by : Attempt → ℕ
lost_by a =
    if all_succeed (ltb 1 a.devices) (if is_privileged a.uid a.euid then a.turns else [])
    then 0
    else 2

module _ (lib : Mosquitto) where
  pub mqtt_send_blocks-Loses :
      (s : Mqtt lib) (message : Text) → Loses 0 (mqtt_send_blocks lib s message)
  unfolding mqtt_send_blocks
  mqtt_send_blocks-Loses s message ps n h o =
      bind (λ p. Owns (p ∷ ps) (n + 1)) (λ u. Owns ps (n + 0)) malloc _ h (malloc-owned ps n h o)
        (λ p t kept.
          let (w, rc) = lib.connect (recover lib s).world in
          rw (same_way s.mosq (is_zero rc) (is_zero (lib.publish message w).1) (free p))
            (free-owned p ps (n + 0) t (recount (p ∷ ps) (n + 1) (n + 0 + 1) t kept (omega arith))))

  pub deliver_blocks-Loses :
      (s : Mqtt lib) (messages : List Text) → Loses 0 (deliver_blocks lib s messages)
  unfolding deliver_blocks
  deliver_blocks-Loses s [] = Loses-nothing
  deliver_blocks-Loses s (m ∷ ms) =
      Loses-then 0 0 _ _ (mqtt_send_blocks-Loses s m)
        (deliver_blocks-Loses (mqtt_send lib s m).0 ms)

  pub feed_blocks-Loses : (p : Program lib) (bs : List ℕ) → Loses 0 (feed_blocks lib p bs)
  unfolding feed_blocks
  feed_blocks-Loses p [] = Loses-nothing
  feed_blocks-Loses p (b ∷ bs) =
      Loses-then 0 0 _ _ (deliver_blocks-Loses p.mqtt (put_read_data p.receiver b).1)
        (feed_blocks-Loses (put_byte lib p b) bs)

  readftdi_result :
      (outputdata : Bool) (s : Session lib) (a : Attempt)
      → ((readftdi lib a.uid a.euid a.devices a.junk outputdata s a.turns).1 == 0)
        ≡ all_succeed (ltb 1 a.devices) (if is_privileged a.uid a.euid then a.turns else [])
  unfolding readftdi
  readftdi_result outputdata s a =
      let opened : Session lib = record s {
        buffer = a.junk;
        rawdata = if outputdata then [] else s.rawdata;
        used = open_devices a.devices 0;
      } in
      let turns = if is_privileged a.uid a.euid then a.turns else [] in
      let (program, finished) = ftdi_loop-feed lib outputdata (ltb 1 a.devices) opened turns in
      elim (Bool-cases (ftdi_loop lib outputdata (ltb 1 a.devices) opened turns).1) [
        | inl e ↦ rw e (sym e ∙ finished)
        | inr e ↦ rw e (sym e ∙ finished)
      ]

  pub readftdi_blocks-Loses :
      (outputdata : Bool) (s : Session lib) (a : Attempt)
      → Loses (lost_by a) (readftdi_blocks lib outputdata s a)
  unfolding readftdi_blocks lost_by
  readftdi_blocks-Loses outputdata s a ps n h o =
      let Q : Unit {0} → Ledger → Type 0 = λ u. Owns ps (n + lost_by a) in
      bind (λ p. Owns (p ∷ ps) (n + 1)) Q malloc _ h (malloc-owned ps n h o)
        (λ buffer t one.
          bind (λ p. Owns (p ∷ buffer ∷ ps) (n + 1 + 1)) Q malloc _ t
            (malloc-owned (buffer ∷ ps) (n + 1) t one)
            (λ devices u two.
              bind (λ _. Owns (devices ∷ buffer ∷ ps) (n + 1 + 1 + 0)) Q
                (feed_blocks lib s.program (ftdi_bytes a)) _ u
                (feed_blocks-Loses s.program (ftdi_bytes a) (devices ∷ buffer ∷ ps) (n + 1 + 1) u
                  two)
                (λ _ v kept. rw (readftdi_result outputdata s a) (
                  loop_ends _ devices buffer ps n v (
                    recount (devices ∷ buffer ∷ ps) (n + 1 + 1 + 0) (n + 2) v kept
                      (omega arith))))))
