-- ===== src/Listener/Stream.antt =====
-- From the devices to the broker: the bytes of all attempts as one stream.
use serial.Base.{
  ℕ, ◌≡◌, refl, sym, ap, ◌∙◌, Bool, true, false, not, ◌&&◌, ◌||◌, List, [], ◌∷◌, ◌++◌, arith, ltb,
  if◌then◌else◌, Bool-cases, inl, inr,
}
use serial.Mqtt.{Mosquitto, deliver}
use serial.Protocol.{read_all}
use serial.Program.{feed}
use serial.Program.Feed.{feed-append, feed_nil, feed-read_all}
use serial.SerialPort.{Transfer, read}
use serial.SerialPort.Stream.{stream, read_loop-stream}
use serial.Ftdi.{Session, is_privileged, open_devices, ftdi_loop, readftdi}
use serial.Ftdi.Stream.{received, ftdi_loop-feed}
use serial.Listener.{Attempt, Listener, start, startftdi, start_listen}

-- The bytes of one attempt.
abbrev pub port_bytes : Bool → Attempt → List ℕ
port_bytes forward a =
    if a.source_opens && (not forward || a.destination_opens) then stream a.polls else []

abbrev pub ftdi_bytes : Attempt → List ℕ
ftdi_bytes a = received (ltb 1 a.devices) (if is_privileged a.uid a.euid then a.turns else [])

abbrev pub attempt_bytes : Bool → Bool → Attempt → List ℕ
attempt_bytes ftdidevice sendmode a = if ftdidevice then ftdi_bytes a else port_bytes sendmode a

abbrev pub all_bytes : Bool → Bool → List Attempt → List ℕ
all_bytes ftdidevice sendmode [] = []
all_bytes ftdidevice sendmode (a ∷ later) =
    attempt_bytes ftdidevice sendmode a ++ all_bytes ftdidevice sendmode later

module _ (lib : Mosquitto) where
  read_program :
      (source_opens destination_opens forward : Bool) (t : Transfer lib) (a : Attempt)
      → a.source_opens ≡ source_opens
      → a.destination_opens ≡ destination_opens
      → (read lib source_opens destination_opens forward t a.polls).0.program
        ≡ feed lib t.program (port_bytes forward a)
  unfolding read
  read_program source_opens destination_opens forward t a e f =
      ground (arith, feed_nil lib t.program, read_loop-stream lib forward t a.polls)

  readftdi_program :
      (outputdata : Bool) (s : Session lib) (a : Attempt)
      → (readftdi lib a.uid a.euid a.devices a.junk outputdata s a.turns).0.program
        ≡ feed lib s.program (ftdi_bytes a)
  unfolding readftdi
  readftdi_program outputdata s a =
      let opened : Session lib = record s {
        buffer = a.junk;
        rawdata = if outputdata then [] else s.rawdata;
        used = open_devices a.devices 0;
      } in
      let turns = if is_privileged a.uid a.euid then a.turns else [] in
      let (program, finished) = ftdi_loop-feed lib outputdata (ltb 1 a.devices) opened turns in
      elim (Bool-cases (ftdi_loop lib outputdata (ltb 1 a.devices) opened turns).1) [
        | inl e ↦ rw e program
        | inr e ↦ rw e program
      ]

  start_program :
      (ftdidevice sendmode outputdata : Bool) (l : Listener lib) (a : Attempt)
      → (if ftdidevice then startftdi lib outputdata l a else start lib sendmode l a).program
        ≡ feed lib l.program (attempt_bytes ftdidevice sendmode a)
  unfolding start startftdi
  start_program true sendmode outputdata l a = readftdi_program outputdata _ a
  start_program false sendmode outputdata l a = read_program _ _ sendmode _ a refl refl

  pub start_listen-feed :
      (ftdidevice sendmode outputdata : Bool) (l : Listener lib) (later : List Attempt)
      → (start_listen lib ftdidevice sendmode outputdata l later).program
        ≡ feed lib l.program (all_bytes ftdidevice sendmode later)
  unfolding start_listen
  start_listen-feed ftdidevice sendmode outputdata l [] = sym (feed_nil lib l.program)
  start_listen-feed ftdidevice sendmode outputdata l (a ∷ later) =
      let next = if ftdidevice then startftdi lib outputdata l a else start lib sendmode l a in
      start_listen-feed ftdidevice sendmode outputdata next later
      ∙ ap (λ p. feed lib p (all_bytes ftdidevice sendmode later))
          (start_program ftdidevice sendmode outputdata l a)
      ∙ sym (
          feed-append lib l.program (attempt_bytes ftdidevice sendmode a)
            (all_bytes ftdidevice sendmode later))

  -- Whichever device is read, and however its bytes are spread over attempts and reads, the
  -- receiver ends as it does on the stream of all bytes got, and the broker, whatever it answers,
  -- gets exactly the receiver's messages for that stream, in their order.
  pub start_listen-read_all :
      (ftdidevice sendmode outputdata : Bool) (l : Listener lib) (later : List Attempt)
      → let bs = all_bytes ftdidevice sendmode later in
        (start_listen lib ftdidevice sendmode outputdata l later).program ≡ record {
          receiver = (read_all l.program.receiver bs).0;
          mqtt = deliver lib l.program.mqtt (read_all l.program.receiver bs).1;
        }
  start_listen-read_all ftdidevice sendmode outputdata l later =
      start_listen-feed ftdidevice sendmode outputdata l later
      ∙ feed-read_all lib l.program (all_bytes ftdidevice sendmode later)
