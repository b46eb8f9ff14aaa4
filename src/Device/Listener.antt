-- ===== src/Device/Listener.antt =====
-- serialconnect/listener.cpp in the Linux build: `startListen` with the two readers of that build.
use serial.Base.{◌≡◌, refl, sym, ap, ◌∙◌, Bool, true, false, List, [], ◌∷◌}
use serial.Mqtt.{Mosquitto}
use serial.SerialPort.{Poll, Transfer}
use serial.Ftdi.{Turn, Session, readftdi}
use serial.Listener.{Attempt, Listener, start, startftdi, start_listen}
use serial.Device.{attempt, listen}
use serial.Device.Serial.{serial_port, attempt-read}
use serial.Device.Ftdi.{FtdiOpening, FtdiState, ftdi_device, attempt-readftdi}

-- What each reader takes of an attempt.
abbrev pub serial_attempts : List Attempt → List ((Bool × Bool) × List Poll)
serial_attempts [] = []
serial_attempts (a ∷ later) =
    ((a.source_opens, a.destination_opens), a.polls) ∷ serial_attempts later

abbrev pub ftdi_opening : Attempt → FtdiOpening
ftdi_opening a = record { uid = a.uid; euid = a.euid; devices = a.devices; junk = a.junk }

abbrev pub ftdi_attempts : List Attempt → List (FtdiOpening × List Turn)
ftdi_attempts [] = []
ftdi_attempts (a ∷ later) = (ftdi_opening a, a.turns) ∷ ftdi_attempts later

module _ (lib : Mosquitto) where
  -- What the serial port's reader has of the listener, and puts back.
  abbrev pub transfer_of : Listener lib → Transfer lib
  transfer_of l = record { program = l.program; written = l.written; within = l.within }

  abbrev pub with_transfer : Listener lib → Transfer lib → Listener lib
  with_transfer l t = record l { program = t.program; written = t.written; within = t.within }

  -- The listener with a serial port is its reader's attempts.
  pub start_listen-serial :
      (sendmode outputdata : Bool) (l : Listener lib) (later : List Attempt)
      → start_listen lib false sendmode outputdata l later
        ≡ with_transfer l
            (listen (serial_port lib sendmode) (transfer_of l) (serial_attempts later))
  unfolding start_listen listen start
  start_listen-serial sendmode outputdata l [] = refl
  start_listen-serial sendmode outputdata l (a ∷ later) =
      start_listen-serial sendmode outputdata (start lib sendmode l a) later
      ∙ ap (λ t. with_transfer l (listen (serial_port lib sendmode) t (serial_attempts later)))
          (sym
            (attempt-read lib sendmode a.source_opens a.destination_opens (transfer_of l) a.polls))

  -- The listener with what an FTDI session has of it.
  abbrev pub with_session : Listener lib → FtdiState lib → Listener lib
  with_session l s = record l { program = s.0.program; rawdata = s.0.rawdata; blocks = s.0.blocks }

  startftdi_session :
      (outputdata : Bool) (l : Listener lib) (s : FtdiState lib) (a : Attempt)
      → startftdi lib outputdata (with_session l s) a
        ≡ with_session l (attempt (ftdi_device lib outputdata) s (ftdi_opening a, a.turns))
  unfolding startftdi readftdi
  startftdi_session outputdata l s a =
      ap (λ (q : Session lib). with_session l (q, true))
        (sym (attempt-readftdi lib outputdata (ftdi_opening a) s a.turns))

  -- The listener with an FTDI device is its reader's attempts.
  pub start_listen-ftdi :
      (sendmode outputdata : Bool) (l : Listener lib) (s : FtdiState lib) (later : List Attempt)
      → start_listen lib true sendmode outputdata (with_session l s) later
        ≡ with_session l (listen (ftdi_device lib outputdata) s (ftdi_attempts later))
  unfolding start_listen listen
  start_listen-ftdi sendmode outputdata l s [] = refl
  start_listen-ftdi sendmode outputdata l s (a ∷ later) =
      let next = attempt (ftdi_device lib outputdata) s (ftdi_opening a, a.turns) in
      ap (λ m. start_listen lib true sendmode outputdata m later)
        (startftdi_session outputdata l s a)
      ∙ start_listen-ftdi sendmode outputdata l next later
