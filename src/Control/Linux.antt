-- ===== src/Control/Linux.antt =====
-- The runs of the Linux build against `main` as a function of the attempts.
use serial.Base.{ℕ, ◌≡◌, refl, sym, ap, ◌∙◌, Bool, true, false, List, [], ◌∷◌}
use serial.Mqtt.{Mosquitto, Mqtt}
use serial.Program.{feed, data_clean}
use serial.SerialPort.{Poll, Transfer}
use serial.Ftdi.{Turn}
use serial.Listener.{Attempt, Listener, start_listen}
use serial.Device.{Device, listen}
use serial.Device.Serial.{serial_port}
use serial.Device.Ftdi.{FtdiOpening, FtdiState, ftdi_device}
use serial.Device.Listener.{
  serial_attempts, ftdi_attempts, transfer_of, with_transfer, with_session, start_listen-serial,
  start_listen-ftdi,
}
use serial.CommandLine.{Options}
use serial.Run.{Environment, run_options}
use serial.Run as Run
use serial.Control.{ended, Control, at_start, Steps}
use serial.Control.Attempts.{attempts_of}
use serial.Control.Bytes.{Steps_program}
use serial.Control.Complete.{IsPossible, listen-Steps}
use serial.Control.Refine.{Steps-listen}

-- The attempts of a reader as the listener's.
abbrev pub from_serial : List ((Bool × Bool) × List Poll) → List Attempt
from_serial [] = []
from_serial ((o, polls) ∷ later) =
    record {
      source_opens = o.0;
      destination_opens = o.1;
      polls = polls;
      uid = 0;
      euid = 0;
      devices = 0;
      junk = [];
      turns = [];
    }
    ∷ from_serial later

abbrev pub from_ftdi : List (FtdiOpening × List Turn) → List Attempt
from_ftdi [] = []
from_ftdi ((o, turns) ∷ later) =
    record {
      source_opens = true;
      destination_opens = true;
      polls = [];
      uid = o.uid;
      euid = o.euid;
      devices = o.devices;
      junk = o.junk;
      turns = turns;
    }
    ∷ from_ftdi later

serial_attempts-from_serial :
    (attempts : List ((Bool × Bool) × List Poll))
    → serial_attempts (from_serial attempts) ≡ attempts
serial_attempts-from_serial [] = refl
serial_attempts-from_serial (a ∷ later) = ap (λ k. a ∷ k) (serial_attempts-from_serial later)

ftdi_attempts-from_ftdi :
    (attempts : List (FtdiOpening × List Turn)) → ftdi_attempts (from_ftdi attempts) ≡ attempts
ftdi_attempts-from_ftdi [] = refl
ftdi_attempts-from_ftdi (a ∷ later) = ap (λ k. a ∷ k) (ftdi_attempts-from_ftdi later)

-- A reader from a state on, with what main leaves for its attempts and for its last state.
module _ {lib : Mosquitto} (d : Device lib) (s : d.State)
    (main_of : List (d.Opening × List d.Turn) → Listener lib) (left : d.State → Listener lib) where
  -- The run ended by the signal, and main leaves for its attempts what it leaves: the attempts but
  -- the last ended by themselves, and the program is fed with the run's bytes.
  abbrev pub IsMain :
      {c : Control false d} {bs : List ℕ} → Steps false d (at_start false d s) bs c → Type 0
  IsMain {c} {bs} run =
      (c.running ≡ false)
      × IsPossible false d s (attempts_of run)
      × (main_of (attempts_of run) ≡ left c.state)
      × ((main_of (attempts_of run)).program ≡ data_clean lib (feed lib (d.program s) bs))

  -- What main leaves for these attempts is what some run leaves that ends.
  abbrev pub IsSomeRun : List (d.Opening × List d.Turn) → Type 0
  IsSomeRun attempts =
      (bs : List ℕ) × (c : Control false d) × Steps false d (at_start false d s) bs c
      × (c.place ≡ ended)
      × (main_of attempts ≡ left c.state)

  Steps-IsMain :
      {c : Control false d} {bs : List ℕ} (run : Steps false d (at_start false d s) bs c)
      (attempts : List (d.Opening × List d.Turn))
      → d.tests_first ≡ true
      → ((k : List (d.Opening × List d.Turn)) → main_of k ≡ left (listen d s k))
      → ((u : d.State) → (left u).program ≡ data_clean lib (d.program u))
      → c.place ≡ ended
      → IsPossible false d s attempts
      → IsMain run × IsSomeRun attempts
  Steps-IsMain {c} run attempts first same cleans at can =
      let (here, possible, off) = Steps-listen false d s run at in
      let outcome = same (attempts_of run) ∙ ap left (sym here) in
      let (cs, other) = listen-Steps false d s attempts first can in
      (
        (
          off,
          possible,
          outcome,
          ap (λ l. l.program) outcome
              ∙ cleans c.state
              ∙ ap (data_clean lib) (Steps_program false d run),
        ),
        (cs, _, other, refl, same attempts),
      )

module _ (lib : Mosquitto) where
  -- dataClean, on the listener's program.
  abbrev pub cleaned : Listener lib → Listener lib
  cleaned l = record l { program = data_clean lib l.program }

  abbrev pub session_of : Listener lib → FtdiState lib
  session_of l = (
    record { program = l.program; buffer = []; rawdata = l.rawdata; blocks = l.blocks; used = [] },
    false,
  )

  -- What main leaves for the attempts of either reader.
  abbrev pub main_serial :
      Environment → Mqtt lib → Options → List ((Bool × Bool) × List Poll) → Listener lib
  main_serial world mqtt o k = run_options lib (record world { attempts = from_serial k }) mqtt o

  abbrev pub main_ftdi :
      Environment → Mqtt lib → Options → List (FtdiOpening × List Turn) → Listener lib
  main_ftdi world mqtt o k = run_options lib (record world { attempts = from_ftdi k }) mqtt o

  -- What main leaves for the last state of either reader.
  abbrev pub left_serial : Environment → Mqtt lib → Transfer lib → Listener lib
  left_serial world mqtt t = cleaned (with_transfer lib (Run.started lib world mqtt) t)

  abbrev pub left_ftdi : Environment → Mqtt lib → FtdiState lib → Listener lib
  left_ftdi world mqtt s = cleaned (with_session lib (Run.started lib world mqtt) s)

  main_serial-listen :
      (world : Environment) (mqtt : Mqtt lib) (o : Options) (k : List ((Bool × Bool) × List Poll))
      → o.ftdi_mode ≡ false
      → main_serial world mqtt o k
        ≡ left_serial world mqtt
            (listen (serial_port lib o.send_mode) (transfer_of lib (Run.started lib world mqtt)) k)
  unfolding run_options serial.Run.started
  main_serial-listen world mqtt o k mode =
      let l = Run.started lib world mqtt in
      ap (λ b. cleaned (start_listen lib b o.send_mode o.lograwdata l (from_serial k))) mode
      ∙ ap cleaned (start_listen-serial lib o.send_mode o.lograwdata l (from_serial k))
      ∙ ap
          (λ a. left_serial world mqtt (listen (serial_port lib o.send_mode) (transfer_of lib l) a))
          (serial_attempts-from_serial k)

  main_ftdi-listen :
      (world : Environment) (mqtt : Mqtt lib) (o : Options) (k : List (FtdiOpening × List Turn))
      → o.ftdi_mode ≡ true
      → main_ftdi world mqtt o k
        ≡ left_ftdi world mqtt
            (listen (ftdi_device lib o.lograwdata) (session_of (Run.started lib world mqtt)) k)
  unfolding run_options serial.Run.started
  main_ftdi-listen world mqtt o k mode =
      let l = Run.started lib world mqtt in
      ap (λ b. cleaned (start_listen lib b o.send_mode o.lograwdata l (from_ftdi k))) mode
      ∙ ap cleaned (start_listen-ftdi lib o.send_mode o.lograwdata l (session_of l) (from_ftdi k))
      ∙ ap (λ a. left_ftdi world mqtt (listen (ftdi_device lib o.lograwdata) (session_of l) a))
          (ftdi_attempts-from_ftdi k)

  -- The readers' states behind dataInit's first message.
  abbrev pub first_transfer : Environment → Mqtt lib → Transfer lib
  first_transfer world mqtt = transfer_of lib (Run.started lib world mqtt)

  abbrev pub first_session : Environment → Mqtt lib → FtdiState lib
  first_session world mqtt = session_of (Run.started lib world mqtt)

  -- Whenever the signal comes, outside of the FTDI mode a run of the listener over the serial port,
  -- from dataInit on, that ends has had `running` cleared; all attempts that it made but the last,
  -- with their openings and the turns of their loops, ended by themselves; and main leaves for
  -- exactly these attempts what the run leaves behind dataClean: the program, which was fed the
  -- run's bytes, what was written to the second port, and whether its buffer was respected.
  -- Conversely, what main leaves for any attempts of which all but the last end by themselves is
  -- what some run leaves that ends.
  pub Steps_serial :
      (world : Environment) (mqtt : Mqtt lib) (o : Options)
      (c : Control false (serial_port lib o.send_mode)) (bs : List ℕ)
      (run : Steps false
        (serial_port lib o.send_mode)
        (at_start false (serial_port lib o.send_mode) (first_transfer world mqtt))
        bs
        c)
      (attempts : List ((Bool × Bool) × List Poll))
      → o.ftdi_mode ≡ false
      → c.place ≡ ended
      → IsPossible false (serial_port lib o.send_mode) (first_transfer world mqtt) attempts
      → let port = serial_port lib o.send_mode in
        let s = first_transfer world mqtt in
        IsMain port s (main_serial world mqtt o) (left_serial world mqtt) run
        × IsSomeRun port s (main_serial world mqtt o) (left_serial world mqtt) attempts
  Steps_serial world mqtt o c bs run attempts mode at can =
      Steps-IsMain (serial_port lib o.send_mode) _ (main_serial world mqtt o)
        (left_serial world mqtt) run attempts refl (λ k. main_serial-listen world mqtt o k mode)
        (λ u. refl) at can

  -- Whenever the signal comes, in the FTDI mode a run of the listener over an FTDI device, from
  -- dataInit on, that ends has had `running` cleared; all attempts that it made but the last, with
  -- their openings and the turns of their loops, ended by themselves; and main leaves for exactly
  -- these attempts what the run leaves behind dataClean: the program, which was fed the run's
  -- bytes, what was printed to the stream of rawdata.txt that was opened last, and the blocks for
  -- the second device. Conversely, what main leaves for any attempts of which all but the last end
  -- by themselves is what some run leaves that ends.
  pub Steps_ftdi :
      (world : Environment) (mqtt : Mqtt lib) (o : Options)
      (c : Control false (ftdi_device lib o.lograwdata)) (bs : List ℕ)
      (run : Steps false
        (ftdi_device lib o.lograwdata)
        (at_start false (ftdi_device lib o.lograwdata) (first_session world mqtt))
        bs
        c)
      (attempts : List (FtdiOpening × List Turn))
      → o.ftdi_mode ≡ true
      → c.place ≡ ended
      → IsPossible false (ftdi_device lib o.lograwdata) (first_session world mqtt) attempts
      → let device = ftdi_device lib o.lograwdata in
        let s = first_session world mqtt in
        IsMain device s (main_ftdi world mqtt o) (left_ftdi world mqtt) run
        × IsSomeRun device s (main_ftdi world mqtt o) (left_ftdi world mqtt) attempts
  Steps_ftdi world mqtt o c bs run attempts mode at can =
      Steps-IsMain (ftdi_device lib o.lograwdata) _ (main_ftdi world mqtt o) (left_ftdi world mqtt)
        run attempts refl (λ k. main_ftdi-listen world mqtt o k mode) (λ u. refl) at can
