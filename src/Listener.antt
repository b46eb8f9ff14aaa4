-- ===== src/Listener.antt =====
-- serialconnect/listener.cpp: `startListen` reads one device or the other, and begins anew whenever
-- reading has ended before `running` is cleared.
pub mod Stream
pub mod Restart
use serial.Base.{ℕ, Bool, List, [], ◌∷◌, ◌++◌, if◌then◌else◌}
use serial.Text.{Text}
use serial.Mqtt.{Mosquitto}
use serial.Program.{Program}
use serial.SerialPort.{Poll, Write, Transfer, read}
use serial.Ftdi.{Turn, Session, readftdi}

-- What one attempt meets: for a serial port whether the ports open and what the reads return, for
-- an FTDI device the user, the number of devices, fresh memory and the turns.
pub record Attempt : Type 0 where
  pub source_opens : Bool
  pub destination_opens : Bool
  pub polls : List Poll
  pub uid : ℕ
  pub euid : ℕ
  pub devices : ℕ
  pub junk : List ℕ
  pub turns : List Turn

module _ (lib : Mosquitto) where
  -- The program, and what the attempts leave outside of it: the writes to the second port with
  -- whether its buffer was respected, what was printed to the stream of rawdata.txt that
  -- was opened last, and the blocks for the second device.
  pub record Listener : Type 0 where
    pub program : Program lib
    pub written : List Write
    pub within : Bool
    pub rawdata : Text
    pub blocks : List (List ℕ)

  -- `start`, whose result nothing looks at.
  unfoldable pub start : Bool → Listener → Attempt → Listener
  start forward l attempt =
      let transfer : Transfer lib = record {
        program = l.program;
        written = l.written;
        within = l.within;
      } in
      let after =
        (read lib attempt.source_opens attempt.destination_opens forward transfer
          attempt.polls).0 in
      record l { program = after.program; written = after.written; within = after.within }

  -- `startftdi`, whose result nothing looks at either.
  unfoldable pub startftdi : Bool → Listener → Attempt → Listener
  startftdi outputdata l attempt =
      let session : Session lib = record {
        program = l.program;
        buffer = [];
        rawdata = l.rawdata;
        blocks = l.blocks;
        used = [];
      } in
      let after =
        (readftdi lib attempt.uid attempt.euid attempt.devices attempt.junk outputdata session
          attempt.turns).0 in
      record l { program = after.program; rawdata = after.rawdata; blocks = after.blocks }

  -- `startListen`, for the attempts that are made before `running` is cleared.
  unfoldable pub start_listen : Bool → Bool → Bool → Listener → List Attempt → Listener
  start_listen ftdidevice sendmode outputdata l [] = l
  start_listen ftdidevice sendmode outputdata l (attempt ∷ attempts) =
      start_listen ftdidevice sendmode outputdata
        (if ftdidevice then startftdi outputdata l attempt else start sendmode l attempt) attempts
