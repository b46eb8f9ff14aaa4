-- ===== src/Blocks.antt =====
-- The memory that a run of the program acquires from malloc and gives back: main.cpp,
-- serialconnect/analyseData.cpp, analyseLane.cpp, serialUtils.cpp and analyseHeader.cpp,
-- mqtt/mqttUtils.cpp and receiver/readFTDI.cpp, each as the calls of malloc and free that it makes,
-- in their order. malloc is taken to succeed.
pub mod Kept
pub mod Arrays
pub mod Left
use serial.Base.{ℕ, ◌==◌, Bool, none, List, [], ◌∷◌, if◌then◌else◌}
use serial.Base.Int.{is_zero}
use serial.Text.{Text, codes}
use serial.Mqtt.{Mosquitto, Mqtt, mqtt_connect, mqtt_send, recover}
use serial.Protocol.{put_read_data}
use serial.Program.{Program, put_byte}
use serial.Ftdi.{Session, readftdi}
use serial.Listener.{Attempt, Listener, start, startftdi}
use serial.Listener.Stream.{port_bytes, ftdi_bytes}
use serial.CommandLine.{Pointer, allocated, argument, null, Options, Outcome, usage, run, main}
use serial.Run.{Environment, started}
use serial.Ledger.{Command, give, ◌>>=◌, malloc, free, malloc_each}

-- The blocks that cleanReadData still finds.
pub record LaneGlobals : Type 0 where
  pub lanebyplaceorder : ℕ
  pub heat_data : ℕ
  pub place_data : ℕ

pub record Globals : Type 0 where
  pub colorado_data : ℕ
  pub lanes : LaneGlobals

-- `initanalyseLane`: three arrays, and the buffers of ten lanes in two of them.
unfoldable pub init_analyse_lane_blocks : Command LaneGlobals
init_analyse_lane_blocks = do
  lanebyplaceorder ← malloc
  heat_data ← malloc
  _ ← malloc_each 10
  place_data ← malloc
  _ ← malloc_each 10
  give (record {
    lanebyplaceorder = lanebyplaceorder;
    heat_data = heat_data;
    place_data = place_data;
  })

-- `initanalyseData`: mydata and storeRoundsData.
unfoldable pub init_analyse_data_blocks : Command (Unit {0})
init_analyse_data_blocks = malloc_each 2

-- `initReadData`: colorado_data with its 32 rows; the last malloc is initanalyseHeader's, of
-- COLORADO_HEADER_DATA.
unfoldable pub init_read_data_blocks : Command Globals
init_read_data_blocks = do
  colorado_data ← malloc
  _ ← malloc_each 32
  _ ← init_analyse_data_blocks
  lanes ← init_analyse_lane_blocks
  _ ← malloc
  give (record { colorado_data = colorado_data; lanes = lanes })

-- `cleananalyseLane`
unfoldable pub clean_analyse_lane_blocks : LaneGlobals → Command (Unit {0})
clean_analyse_lane_blocks g = do
  _ ← free g.place_data
  _ ← free g.heat_data
  free g.lanebyplaceorder

-- `cleanReadData`: cleananalyseData frees nothing.
unfoldable pub clean_read_data_blocks : Globals → Command (Unit {0})
clean_read_data_blocks g = do _ ← clean_analyse_lane_blocks g.lanes; free g.colorado_data

-- free() of a `char *` of main: of the block that malloc gave, if the pointer is still that one.
abbrev pub free_pointer : Pointer → ℕ → Command (Unit {0})
free_pointer (allocated t) p = free p
free_pointer (argument t) p = λ h. none
free_pointer null p = give tt

module _ (lib : Mosquitto) where
  open lib use {connect, publish}

  -- `mqtt_send`: remotechar, which each way out frees.
  unfoldable pub mqtt_send_blocks : Mqtt lib → Text → Command (Unit {0})
  mqtt_send_blocks s message = do
    remotechar ← malloc
    let (w, rc) = connect (recover lib s).world in
        let (w', rc') = publish message w in
        if s.mosq
        then if is_zero rc
          then if is_zero rc' then free remotechar else free remotechar
          else free remotechar
        else free remotechar

  unfoldable pub deliver_blocks : Mqtt lib → List Text → Command (Unit {0})
  deliver_blocks s [] = give tt
  deliver_blocks s (m ∷ ms) = do _ ← mqtt_send_blocks s m; deliver_blocks (mqtt_send lib s m).0 ms

  -- Bytes that are put into the program, with the messages of each.
  unfoldable pub feed_blocks : Program lib → List ℕ → Command (Unit {0})
  feed_blocks p [] = give tt
  feed_blocks p (b ∷ bs) = do
    _ ← deliver_blocks p.mqtt (put_read_data p.receiver b).1
    feed_blocks (put_byte lib p b) bs

  -- `readftdi`: pcBufRead and devInfo, freed where the loop ends by `running`, and not where a call
  -- that fails returns 1. `ftdi_bytes` are the bytes that its loop puts into the program.
  unfoldable pub readftdi_blocks : Bool → Session lib → Attempt → Command (Unit {0})
  readftdi_blocks outputdata s a = do
    buffer ← malloc
    devices ← malloc
    _ ← feed_blocks s.program (ftdi_bytes a)
    if (readftdi lib a.uid a.euid a.devices a.junk outputdata s a.turns).1 == 0
        then (do _ ← free buffer; free devices)
        else give tt

  -- One attempt of `startListen`. A serial port takes no memory; its loop puts `port_bytes` into the
  -- program.
  unfoldable pub attempt_blocks : Bool → Bool → Bool → Listener lib → Attempt → Command (Unit {0})
  attempt_blocks ftdidevice sendmode outputdata l a =
      if ftdidevice
      then readftdi_blocks outputdata
          (record {
            program = l.program;
            buffer = [];
            rawdata = l.rawdata;
            blocks = l.blocks;
            used = [];
          })
          a
      else feed_blocks l.program (port_bytes sendmode a)

  unfoldable pub listen_blocks :
      Bool → Bool → Bool → Listener lib → List Attempt → Command (Unit {0})
  listen_blocks ftdidevice sendmode outputdata l [] = give tt
  listen_blocks ftdidevice sendmode outputdata l (a ∷ later) = do
    _ ← attempt_blocks ftdidevice sendmode outputdata l a
    listen_blocks ftdidevice sendmode outputdata
        (if ftdidevice then startftdi lib outputdata l a else start lib sendmode l a) later

  -- `dataInit` and `dataClean`.
  unfoldable pub run_blocks : Environment → Mqtt lib → Options → Command (Unit {0})
  run_blocks world mqtt o = do
    globals ← init_read_data_blocks
    _ ← mqtt_send_blocks (mqtt_connect lib world.pid mqtt).0 (codes "utils init (mqtt rawdata)")
    _ ← listen_blocks o.ftdi_mode o.send_mode o.lograwdata (started lib world mqtt) world.attempts
    clean_read_data_blocks globals

  -- The end of `main`, with the blocks of its two port names; the usage frees neither.
  unfoldable pub outcome_blocks : Environment → Mqtt lib → Outcome → ℕ → ℕ → Command (Unit {0})
  outcome_blocks world mqtt usage portname destinationportname = give tt
  outcome_blocks world mqtt (run o) portname destinationportname = do
    _ ← run_blocks world mqtt o
    _ ← free_pointer o.portname portname
    free_pointer o.destinationportname destinationportname

  -- `main`: portname, destinationportname and destinationfile, which nothing frees.
  unfoldable pub main_blocks : Environment → Mqtt lib → List Text → Command (Unit {0})
  main_blocks world mqtt args = do
    portname ← malloc
    destinationportname ← malloc
    _ ← malloc
    outcome_blocks world mqtt (main world.basic_portname world.destination_portname args) portname
        destinationportname
