-- ===== src/Ftdi.antt =====
-- receiver/readFTDI.cpp: the loop that reads an FTDI device, writes what it reads to a file and to a
-- second device, and puts it into the receiver. The FTDI library's results are arguments: the status
-- of each call that sets a device up, the number of devices, and what each turn of the loop gets.
pub mod Setup
pub mod Hex
pub mod Stream
pub mod Log
pub mod Blocks
pub mod Handles
use serial.Base.{
  ℕ, zero, suc, ◌+◌, ◌-◌, ◌/◌, ◌%◌, Bool, true, false, not, ◌&&◌, ◌||◌, List, [], ◌∷◌, ◌++◌, ltb,
  ◌==◌, if◌then◌else◌, length, take, drop,
}
use serial.Text.{Text}
use serial.Mqtt.{Mosquitto}
use serial.Program.{Program, feed}

abbrev pub buf_size : ℕ
buf_size = 16

-- One hexadecimal digit, as %X prints it.
unfoldable pub hex_digit : ℕ → ℕ
hex_digit n = if ltb n 10 then b'0' + n else b'A' + (n - 10)

-- `dumpToFile`: each byte in two digits, by "%02X".
unfoldable pub dump_to_file : List ℕ → Text
dump_to_file [] = []
dump_to_file (b ∷ bs) = hex_digit (b / 16) ∷ hex_digit (b % 16) ∷ dump_to_file bs

-- The calls of `openFtdiHanlde`, for one device.
pub data Call : Type 0 where
  open_device : Call
  reset_device : Call
  set_baud_rate : Call
  set_data_characteristics : Call
  set_flow_control : Call
  clear_dtr : Call
  clear_rts : Call
  set_break_off : Call
  set_timeouts : Call

-- The calls made, in order, and the result, for the status that each call returns; 0 is FT_OK. The
-- status of the last four is not looked at.
unfoldable pub open_ftdi_handle : (Call → ℕ) → List Call × ℕ
open_ftdi_handle status =
    if not (status open_device == 0)
    then (open_device ∷ [], 1)
    else if not (status reset_device == 0)
    then (open_device ∷ reset_device ∷ [], 1)
    else if not (status set_baud_rate == 0)
    then (open_device ∷ reset_device ∷ set_baud_rate ∷ [], 1)
    else if not (status set_data_characteristics == 0)
    then (open_device ∷ reset_device ∷ set_baud_rate ∷ set_data_characteristics ∷ [], 1)
    else if not (status set_flow_control == 0)
    then (
      open_device ∷ reset_device ∷ set_baud_rate ∷ set_data_characteristics ∷ set_flow_control ∷ [],
      1,
    )
    else (
      open_device ∷ reset_device ∷ set_baud_rate ∷ set_data_characteristics ∷ set_flow_control
          ∷ clear_dtr ∷ clear_rts ∷ set_break_off ∷ set_timeouts ∷ [],
      0,
    )

-- The indices of the handles that are opened; the results of opening are not looked at.
unfoldable pub open_devices : ℕ → ℕ → List ℕ
open_devices zero i = []
open_devices (suc n) i = i ∷ open_devices n (i + 1)

-- uid < 1 || uid != euid
unfoldable pub is_privileged : ℕ → ℕ → Bool
is_privileged uid euid = ltb uid 1 || not (uid == euid)

-- A turn of the loop: the status of FT_Read with the bytes that it put into the buffer, and the
-- status of FT_Write, if that is called.
pub record Turn : Type 0 where
  pub read_status : ℕ
  pub bytes : List ℕ
  pub write_status : ℕ

-- A buffer after `bytes` were put into its front.
abbrev pub fill : List ℕ → List ℕ → List ℕ
fill buffer bytes = bytes ++ drop (length bytes) buffer

module _ (lib : Mosquitto) where
  -- The program, the buffer pcBufRead, the text that was printed to the stream of rawdata.txt that
  -- was opened last (what the file held before any was), the blocks written to the second device,
  -- and the indices into devInfo that the calls so far used. When the text reaches the file is left
  -- to the C library, which buffers it.
  pub record Session : Type 0 where
    pub program : Program lib
    pub buffer : List ℕ
    pub rawdata : Text
    pub blocks : List (List ℕ)
    pub used : List ℕ

  -- FT_Read, and the log.
  unfoldable pub take_in : Bool → Session → Turn → Session
  take_in outputdata s turn =
      let buffer = fill s.buffer turn.bytes in
      record s {
        buffer = buffer;
        used = s.used ++ 0 ∷ [];
        rawdata =
            if outputdata
            then s.rawdata ++ dump_to_file (take (length turn.bytes) buffer)
            else s.rawdata;
      }

  -- FT_Write of BUF_SIZE bytes, whatever number was read.
  unfoldable pub pass_on : Session → Session
  pass_on s = record s { blocks = s.blocks ++ take buf_size s.buffer ∷ []; used = s.used ++ 1 ∷ [] }

  -- `dumpBuffer`
  unfoldable pub dump_buffer : Session → ℕ → Session
  dump_buffer s elements = record s { program = feed lib s.program (take elements s.buffer) }

  -- One turn, and whether the loop goes on.
  unfoldable pub ftdi_round : Bool → Bool → Session → Turn → Session × Bool
  ftdi_round outputdata sendmode s turn =
      if not (turn.read_status == 0)
      then (record s { used = s.used ++ 0 ∷ [] }, false)
      else if not sendmode
      then (dump_buffer (take_in outputdata s turn) (length turn.bytes), true)
      else if not (turn.write_status == 0)
      then (pass_on (take_in outputdata s turn), false)
      else (dump_buffer (pass_on (take_in outputdata s turn)) (length turn.bytes), true)

  -- The turns until `running` is cleared.
  unfoldable pub ftdi_loop : Bool → Bool → Session → List Turn → Session × Bool
  ftdi_loop outputdata sendmode s [] = (s, true)
  ftdi_loop outputdata sendmode s (turn ∷ turns) =
      let (t, goes_on) = ftdi_round outputdata sendmode s turn in
      let rest = ftdi_loop outputdata sendmode t turns in if goes_on then rest else (t, false)

  -- `readftdi`, with what malloc leaves in the buffer: a new stream of rawdata.txt is opened, and
  -- without the privileges the loop is not entered. A failure returns 1 without closing the devices
  -- and the stream, so that what is still in its buffer reaches the file only when the program
  -- exits, over what a later attempt has put there.
  unfoldable pub readftdi : ℕ → ℕ → ℕ → List ℕ → Bool → Session → List Turn → Session × ℕ
  readftdi uid euid devices junk outputdata s turns =
      let opened = record s {
        buffer = junk;
        rawdata = if outputdata then [] else s.rawdata;
        used = open_devices devices 0;
      } in
      let (t, finished) =
        ftdi_loop outputdata (ltb 1 devices) opened
          (if is_privileged uid euid then turns else []) in
      if finished then (record t { used = t.used ++ 0 ∷ 1 ∷ [] }, 0) else (t, 1)
