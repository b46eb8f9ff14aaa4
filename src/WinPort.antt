-- ===== src/WinPort.antt =====
-- receiver/readwin.cpp: the `read` that is built for Windows. What the calls of the Windows API return
-- is an argument: whether each call of the setup succeeds, and what the events bring.
pub mod Opening
pub mod Name
pub mod Echo
pub mod Read
pub mod Torn
pub mod Report
pub mod Restart
use serial.Base.{
  ℕ, ◌+◌, ◌-◌, ◌*◌, Bool, true, false, not, ◌&&◌, ◌||◌, List, [], ◌∷◌, ◌++◌, ltb, leb, ◌==◌,
  if◌then◌else◌, get_or,
}
use serial.Base.Int.{ℤ, pos, negsuc}
use serial.Text.{Text, codes}
use serial.Mqtt.{Mosquitto}
use serial.Program.{Program, put_byte}

-- The fields of a DCB that are set, and those of a COMMTIMEOUTS.
pub record CommState : Type 0 where
  pub baud_rate : ℕ
  pub byte_size : ℕ
  pub even_parity : Bool
  pub one_stop_bit : Bool

pub record CommTimeouts : Type 0 where
  pub read_interval : ℕ
  pub read_total_constant : ℕ
  pub read_total_multiplier : ℕ
  pub write_total_constant : ℕ
  pub write_total_multiplier : ℕ

pub data WinCall : Type 0 where
  create_file : WinCall
  get_comm_state : WinCall
  set_comm_state : CommState → WinCall
  set_comm_timeouts : CommTimeouts → WinCall
  set_comm_mask : WinCall
  write_file : List ℕ → WinCall
  close_handle : WinCall

-- The calls that were made, and whether the function goes on or has returned 1.
pub data Calls : Type 0 where
  goes_on : List WinCall → Calls
  returned : List WinCall → Calls

abbrev pub log : WinCall → Calls → Calls
log call (goes_on calls) = goes_on (call ∷ calls)
log call (returned calls) = returned (call ∷ calls)

-- `Status = …; if (Status == FALSE) return 1;`, with what follows.
abbrev pub require : Bool → WinCall → Calls → Calls
require ok call rest = if ok then log call rest else returned (call ∷ [])

abbrev pub comm_state : CommState
comm_state = record { baud_rate = 9600; byte_size = 8; even_parity = true; one_stop_bit = true }

abbrev pub read_timeouts : CommTimeouts
read_timeouts = record {
  read_interval = 50;
  read_total_constant = 50;
  read_total_multiplier = 10;
  write_total_constant = 50;
  write_total_multiplier = 10;
}

abbrev pub write_timeouts : CommTimeouts
write_timeouts = record read_timeouts { write_total_constant = 1; write_total_multiplier = 1 }

-- Whether the i-th call succeeds.
abbrev pub Status : Type 0
Status = ℕ → Bool

-- `setDestSerialPort`: the handle is passed on only at the end.
unfoldable pub set_dest_serial_port : Status → Calls
set_dest_serial_port ok = require (ok 0) create_file (
    require (ok 1) get_comm_state (
      require (ok 2) (set_comm_state comm_state) (
        require (ok 3) get_comm_state (
          require (ok 4) (set_comm_timeouts write_timeouts) (
            require (ok 5) set_comm_mask
              (require (ok 6) (write_file (1 ∷ 0 ∷ 0 ∷ 0 ∷ [])) (goes_on [])))))))

-- The same in `read`, for the port that is read.
unfoldable pub open_port : Status → Calls
open_port ok = require (ok 0) create_file (
    require (ok 1) get_comm_state (
      require (ok 2) (set_comm_state comm_state) (
        require (ok 3) get_comm_state (
          require (ok 4) (set_comm_timeouts read_timeouts)
            (require (ok 5) set_comm_mask (goes_on []))))))

abbrev pub is_digit : ℕ → Bool
is_digit c = leb b'0' c && leb c b'9'

-- atoi on digits, from a value that was read so far.
unfoldable pub digits_value : ℕ → Text → ℕ
digits_value n [] = n
digits_value n (c ∷ cs) =
    let rest = digits_value (n * 10 + (c - b'0')) cs in if is_digit c then rest else n

-- `memcpy(subbuff, &portname[3], 2); atoi(subbuff) - 1`: nothing ends the two characters of subbuff,
-- so atoi reads what stands behind them in memory. A name has its NUL, and three characters at
-- least; a sign or a space among the two, and a number
-- that an int does not hold, are not modelled.
unfoldable pub comport_number : Text → Text → ℤ
comport_number portname behind =
    let name = portname ++ 0 ∷ [] in
    let n = digits_value 0 (get_or name 3 0 ∷ get_or name 4 0 ∷ behind) in
    if n == 0 then negsuc 0 else pos (n - 1)

abbrev pub rs232_portnr : ℕ
rs232_portnr = 32

-- Whether comports[comport_number] is an element of the table.
abbrev pub in_table : ℤ → Bool
in_table (pos i) = ltb i rs232_portnr
in_table (negsuc i) = false

-- What a WaitCommEvent brings: characters, each with whether its WriteFile succeeds, up to the read
-- that gives none, with the same; another event; or a failure.
pub data Event : Type 0 where
  characters : List (ℕ × Bool) → Bool → Event
  other_event : Event
  wait_failed : Event

module _ (lib : Mosquitto) where
  -- The program, the variable ReadData, what was written to the second port, ERROR_COUNTER, and how
  -- often an error was printed.
  pub record WinSession : Type 0 where
    pub program : Program lib
    pub read_data : ℕ
    pub written : List ℕ
    pub error_counter : ℕ
    pub printed : ℕ

  -- `if (!WriteFile(dsthComm, &ReadData, …))`
  unfoldable pub win_forward : Bool → Bool → WinSession → WinSession
  win_forward forward ok s =
      if not forward
      then s
      else if ok
      then record s { written = s.written ++ s.read_data ∷ [] }
      else if ltb 1000 (s.error_counter + 1)
      then record s { error_counter = 0; printed = s.printed + 1 }
      else record s { error_counter = s.error_counter + 1 }

  -- The body of the inner loop behind ReadFile.
  unfoldable pub win_put : Bool → Bool → WinSession → WinSession
  win_put forward ok s =
      let t = win_forward forward ok s in record t { program = put_byte lib t.program t.read_data }

  -- `do { … } while (NoBytesRead > 0)`: the read that gives no byte leaves ReadData as it is.
  unfoldable pub win_burst : Bool → WinSession → List (ℕ × Bool) → Bool → WinSession
  win_burst forward s [] ok = win_put forward ok s
  win_burst forward s ((b, ok) ∷ rest) last =
      win_burst forward (win_put forward ok (record s { read_data = b })) rest last

  unfoldable pub win_event : Bool → WinSession → Event → WinSession
  win_event forward s (characters bytes last) = win_burst forward s bytes last
  win_event forward s other_event = s
  win_event forward s wait_failed = s

  -- `do { … } while (*running)`, for the events until `running` is cleared.
  unfoldable pub win_loop : Bool → WinSession → List Event → WinSession
  win_loop forward s [] = s
  win_loop forward s (event ∷ events) = win_loop forward (win_event forward s event) events

  -- `read`, once the names are looked up: the result of setDestSerialPort is not looked at, and
  -- ERROR_COUNTER begins at 1000. CreateEvent, whose failure assert(o.hEvent) ends the program on, is
  -- taken to succeed.
  unfoldable pub win_read : Status → Bool → WinSession → List Event → WinSession × ℕ
  win_read ok forward s events = elim (open_port ok) [
    | goes_on calls ↦ (win_loop forward (record s { error_counter = 1000 }) events, 0)
    | returned calls ↦ (s, 1)
  ]
