-- ===== src/SerialPort.antt =====
-- receiver/read.cpp: the loop that reads the serial port, hands its bytes on to a second port, and
-- puts them into the receiver. The ports are the operating system's: which of them can be opened, and
-- what each read(2) returns while `running` is set, are arguments.
pub mod Stream
use serial.Base.{
  ℕ, ◌≡◌, Bool, true, false, not, ◌&&◌, List, [], ◌∷◌, ◌++◌, ltb, if◌then◌else◌, length,
}
use serial.Base.Int.{ℤ, pos, negsuc}
use serial.Mqtt.{Mosquitto}
use serial.Program.{Program, feed}

abbrev pub buffer_length : ℕ
buffer_length = 32

-- One read(fd, buf, 32): -1, or some bytes.
pub data Poll : Type 0 where
  failed : Poll
  got : List ℕ → Poll

abbrev pub poll_result : Poll → ℤ
poll_result failed = negsuc 0
poll_result (got bytes) = pos (length bytes)

-- One write(fo, buf, res): the bytes read, or the count -1 turned into a size_t.
pub data Write : Type 0 where
  huge : Write
  wrote : List ℕ → Write

abbrev pub forwarded : Poll → Write
forwarded failed = huge
forwarded (got bytes) = wrote bytes

-- Whether an index lies in the buffer: `buf[res] = 0` writes at the result of the read.
abbrev pub in_buffer : ℤ → Bool
in_buffer (pos i) = ltb i buffer_length
in_buffer (negsuc i) = false

abbrev pub poll_bytes : Poll → List ℕ
poll_bytes failed = []
poll_bytes (got bytes) = bytes

module _ (lib : Mosquitto) where
  -- The program, what was written to the second port, and whether every `buf[res] = 0` so far was
  -- within the buffer.
  pub record Transfer : Type 0 where
    pub program : Program lib
    pub written : List Write
    pub within : Bool

  -- One turn of the loop.
  unfoldable pub poll_round : Bool → Transfer → Poll → Transfer
  poll_round forward t poll = record {
    program = feed lib t.program (poll_bytes poll);
    written = if forward then t.written ++ forwarded poll ∷ [] else t.written;
    within = t.within && in_buffer (poll_result poll);
  }

  -- The loop, for the reads that are made before `running` is cleared.
  unfoldable pub read_loop : Bool → Transfer → List Poll → Transfer
  read_loop forward t [] = t
  read_loop forward t (poll ∷ polls) = read_loop forward (poll_round forward t poll) polls

  -- `read`, whose result is 1 in every case: with a port that does not open nothing is read.
  unfoldable pub read : Bool → Bool → Bool → Transfer → List Poll → Transfer × ℕ
  read source_opens destination_opens forward t polls =
      if not source_opens
      then (t, 1)
      else if forward && not destination_opens
      then (t, 1)
      else (read_loop forward t polls, 1)
