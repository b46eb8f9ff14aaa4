-- ===== src/SerialPort/Stream.antt =====
-- What passes through the loop of the serial port.
use serial.Base.{
  ℕ, ◌<◌, ◌≡◌, refl, sym, ◌∙◌, Bool, true, false, List, [], ◌∷◌, ◌++◌, append-nil, append_assoc,
  arith, if◌then◌else◌, length, All,
}
use serial.Mqtt.{Mosquitto}
use serial.Program.{feed}
use serial.Program.Feed.{feed-append}
use serial.SerialPort.{
  Poll, failed, got, Write, forwarded, poll_bytes, Transfer, poll_round, read_loop, buffer_length,
}

abbrev pub stream : List Poll → List ℕ
stream [] = []
stream (poll ∷ polls) = poll_bytes poll ++ stream polls

abbrev pub writes : List Poll → List Write
writes [] = []
writes (poll ∷ polls) = forwarded poll ∷ writes polls

-- A read that `buf[res] = 0` leaves within the buffer: some bytes, and fewer than 32.
abbrev pub IsShort : Poll → Type 0
IsShort failed = ⊥
IsShort (got bytes) = length bytes < buffer_length

module _ (lib : Mosquitto) where
  -- However the stream is cut into reads, the program does what it does on the whole stream; a read
  -- that fails adds nothing to it.
  pub read_loop-stream :
      (forward : Bool) (t : Transfer lib) (polls : List Poll)
      → (read_loop lib forward t polls).program ≡ feed lib t.program (stream polls)
  unfolding read_loop poll_round
  read_loop-stream forward t [] = unfold feed in refl
  read_loop-stream forward t (poll ∷ polls) =
      read_loop-stream forward (poll_round lib forward t poll) polls
      ∙ sym (feed-append lib t.program (poll_bytes poll) (stream polls))

  -- With forwarding each read is followed by one write of what it returned, in order, a failed read
  -- by a write of the count -1; without it nothing is written.
  pub read_loop-writes :
      (forward : Bool) (t : Transfer lib) (polls : List Poll)
      → (read_loop lib forward t polls).written
        ≡ (if forward then t.written ++ writes polls else t.written)
  unfolding read_loop poll_round
  read_loop-writes true t [] = sym (append-nil t.written)
  read_loop-writes false t [] = refl
  read_loop-writes true t (poll ∷ polls) =
      read_loop-writes true (poll_round lib true t poll) polls
      ∙ append_assoc t.written (forwarded poll ∷ []) (writes polls)
  read_loop-writes false t (poll ∷ polls) =
      read_loop-writes false (poll_round lib false t poll) polls

  -- The terminating byte stays within the buffer as long as every read returns some bytes, and
  -- fewer than 32.
  pub read_loop_within :
      (forward : Bool) (t : Transfer lib) (polls : List Poll)
      → t.within ≡ true
      → All IsShort polls
      → (read_loop lib forward t polls).within ≡ true
  unfolding read_loop poll_round
  read_loop_within forward t [] w h = w
  read_loop_within forward t (failed ∷ polls) w h = absurd h.0
  read_loop_within forward t (got bytes ∷ polls) w h =
      read_loop_within forward (poll_round lib forward t (got bytes)) polls (ground arith) h.1

  read_loop_stays :
      (forward : Bool) (t : Transfer lib) (polls : List Poll)
      → t.within ≡ false
      → (read_loop lib forward t polls).within ≡ false
  unfolding read_loop poll_round
  read_loop_stays forward t [] w = w
  read_loop_stays forward t (poll ∷ polls) w =
      read_loop_stays forward (poll_round lib forward t poll) polls (rw w)

  -- A read that fails, and one of 32 bytes, has the terminating byte written outside the buffer.
  read_loop_outside :
      (forward : Bool) (t : Transfer lib) (polls : List Poll) (bytes : List ℕ)
      → length bytes ≡ 32
      → ((read_loop lib forward t (failed ∷ polls)).within ≡ false)
        × ((read_loop lib forward t (got bytes ∷ polls)).within ≡ false)
  unfolding read_loop poll_round
  read_loop_outside forward t polls bytes full = (
    read_loop_stays forward (poll_round lib forward t failed) polls (ground arith),
    read_loop_stays forward (poll_round lib forward t (got bytes)) polls (ground arith),
  )
