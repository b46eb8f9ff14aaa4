-- ===== src/Device/Gpio.antt =====
-- receiver/readGPIO.cpp as a reader.
use serial.Base.{ℕ, ◌≡◌, refl, sym, Bool, true, ◌&&◌, List, [], ◌∷◌, take, arith}
use serial.Mqtt.{Mosquitto}
use serial.Program.{feed}
use serial.Program.Feed.{feed_nil}
use serial.SerialPort.{failed, got}
use serial.Ftdi.{fill}
use serial.Gpio.{GpioTurn, rounds, GpioSession, put_text, gpio_round, gpio_loop, gpio_read}
use serial.Device.{Device, loop, attempt}

-- What a turn puts into the program, with the array `text` as it was.
abbrev pub turn_bytes : List ℕ → GpioTurn → List ℕ
turn_bytes text (available, failed) = []
turn_bytes text (available, got bytes) = take (rounds available) (fill text bytes)

module _ (lib : Mosquitto) where
  pub turn_program :
      (s : GpioSession lib) (turn : GpioTurn)
      → (gpio_round lib s turn).0.program ≡ feed lib s.program (turn_bytes s.text turn)
  unfolding gpio_round put_text
  turn_program s (available, failed) = sym (feed_nil lib s.program)
  turn_program s (available, got bytes) = refl

  -- `read` of receiver/readGPIO.cpp, with whether the library and the port can be used, and what its
  -- array, which is not set, begins with.
  abbrev pub gpio_port : Device lib
  gpio_port = record {
    State = GpioSession lib;
    Opening = (Bool × Bool) × List ℕ;
    Turn = GpioTurn;
    tests_first = true;
    program = λ s. s.program;
    enter = λ s o. (record s { text = o.1 }, o.0.0 && o.0.1);
    round = λ s turn. gpio_round lib s turn;
    leave = λ s. s;
    bytes = λ s turn. turn_bytes s.text turn;
    enter_program = λ s o. refl;
    round_program = turn_program;
    leave_program = λ s. refl;
  }

  loop-gpio_loop :
      (s : GpioSession lib) (turns : List GpioTurn)
      → loop gpio_port s turns ≡ (gpio_loop lib s turns).0
  unfolding loop gpio_loop
  loop-gpio_loop s [] = refl
  loop-gpio_loop s (turn ∷ turns) = ground (arith, loop-gpio_loop (gpio_round lib s turn).0 turns)

  -- An attempt at this reader is a call of `read`.
  pub attempt-gpio_read :
      (initialised opened : Bool) (text : List ℕ) (s : GpioSession lib) (turns : List GpioTurn)
      → attempt gpio_port s (((initialised, opened), text), turns)
        ≡ (gpio_read lib initialised opened (record s { text = text }) turns).0
  unfolding attempt gpio_read
  attempt-gpio_read initialised opened text s turns =
      ground (arith, loop-gpio_loop (record s { text = text }) turns)
