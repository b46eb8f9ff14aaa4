-- ===== src/Gpio.antt =====
-- receiver/readGPIO.cpp: the `read` that is built for a Raspberry Pi in place of the serial port's.
-- What the pigpio library returns is an argument.
pub mod Stream
pub mod Wait
use serial.Base.{
  ℕ, zero, suc, Option, none, some, Bool, true, false, not, ◌&&◌, List, [], ◌∷◌, leb, if◌then◌else◌,
  take,
}
use serial.Base.Int.{ℤ, pos, negsuc, is_zero}
use serial.Mqtt.{Mosquitto}
use serial.Program.{Program, feed}
use serial.SerialPort.{Poll, failed, got}
use serial.Ftdi.{fill}

abbrev pub text_length : ℕ
text_length = 2048

-- A turn of the loop: the first result of serDataAvailable that is not 0, for which the code waits,
-- and the result of serRead, an error or the bytes that it put into the text.
abbrev pub GpioTurn : Type 0
GpioTurn = ℤ × Poll

-- The number of rounds of `for (int i = 0; i < b; i++)`.
abbrev pub rounds : ℤ → ℕ
rounds (pos n) = n
rounds (negsuc n) = 0

-- `while (b == 0) b = serDataAvailable(USBHandle)`, for what the calls give one after the other: the
-- result that ends the wait, none if the fuel does not reach it. `running` is not looked at.
unfoldable pub gpio_wait : ℕ → (ℕ → ℤ) → Option ℤ
gpio_wait zero polls = none
gpio_wait (suc fuel) polls =
    let rest = gpio_wait fuel (λ k. polls (suc k)) in
    if is_zero (polls 0) then rest else some (polls 0)

module _ (lib : Mosquitto) where
  -- The program, the array text, and whether every index so far was within it.
  pub record GpioSession : Type 0 where
    pub program : Program lib
    pub text : List ℕ
    pub within : Bool

  -- Each of the bytes that were available is put into the program, whatever number was read.
  unfoldable pub put_text : GpioSession → ℕ → List ℕ → GpioSession
  put_text s b bytes =
      let text = fill s.text bytes in
      record {
        program = feed lib s.program (take b text);
        text = text;
        within = s.within && leb b text_length;
      }

  -- One turn, and whether the loop goes on.
  unfoldable pub gpio_round : GpioSession → GpioTurn → GpioSession × Bool
  gpio_round s (available, failed) = (s, false)
  gpio_round s (available, got bytes) = (put_text s (rounds available) bytes, true)

  -- The turns until `running` is cleared.
  unfoldable pub gpio_loop : GpioSession → List GpioTurn → GpioSession × Bool
  gpio_loop s [] = (s, true)
  gpio_loop s (turn ∷ turns) =
      let (t, goes_on) = gpio_round s turn in
      let rest = gpio_loop t turns in if goes_on then rest else (t, false)

  -- `read`, for whether the library and the port can be used.
  unfoldable pub gpio_read : Bool → Bool → GpioSession → List GpioTurn → GpioSession × ℕ
  gpio_read initialised opened s turns =
      let (t, finished) = gpio_loop s turns in
      if not (initialised && opened) then (s, 1) else if finished then (t, 0) else (t, 1)
