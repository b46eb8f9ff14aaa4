-- ===== src/Gpio/Stream.antt =====
-- The bytes that the GPIO loop puts into the program.
use serial.Base.{
  ℕ, ◌≡◌, refl, sym, ap, ◌∙◌, Bool, true, false, List, [], ◌∷◌, ◌++◌, length, take, drop, All,
  if◌then◌else◌, arith,
}
use serial.Mqtt.{Mosquitto}
use serial.Program.{feed}
use serial.Program.Feed.{feed-append, feed_nil}
use serial.SerialPort.{failed, got}
use serial.Ftdi.{fill}
use serial.Ftdi.Stream.{take-fill}
use serial.Gpio.{GpioTurn, rounds, GpioSession, put_text, gpio_round, gpio_loop, gpio_read}

-- The bytes of the reads before the first that fails, and whether none does.
abbrev pub before_failure : List GpioTurn → List ℕ
before_failure [] = []
before_failure ((available, failed) ∷ turns) = []
before_failure ((available, got bytes) ∷ turns) = bytes ++ before_failure turns

abbrev pub none_fails : List GpioTurn → Bool
none_fails [] = true
none_fails ((available, failed) ∷ turns) = false
none_fails ((available, got bytes) ∷ turns) = none_fails turns

-- A read that fails, or gives as many bytes as there were.
abbrev pub IsComplete : GpioTurn → Type 0
IsComplete (available, failed) = Unit
IsComplete (available, got bytes) = length bytes ≡ rounds available

module _ (lib : Mosquitto) where
  put_text_program :
      (s : GpioSession lib) (b : ℕ) (bytes : List ℕ)
      → length bytes ≡ b
      → (put_text lib s b bytes).program ≡ feed lib s.program bytes
  unfolding put_text
  put_text_program s b bytes all =
      ap (λ n. feed lib s.program (take n (fill s.text bytes))) (sym all)
      ∙ ap (feed lib s.program) (take-fill bytes (drop (length bytes) s.text))

  gpio_loop-feed :
      (s : GpioSession lib) (turns : List GpioTurn)
      → All IsComplete turns
      → ((gpio_loop lib s turns).0.program ≡ feed lib s.program (before_failure turns))
        × ((gpio_loop lib s turns).1 ≡ none_fails turns)
  unfolding gpio_loop gpio_round
  gpio_loop-feed s [] all = (sym (feed_nil lib s.program), refl)
  gpio_loop-feed s ((available, failed) ∷ turns) all = (sym (feed_nil lib s.program), refl)
  gpio_loop-feed s ((available, got bytes) ∷ turns) all =
      let t = put_text lib s (rounds available) bytes in
      let (later, finished) = gpio_loop-feed t turns all.1 in
      (
        later
            ∙ ap (λ p. feed lib p (before_failure turns))
                (put_text_program s (rounds available) bytes all.0)
            ∙ sym (feed-append lib s.program bytes (before_failure turns)),
        finished,
      )

  -- With the library and the port in use, and reads that each fail or give as many bytes as were
  -- available, the GPIO receiver puts into the program exactly the bytes of the reads before the
  -- first that fails, and its result is 0 exactly if none fails.
  pub gpio_read-feed :
      (s : GpioSession lib) (turns : List GpioTurn)
      → All IsComplete turns
      → ((gpio_read lib true true s turns).0.program ≡ feed lib s.program (before_failure turns))
        × ((gpio_read lib true true s turns).1 ≡ (if none_fails turns then 0 else 1))
  unfolding gpio_read
  gpio_read-feed s turns all =
      let (program, finished) = gpio_loop-feed s turns all in ground (arith, program, finished)
