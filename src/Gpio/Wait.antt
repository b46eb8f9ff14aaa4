-- ===== src/Gpio/Wait.antt =====
-- The wait of receiver/readGPIO.cpp for data on the port.
use serial.Base.{ℕ, zero, suc, ◌≡◌, ◌<◌, refl, none, some, false, arith}
use serial.Base.Int.{ℤ, pos, negsuc, is_zero}
use serial.Gpio.{gpio_wait}

is_zero-false : (z : ℤ) → ¬ z ≡ pos 0 → is_zero z ≡ false
is_zero-false (pos zero) h = absurd (h refl)
is_zero-false (pos (suc n)) h = refl
is_zero-false (negsuc n) h = refl

-- If the calls of serDataAvailable before number n give 0 and that one does not, the wait for data
-- ends with its result, on any fuel above n.
gpio_wait_first :
    (fuel n : ℕ) (polls : ℕ → ℤ)
    → n < fuel
    → ((k : ℕ) → k < n → polls k ≡ pos 0)
    → ¬ polls n ≡ pos 0
    → gpio_wait fuel polls ≡ some (polls n)
unfolding gpio_wait
gpio_wait_first zero n polls lt silent ready = ground arith
gpio_wait_first (suc fuel) zero polls lt silent ready = rw (is_zero-false (polls 0) ready) refl
gpio_wait_first (suc fuel) (suc n) polls lt silent ready = rw (silent 0 (omega arith)) (
    gpio_wait_first fuel n (λ k. polls (suc k)) (omega arith) (λ k h. silent (suc k) (omega arith))
      ready)

-- While the calls give 0 the wait does not end.
pub gpio_wait_silent :
    (fuel : ℕ) (polls : ℕ → ℤ)
    → ((k : ℕ) → k < fuel → polls k ≡ pos 0)
    → gpio_wait fuel polls ≡ none
unfolding gpio_wait
gpio_wait_silent zero polls silent = refl
gpio_wait_silent (suc fuel) polls silent =
    rw (silent 0 (omega arith))
      (gpio_wait_silent fuel (λ k. polls (suc k)) (λ k h. silent (suc k) (omega arith)))
