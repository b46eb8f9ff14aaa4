-- ===== src/Lane/Start.antt =====
-- The lanes before any row, whatever malloc returns.
use serial.Base.{ℕ, zero, suc, ◌-◌, ◌≤◌, ◌<◌, ◌≡◌, [], arith, length, get_or}
use mathlib.Core.Path.{ap₂}
use serial.Text.{Text, codes, c_string}
use serial.Text.Buffer.{HasNoNul, c_string-strncpy_short}
use serial.Lane.{Memory, malloc, init_buffers, init_analyse_lane, null_short_data, null_place}
use serial.Lane.Valid.{length-malloc}
use serial.Lane.Slot.{slot, null_slot}

-- Each buffer holds the text that is copied into it.
init_buffers_text :
    (junk : ℕ → ℕ → ℕ) (size : ℕ) (text : Text) (count n i : ℕ)
    → HasNoNul text
    → length text < count
    → count ≤ size
    → i < n
    → c_string (get_or (init_buffers junk size text count n) i []) ≡ text
unfolding init_buffers
init_buffers_text junk size text count zero i plain short room h = ground arith
init_buffers_text junk size text count (suc n) zero plain short room h =
    c_string-strncpy_short (malloc (junk n) size) text count plain short
      (omega (arith, length-malloc (junk n) size))
init_buffers_text junk size text count (suc n) (suc i) plain short room h =
    init_buffers_text junk size text count n i plain short room (omega arith)

-- Each lane's slot is the null one.
pub slot-init_analyse_lane :
    (memory : Memory) (lane_count l : ℕ)
    → 1 ≤ l
    → l ≤ lane_count
    → slot (init_analyse_lane memory lane_count) l ≡ null_slot
unfolding init_analyse_lane null_short_data null_place
slot-init_analyse_lane memory lane_count l first last =
    let time =
      init_buffers_text memory.heat 18 (codes "000000") 12 lane_count (l - 1) (grind arith)
        (omega arith) (omega arith) (omega arith) in
    let place =
      init_buffers_text memory.place 10 (codes "0") 3 lane_count (l - 1) (grind arith) (omega arith)
        (omega arith) (omega arith) in
    ap₂ (λ t p. record { time = t; place = p }) time place
