-- ===== src/Ftdi/Setup.antt =====
-- The calls that set a device up.
use serial.Base.{ℕ, ◌≡◌, Bool, true, ◌&&◌, List, [], ◌∷◌, ◌==◌, if◌then◌else◌, arith}
use serial.Ftdi.{
  Call, open_device, reset_device, set_baud_rate, set_data_characteristics, set_flow_control,
  clear_dtr, clear_rts, set_break_off, set_timeouts, open_ftdi_handle,
}

-- The calls whose status decides, and those behind them.
abbrev pub checked_calls : List Call
checked_calls =
    open_device ∷ reset_device ∷ set_baud_rate ∷ set_data_characteristics ∷ set_flow_control ∷ []

abbrev pub unchecked_calls : List Call
unchecked_calls = clear_dtr ∷ clear_rts ∷ set_break_off ∷ set_timeouts ∷ []

-- The calls up to the first that fails, that one included, or all of them and what follows.
abbrev pub until_failure : (Call → ℕ) → List Call → List Call → List Call
until_failure status [] after = after
until_failure status (call ∷ calls) after =
    call ∷ (if status call == 0 then until_failure status calls after else [])

abbrev pub all_ok : (Call → ℕ) → List Call → Bool
all_ok status [] = true
all_ok status (call ∷ calls) = status call == 0 && all_ok status calls

-- The calls that set a device up are made in order up to the first of the five checked ones that
-- fails, with result 1, or all nine with result 0.
pub open_ftdi_handle_calls :
    (status : Call → ℕ)
    → open_ftdi_handle status ≡ (
      until_failure status checked_calls unchecked_calls,
      if all_ok status checked_calls then 0 else 1,
    )
unfolding open_ftdi_handle
open_ftdi_handle_calls status = ground arith
