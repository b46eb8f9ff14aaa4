-- ===== src/WinPort/Opening.antt =====
-- The calls that open the ports.
use serial.Base.{ℕ, ◌+◌, ◌≡◌, refl, List, [], ◌∷◌}
use serial.WinPort.{
  WinCall, create_file, get_comm_state, set_comm_state, set_comm_timeouts, set_comm_mask,
  write_file, Calls, goes_on, require, CommTimeouts, comm_state, read_timeouts, write_timeouts,
  Status, set_dest_serial_port, open_port,
}

-- The calls by which a port is set up.
abbrev pub port_calls : CommTimeouts → List WinCall → List WinCall
port_calls timeouts after =
    create_file
    ∷ get_comm_state
    ∷ set_comm_state comm_state
    ∷ get_comm_state
    ∷ set_comm_timeouts timeouts
    ∷ set_comm_mask
    ∷ after

-- The calls up to the first that fails, that one included, from the i-th on.
abbrev pub run_calls : Status → ℕ → List WinCall → Calls
run_calls ok i [] = goes_on []
run_calls ok i (call ∷ calls) = require (ok i) call (run_calls ok (i + 1) calls)

-- Either setup makes its calls in order up to the first that fails, and then returns 1.
pub open_port_calls :
    (ok : Status)
    → (open_port ok ≡ run_calls ok 0 (port_calls read_timeouts []))
      × (set_dest_serial_port ok
          ≡ run_calls ok 0 (port_calls write_timeouts (write_file (1 ∷ 0 ∷ 0 ∷ 0 ∷ []) ∷ [])))
unfolding open_port set_dest_serial_port
open_port_calls ok = (refl, refl)
