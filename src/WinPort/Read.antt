-- ===== src/WinPort/Read.antt =====
-- `read` of receiver/readwin.cpp as a whole.
use serial.Base.{
  ◌≡◌, refl, sym, ◌∙◌, Bool, true, false, ◌&&◌, ◌⊎◌, inl, inr, List, arith, if◌then◌else◌,
}
use serial.Mqtt.{Mosquitto}
use serial.Program.{feed}
use serial.WinPort.{
  WinCall, Calls, goes_on, returned, Status, open_port, Event, WinSession, win_read,
}
use serial.WinPort.Echo.{echoed, win_loop-feed}

abbrev pub is_open : Calls → Bool
is_open (goes_on calls) = true
is_open (returned calls) = false

-- Whether the six calls of the setup succeed.
abbrev pub opens : Status → Bool
opens ok = ok 0 && (ok 1 && (ok 2 && (ok 3 && (ok 4 && ok 5))))

is_open-open_port : (ok : Status) → is_open (open_port ok) ≡ opens ok
unfolding open_port
is_open-open_port ok = ground arith

pub calls_cases :
    (c : Calls)
    → ((calls : List WinCall) × (is_open c ≡ true) × (c ≡ goes_on calls))
      ⊎ ((calls : List WinCall) × (is_open c ≡ false) × (c ≡ returned calls))
calls_cases (goes_on calls) = inl (calls, refl, refl)
calls_cases (returned calls) = inr (calls, refl, refl)

module _ (lib : Mosquitto) where
  -- If the six calls of its setup succeed, the Windows receiver puts into the program the bytes of
  -- each burst with the last of them once more, and for a burst with none the last byte before it,
  -- and returns 0; if one of them fails, the program is left as it was, and 1 is returned. What the
  -- writes to the second port do has no part in this.
  pub win_read-feed :
      (ok : Status) (forward : Bool) (s : WinSession lib) (events : List Event)
      → ((win_read lib ok forward s events).0.program
          ≡ (if opens ok then feed lib s.program (echoed s.read_data events) else s.program))
        × ((win_read lib ok forward s events).1 ≡ (if opens ok then 0 else 1))
  unfolding win_read
  win_read-feed ok forward s events =
      let known = is_open-open_port ok in
      elim (calls_cases (open_port ok)) [
        | inl (calls, up, e) ↦
            rw (e, win_read, sym known ∙ up)
              (win_loop-feed lib forward (record s { error_counter = 1000 }) events, refl)
        | inr (calls, down, e) ↦ rw (e, win_read, sym known ∙ down) (refl, refl)
      ]
