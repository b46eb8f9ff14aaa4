-- ===== src/Device/Windows.antt =====
-- receiver/readwin.cpp as a reader.
use serial.Base.{ℕ, ◌≡◌, refl, sym, Bool, true, false, inl, inr, List, [], ◌∷◌, ◌++◌}
use serial.Mqtt.{Mosquitto}
use serial.Program.{feed}
use serial.Program.Feed.{feed_nil}
use serial.WinPort.{
  Calls, goes_on, returned, Status, open_port, Event, characters, other_event, wait_failed,
  WinSession, win_event, win_loop, win_read,
}
use serial.WinPort.Read.{calls_cases}
use serial.WinPort.Echo.{burst_bytes, last_byte, burst_program}
use serial.Device.{Device, loop, attempt}

-- The bytes of an event, with the last byte before it.
abbrev pub event_bytes : ℕ → Event → List ℕ
event_bytes b (characters bytes last) = burst_bytes bytes ++ last_byte b bytes ∷ []
event_bytes b other_event = []
event_bytes b wait_failed = []

module _ (lib : Mosquitto) where
  -- The variables of `read` begin anew with each call.
  abbrev pub begin : WinSession lib → ℕ → Calls → WinSession lib × Bool
  begin s junk (goes_on calls) = (record s { read_data = junk; error_counter = 1000 }, true)
  begin s junk (returned calls) = (record s { read_data = junk }, false)

  pub begin_program :
      (s : WinSession lib) (junk : ℕ) (c : Calls) → (begin s junk c).0.program ≡ s.program
  begin_program s junk (goes_on calls) = refl
  begin_program s junk (returned calls) = refl

  pub event_program :
      (forward : Bool) (s : WinSession lib) (event : Event)
      → (win_event lib forward s event).program ≡ feed lib s.program (event_bytes s.read_data event)
  unfolding win_event
  event_program forward s (characters bytes last) = (burst_program lib forward s bytes last).0
  event_program forward s other_event = sym (feed_nil lib s.program)
  event_program forward s wait_failed = sym (feed_nil lib s.program)

  -- `read` of receiver/readwin.cpp, with the success of the calls of its setup and what its variable
  -- ReadData, which is not set, begins with. `running` is looked at only behind a turn.
  abbrev pub windows_port : Bool → Device lib
  windows_port forward = record {
    State = WinSession lib;
    Opening = Status × ℕ;
    Turn = Event;
    tests_first = false;
    program = λ s. s.program;
    enter = λ s o. begin s o.1 (open_port o.0);
    round = λ s event. (win_event lib forward s event, true);
    leave = λ s. s;
    bytes = λ s event. event_bytes s.read_data event;
    enter_program = λ s o. begin_program s o.1 (open_port o.0);
    round_program = event_program forward;
    leave_program = λ s. refl;
  }

  loop-win_loop :
      (forward : Bool) (s : WinSession lib) (events : List Event)
      → loop (windows_port forward) s events ≡ win_loop lib forward s events
  unfolding loop win_loop
  loop-win_loop forward s [] = refl
  loop-win_loop forward s (event ∷ events) =
      loop-win_loop forward (win_event lib forward s event) events

  -- An attempt at this reader is a call of `read`.
  pub attempt-win_read :
      (forward : Bool) (ok : Status) (junk : ℕ) (s : WinSession lib) (events : List Event)
      → attempt (windows_port forward) s ((ok, junk), events)
        ≡ (win_read lib ok forward (record s { read_data = junk }) events).0
  unfolding attempt win_read
  attempt-win_read forward ok junk s events = elim (calls_cases (open_port ok)) [
    | inl (calls, up, e) ↦
        rw (e, win_read)
          (loop-win_loop forward (record s { read_data = junk; error_counter = 1000 }) events)
    | inr (calls, down, e) ↦ rw (e, win_read) refl
  ]
