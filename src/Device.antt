-- ===== src/Device.antt =====
-- What `startListen` of serialconnect/listener.cpp reads from: the `read` of receiver/read.h, which
-- receiver/CMakeLists.txt takes from read.cpp, readwin.cpp or readGPIO.cpp, or `readftdi`. Each opens
-- something, loops over its turns while `running` is set, and closes what it has opened.
pub mod Feed
pub mod Along
pub mod Ftdi
pub mod Gpio
pub mod Listener
pub mod Windows
pub mod Serial
use serial.Base.{ℕ, ◌≡◌, Bool, List, [], ◌∷◌, ◌++◌, if◌then◌else◌}
use serial.Mqtt.{Mosquitto}
use serial.Program.{Program, feed}

-- A reader, with what it shares with the program's state. `enter` is what stands before the loop, and
-- whether the loop is entered; `round` is the loop's body, and whether it leaves `running` to decide;
-- `leave` is what stands behind the loop. `bytes` are those that a round puts into the program.
pub record Device (lib : Mosquitto) : Type 1 where
  pub State : Type 0
  pub Opening : Type 0
  pub Turn : Type 0
  -- Whether `running` is looked at before the first turn.
  pub tests_first : Bool
  pub program : State → Program lib
  pub enter : State → Opening → State × Bool
  pub round : State → Turn → State × Bool
  pub leave : State → State
  pub bytes : State → Turn → List ℕ
  pub enter_program : (s : State) (o : Opening) → program (enter s o).0 ≡ program s
  pub round_program :
      (s : State) (t : Turn) → program (round s t).0 ≡ feed lib (program s) (bytes s t)
  pub leave_program : (s : State) → program (leave s) ≡ program s

module _ {lib : Mosquitto} (d : Device lib) where
  -- The loop, for the turns that begin before `running` is cleared.
  unfoldable pub loop : d.State → List d.Turn → d.State
  loop s [] = d.leave s
  loop s (turn ∷ turns) =
      let (t, goes_on) = d.round s turn in let rest = loop t turns in if goes_on then rest else t

  unfoldable pub attempt : d.State → d.Opening × List d.Turn → d.State
  attempt s (opening, turns) =
      let (t, enters) = d.enter s opening in let rest = loop t turns in if enters then rest else t

  -- `startListen`, for its attempts.
  unfoldable pub listen : d.State → List (d.Opening × List d.Turn) → d.State
  listen s [] = s
  listen s (a ∷ later) = listen (attempt s a) later

  abbrev pub loop_bytes : d.State → List d.Turn → List ℕ
  loop_bytes s [] = []
  loop_bytes s (turn ∷ turns) =
      let (t, goes_on) = d.round s turn in
      let rest = loop_bytes t turns in d.bytes s turn ++ (if goes_on then rest else [])

  abbrev pub attempt_bytes : d.State → d.Opening × List d.Turn → List ℕ
  attempt_bytes s (opening, turns) =
      let (t, enters) = d.enter s opening in
      let rest = loop_bytes t turns in if enters then rest else []

  abbrev pub listen_bytes : d.State → List (d.Opening × List d.Turn) → List ℕ
  listen_bytes s [] = []
  listen_bytes s (a ∷ later) = attempt_bytes s a ++ listen_bytes (attempt s a) later
