-- ===== src/WinPort/Restart.antt =====
-- The attempts of `startListen` in the Windows build, with the port that an attempt before may have
-- left open: CreateFileA with a share mode of 0 fails while another handle to the port is open, and
-- only `CloseHandle` behind the loop closes the one of `read`.
use serial.Base.{
  ◌≡◌, refl, Bool, true, false, not, ◌&&◌, ◌||◌, List, [], ◌∷◌, arith, ◌==◌, if◌then◌else◌,
  Bool-cases, inl, inr,
}
use serial.Mqtt.{Mosquitto}
use serial.WinPort.{Status, goes_on, returned, Event, WinSession, open_port, win_loop, win_read}

-- What the calls of an attempt return, by whether the port is open already.
unfoldable pub while_open : Bool → Status → Status
while_open is_open ok = λ i. if i == 0 then ok 0 && not is_open else ok i

-- Whether an attempt leaves the port open: it does where a call behind CreateFileA fails.
unfoldable pub leaves_open : Bool → Status → Bool
leaves_open is_open ok = elim (open_port (while_open is_open ok)) [
  | goes_on calls ↦ false
  | returned calls ↦ is_open || ok 0
]

-- All calls behind CreateFileA.
unfoldable pub sets_up : Status → Bool
sets_up ok = ok 1 && (ok 2 && (ok 3 && (ok 4 && ok 5)))

leaves_open_step : (b : Bool) (ok : Status) → leaves_open b ok ≡ (b || (ok 0 && not (sets_up ok)))
unfolding leaves_open while_open open_port sets_up
leaves_open_step b ok = ground arith

module _ (lib : Mosquitto) where
  -- `while (*running)` of `startListen`, around `read`.
  unfoldable pub win_listen :
      Bool → Bool → WinSession lib → List (Status × List Event) → WinSession lib
  win_listen is_open forward s [] = s
  win_listen is_open forward s ((ok, events) ∷ later) =
      win_listen (leaves_open is_open ok) forward
        (win_read lib (while_open is_open ok) forward s events).0 later

  -- What is read in all: the attempts that find no port are passed over, and with the first whose
  -- setup fails it is over.
  abbrev pub read_until_torn : Bool → WinSession lib → List (Status × List Event) → WinSession lib
  read_until_torn forward s [] = s
  read_until_torn forward s ((ok, events) ∷ later) =
      let passed = read_until_torn forward s later in
      let after =
        read_until_torn forward (win_loop lib forward (record s { error_counter = 1000 }) events)
          later in
      if not (ok 0) then passed else if sets_up ok then after else s

  win_read_step :
      (b : Bool) (ok : Status) (forward : Bool) (s : WinSession lib) (events : List Event)
      → (win_read lib (while_open b ok) forward s events).0 ≡ (
          if (ok 0 && not b) && sets_up ok
          then win_loop lib forward (record s { error_counter = 1000 }) events
          else s)
  unfolding win_read while_open open_port sets_up
  win_read_step b ok forward s events = ground arith

  win_listen_stuck :
      (forward : Bool) (s : WinSession lib) (attempts : List (Status × List Event))
      → win_listen true forward s attempts ≡ s
  unfolding win_listen
  win_listen_stuck forward s [] = refl
  win_listen_stuck forward s ((ok, events) ∷ later) =
      rw (leaves_open_step true ok, win_read_step true ok forward s events)
        (elim (Bool-cases (ok 0)) [
          | inl e ↦ rw e (win_listen_stuck forward s later)
          | inr e ↦ rw e (win_listen_stuck forward s later)
        ])

  -- In the Windows build the attempts together do what a reader does that passes over those that
  -- find no port, reads wherever the setup succeeds, and is at its end with the first attempt that
  -- opens the port and whose setup then fails: no later attempt reads anything, as the port stays
  -- open.
  pub win_listen-read_until_torn :
      (forward : Bool) (s : WinSession lib) (attempts : List (Status × List Event))
      → win_listen false forward s attempts ≡ read_until_torn forward s attempts
  unfolding win_listen
  win_listen-read_until_torn forward s [] = refl
  win_listen-read_until_torn forward s ((ok, events) ∷ later) =
      let t : WinSession lib = win_loop lib forward (record s { error_counter = 1000 }) events in
      rw (leaves_open_step false ok, win_read_step false ok forward s events)
        (elim (Bool-cases (ok 0)) [
          | inl e ↦ elim (Bool-cases (sets_up ok)) [
            | inl f ↦ rw (e, f) (win_listen-read_until_torn forward t later)
            | inr f ↦ rw (e, f) (win_listen_stuck forward s later)
          ]
          | inr e ↦ rw e (win_listen-read_until_torn forward s later)
        ])
