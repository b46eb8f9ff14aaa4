-- ===== src/Device/Ftdi.antt =====
-- receiver/readFTDI.cpp as a reader.
use serial.Base.{
  ℕ, ◌≡◌, refl, ◌∙◌, Bool, true, false, List, [], ◌∷◌, ◌++◌, ltb, if◌then◌else◌, Bool-cases, inl,
  inr, arith,
}
use serial.Mqtt.{Mosquitto}
use serial.Program.{feed}
use serial.Program.Feed.{feed_nil}
use serial.Ftdi.{Turn, Session, is_privileged, open_devices, ftdi_round, ftdi_loop, readftdi}
use serial.Ftdi.Stream.{succeeds, round_program}
use serial.Device.{Device, loop, attempt}

-- What a call of `readftdi` meets before its loop: the user, the number of devices, and what malloc
-- leaves in the buffer.
pub record FtdiOpening : Type 0 where
  pub uid : ℕ
  pub euid : ℕ
  pub devices : ℕ
  pub junk : List ℕ

module _ (lib : Mosquitto) where
  -- The session, and the variable sendmode.
  abbrev pub FtdiState : Type 0
  FtdiState = Session lib × Bool

  abbrev pub close_devices : Session lib → Session lib
  close_devices s = record s { used = s.used ++ 0 ∷ 1 ∷ [] }

  -- Without the privileges the loop's condition does not hold once. The build for Windows does not
  -- look at the user, which is an opening with the user 0.
  abbrev pub enter_ftdi : Bool → Session lib → FtdiOpening → FtdiState × Bool
  enter_ftdi outputdata s o =
      let opened : Session lib = record s {
        buffer = o.junk;
        rawdata = if outputdata then [] else s.rawdata;
        used = open_devices o.devices 0;
      } in
      if is_privileged o.uid o.euid
      then ((opened, ltb 1 o.devices), true)
      else ((close_devices opened, ltb 1 o.devices), false)

  abbrev pub round_ftdi : Bool → FtdiState → Turn → FtdiState × Bool
  round_ftdi outputdata (s, sendmode) turn =
      let (t, goes_on) = ftdi_round lib outputdata sendmode s turn in ((t, sendmode), goes_on)

  pub enter_ftdi_program :
      (outputdata : Bool) (s : FtdiState) (o : FtdiOpening)
      → (enter_ftdi outputdata s.0 o).0.0.program ≡ s.0.program
  enter_ftdi_program outputdata s o = ground arith

  pub round_ftdi_program :
      (outputdata : Bool) (s : FtdiState) (turn : Turn)
      → (round_ftdi outputdata s turn).0.0.program
        ≡ feed lib s.0.program (if succeeds s.1 turn then turn.bytes else [])
  round_ftdi_program outputdata (s, sendmode) turn =
      ground (arith, round_program lib outputdata sendmode s turn, feed_nil lib s.program)

  abbrev pub ftdi_device : Bool → Device lib
  ftdi_device outputdata = record {
    State = FtdiState;
    Opening = FtdiOpening;
    Turn = Turn;
    tests_first = true;
    program = λ s. s.0.program;
    enter = λ s o. enter_ftdi outputdata s.0 o;
    round = round_ftdi outputdata;
    leave = λ s. (close_devices s.0, s.1);
    bytes = λ s turn. if succeeds s.1 turn then turn.bytes else [];
    enter_program = enter_ftdi_program outputdata;
    round_program = round_ftdi_program outputdata;
    leave_program = λ s. refl;
  }

  -- What readftdi does behind its loop.
  abbrev behind_loop : Session lib × Bool → Session lib
  behind_loop (s, finished) = if finished then close_devices s else s

  behind_loop_lem :
      (r : Session lib × Bool)
      → let after : Session lib × ℕ = if r.1 then (close_devices r.0, 0) else (r.0, 1) in
        behind_loop r ≡ after.0
  behind_loop_lem r = ground arith

  loop-ftdi_loop :
      (outputdata sendmode : Bool) (s : Session lib) (turns : List Turn)
      → (loop (ftdi_device outputdata) (s, sendmode) turns).0
        ≡ behind_loop (ftdi_loop lib outputdata sendmode s turns)
  unfolding loop ftdi_loop
  loop-ftdi_loop outputdata sendmode s [] = refl
  loop-ftdi_loop outputdata sendmode s (turn ∷ turns) =
      let t = (ftdi_round lib outputdata sendmode s turn).0 in
      elim (Bool-cases (ftdi_round lib outputdata sendmode s turn).1) [
        | inl e ↦ rw e (loop-ftdi_loop outputdata sendmode t turns)
        | inr e ↦ rw e refl
      ]

  -- An attempt at this reader is a call of `readftdi`.
  pub attempt-readftdi :
      (outputdata : Bool) (o : FtdiOpening) (s : FtdiState) (turns : List Turn)
      → (attempt (ftdi_device outputdata) s (o, turns)).0
        ≡ (readftdi lib o.uid o.euid o.devices o.junk outputdata s.0 turns).0
  unfolding attempt readftdi
  attempt-readftdi outputdata o (s, sendmode) turns =
      let opened : Session lib = record s {
        buffer = o.junk;
        rawdata = if outputdata then [] else s.rawdata;
        used = open_devices o.devices 0;
      } in
      let many = ltb 1 o.devices in
      elim (Bool-cases (is_privileged o.uid o.euid)) [
        | inl e ↦ rw e (
            loop-ftdi_loop outputdata many opened turns
            ∙ behind_loop_lem (ftdi_loop lib outputdata many opened turns))
        | inr e ↦ rw e (unfold ftdi_loop in refl)
      ]
