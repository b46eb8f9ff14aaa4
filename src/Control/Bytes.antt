-- ===== src/Control/Bytes.antt =====
-- The program of every reachable state.
use serial.Base.{ℕ, ◌≡◌, sym, ap, ◌∙◌, Bool, List}
use serial.Mqtt.{Mosquitto}
use serial.Program.{feed}
use serial.Program.Feed.{feed-append, feed_nil}
use serial.Device.{Device}
use serial.Control.{
  Control, Step, interrupted, listens, returns, enters, refuses, goes_on, leaves, turns, breaks,
  rests, skips, wakes, Steps, begun, along,
}

module _ {lib : Mosquitto} (windows : Bool) (d : Device lib) where
  Step-program :
      {own : Bool} {b c : Control windows d} {bs : List ℕ}
      → Step windows d own b bs c
      → d.program c.state ≡ feed lib (d.program b.state) bs
  unfolding feed
  Step-program (interrupted c) = sym (feed_nil lib (d.program c.state))
  Step-program (listens c at on) = sym (feed_nil lib (d.program c.state))
  Step-program (returns c at off) = sym (feed_nil lib (d.program c.state))
  Step-program (enters c o at opened) = d.enter_program c.state o
  Step-program (refuses c o at failed) = d.enter_program c.state o
  Step-program (goes_on c at on) = sym (feed_nil lib (d.program c.state))
  Step-program (leaves c at off) = d.leave_program c.state
  Step-program (turns c t at on) = d.round_program c.state t
  Step-program (breaks c t at off) = d.round_program c.state t
  Step-program (rests c at on) = sym (feed_nil lib (d.program c.state))
  Step-program (skips c at off) = sym (feed_nil lib (d.program c.state))
  Step-program (wakes c at) = sym (feed_nil lib (d.program c.state))

  -- In every state that a run can reach, whenever the signal came, the program is what the bytes so
  -- far make of it.
  pub Steps_program :
      {b c : Control windows d} {bs : List ℕ}
      → Steps windows d b bs c
      → d.program c.state ≡ feed lib (d.program b.state) bs
  Steps_program begun = sym (feed_nil lib _)
  Steps_program (along {bs} {cs} run step) =
      Step-program step
      ∙ ap (λ p. feed lib p cs) (Steps_program run)
      ∙ sym (feed-append lib _ bs cs)
