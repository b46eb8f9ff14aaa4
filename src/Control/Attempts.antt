-- ===== src/Control/Attempts.antt =====
-- The attempts that a run of the program makes.
use serial.Base.{ℕ, ◌≡◌, refl, ap, Bool, List, [], ◌∷◌, ◌++◌}
use serial.Mqtt.{Mosquitto}
use serial.Device.{Device}
use serial.Control.{
  Control, Step, interrupted, listens, returns, enters, refuses, goes_on, leaves, turns, breaks,
  rests, skips, wakes, Steps, begun, along,
}

-- The last attempt with one more turn.
abbrev pub add_turn : {O T : Type 0} → T → List (O × List T) → List (O × List T)
add_turn t [] = []
add_turn t (a ∷ []) = (a.0, a.1 ++ t ∷ []) ∷ []
add_turn t (a ∷ b ∷ more) = a ∷ add_turn t (b ∷ more)

pub add_turn-append :
    {O T : Type 0} (t : T) (before : List (O × List T)) (o : O) (done : List T)
    → add_turn t (before ++ (o, done) ∷ []) ≡ before ++ (o, done ++ t ∷ []) ∷ []
add_turn-append t [] o done = refl
add_turn-append t (a ∷ []) o done = refl
add_turn-append t (a ∷ b ∷ more) o done = ap (λ k. a ∷ k) (add_turn-append t (b ∷ more) o done)

module _ {lib : Mosquitto} {windows : Bool} {d : Device lib} where
  -- What a step adds to the attempts: an opening begins one, and a turn belongs to the last.
  abbrev pub noted :
      {own : Bool} {b c : Control windows d} {bs : List ℕ}
      → Step windows d own b bs c
      → List (d.Opening × List d.Turn)
      → List (d.Opening × List d.Turn)
  noted (enters c o at opened) made = made ++ (o, []) ∷ []
  noted (refuses c o at failed) made = made ++ (o, []) ∷ []
  noted (turns c t at on) made = add_turn t made
  noted (breaks c t at off) made = add_turn t made
  noted (interrupted c) made = made
  noted (listens c at on) made = made
  noted (returns c at off) made = made
  noted (goes_on c at on) made = made
  noted (leaves c at off) made = made
  noted (rests c at on) made = made
  noted (skips c at off) made = made
  noted (wakes c at) made = made

  -- The attempts that a run makes, with their openings and turns.
  abbrev pub attempts_of :
      {b c : Control windows d} {bs : List ℕ}
      → Steps windows d b bs c
      → List (d.Opening × List d.Turn)
  attempts_of begun = []
  attempts_of (along run step) = noted step (attempts_of run)
