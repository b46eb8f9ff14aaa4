-- ===== src/Control/Ends.antt =====
-- What is left of a run once `running` is cleared.
use serial.Base.{
  ℕ, ◌+◌, ◌≤◌, ◌≡◌, refl, Bool, false, ◌||◌, inl, inr, List, arith, Bool-cases, if◌then◌else◌,
}
use serial.Mqtt.{Mosquitto}
use serial.Device.{Device}
use serial.Control.{
  Place, checking, opening, testing, turning, behind, resting, ended, Control, Step, interrupted,
  listens, returns, enters, refuses, goes_on, leaves, turns, breaks, rests, skips, wakes, Steps,
  begun, along,
}

-- The program's steps to the end, at most, and the turns among them.
abbrev pub remaining : Place → ℕ
remaining opening = 6
remaining turning = 5
remaining testing = 4
remaining behind = 3
remaining resting = 2
remaining checking = 1
remaining ended = 0

abbrev pub turns_left : Place → ℕ
turns_left opening = 1
turns_left turning = 1
turns_left testing = 0
turns_left behind = 0
turns_left resting = 0
turns_left checking = 0
turns_left ended = 0

module _ {lib : Mosquitto} (windows : Bool) (d : Device lib) where
  abbrev pub count :
      {own : Bool} {b c : Control windows d} {bs : List ℕ} → Step windows d own b bs c → ℕ
  count {own} step = if own then 1 else 0

  abbrev pub is_turn :
      {own : Bool} {b c : Control windows d} {bs : List ℕ} → Step windows d own b bs c → ℕ
  is_turn (turns c t at on) = 1
  is_turn (breaks c t at off) = 1
  is_turn (interrupted c) = 0
  is_turn (listens c at on) = 0
  is_turn (returns c at off) = 0
  is_turn (enters c o at opened) = 0
  is_turn (refuses c o at failed) = 0
  is_turn (goes_on c at on) = 0
  is_turn (leaves c at off) = 0
  is_turn (rests c at on) = 0
  is_turn (skips c at off) = 0
  is_turn (wakes c at) = 0

  -- The program's steps of a run, and its turns.
  abbrev pub own_steps : {b c : Control windows d} {bs : List ℕ} → Steps windows d b bs c → ℕ
  own_steps begun = 0
  own_steps (along run step) = own_steps run + count step

  abbrev pub own_turns : {b c : Control windows d} {bs : List ℕ} → Steps windows d b bs c → ℕ
  own_turns begun = 0
  own_turns (along run step) = own_turns run + is_turn step

  Step-remaining :
      {own : Bool} {b c : Control windows d} {bs : List ℕ} (step : Step windows d own b bs c)
      → b.running ≡ false
      → (c.running ≡ false)
        × (count step + remaining c.place ≤ remaining b.place)
        × (is_turn step + turns_left c.place ≤ turns_left b.place)
  Step-remaining (interrupted c) off = (refl, omega arith, omega arith)
  Step-remaining (listens c at on) off = ground arith
  Step-remaining (returns c at _) off = rw at (off, omega arith, omega arith)
  Step-remaining (enters c o at opened) off = rw at (ground arith)
  Step-remaining (refuses c o at failed) off = rw at (off, omega arith, omega arith)
  Step-remaining (goes_on c at on) off = ground arith
  Step-remaining (leaves c at _) off = rw at (off, omega arith, omega arith)
  Step-remaining (turns c t at on) off = rw at (off, omega arith, omega arith)
  Step-remaining (breaks c t at _) off = rw at (off, omega arith, omega arith)
  Step-remaining (rests c at on) off = rw at (off, omega arith, omega arith)
  Step-remaining (skips c at _) off = rw at (off, omega arith, omega arith)
  Step-remaining (wakes c at) off = rw at (off, omega arith, omega arith)

  Steps_shorter :
      {b c : Control windows d} {bs : List ℕ} (run : Steps windows d b bs c)
      → b.running ≡ false
      → (c.running ≡ false)
        × (own_steps run + remaining c.place ≤ remaining b.place)
        × (own_turns run + turns_left c.place ≤ turns_left b.place)
  Steps_shorter begun off = (off, omega arith, omega arith)
  Steps_shorter (along run step) off =
      let (down, steps, rounds) = Steps_shorter run off in
      let (still, one, turn) = Step-remaining step down in
      (still, omega (arith, steps, one), omega (arith, rounds, turn))

  remaining_bound : (p : Place) → (remaining p ≤ 6) × (turns_left p ≤ 1)
  remaining_bound p = ground arith

  -- A run from here to the end of startListen.
  abbrev pub CanEnd : Control windows d → Type 0
  CanEnd b =
      (bs : List ℕ) × (e : Control windows d) × (run : Steps windows d b bs e) × (e.place ≡ ended)

  module _ {b c : Control windows d} {bs : List ℕ} (run : Steps windows d b bs c)
      (off : c.running ≡ false) where
    from_checking : c.place ≡ checking → CanEnd b
    from_checking at = (_, _, along run (returns c at off), refl)

  module _ {b c : Control windows d} {bs : List ℕ} (run : Steps windows d b bs c)
      (off : c.running ≡ false) where
    from_resting : c.place ≡ resting → CanEnd b
    from_resting at = from_checking (along run (wakes c at)) off refl

  module _ {b c : Control windows d} {bs : List ℕ} (run : Steps windows d b bs c)
      (off : c.running ≡ false) where
    from_behind : c.place ≡ behind → CanEnd b
    from_behind at = elim (Bool-cases (windows || c.running)) [
      | inl e ↦ from_resting (along run (rests c at e)) off refl
      | inr e ↦ from_checking (along run (skips c at e)) off refl
    ]

  module _ {b c : Control windows d} {bs : List ℕ} (run : Steps windows d b bs c)
      (off : c.running ≡ false) where
    from_testing : c.place ≡ testing → CanEnd b
    from_testing at = from_behind (along run (leaves c at off)) off refl

  module _ {b c : Control windows d} {bs : List ℕ} (run : Steps windows d b bs c)
      (off : c.running ≡ false) where
    from_turning : d.Turn → c.place ≡ turning → CanEnd b
    from_turning t at = elim (Bool-cases (d.round c.state t).1) [
      | inl e ↦ from_testing (along run (turns c t at e)) off refl
      | inr e ↦ from_behind (along run (breaks c t at e)) off refl
    ]

  module _ {b c : Control windows d} {bs : List ℕ} (run : Steps windows d b bs c)
      (off : c.running ≡ false) where
    from_opening : d.Opening → d.Turn → c.place ≡ opening → CanEnd b
    from_opening o t at = elim (Bool-cases (d.enter c.state o).1) [
      | inl e ↦
          let next = along run (enters c o at e) in
          elim (Bool-cases d.tests_first) [
            | inl first ↦ from_testing next off (rw first refl)
            | inr last ↦ from_turning next off t (rw last refl)
          ]
      | inr e ↦ from_behind (along run (refuses c o at e)) off refl
    ]

    from_anywhere : d.Opening → d.Turn → (p : Place) → c.place ≡ p → CanEnd b
    from_anywhere o t checking at = from_checking run off at
    from_anywhere o t opening at = from_opening o t at
    from_anywhere o t testing at = from_testing run off at
    from_anywhere o t turning at = from_turning run off t at
    from_anywhere o t behind at = from_behind run off at
    from_anywhere o t resting at = from_resting run off at
    from_anywhere o t ended at = (bs, c, run, at)

  -- Of whatever reader that gives some opening and some turn: a run that begins with `running`
  -- cleared, at any place, has at most six steps of the program, at most one turn of the reader's
  -- loop among them, and can be gone on with to the end of startListen.
  pub Steps_ends :
      {b c : Control windows d} {bs : List ℕ} (o : d.Opening) (t : d.Turn)
      (run : Steps windows d b bs c)
      → b.running ≡ false
      → (own_steps run ≤ 6) × (own_turns run ≤ 1) × CanEnd c
  Steps_ends {b} {c} o t run off =
      let (down, steps, rounds) = Steps_shorter run off in
      let (few, one) = remaining_bound b.place in
      (
        omega (arith, steps, few),
        omega (arith, rounds, one),
        from_anywhere begun down o t c.place refl,
      )
