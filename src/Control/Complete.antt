-- ===== src/Control/Complete.antt =====
-- Attempts that the program can make, as runs with the signal at their end.
use serial.Base.{
  ℕ, ◌≡◌, refl, Bool, true, false, ◌||◌, List, [], ◌∷◌, Bool-cases, inl, inr, if◌then◌else◌, arith,
}
use mathlib.Core.Path.{subst}
use serial.Mqtt.{Mosquitto}
use serial.Device.{Device, loop, attempt, listen}
use serial.Control.{
  Place, checking, testing, turning, behind, ended, Control, at_start, Step, interrupted, listens,
  returns, enters, refuses, goes_on, leaves, turns, breaks, rests, skips, wakes, Steps, begun,
  along,
}

chosen : (b : Bool) (A B : Type 0) → b ≡ true → (if b then A else B) → A
chosen true A B e h = h
chosen false A B e h = ground arith

module _ {lib : Mosquitto} (windows : Bool) (d : Device lib) where
  -- The loop ends by itself, with `running` still set.
  abbrev pub Breaks : d.State → List d.Turn → Type 0
  Breaks s [] = ⊥
  Breaks s (turn ∷ more) = if (d.round s turn).1 then Breaks (d.round s turn).0 more else Unit

  -- An attempt ends by itself.
  abbrev pub IsOver : d.State → d.Opening × List d.Turn → Type 0
  IsOver s (o, ts) = if (d.enter s o).1 then Breaks (d.enter s o).0 ts else Unit

  -- Only the last attempt may end because of `running`.
  abbrev pub IsPossible : d.State → List (d.Opening × List d.Turn) → Type 0
  IsPossible s [] = Unit
  IsPossible s (a ∷ []) = Unit
  IsPossible s (a ∷ b ∷ more) = IsOver s a × IsPossible (attempt d s a) (b ∷ more)

  abbrev here : Bool → Place → d.State → Control windows d
  here running place s = record { running = running; place = place; state = s }

  -- A run to this place, with some bytes.
  abbrev pub Reaches : Control windows d → Control windows d → Type 0
  Reaches b c = (bs : List ℕ) × Steps windows d b bs c

  more :
      {own : Bool} {b c e : Control windows d} {cs : List ℕ}
      → Reaches b c
      → Step windows d own c cs e
      → Reaches b e
  more (bs, run) step = (_, along run step)

  loop_on :
      (s : d.State) (t : d.Turn) (ts : List d.Turn)
      → (d.round s t).1 ≡ true
      → loop d s (t ∷ ts) ≡ loop d (d.round s t).0 ts
  unfolding loop
  loop_on s t ts e = rw e refl

  loop_off :
      (s : d.State) (t : d.Turn) (ts : List d.Turn)
      → (d.round s t).1 ≡ false
      → loop d s (t ∷ ts) ≡ (d.round s t).0
  unfolding loop
  loop_off s t ts e = rw e refl

  attempt_on :
      (s : d.State) (o : d.Opening) (ts : List d.Turn)
      → (d.enter s o).1 ≡ true
      → attempt d s (o, ts) ≡ loop d (d.enter s o).0 ts
  unfolding attempt
  attempt_on s o ts e = rw e refl

  attempt_off :
      (s : d.State) (o : d.Opening) (ts : List d.Turn)
      → (d.enter s o).1 ≡ false
      → attempt d s (o, ts) ≡ (d.enter s o).0
  unfolding attempt
  attempt_off s o ts e = rw e refl

  module _ {b : Control windows d} where
    from_behind : (s : d.State) → Reaches b (here true behind s) → Reaches b (here true checking s)
    from_behind s run = elim (Bool-cases (windows || true)) [
      | inl e ↦ more (more run (rests _ refl e)) (wakes _ refl)
      | inr e ↦ more run (skips _ refl e)
    ]

    stopped_behind :
        (s : d.State) → Reaches b (here false behind s) → Reaches b (here false ended s)
    stopped_behind s run = elim (Bool-cases (windows || false)) [
      | inl e ↦ more (more (more run (rests _ refl e)) (wakes _ refl)) (returns _ refl refl)
      | inr e ↦ more (more run (skips _ refl e)) (returns _ refl refl)
    ]

    -- The loop from its test on, to its own end.
    loop_over :
        (s : d.State) (ts : List d.Turn)
        → Breaks s ts
        → Reaches b (here true testing s)
        → Reaches b (here true behind (loop d s ts))
    loop_over s [] over run = absurd over
    loop_over s (t ∷ ts) over run =
        let at : Reaches b (here true turning s) = more run (goes_on _ refl refl) in
        elim (Bool-cases (d.round s t).1) [
          | inl e ↦ rw (loop_on s t ts e) (
              loop_over (d.round s t).0 ts
                (chosen (d.round s t).1 (Breaks (d.round s t).0 ts) Unit e over)
                (more at (turns _ t refl e)))
          | inr e ↦ rw (loop_off s t ts e) (more at (breaks _ t refl e))
        ]

    -- The same with the signal behind the last turn.
    loop_stopped :
        (s : d.State) (ts : List d.Turn)
        → Reaches b (here true testing s)
        → Reaches b (here false behind (loop d s ts))
    unfolding loop
    loop_stopped s [] run = more (more run (interrupted _)) (leaves _ refl refl)
    loop_stopped s (t ∷ ts) run =
        let at : Reaches b (here true turning s) = more run (goes_on _ refl refl) in
        elim (Bool-cases (d.round s t).1) [
          | inl e ↦
              rw (loop_on s t ts e) (loop_stopped (d.round s t).0 ts (more at (turns _ t refl e)))
          | inr e ↦ rw (loop_off s t ts e) (more (more at (breaks _ t refl e)) (interrupted _))
        ]

    -- The opening, for a reader that looks at `running` first.
    at_testing :
        (s : d.State) (o : d.Opening)
        → d.tests_first ≡ true
        → (d.enter s o).1 ≡ true
        → Reaches b (here true checking s)
        → Reaches b (here true testing (d.enter s o).0)
    at_testing s o first e run =
        let (bs, all) = more (more run (listens _ refl refl)) (enters _ o refl e) in
        (
          bs,
          subst
              (λ (c : Bool).
                Steps windows d b bs (here true (if c then testing else turning) (d.enter s o).0))
              first all,
        )

    attempt_over :
        (s : d.State) (a : d.Opening × List d.Turn)
        → d.tests_first ≡ true
        → IsOver s a
        → Reaches b (here true checking s)
        → Reaches b (here true checking (attempt d s a))
    attempt_over s (o, ts) first over run = from_behind _ (elim (Bool-cases (d.enter s o).1) [
      | inl e ↦ rw (attempt_on s o ts e) (
          loop_over (d.enter s o).0 ts
            (chosen (d.enter s o).1 (Breaks (d.enter s o).0 ts) Unit e over)
            (at_testing s o first e run))
      | inr e ↦
          rw (attempt_off s o ts e) (more (more run (listens _ refl refl)) (refuses _ o refl e))
    ])

    attempt_stopped :
        (s : d.State) (a : d.Opening × List d.Turn)
        → d.tests_first ≡ true
        → Reaches b (here true checking s)
        → Reaches b (here false ended (attempt d s a))
    attempt_stopped s (o, ts) first run = stopped_behind _ (elim (Bool-cases (d.enter s o).1) [
      | inl e ↦
          rw (attempt_on s o ts e) (loop_stopped (d.enter s o).0 ts (at_testing s o first e run))
      | inr e ↦
          rw (attempt_off s o ts e)
            (more (more (more run (listens _ refl refl)) (refuses _ o refl e)) (interrupted _))
    ])

    listen_stopped :
        (s : d.State) (attempts : List (d.Opening × List d.Turn))
        → d.tests_first ≡ true
        → IsPossible s attempts
        → Reaches b (here true checking s)
        → Reaches b (here false ended (listen d s attempts))
    unfolding listen
    listen_stopped s [] first can run = more (more run (interrupted _)) (returns _ refl refl)
    listen_stopped s (a ∷ []) first can run = attempt_stopped s a first run
    listen_stopped s (a ∷ next ∷ later) first can run =
        listen_stopped (attempt d s a) (next ∷ later) first can.1 (attempt_over s a first can.0 run)

  -- For a reader that looks at `running` before its first turn: any attempts of which all but the
  -- last end by themselves, by an opening or a turn that fails, are those of some run, which the
  -- signal ends and which leaves the state that the attempts leave one after the other.
  pub listen-Steps :
      (s : d.State) (attempts : List (d.Opening × List d.Turn))
      → d.tests_first ≡ true
      → IsPossible s attempts
      → (bs : List ℕ) × Steps windows d
          (at_start windows d s)
          bs
          (record { running = false; place = ended; state = listen d s attempts })
  listen-Steps s attempts first can = listen_stopped s attempts first can ([], begun)
