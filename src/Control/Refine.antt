-- ===== src/Control/Refine.antt =====
-- The runs of the program against `listen`, the attempts one after the other.
use serial.Base.{
  ℕ, ◌≡◌, refl, sym, ap, ◌∙◌, Bool, true, false, List, [], ◌∷◌, ◌++◌, if◌then◌else◌, append-nil,
  arith,
}
use serial.Mqtt.{Mosquitto}
use serial.Device.{Device, loop, attempt, listen}
use serial.Device.Along.{Along, Along-append, loop-append, listen-append}
use serial.Control.{
  Place, checking, opening, testing, turning, behind, resting, ended, Control, at_start, Step,
  interrupted, listens, returns, enters, refuses, goes_on, leaves, turns, breaks, rests, skips,
  wakes, Steps, begun, along,
}
use serial.Control.Attempts.{add_turn, add_turn-append, noted, attempts_of}
use serial.Control.Complete.{Breaks, IsOver, IsPossible}

false-true : false ≡ true → ⊥
false-true e = ground arith

module _ {lib : Mosquitto} (windows : Bool) (d : Device lib) where
  -- Each attempt ends by itself.
  abbrev AllOver : d.State → List (d.Opening × List d.Turn) → Type 0
  AllOver s [] = Unit
  AllOver s (a ∷ more) = IsOver windows d s a × AllOver (attempt d s a) more

  AllOver-append :
      (s : d.State) (before : List (d.Opening × List d.Turn)) (a : d.Opening × List d.Turn)
      → AllOver s before
      → IsOver windows d (listen d s before) a
      → AllOver s (before ++ a ∷ [])
  unfolding listen
  AllOver-append s [] a over last = (last, tt)
  AllOver-append s (b ∷ before) a (over, more) last =
      (over, AllOver-append (attempt d s b) before a more last)

  AllOver-IsPossible :
      (s : d.State) (before : List (d.Opening × List d.Turn)) (a : d.Opening × List d.Turn)
      → AllOver s before
      → IsPossible windows d s (before ++ a ∷ [])
  AllOver-IsPossible s [] a over = tt
  AllOver-IsPossible s (b ∷ []) a (over, more) = (over, tt)
  AllOver-IsPossible s (b ∷ c ∷ before) a (over, more) =
      (over, AllOver-IsPossible (attempt d s b) (c ∷ before) a more)

  all-IsPossible :
      (s : d.State) (made : List (d.Opening × List d.Turn))
      → AllOver s made
      → IsPossible windows d s made
  all-IsPossible s [] over = tt
  all-IsPossible s (a ∷ []) over = tt
  all-IsPossible s (a ∷ b ∷ more) (over, rest) =
      (over, all-IsPossible (attempt d s a) (b ∷ more) rest)

  -- Behind the attempts made: while `running` is set, each has ended by itself.
  abbrev IsOutside : Bool → d.State → List (d.Opening × List d.Turn) → d.State → Type 0
  IsOutside running s made u =
      (u ≡ listen d s made) × IsPossible windows d s made × (running ≡ true → AllOver s made)

  abbrev IsOpening : d.State → List (d.Opening × List d.Turn) → d.State → Type 0
  IsOpening s made u = (u ≡ listen d s made) × AllOver s made

  -- In the loop of the last attempt.
  abbrev IsLooping : d.State → List (d.Opening × List d.Turn) → d.State → Type 0
  IsLooping s made u =
      (before : List (d.Opening × List d.Turn)) × (o : d.Opening) × (done : List d.Turn) × (made
        ≡ before ++ (o, done) ∷ [])
      × AllOver s before
      × ((d.enter (listen d s before) o).1 ≡ true)
      × Along d (d.enter (listen d s before) o).0 done u

  abbrev IsReached : d.State → Bool → Place → List (d.Opening × List d.Turn) → d.State → Type 0
  IsReached s running checking made u = IsOutside running s made u
  IsReached s running opening made u = IsOpening s made u
  IsReached s running testing made u = IsLooping s made u
  IsReached s running turning made u = IsLooping s made u
  IsReached s running behind made u = IsOutside running s made u
  IsReached s running resting made u = IsOutside running s made u
  IsReached s running ended made u =
      (u ≡ listen d s made) × IsPossible windows d s made × (running ≡ false)

  one_more :
      (s : d.State) (made : List (d.Opening × List d.Turn)) (a : d.Opening × List d.Turn)
      → attempt d (listen d s made) a ≡ listen d s (made ++ a ∷ [])
  unfolding listen
  one_more s made a = sym (listen-append d s made (a ∷ []))

  refused :
      (s u : d.State) (running : Bool) (made : List (d.Opening × List d.Turn)) (o : d.Opening)
      → IsOpening s made u
      → (d.enter u o).1 ≡ false
      → IsOutside running s (made ++ (o, []) ∷ []) (d.enter u o).0
  unfolding attempt
  refused s u running made o (here, over) failed =
      let again = ap (λ q. (d.enter q o).1) (sym here) ∙ failed in
      let all = AllOver-append s made (o, []) over (rw again tt) in
      (
        ap (λ q. (d.enter q o).0) here ∙ rw again refl ∙ one_more s made (o, []),
        all-IsPossible s (made ++ (o, []) ∷ []) all,
        λ e. all,
      )

  -- The turns of a loop up to u, and what stands behind them.
  over :
      (s u v : d.State) (before : List (d.Opening × List d.Turn)) (o : d.Opening)
      (done last : List d.Turn)
      → (d.enter (listen d s before) o).1 ≡ true
      → Along d (d.enter (listen d s before) o).0 done u
      → loop d u last ≡ v
      → v ≡ listen d s (before ++ (o, done ++ last) ∷ [])
  unfolding attempt
  over s u v before o done last opened way here =
      let t = (d.enter (listen d s before) o).0 in
      sym here
      ∙ sym (loop-append d t u done last way)
      ∙ rw opened refl
      ∙ one_more s before (o, done ++ last)

  Breaks-add_turn :
      (t u : d.State) (done : List d.Turn) (x : d.Turn)
      → Along d t done u
      → (d.round u x).1 ≡ false
      → Breaks windows d t (done ++ x ∷ [])
  Breaks-add_turn t u [] x here off = rw (ap (λ q. (d.round q x).1) here ∙ off) tt
  Breaks-add_turn t u (y ∷ done) x (on, way) off =
      rw on (Breaks-add_turn (d.round t y).0 u done x way off)

  broken :
      (s u : d.State) (running : Bool) (made : List (d.Opening × List d.Turn)) (t : d.Turn)
      → IsLooping s made u
      → (d.round u t).1 ≡ false
      → IsOutside running s (add_turn t made) (d.round u t).0
  unfolding loop
  broken s u running made t (before, o, done, e, all, opened, way) off =
      let here : loop d u (t ∷ []) ≡ (d.round u t).0 = rw off refl in
      let same = ap (add_turn t) e ∙ add_turn-append t before o done in
      let each =
        AllOver-append s before (o, done ++ t ∷ []) all
          (rw opened (Breaks-add_turn _ u done t way off)) in
      (
        over s u (d.round u t).0 before o done (t ∷ []) opened way here
            ∙ ap (listen d s) (sym same),
        rw same (all-IsPossible s (before ++ (o, done ++ t ∷ []) ∷ []) each),
        λ on. rw same each,
      )

  left :
      (s u : d.State) (running : Bool) (made : List (d.Opening × List d.Turn))
      → IsLooping s made u
      → running ≡ false
      → IsOutside running s made (d.leave u)
  unfolding loop
  left s u running made (before, o, done, e, all, opened, way) off = (
    over s u (d.leave u) before o done [] opened way refl
        ∙ ap (λ k. listen d s (before ++ (o, k) ∷ [])) (append-nil done)
        ∙ ap (listen d s) (sym e),
    rw e (AllOver-IsPossible s before (o, done) all),
    λ on. absurd (false-true (sym off ∙ on)),
  )

  looping :
      (s u : d.State) (made : List (d.Opening × List d.Turn)) (t : d.Turn)
      → IsLooping s made u
      → (d.round u t).1 ≡ true
      → IsLooping s (add_turn t made) (d.round u t).0
  looping s u made t (before, o, done, e, all, opened, way) on = (
    before,
    o,
    done ++ t ∷ [],
    ap (add_turn t) e ∙ add_turn-append t before o done,
    all,
    opened,
    Along-append d _ u done t way on,
  )

  entered :
      (s u : d.State) (made : List (d.Opening × List d.Turn)) (o : d.Opening)
      → IsOpening s made u
      → (d.enter u o).1 ≡ true
      → IsLooping s (made ++ (o, []) ∷ []) (d.enter u o).0
  entered s u made o (here, all) opened = (
    made,
    o,
    [],
    refl,
    all,
    ap (λ q. (d.enter q o).1) (sym here) ∙ opened,
    ap (λ q. (d.enter q o).0) (sym here),
  )

  at_place :
      {p q : Place} (s u : d.State) (running : Bool) (made : List (d.Opening × List d.Turn))
      → p ≡ q
      → IsReached s running p made u
      → IsReached s running q made u
  at_place s u running made e h = rw (sym e) h

  at_first :
      (s u : d.State) (running first : Bool) (made : List (d.Opening × List d.Turn))
      → IsLooping s made u
      → IsReached s running (if first then testing else turning) made u
  at_first s u running true made h = h
  at_first s u running false made h = h

  stopped :
      (s u : d.State) (running : Bool) (p : Place) (made : List (d.Opening × List d.Turn))
      → IsReached s running p made u
      → IsReached s false p made u
  stopped s u running checking made (here, can, all) = (here, can, λ on. absurd (false-true on))
  stopped s u running opening made h = h
  stopped s u running testing made h = h
  stopped s u running turning made h = h
  stopped s u running behind made (here, can, all) = (here, can, λ on. absurd (false-true on))
  stopped s u running resting made (here, can, all) = (here, can, λ on. absurd (false-true on))
  stopped s u running ended made (here, can, off) = (here, can, refl)

  Step-listens :
      {own : Bool} {b c : Control windows d} {bs : List ℕ} (s : d.State)
      (made : List (d.Opening × List d.Turn)) (step : Step windows d own b bs c)
      → IsReached s b.running b.place made b.state
      → IsReached s c.running c.place (noted step made) c.state
  Step-listens s made (interrupted c) h = stopped s c.state c.running c.place made h
  Step-listens s made (listens c at on) h =
      let (here, can, all) = at_place s c.state c.running made at h in (here, all on)
  Step-listens s made (returns c at off) h =
      let (here, can, all) = at_place s c.state c.running made at h in (here, can, off)
  Step-listens s made (enters c o at opened) h =
      at_first s _ c.running d.tests_first (made ++ (o, []) ∷ [])
        (entered s c.state made o (at_place s c.state c.running made at h) opened)
  Step-listens s made (refuses c o at failed) h =
      refused s c.state c.running made o (at_place s c.state c.running made at h) failed
  Step-listens s made (goes_on c at on) h = at_place s c.state c.running made at h
  Step-listens s made (leaves c at off) h =
      left s c.state c.running made (at_place s c.state c.running made at h) off
  Step-listens s made (turns c t at on) h =
      looping s c.state made t (at_place s c.state c.running made at h) on
  Step-listens s made (breaks c t at off) h =
      broken s c.state c.running made t (at_place s c.state c.running made at h) off
  Step-listens s made (rests c at on) h = at_place s c.state c.running made at h
  Step-listens s made (skips c at off) h = at_place s c.state c.running made at h
  Step-listens s made (wakes c at) h = at_place s c.state c.running made at h

  Steps_listens :
      (s : d.State) {c : Control windows d} {bs : List ℕ}
      (run : Steps windows d (at_start windows d s) bs c)
      → IsReached s c.running c.place (attempts_of run) c.state
  unfolding listen
  Steps_listens s begun = (refl, tt, λ on. tt)
  Steps_listens s (along run step) = Step-listens s (attempts_of run) step (Steps_listens s run)

  -- A run that ends has been interrupted, all attempts that it made but the last ended by
  -- themselves, and it leaves what they leave one after the other.
  pub Steps-listen :
      (s : d.State) {c : Control windows d} {bs : List ℕ}
      (run : Steps windows d (at_start windows d s) bs c)
      → c.place ≡ ended
      → (c.state ≡ listen d s (attempts_of run))
        × IsPossible windows d s (attempts_of run)
        × (c.running ≡ false)
  Steps-listen s {c} run at =
      at_place s c.state c.running (attempts_of run) at (Steps_listens s run)
