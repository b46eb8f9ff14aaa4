-- ===== src/Control.antt =====
-- main.cpp's `intHandler` and the loops over `running`, which it clears: `startListen` of
-- serialconnect/listener.cpp and the reader that it calls, as steps. The signal may come between any
-- two of them.
pub mod Bytes
pub mod Ends
pub mod Attempts
pub mod Refine
pub mod Published
pub mod Linux
pub mod Complete
use serial.Base.{ℕ, ◌≡◌, Bool, true, false, ◌||◌, List, [], ◌∷◌, ◌++◌, if◌then◌else◌}
use serial.Mqtt.{Mosquitto}
use serial.Device.{Device}

-- Where the program is: before startListen's look at `running`, before the reader's opening, before
-- the reader's look, before a turn of its loop, behind the reader, in the sleep, and behind
-- startListen.
pub data Place : Type 0 where
  checking : Place
  opening : Place
  testing : Place
  turning : Place
  behind : Place
  resting : Place
  ended : Place

module _ {lib : Mosquitto} (windows : Bool) (d : Device lib) where
  pub record Control : Type 0 where
    pub running : Bool
    pub place : Place
    pub state : d.State

  -- Where `running` is set and the listener is called.
  abbrev pub at_start : d.State → Control
  at_start s = record { running = true; place = checking; state = s }

  -- `intHandler`
  abbrev pub int_handler : Control → Control
  int_handler c = record c { running = false }

  -- One step, with the bytes that it puts into the program. `own` says whether it is the program's:
  -- only the signal is not.
  pub data Step : Bool → Control → List ℕ → Control → Type 0 where
    interrupted : (c : Control) → Step false c [] (int_handler c)
    listens :
        (c : Control)
        → c.place ≡ checking
        → c.running ≡ true
        → Step true c [] (record c { place = opening })
    returns :
        (c : Control)
        → c.place ≡ checking
        → c.running ≡ false
        → Step true c [] (record c { place = ended })
    enters :
        (c : Control) (o : d.Opening)
        → c.place ≡ opening
        → (d.enter c.state o).1 ≡ true
        → Step true c [] (record c {
          place = if d.tests_first then testing else turning;
          state = (d.enter c.state o).0;
        })
    refuses :
        (c : Control) (o : d.Opening)
        → c.place ≡ opening
        → (d.enter c.state o).1 ≡ false
        → Step true c [] (record c { place = behind; state = (d.enter c.state o).0 })
    goes_on :
        (c : Control)
        → c.place ≡ testing
        → c.running ≡ true
        → Step true c [] (record c { place = turning })
    leaves :
        (c : Control)
        → c.place ≡ testing
        → c.running ≡ false
        → Step true c [] (record c { place = behind; state = d.leave c.state })
    turns :
        (c : Control) (t : d.Turn)
        → c.place ≡ turning
        → (d.round c.state t).1 ≡ true
        → Step true c
            (d.bytes c.state t)
            (record c { place = testing; state = (d.round c.state t).0 })
    breaks :
        (c : Control) (t : d.Turn)
        → c.place ≡ turning
        → (d.round c.state t).1 ≡ false
        → Step true c
            (d.bytes c.state t)
            (record c { place = behind; state = (d.round c.state t).0 })
    -- The program for Windows sleeps in any case.
    rests :
        (c : Control)
        → c.place ≡ behind
        → (windows || c.running) ≡ true
        → Step true c [] (record c { place = resting })
    skips :
        (c : Control)
        → c.place ≡ behind
        → (windows || c.running) ≡ false
        → Step true c [] (record c { place = checking })
    wakes : (c : Control) → c.place ≡ resting → Step true c [] (record c { place = checking })

  -- A run with its bytes.
  pub data Steps (b : Control) : List ℕ → Control → Type 0 where
    begun : Steps b [] b
    along :
        {own : Bool} {c e : Control} {bs cs : List ℕ}
        → Steps b bs c
        → Step own c cs e
        → Steps b (bs ++ cs) e
