-- ===== src/StartStop/Alternate.antt =====
-- The order of starts and stops, and what they clear.
use serial.Base.{◌≤◌, ◌≡◌, refl, Bool, not, ◌⊎◌, inl, inr, List, [], ◌∷◌, arith, if◌then◌else◌}
use serial.Text.{Text}
use serial.Helper.{Row}
use serial.Lane.{Lanes, reset_all_data}
use serial.StartStop.{StartStop, start_text, stop_text, check_start_stop, check_rows}

-- The flags agree between two rows, and the counter is below six.
pub record IsSteady (s : StartStop) : Type 0 where
  pub counted : s.noworking ≤ 5
  pub pending_same : s.pending ≡ s.b_stopping
  pub running_same : s.b_running ≡ s.b_stopping

pub check_start_stop-IsSteady :
    (s : StartStop) (lanes : Lanes) (row : Row)
    → IsSteady s
    → IsSteady (check_start_stop s lanes row).0
unfolding check_start_stop
check_start_stop-IsSteady s lanes row v = ground arith

-- Messages that take turns, the first one a start exactly when the race does not run.
abbrev pub Alternates : Bool → List Text → Type 0
Alternates running [] = Unit
Alternates running (m ∷ ms) =
    (m ≡ (if running then stop_text else start_text)) × Alternates (not running) ms

-- One row sends nothing and leaves the lanes and the flag, or it turns the flag, sends the message
-- of the turn and clears the lanes.
pub check_start_stop_turn :
    (s : StartStop) (lanes : Lanes) (row : Row)
    → let (t, last, sent) = check_start_stop s lanes row in
      ((sent ≡ []) × (last ≡ lanes) × (t.b_stopping ≡ s.b_stopping))
      ⊎ ((sent ≡ (if s.b_stopping then stop_text else start_text) ∷ [])
          × (last ≡ reset_all_data lanes)
          × (t.b_stopping ≡ not s.b_stopping))
unfolding check_start_stop
check_start_stop_turn s lanes row = ground arith

-- Over any rows the messages are start and stop in turn, beginning with a start exactly if the flag
-- says that the race does not run.
pub check_rows-Alternates :
    (s : StartStop) (lanes : Lanes) (rows : List Row)
    → Alternates s.b_stopping (check_rows s lanes rows).2
unfolding check_rows
check_rows-Alternates s lanes [] = tt
check_rows-Alternates s lanes (row ∷ rows) =
    let (t, reset, sent) = check_start_stop s lanes row in
    let ih = check_rows-Alternates t reset rows in
    elim (check_start_stop_turn s lanes row) [
      | inl (none_sent, same, flag) ↦ rw none_sent (rw flag at ih)
      | inr (one_sent, cleared, flag) ↦ rw one_sent (refl, rw flag at ih)
    ]
