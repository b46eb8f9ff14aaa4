-- ===== src/PlaceOrder/Rows.antt =====
-- The analysers of serialconnect with orderbyplace defined: the choice of putReadData, with the lanes
-- and their places.
pub mod Score
pub mod Bytes
use serial.Base.{ℕ, ◌+◌, not, ◌&&◌, List, [], ◌∷◌, ◌++◌, ltb, ◌==◌, if◌then◌else◌}
use serial.Text.{Text}
use serial.Helper.{Row}
use serial.RunningTime.{get_send_active_state}
use serial.Lane.{Memory, malloc}
use serial.Board.{Board, display_lane_count, init_board, analyse}
use serial.PlaceOrder.{Places, get_place_time}

pub record PlaceBoard : Type 0 where
  pub board : Board
  pub lanebyplaceorder : List ℕ

-- lanebyplaceorder is what malloc leaves.
unfoldable pub init_place_board : Memory → (ℕ → ℕ) → PlaceBoard
init_place_board memory junk = record {
  board = init_board memory;
  lanebyplaceorder = malloc junk 12;
}

abbrev pub places_of : PlaceBoard → Places
places_of b = record { lanes = b.board.lanes; lanebyplaceorder = b.lanebyplaceorder }

unfoldable pub on_places : PlaceBoard → ℕ → Row → PlaceBoard × List Text
on_places b channel row =
    let (places, sent) =
      get_place_time (places_of b) (get_send_active_state b.board.time) channel row in
    (
      record {
        board = record b.board { lanes = places.lanes };
        lanebyplaceorder = places.lanebyplaceorder;
      },
      sent,
    )

abbrev pub on_others : PlaceBoard → ℕ → Row → PlaceBoard × List Text
on_others b channel row =
    let (board, sent) = analyse b.board channel row in (record b { board = board }, sent)

-- The ladder of `colorado_control_channel`; of the analysers only the lanes' differs.
unfoldable pub analyse_places : PlaceBoard → ℕ → Row → PlaceBoard × List Text
analyse_places b channel row =
    if not (channel == 0) && ltb channel (display_lane_count + 1)
    then on_places b channel row
    else on_others b channel row

unfoldable pub analyse_rows : PlaceBoard → List (ℕ × Row) → List Text
analyse_rows b [] = []
analyse_rows b ((channel, row) ∷ rows) =
    let (next, sent) = analyse_places b channel row in sent ++ analyse_rows next rows
