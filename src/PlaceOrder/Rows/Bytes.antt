-- ===== src/PlaceOrder/Rows/Bytes.antt =====
-- A stream of bytes with orderbyplace defined: putReadData, which this does not change, hands the rows
-- to the analysers of this configuration.
use serial.Base.{ℕ, ◌≡◌, ap, ◌∙◌, none, List, replicate}
use serial.Text.{Text}
use serial.Lane.{Memory}
use serial.Protocol.{init_read_data}
use serial.Protocol.Decode.{decode}
use serial.Protocol.Handed.{read_rows, read_rows-from_start}
use serial.PlaceOrder.Rows.{init_place_board, analyse_rows}
use serial.PlaceOrder.Rows.Score.{places_run, first_places, analyse_rows-places_run}

-- The messages of a stream from the start of the program.
unfoldable pub read_places : Memory → (ℕ → ℕ) → List ℕ → List Text
read_places memory junk bs =
    analyse_rows (init_place_board memory junk) (read_rows (init_read_data memory) bs)

-- With orderbyplace, over any stream from the start of the program, and whatever malloc leaves in
-- memory, the messages are those of the scoreboard as it is meant, which keeps two texts and the
-- last place for each lane in place of the buffers, over the rows that the frames of the stream
-- decode.
pub read_places-places_run :
    (memory : Memory) (junk : ℕ → ℕ) (bs : List ℕ)
    → read_places memory junk bs
      ≡ places_run (first_places junk) (decode none (replicate 32 (replicate 16 0x01)) bs)
unfolding read_places
read_places-places_run memory junk bs =
    analyse_rows-places_run memory junk (read_rows (init_read_data memory) bs)
    ∙ ap (places_run (first_places junk)) (read_rows-from_start memory bs)
