-- ===== src/Protocol/Link.antt =====
-- The protocol as frames: an address byte with the bytes behind it. This is what `putReadData` is
-- meant to do, with no buffer, no counter and no flag.
use serial.Base.{
  ℕ, ◌+◌, Option, none, some, List, [], ◌∷◌, ◌++◌, ltb, ◌==◌, if◌then◌else◌, length, get_or, set,
}
use serial.Text.{Text}
use serial.Helper.{Row}
use serial.Board.{Board, analyse}
use serial.Protocol.{is_address, channel_of, control_bit_of, channel_length}
use serial.Protocol.Digits.{write_all}

-- The address byte of the frame that is being read, and its bytes so far.
abbrev pub Pending : Type 0
Pending = Option (ℕ × List ℕ)

pub record Link : Type 0 where
  pub pending : Pending
  pub rows : List Row
  pub board : Board

-- A frame whose length is its channel's is decoded into the channel's row and analysed; any other
-- is dropped.
unfoldable pub accept : Link → ℕ → List ℕ → Link × List Text
accept l a ds =
    let channel = channel_of a in
    let row = write_all (control_bit_of a) (get_or l.rows channel []) ds in
    if length ds + 1 == channel_length channel
    then (let (board, sent) = analyse l.board channel row in
        (record l { rows = set l.rows channel row; board = board }, sent))
    else (l, [])

unfoldable pub close_frame : Pending → Link → Link × List Text
close_frame none l = (l, [])
close_frame (some (a, ds)) l = accept l a ds

-- A frame of more than eight bytes is given up.
unfoldable pub extend : Pending → ℕ → Pending
extend none b = none
extend (some (a, ds)) b = if ltb 7 (length ds) then none else some (a, ds ++ b ∷ [])

unfoldable pub link_step : Link → ℕ → Link × List Text
link_step l b =
    let (m, sent) = close_frame l.pending l in
    if is_address b
    then (record m { pending = some (b, []) }, sent)
    else (record l { pending = extend l.pending b }, [])

unfoldable pub link_run : Link → List ℕ → Link × List Text
link_run l [] = (l, [])
link_run l (b ∷ bs) =
    let (m, sent) = link_step l b in let (n, later) = link_run m bs in (n, sent ++ later)
