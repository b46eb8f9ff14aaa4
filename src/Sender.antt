-- ===== src/Sender.antt =====
-- sender/send.cpp: texts written to a port, each with a semicolon behind it. What open(2),
-- set_interface_attribs and write(2) return is an argument.
pub mod Frames
use serial.Base.{ℕ, Bool, true, false, List, [], ◌∷◌, ◌++◌, ltb, take, if◌then◌else◌}
use serial.Base.Int.{ℤ, pos, negsuc}
use serial.Text.{Text, codes}

abbrev pub is_negative : ℤ → Bool
is_negative (pos n) = false
is_negative (negsuc n) = true

-- What a write with this result puts on the line: as many bytes as it returns, none on an error.
abbrev pub written_by : ℤ → Text → Text
written_by (pos n) bytes = take n bytes
written_by (negsuc n) bytes = []

-- The global descriptor, and all that was written to it.
pub record Sender : Type 0 where
  pub fd : ℤ
  pub line : Text

unfoldable pub init_send : ℤ → ℕ → Sender → Sender × ℕ
init_send opened attribs s =
    let t = record s { fd = opened } in
    if is_negative opened then (t, 1) else if ltb 0 attribs then (t, 1) else (t, 0)

unfoldable pub close_send : Sender → Sender × ℕ
close_send s = (s, 0)

unfoldable pub endstring : Text
endstring = codes ";"

-- `send`, for the results of its two writes: that of the first is overwritten.
unfoldable pub send : ℤ → ℤ → Sender → Text → Sender × ℕ
unfolding endstring
send first second s message =
    let t = record s {
      line = (s.line ++ written_by first message) ++ written_by second endstring;
    } in
    if is_negative second then (t, 1) else (t, 0)

-- Texts sent one after the other, with the results of their writes.
unfoldable pub send_all : Sender → List (Text × ℤ × ℤ) → Sender
send_all s [] = s
send_all s ((message, first, second) ∷ rest) = send_all (send first second s message).0 rest
