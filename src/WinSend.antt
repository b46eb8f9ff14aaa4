-- ===== src/WinSend.antt =====
-- sender/sendwin.cpp: the `send` that is built for Windows writes a race that stands in the code to
-- the third port. Whether each call of the setup succeeds, CreateEvent with them, and how many bytes
-- each WriteFile writes are arguments; the results of WriteFile and CloseHandle are not looked at.
use serial.Base.{ℕ, Bool, false, List, [], ◌∷◌, take, Option, some, none, if◌then◌else◌}
use serial.WinPort.{
  CommState, WinCall, create_file, get_comm_state, set_comm_state, set_comm_timeouts, set_comm_mask,
  write_file, close_handle, comm_state, read_timeouts, Status,
}

-- The calls that were made, WriteFile with the bytes that it wrote, and the result; none where an
-- assertion stops the program.
abbrev pub Sending : Type 0
Sending = List WinCall × Option ℕ

-- A call, what `send` returns where it fails, and what follows where it does not.
abbrev pub attempt : Bool → ℕ → WinCall → Sending → Sending
attempt ok code call rest = if ok then (call ∷ rest.0, rest.1) else (call ∷ [], some code)

abbrev pub send_state : CommState
send_state = record comm_state { even_parity = false }

unfoldable pub race_message : List ℕ
race_message =
    190 ∷ 112 ∷ 111 ∷ 95 ∷ 64 ∷ 48 ∷ 32 ∷ 161 ∷ 13 ∷ 31 ∷ 47 ∷ 63 ∷ 77 ∷ 93 ∷ 111 ∷ 127 ∷ 188 ∷ 14
    ∷ 30 ∷ 32 ∷ 48 ∷ 77 ∷ 93 ∷ 106 ∷ 126 ∷ 189 ∷ 13 ∷ 31 ∷ 47 ∷ 63 ∷ 77 ∷ 93 ∷ 111 ∷ 127 ∷ 186 ∷ 13
    ∷ 26 ∷ 32 ∷ 48 ∷ 76 ∷ 89 ∷ 102 ∷ 119 ∷ 187 ∷ 13 ∷ 31 ∷ 47 ∷ 63 ∷ 77 ∷ 93 ∷ 111 ∷ 127 ∷ 184 ∷ 12
    ∷ 25 ∷ 32 ∷ 48 ∷ 75 ∷ 95 ∷ 110 ∷ 121 ∷ 185 ∷ 13 ∷ 31 ∷ 47 ∷ 63 ∷ 77 ∷ 93 ∷ 111 ∷ 127 ∷ 182 ∷ 11
    ∷ 24 ∷ 32 ∷ 48 ∷ 75 ∷ 92 ∷ 109 ∷ 119 ∷ 183 ∷ 13 ∷ 31 ∷ 47 ∷ 63 ∷ 77 ∷ 93 ∷ 111 ∷ 127 ∷ 190 ∷ 112
    ∷ 111 ∷ 95 ∷ 64 ∷ 48 ∷ 32 ∷ 180 ∷ 10 ∷ 23 ∷ 32 ∷ 48 ∷ 74 ∷ 93 ∷ 111 ∷ 120 ∷ 181 ∷ 13 ∷ 31 ∷ 47
    ∷ 63 ∷ 77 ∷ 93 ∷ 111 ∷ 127 ∷ 178 ∷ 9 ∷ 29 ∷ 32 ∷ 48 ∷ 77 ∷ 88 ∷ 104 ∷ 123 ∷ 179 ∷ 13 ∷ 31 ∷ 47
    ∷ 63 ∷ 77 ∷ 93 ∷ 111 ∷ 127 ∷ 176 ∷ 8 ∷ 28 ∷ 32 ∷ 48 ∷ 76 ∷ 95 ∷ 108 ∷ 121 ∷ 177 ∷ 13 ∷ 31 ∷ 47
    ∷ 63 ∷ 77 ∷ 93 ∷ 111 ∷ 127 ∷ 174 ∷ 7 ∷ 27 ∷ 32 ∷ 48 ∷ 76 ∷ 92 ∷ 107 ∷ 125 ∷ 175 ∷ 13 ∷ 31 ∷ 47
    ∷ 63 ∷ 77 ∷ 93 ∷ 111 ∷ 127 ∷ 127 ∷ []

abbrev pub word_mask : List ℕ
word_mask = 128 ∷ []

-- `send`: its argument is not used, and `return false` is the result 0.
unfoldable pub send_win : Status → (ℕ → ℕ) → Sending
send_win ok wrote = attempt (ok 0) 1 create_file (
    attempt (ok 1) 1 get_comm_state (
      attempt (ok 2) 0 (set_comm_state send_state) (
        attempt (ok 3) 0 (set_comm_timeouts read_timeouts) (
          attempt (ok 4) 0 set_comm_mask (
            -- CreateEvent and assert(o.hEvent)
            if ok 5
            then (
              write_file (take (wrote 0) word_mask)
                  ∷ write_file (take (wrote 1) race_message)
                  ∷ write_file (take (wrote 2) word_mask)
                  ∷ close_handle
                  ∷ [],
              some 0,
            )
            else ([], none))))))
