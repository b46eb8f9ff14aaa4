-- ===== src/Examples/Windows.antt =====
-- The programs for Windows at concrete inputs.
use serial.Base.{◌≡◌, refl, true, false, not, ◌==◌, List, [], ◌∷◌, some}
use serial.Protocol.{
  init_read_data, put_read_data, read_all, channel_length, channel_of, is_address,
}
use serial.Mqtt.{deliver}
use serial.Program.{Program, feed}
use serial.WinPort.{
  Event, characters, other_event, wait_failed, WinSession, win_loop, Status, win_read, create_file,
  get_comm_state, set_comm_state, set_comm_timeouts, set_comm_mask, read_timeouts,
}
use serial.WinPort.Read.{win_read-feed}
use serial.WinPort.Echo.{echoed}
use serial.WinPort.Torn.{torn, torn_frame_lost}
use serial.WinPort.Restart.{win_listen, sets_up, win_listen-read_until_torn}
use serial.WinSend.{send_win, send_state}
use serial.Examples.{some_memory, up}

abbrev fresh_program : Program up
fresh_program = record {
  receiver = init_read_data some_memory;
  mqtt = record { mosq = true; error_state = false; world = [] };
}

abbrev win_session : WinSession up
win_session = record {
  program = fresh_program;
  read_data = 0xCC;
  written = [];
  error_counter = 1000;
  printed = 0;
}

abbrev four_events : List Event
four_events =
    characters ((0xB8, true) ∷ (0x0F, false) ∷ []) false
    ∷ other_event
    ∷ characters [] true
    ∷ wait_failed
    ∷ []

abbrev all_succeed : Status
all_succeed k = true

win_read-feed_example :
    ((win_read up all_succeed true win_session four_events).0.program
      ≡ feed up fresh_program (echoed 0xCC four_events))
    × ((win_read up all_succeed true win_session four_events).1 ≡ 0)
win_read-feed_example = win_read-feed up all_succeed true win_session four_events

abbrev no_port : Status
no_port k = false

abbrev mask_fails : Status
mask_fails k = not (k == 4)

-- An attempt without a port, one that reads, one whose setup fails, and a last one.
abbrev four_attempts : List (Status × List Event)
four_attempts =
    (no_port, four_events)
    ∷ (all_succeed, four_events)
    ∷ (mask_fails, [])
    ∷ (all_succeed, four_events)
    ∷ []

win_listen-read_until_torn_example :
    win_listen up false true win_session four_attempts ≡ win_loop up true win_session four_events
unfolding sets_up
win_listen-read_until_torn_example = win_listen-read_until_torn up true win_session four_attempts

abbrev later_session : WinSession up
later_session = record win_session {
  program = record fresh_program {
    receiver = (read_all (init_read_data some_memory) (0xA0 ∷ [])).0;
  };
}

lane_address : is_address 0xBC ≡ true
unfolding is_address
lane_address = refl

lane_length : 9 ≡ channel_length (channel_of 0xBC)
unfolding channel_length channel_of
lane_length = refl

-- The frame of a lane, torn behind its fourth byte.
torn_frame_lost_example :
    (win_loop up false later_session
      (torn 0xBC (0x0F ∷ 0x1F ∷ []) 0x2F (0x3F ∷ 0x4F ∷ 0x5F ∷ 0x6F ∷ 0x7F ∷ []) 0xBE)).program.mqtt
    ≡ deliver up later_session.program.mqtt (put_read_data later_session.program.receiver 0xBC).1
unfolding is_address
torn_frame_lost_example =
    torn_frame_lost up some_memory (0xA0 ∷ []) false later_session 0xBC (0x0F ∷ 0x1F ∷ []) 0x2F
      (0x3F ∷ 0x4F ∷ 0x5F ∷ 0x6F ∷ 0x7F ∷ []) 0xBE refl lane_address (refl, (refl, tt)) refl
      (refl, (refl, (refl, (refl, (refl, tt))))) lane_address lane_length

-- A send whose setup fails at the mask: the port is opened and never closed, and the result is 0.
send_mask_fails : send_win mask_fails (λ k. 1000) ≡ (
  create_file
      ∷ get_comm_state
      ∷ set_comm_state send_state
      ∷ set_comm_timeouts read_timeouts
      ∷ set_comm_mask
      ∷ [],
  some 0,
)
unfolding send_win
send_mask_fails = refl
