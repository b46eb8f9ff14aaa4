-- ===== src/Protocol/Decode.antt =====
-- A stream against the scoreboard as it is meant: the rows that its frames decode, one after the
-- other, and what they show.
use serial.Base.{
  ℕ, ◌+◌, ◌≡◌, refl, ap, ◌∙◌, Option, none, some, List, [], ◌∷◌, ◌++◌, length, get_or, set,
  replicate, ◌==◌, if◌then◌else◌, Bool-cases, inl, inr,
}
use mathlib.Core.Path.{ap₂}
use serial.Text.{Text, c_string}
use serial.Helper.{Row}
use serial.Lane.{Memory}
use serial.Lane.Slot.{null_slot}
use serial.Lane.Start.{slot-init_analyse_lane}
use serial.Header.{init_analyse_header}
use serial.RunningTime.{init_running_time}
use serial.StartStop.Machine.{idle}
use serial.StartStop.{globals}
use serial.Rounds.{init_analyse_data}
use serial.Board.{init_board, analyse}
use serial.Board.Sound.{IsSound, init_board-IsSound, analyse-IsSound}
use serial.Board.Score.{Score, score_step, score_run}
use serial.Board.Refine.{Shows, analyse-score_step}
use serial.Protocol.{
  is_address, channel_of, control_bit_of, channel_length, init_read_data, read_all,
}
use serial.Protocol.Digits.{write_all}
use serial.Protocol.Link.{Pending, Link, accept, close_frame, extend, link_step, link_run}
use serial.Protocol.Refine.{init_link, read_all-from_start}

-- The channel and the row of a frame that is complete.
unfoldable pub closed : Pending → List Row → Option (ℕ × Row)
closed none rows = none
closed (some (a, ds)) rows =
    if length ds + 1 == channel_length (channel_of a)
    then some (channel_of a, write_all (control_bit_of a) (get_or rows (channel_of a) []) ds)
    else none

-- The rows that the frames of a stream decode, each with its channel.
unfoldable pub decode : Pending → List Row → List ℕ → List (ℕ × Row)
decode p rows [] = []
decode p rows (b ∷ bs) =
    if is_address b
    then elim (closed p rows) [
      | none ↦ decode (some (b, [])) rows bs
      | some (c, row) ↦ (c, row) ∷ decode (some (b, [])) (set rows c row) bs
    ]
    else decode (extend p b) rows bs

-- What a frame that is complete, or none, does.
abbrev pub applied : Option (ℕ × Row) → Link → Link × List Text
applied none l = (l, [])
applied (some (c, row)) l = (
  record l { rows = set l.rows c row; board = (analyse l.board c row).0 },
  (analyse l.board c row).1,
)

pub close_frame-applied : (p : Pending) (l : Link) → close_frame p l ≡ applied (closed p l.rows) l
unfolding close_frame accept closed
close_frame-applied none l = refl
close_frame-applied (some (a, ds)) l =
    elim (Bool-cases (length ds + 1 == channel_length (channel_of a))) [
      | inl e ↦ rw e refl
      | inr e ↦ rw e refl
    ]

-- The stream behind, read with what the frames so far show.
abbrev Follows : List ℕ → Type 0
Follows bs =
    (l : Link) (sc : Score)
    → IsSound l.board
    → Shows l.board sc
    → (link_run l bs).1 ≡ score_run sc (decode l.pending l.rows bs)

behind_address :
    (o : Option (ℕ × Row)) (b : ℕ) (bs : List ℕ) (l : Link) (sc : Score)
    → Follows bs
    → IsSound l.board
    → Shows l.board sc
    → (applied o l).1 ++ (link_run (record (applied o l).0 { pending = some (b, []) }) bs).1
      ≡ score_run sc (elim o [
        | none ↦ decode (some (b, [])) l.rows bs
        | some (c, row) ↦ (c, row) ∷ decode (some (b, [])) (set l.rows c row) bs
      ])
unfolding score_run
behind_address none b bs l sc follows v h = follows (record l { pending = some (b, []) }) sc v h
behind_address (some (c, row)) b bs l sc follows v h =
    let (shows, sent) = analyse-score_step l.board sc row v h c in
    let next = (score_step sc c row).0 in
    ap₂ ◌++◌ sent (
      follows
        (record l {
          pending = some (b, []);
          rows = set l.rows c row;
          board = (analyse l.board c row).0;
        })
        next (analyse-IsSound l.board c row v) shows)

link_run-score_run : (bs : List ℕ) → Follows bs
unfolding link_run link_step decode score_run
link_run-score_run [] l sc v h = refl
link_run-score_run (b ∷ bs) l sc v h =
    let follows = link_run-score_run bs in
    elim (Bool-cases (is_address b)) [
      | inl e ↦ rw e (
          ap (λ q. q.1 ++ (link_run (record q.0 { pending = some (b, []) }) bs).1)
            (close_frame-applied l.pending l)
          ∙ behind_address (closed l.pending l.rows) b bs l sc follows v h)
      | inr e ↦ rw e (follows (record l { pending = extend l.pending b }) sc v h)
    ]

-- What is shown before any byte, whatever malloc returns.
abbrev pub first_score : Score
first_score = record {
  race = idle;
  time = init_running_time;
  slots = λ l. null_slot;
  header = replicate 25 b'0';
  rounds = replicate 25 b'0';
  round = 0;
}

pub first-Shows : (memory : Memory) → Shows (init_board memory) first_score
unfolding init_board globals init_analyse_data init_analyse_header c_string
first-Shows memory = record {
  race_same = refl;
  time_same = refl;
  slots_same = slot-init_analyse_lane memory 10;
  header_same = refl;
  rounds_same = refl;
  round_same = refl;
}

-- Over any stream from the start of the program, and whatever malloc leaves in memory, the messages
-- are those of the scoreboard as it is meant, with no byte buffers: the complete frames of the
-- stream are decoded into rows, and row by row the scoreboard, which is a race, the running time as
-- the code keeps it, two texts for each lane, a header and the rounds, says what is sent.
pub read_all-score_run :
    (memory : Memory) (bs : List ℕ)
    → (read_all (init_read_data memory) bs).1
      ≡ score_run first_score (decode none (replicate 32 (replicate 16 0x01)) bs)
unfolding init_link
read_all-score_run memory bs =
    read_all-from_start memory bs
    ∙ link_run-score_run bs (init_link memory) first_score (init_board-IsSound memory)
        (first-Shows memory)
