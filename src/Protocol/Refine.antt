-- ===== src/Protocol/Refine.antt =====
-- `putReadData` on its globals against `link_step` on frames.
use mathlib.Core.Path.{ap₂}
use serial.Base.{ℕ, ◌≡◌, refl, none, List, [], ◌∷◌, ◌++◌, inl, inr, Bool-cases, replicate}
use serial.Lane.{Memory}
use serial.Board.{init_board}
use serial.Protocol.{Receiver, is_address, init_read_data, finish, put_read_data, read_all}
use serial.Protocol.Agree.{Agrees, finish-close_frame, restart-Agrees, collect-Agrees}
use serial.Protocol.Link.{Link, close_frame, link_step, link_run}

-- One byte, of any value: the receiver sends what the frames say and agrees with them afterwards.
pub put_read_data-link_step :
    (r : Receiver) (l : Link) (b : ℕ)
    → Agrees r l
    → Agrees (put_read_data r b).0 (link_step l b).0 × ((put_read_data r b).1 ≡ (link_step l b).1)
unfolding put_read_data link_step
put_read_data-link_step r l b g =
    let closes = finish-close_frame l.pending r l g g.holds in
    elim (Bool-cases (is_address b)) [
      | inl e ↦ rw e (
        restart-Agrees r (finish r).0 l (close_frame l.pending l).0 b (finish r).1
            (close_frame l.pending l).1 g.buf_length closes,
        closes.sent_same,
      )
      | inr e ↦ rw e (collect-Agrees l.pending r l b g g.holds, refl)
    ]

-- From states that agree, the receiver sends over any stream exactly what the frames of the stream
-- say, and agrees afterwards: it holds the rows and the analysers' state that the frames make.
pub read_all-link_run :
    (r : Receiver) (l : Link) (bs : List ℕ)
    → Agrees r l
    → Agrees (read_all r bs).0 (link_run l bs).0 × ((read_all r bs).1 ≡ (link_run l bs).1)
unfolding read_all link_run
read_all-link_run r l [] g = (g, refl)
read_all-link_run r l (b ∷ bs) g =
    let (agrees, sent) = put_read_data-link_step r l b g in
    let (after, later) = read_all-link_run (put_read_data r b).0 (link_step l b).0 bs agrees in
    (after, ap₂ ◌++◌ sent later)

-- The frames before any byte: none is read, and every row is full of 0x01.
unfoldable pub init_link : Memory → Link
init_link memory = record {
  pending = none;
  rows = replicate 32 (replicate 16 0x01);
  board = init_board memory;
}

pub init-Agrees : (memory : Memory) → Agrees (init_read_data memory) (init_link memory)
unfolding init_read_data init_link
init-Agrees memory = record {
  rows_same = refl;
  board_same = refl;
  buf_length = refl;
  rows_length = refl;
  holds = refl;
}

-- From the start of the program, whatever malloc returns, the messages sent over any stream are
-- those of the frames.
pub read_all-from_start :
    (memory : Memory) (bs : List ℕ)
    → (read_all (init_read_data memory) bs).1 ≡ (link_run (init_link memory) bs).1
read_all-from_start memory bs =
    (read_all-link_run (init_read_data memory) (init_link memory) bs (init-Agrees memory)).1
