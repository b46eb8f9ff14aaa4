-- ===== src/Protocol/Agree.antt =====
-- When the globals of `putReadData` hold the frame that is being read, and what its parts make of
-- them.
use mathlib.Core.Path.{ap₂}
use serial.Base.{
  ℕ, ◌+◌, ◌-◌, ◌≤◌, ◌<◌, ◌≡◌, ◌≢◌, refl, sym, ap, ◌∙◌, none, some, List, [], ◌∷◌, ◌++◌,
  append_assoc, append-nil, arith, inl, inr, Bool-cases, length, length-append, length-set, get_or,
  set, set-append, get_or-set_self, ltb, ◌==◌, ==_iff, if◌then◌else◌,
}
use serial.Text.{Text}
use serial.Board.{analyse}
use serial.Protocol.{
  Receiver, channel_length, channel_of, control_bit_of, process, finish, restart, collect,
}
use serial.Protocol.Bits.{channel_of_lt}
use serial.Protocol.Digits.{write_all, store_digits-write_all}
use serial.Protocol.Link.{Pending, Link, accept, close_frame, extend}

-- What the flag, the counter and the buffer say of the frame that is being read.
abbrev pub Holds : Receiver → Pending → Type 0
Holds r none = r.colorado_start_detected ≡ 0
Holds r (some (a, ds)) =
    (r.colorado_start_detected ≡ 1)
    × (r.in_count ≡ length ds + 1)
    × (length ds ≤ 8)
    × (r.colorado_control_channel ≡ channel_of a)
    × (r.colorado_control_bit ≡ control_bit_of a)
    × ((rest : List ℕ) × (r.buf ≡ a ∷ (ds ++ rest)))

pub record Agrees (r : Receiver) (l : Link) : Type 0 where
  pub rows_same : r.colorado_data ≡ l.rows
  pub board_same : r.board ≡ l.board
  pub buf_length : length r.buf ≡ 10
  pub rows_length : length l.rows ≡ 32
  pub holds : Holds r l.pending

-- The receiver after the frame (a, ds) was decoded, for the frame that its globals hold.
process-accept :
    (r : Receiver) (l : Link) (a : ℕ) (ds : List ℕ)
    → Agrees r l
    → Holds r (some (a, ds))
    → length ds + 1 ≡ channel_length (channel_of a)
    → let row = write_all (control_bit_of a) (get_or l.rows (channel_of a) []) ds in
      let (board, sent) = analyse l.board (channel_of a) row in
      process r ≡ (record r { colorado_data = set l.rows (channel_of a) row; board = board }, sent)
unfolding process
process-accept r l a ds g (on, count, short, channel, bit, (rest, filled)) size =
    let width : channel_length r.colorado_control_channel - 1 ≡ length ds =
      omega (arith, size, ap channel_length channel) in
    let here : r.colorado_control_channel < length r.colorado_data =
      rw (channel, g.rows_same) (omega (arith, g.rows_length, channel_of_lt a)) in
    rw (
      width,
      store_digits-write_all ds (a ∷ []) rest r filled here,
      get_or-set_self r.colorado_data r.colorado_control_channel
          (write_all r.colorado_control_bit (get_or r.colorado_data r.colorado_control_channel [])
            ds)
          [] here,
      channel,
      bit,
      g.rows_same,
      g.board_same,
    )

-- Closing a frame changes the rows, the board and what is sent as the frame says, and nothing else.
pub record Closes (r : Receiver) (l : Link) (done : Receiver × List Text) (frame : Link × List Text)
    : Type 0 where
  pub rows_same : done.0.colorado_data ≡ frame.0.rows
  pub board_same : done.0.board ≡ frame.0.board
  pub sent_same : done.1 ≡ frame.1
  pub buf_same : done.0.buf ≡ r.buf
  pub rows_length : length frame.0.rows ≡ 32

Closes-nothing : (r : Receiver) (l : Link) → Agrees r l → Closes r l (r, []) (l, [])
Closes-nothing r l g = record {
  rows_same = g.rows_same;
  board_same = g.board_same;
  sent_same = refl;
  buf_same = refl;
  rows_length = g.rows_length;
}

-- The three ways through the tests of an address byte.
finish_off : (r : Receiver) → r.colorado_start_detected ≡ 0 → finish r ≡ (r, [])
unfolding finish
finish_off r off = ground arith

finish_full :
    (r : Receiver)
    → r.colorado_start_detected ≡ 1
    → r.in_count ≡ channel_length r.colorado_control_channel
    → finish r ≡ process r
unfolding finish
finish_full r on full = ground arith

finish_other :
    (r : Receiver) → r.in_count ≢ channel_length r.colorado_control_channel → finish r ≡ (r, [])
unfolding finish
finish_other r other = ground arith

pub finish-close_frame :
    (p : Pending) (r : Receiver) (l : Link)
    → Agrees r l
    → Holds r p
    → Closes r l (finish r) (close_frame p l)
unfolding close_frame accept
finish-close_frame none r l g off = rw (finish_off r off) (Closes-nothing r l g)
finish-close_frame (some (a, ds)) r l g h =
    let width : channel_length r.colorado_control_channel ≡ channel_length (channel_of a) =
      ap channel_length h.3 in
    elim (Bool-cases (length ds + 1 == channel_length (channel_of a))) [
      | inl e ↦
          let size = (==_iff _ _).0 e in
          rw (e, finish_full r h.0 (omega arith), process-accept r l a ds g h size)
            (record {
              rows_same = refl;
              board_same = refl;
              sent_same = refl;
              buf_same = refl;
              rows_length = length-set l.rows (channel_of a) _ ∙ g.rows_length;
            })
      | inr e ↦
          let size : length ds + 1 ≢ channel_length (channel_of a) = λ q. ground arith in
          rw (e, finish_other r (λ q. size (omega arith))) (Closes-nothing r l g)
    ]

first_byte : (xs : List ℕ) (b : ℕ) → length xs ≡ 10 → (rest : List ℕ) × (set xs 0 b ≡ b ∷ rest)
first_byte [] b h = absurd (omega arith)
first_byte (x ∷ xs) b h = (xs, refl)

pub restart-Agrees :
    (r s : Receiver) (l m : Link) (b : ℕ) (sent told : List Text)
    → length r.buf ≡ 10
    → Closes r l (s, sent) (m, told)
    → Agrees (restart s b) (record m { pending = some (b, []) })
unfolding restart
restart-Agrees r s l m b sent told size c =
    let sized : length s.buf ≡ 10 = ap length c.buf_same ∙ size in
    record {
      rows_same = c.rows_same;
      board_same = c.board_same;
      buf_length = length-set s.buf 0 b ∙ sized;
      rows_length = c.rows_length;
      holds = (refl, refl, omega arith, refl, refl, first_byte s.buf b sized);
    }

-- A byte is written behind those of the frame, where the buffer has room.
write_behind :
    (xs rest : List ℕ) (b : ℕ)
    → length xs < length (xs ++ rest)
    → (later : List ℕ) × (set (xs ++ rest) (length xs) b ≡ xs ++ b ∷ later)
write_behind xs [] b h = absurd (omega (arith, ap length (append-nil xs)))
write_behind xs (x ∷ later) b h = (later, set-append xs later x b)

collect_off : (r : Receiver) (b : ℕ) → r.colorado_start_detected ≡ 0 → collect r b ≡ r
unfolding collect
collect_off r b off = ground arith

-- A byte of a frame is stored and counted; the tenth byte turns the flag off.
collect_on :
    (r : Receiver) (b : ℕ)
    → r.colorado_start_detected ≡ 1
    → r.in_count ≤ 9
    → collect r b ≡ record r {
      buf = set r.buf r.in_count b;
      in_count = r.in_count + 1;
      colorado_start_detected = if ltb 8 r.in_count then 0 else r.colorado_start_detected;
    }
unfolding collect
collect_on r b on low = ground arith

pub collect-Agrees :
    (p : Pending) (r : Receiver) (l : Link) (b : ℕ)
    → Agrees r l
    → Holds r p
    → Agrees (collect r b) (record l { pending = extend p b })
unfolding extend
collect-Agrees none r l b g off = rw (collect_off r b off) (record {
  rows_same = g.rows_same;
  board_same = g.board_same;
  buf_length = g.buf_length;
  rows_length = g.rows_length;
  holds = off;
})
collect-Agrees (some (a, ds)) r l b g (on, count, short, channel, bit, (rest, filled)) =
    let size : length ((a ∷ ds) ++ rest) ≡ 10 = ap length (sym filled) ∙ g.buf_length in
    let (later, wrote) = write_behind (a ∷ ds) rest b (omega arith) in
    let place : r.in_count ≡ length (a ∷ ds) = omega arith in
    let stored : set r.buf r.in_count b ≡ a ∷ (ds ++ b ∷ later) =
      ap₂ (λ x i. set x i b) filled place ∙ wrote in
    rw (collect_on r b on (omega arith)) (record {
      rows_same = g.rows_same;
      board_same = g.board_same;
      buf_length = length-set r.buf r.in_count b ∙ g.buf_length;
      rows_length = g.rows_length;
      holds = elim (Bool-cases (ltb 7 (length ds))) [
        | inl e ↦ rw e (ground arith)
        | inr e ↦
            let longer = length-append ds (b ∷ []) in
            let joined = ap (◌∷◌ a) (sym (append_assoc ds (b ∷ []) later)) in
            rw e (
              ground arith,
              omega (arith, count, longer),
              ground (arith, longer),
              channel,
              bit,
              (later, stored ∙ joined),
            )
      ];
    })
