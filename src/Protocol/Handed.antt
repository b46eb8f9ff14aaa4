-- ===== src/Protocol/Handed.antt =====
-- The rows that `putReadData` hands to the analysers, whatever these do with them.
pub mod Analysed
use mathlib.Core.Path.{ap₂}
use serial.Base.{
  ℕ, ◌+◌, zero, suc, ◌-◌, ◌<◌, ◌≡◌, refl, sym, ap, ◌∙◌, Option, none, some, List, [], ◌∷◌, ◌++◌,
  arith, true, false, inl, inr, Bool-cases, length, get_or, set, get_or-set_self, ◌==◌, ==_iff,
  if◌then◌else◌, replicate,
}
use serial.Text.{Text}
use serial.Helper.{Row}
use serial.Lane.{Memory}
use serial.Board.{Board, analyse}
use serial.Protocol.{
  Receiver, is_address, channel_length, channel_of, control_bit_of, init_read_data, store_digit,
  store_digits, process, finish, restart, collect, put_read_data, read_all,
}
use serial.Protocol.Bits.{channel_of_lt}
use serial.Protocol.Digits.{write_all, store_digits-write_all}
use serial.Protocol.Link.{Pending, Link, extend, link_step}
use serial.Protocol.Agree.{Agrees, Holds}
use serial.Protocol.Refine.{put_read_data-link_step, init_link, init-Agrees}
use serial.Protocol.Decode.{closed, decode, applied, close_frame-applied}

-- The row that an address byte completes, with its channel.
unfoldable pub handed : Receiver → Option (ℕ × Row)
handed r =
    let s = store_digits (channel_length r.colorado_control_channel - 1) 1 r in
    if r.colorado_start_detected == 1
    then (if r.in_count == channel_length r.colorado_control_channel
        then some (s.colorado_control_channel, get_or s.colorado_data s.colorado_control_channel [])
        else none)
    else none

abbrev pub behind : Option (ℕ × Row) → List (ℕ × Row) → List (ℕ × Row)
behind none rows = rows
behind (some row) rows = row ∷ rows

abbrev rows_with : Option (ℕ × Row) → List Row → List Row
rows_with none rows = rows
rows_with (some (c, row)) rows = set rows c row

-- All rows of a stream.
unfoldable pub read_rows : Receiver → List ℕ → List (ℕ × Row)
read_rows r [] = []
read_rows r (b ∷ bs) =
    let rest = read_rows (put_read_data r b).0 bs in
    if is_address b then behind (handed r) rest else rest

abbrev digits_stored : Receiver → Receiver
digits_stored r = store_digits (channel_length r.colorado_control_channel - 1) 1 r

abbrev own_row : Receiver → ℕ × Row
own_row s = (s.colorado_control_channel, get_or s.colorado_data s.colorado_control_channel [])

handed_full :
    (r : Receiver)
    → r.colorado_start_detected ≡ 1
    → r.in_count ≡ channel_length r.colorado_control_channel
    → handed r ≡ some (own_row (digits_stored r))
unfolding handed
handed_full r on full = ground arith

-- The digits of the frame (a, ds), for the frame that the globals hold.
own_row-write_all :
    (r : Receiver) (l : Link) (a : ℕ) (ds : List ℕ)
    → Agrees r l
    → Holds r (some (a, ds))
    → length ds + 1 ≡ channel_length (channel_of a)
    → own_row (digits_stored r)
      ≡ (channel_of a, write_all (control_bit_of a) (get_or l.rows (channel_of a) []) ds)
own_row-write_all r l a ds g (on, count, short, channel, bit, (rest, filled)) size =
    let width : channel_length r.colorado_control_channel - 1 ≡ length ds =
      omega (arith, size, ap channel_length channel) in
    let here : r.colorado_control_channel < length r.colorado_data =
      rw (channel, g.rows_same) (omega (arith, g.rows_length, channel_of_lt a)) in
    rw (
      width,
      store_digits-write_all ds (a ∷ []) rest r filled here,
      get_or-set_self r.colorado_data r.colorado_control_channel
          (write_all r.colorado_control_bit (get_or r.colorado_data r.colorado_control_channel [])
            ds)
          [] here,
      channel,
      bit,
      g.rows_same,
    )

handed-closed :
    (p : Pending) (r : Receiver) (l : Link) → Agrees r l → Holds r p → handed r ≡ closed p l.rows
unfolding handed closed
handed-closed none r l g off = ground arith
handed-closed (some (a, ds)) r l g (on, count, short, channel, bit, (rest, filled)) =
    let width : channel_length r.colorado_control_channel ≡ channel_length (channel_of a) =
      ap channel_length channel in
    elim (Bool-cases (length ds + 1 == channel_length (channel_of a))) [
      | inl e ↦
          let size = (==_iff _ _).0 e in
          rw e (
            handed_full r on (omega (arith, count, size, width))
            ∙ ap some (
                own_row-write_all r l a ds g (on, count, short, channel, bit, (rest, filled)) size))
      | inr e ↦ ground arith
    ]

applied_rows : (o : Option (ℕ × Row)) (l : Link) → (applied o l).0.rows ≡ rows_with o l.rows
applied_rows none l = refl
applied_rows (some (c, row)) l = refl

-- What an address byte, or another, leaves of the frames.
step_address :
    (l : Link) (b : ℕ)
    → is_address b ≡ true
    → ((link_step l b).0.pending ≡ some (b, []))
      × ((link_step l b).0.rows ≡ rows_with (closed l.pending l.rows) l.rows)
unfolding link_step
step_address l b e = rw e (
  refl,
  ap (λ q. q.0.rows) (close_frame-applied l.pending l) ∙ applied_rows (closed l.pending l.rows) l,
)

step_other :
    (l : Link) (b : ℕ)
    → is_address b ≡ false
    → ((link_step l b).0.pending ≡ extend l.pending b) × ((link_step l b).0.rows ≡ l.rows)
unfolding link_step
step_other l b e = rw e (refl, refl)

shown_rows :
    (o : Option (ℕ × Row)) (b : ℕ) (rows : List Row) (bs : List ℕ)
    → elim o [
      | none ↦ decode (some (b, [])) rows bs
      | some (c, row) ↦ (c, row) ∷ decode (some (b, [])) (set rows c row) bs
    ]
      ≡ behind o (decode (some (b, [])) (rows_with o rows) bs)
shown_rows none b rows bs = refl
shown_rows (some (c, row)) b rows bs = refl

decode_address :
    (p : Pending) (rows : List Row) (b : ℕ) (bs : List ℕ)
    → is_address b ≡ true
    → decode p rows (b ∷ bs)
      ≡ behind (closed p rows) (decode (some (b, [])) (rows_with (closed p rows) rows) bs)
unfolding decode
decode_address p rows b bs e = rw e (shown_rows (closed p rows) b rows bs)

decode_other :
    (p : Pending) (rows : List Row) (b : ℕ) (bs : List ℕ)
    → is_address b ≡ false
    → decode p rows (b ∷ bs) ≡ decode (extend p b) rows bs
unfolding decode
decode_other p rows b bs e = rw e refl

-- From states that agree, the rows handed over are those that the frames decode.
pub read_rows-decode :
    (r : Receiver) (l : Link) (bs : List ℕ)
    → Agrees r l
    → read_rows r bs ≡ decode l.pending l.rows bs
unfolding read_rows
read_rows-decode r l [] g = unfold decode in refl
read_rows-decode r l (b ∷ bs) g =
    let agrees = (put_read_data-link_step r l b g).0 in
    let m = (link_step l b).0 in
    let later = read_rows-decode (put_read_data r b).0 m bs agrees in
    elim (Bool-cases (is_address b)) [
      | inl e ↦
          let (pending, rows) = step_address l b e in
          rw e (
            ap₂ behind (handed-closed l.pending r l g g.holds)
              (later ∙ ap₂ (λ p k. decode p k bs) pending rows)
            ∙ sym (decode_address l.pending l.rows b bs e))
      | inr e ↦
          let (pending, rows) = step_other l b e in
          rw e (
            later
            ∙ ap₂ (λ p k. decode p k bs) pending rows
            ∙ sym (decode_other l.pending l.rows b bs e))
    ]

-- From the start of the program the rows are those that the frames of the stream decode.
pub read_rows-from_start :
    (memory : Memory) (bs : List ℕ)
    → read_rows (init_read_data memory) bs ≡ decode none (replicate 32 (replicate 16 0x01)) bs
unfolding init_link
read_rows-from_start memory bs =
    read_rows-decode (init_read_data memory) (init_link memory) bs (init-Agrees memory)
