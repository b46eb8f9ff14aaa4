-- ===== src/Protocol/LaneFrame.antt =====
-- From the bytes of a lane's frame to its message.
use serial.Base.{
  All-get_or, ℕ, zero, suc, ◌+◌, ◌*◌, ◌≤◌, ◌<◌, ◌≡◌, refl, sym, ap, ◌∙◌, true, ◌&&◌, ◌||◌, List, [],
  ◌∷◌, ◌++◌, arith, length, get_or, All, ==_iff, ◌==◌, if◌then◌else◌,
}
use serial.Text.{Text}
use serial.Helper.{Row, digit, digits_text}
use serial.Lane.{Memory, short_data, place_text, lane_text, analyse_active_data}
use serial.Lane.Slot.{slot, slot_step}
use serial.Lane.Refine.{get_lane_time-slot_step}
use serial.Board.{Board, on_lane, analyse}
use serial.Board.Sound.{IsSound}
use serial.Protocol.{channel_length, is_address, init_read_data, put_read_data, read_all}
use serial.Protocol.Bits.{passes, passes_lem}
use serial.Protocol.Digits.{write_all}
use serial.Protocol.Sound.{
  IsRow, IsSafe, init_read_data-IsSafe, put_read_data-IsSafe, read_all-IsSafe,
}
use serial.Protocol.Coding.{
  address_byte, digit_bytes, address_byte_read, digit_byte_read, write_all-digit_bytes,
}
use serial.Protocol.Stream.{IsData}
use serial.Protocol.Frames.{read_all_frame}

-- A row with the values of eight digits at the even indices, and 0 between them.
abbrev pub spread : List ℕ → Row
spread [] = []
spread (v ∷ vs) = v ∷ 0 ∷ spread vs

get_or-spread : (i : ℕ) (vs : List ℕ) → get_or (spread vs) (i * 2) 0 ≡ get_or vs i 0
get_or-spread i [] = refl
get_or-spread zero (v ∷ vs) = refl
get_or-spread (suc i) (v ∷ vs) =
    let two : suc i * 2 ≡ suc (suc (i * 2)) = omega arith in
    ap (λ k. get_or (spread (v ∷ vs)) k 0) two ∙ get_or-spread i vs

-- Two rows that agree at some indices print alike there.
digits_text_same :
    (row other : Row) (is : List ℕ)
    → All (λ i. get_or row i 0 ≡ get_or other i 0) is
    → digits_text row is ≡ digits_text other is
unfolding digits_text digit
digits_text_same row other [] h = refl
digits_text_same row other (i ∷ is) h = rw (h.0, digits_text_same row other is h.1)

-- The texts of a lane's row read the even indices only.
lane_texts_same :
    (lane : ℕ) (row other : Row)
    → ((i : ℕ) → i < 8 → get_or row (i * 2) 0 ≡ get_or other (i * 2) 0)
    → (short_data row ≡ short_data other)
      × (place_text row ≡ place_text other)
      × (lane_text lane row ≡ lane_text lane other)
unfolding short_data place_text lane_text digit
lane_texts_same lane row other h =
    let e1 = h 1 (omega arith) in
    let e2 = h 2 (omega arith) in
    let e3 = h 3 (omega arith) in
    let e4 = h 4 (omega arith) in
    let e5 = h 5 (omega arith) in
    let e6 = h 6 (omega arith) in
    let e7 = h 7 (omega arith) in
    (
      digits_text_same row other _ (e2, (e3, (e4, (e5, (e6, (e7, tt)))))),
      rw e1,
      rw (
        digits_text_same row other (4 ∷ 6 ∷ []) (e2, (e3, tt)),
        digits_text_same row other (8 ∷ 10 ∷ []) (e4, (e5, tt)),
        digits_text_same row other (12 ∷ 14 ∷ []) (e6, (e7, tt)),
        e1,
      ),
    )

digit_bytes-IsData :
    (number : ℕ) (vs : List ℕ)
    → number + length vs ≤ 8
    → All (λ v. v ≤ 15) vs
    → All IsData (digit_bytes number vs)
digit_bytes-IsData number [] fits small = tt
digit_bytes-IsData number (v ∷ vs) fits small = (
  (digit_byte_read 0 number v (omega arith) small.0).0,
  digit_bytes-IsData (number + 1) vs (omega arith) small.1,
)

length-digit_bytes : (number : ℕ) (vs : List ℕ) → length (digit_bytes number vs) ≡ length vs
length-digit_bytes number [] = refl
length-digit_bytes number (v ∷ vs) = ap suc (length-digit_bytes (number + 1) vs)

lane_table : passes (λ c. c == 0 || channel_length c == 9) 11 ≡ true
unfolding passes channel_length
lane_table = refl

pub lane_channel_length : (c : ℕ) → 1 ≤ c → c ≤ 10 → channel_length c ≡ 9
lane_channel_length c first last =
    ground (arith, passes_lem (λ c. c == 0 || channel_length c == 9) 11 lane_table c)

analyse_lane : (b : Board) (c : ℕ) (row : Row) → 1 ≤ c → c ≤ 10 → analyse b c row ≡ on_lane b c row
unfolding analyse
analyse_lane b c row first last = ground arith

same_digit :
    (i : ℕ) (vs : List ℕ) (old : Row)
    → length old ≡ 16
    → length vs ≡ 8
    → All (λ v. v ≤ 15) vs
    → i < 8
    → get_or (write_all 0 old (digit_bytes 0 vs)) (i * 2) 0 ≡ get_or (spread vs) (i * 2) 0
same_digit i vs old sixteen eight small h =
    let place : (0 + i) * 2 + 0 ≡ i * 2 = omega arith in
    ap (λ k. get_or (write_all 0 old (digit_bytes 0 vs)) k 0) (sym place)
    ∙ write_all-digit_bytes 0 0 i old vs (omega arith) sixteen (omega arith) small (omega arith)
    ∙ sym (get_or-spread i vs)

-- What a lane's row with these digits makes of the board: its message, if the slot reports it and
-- the state is active.
abbrev pub lane_messages : Board → ℕ → Row → List Text
lane_messages b c row =
    if (slot_step (slot b.lanes c) (short_data row) (place_text row)).1 && b.time.send_active_state
    then lane_text c row ∷ []
    else []

on_lane_messages :
    (b : Board) (c : ℕ) (row other : Row)
    → IsSound b
    → 1 ≤ c
    → c ≤ 10
    → ((i : ℕ) → i < 8 → get_or row (i * 2) 0 ≡ get_or other (i * 2) 0)
    → (on_lane b c row).1 ≡ lane_messages b c other
unfolding on_lane analyse_active_data
on_lane_messages b c row other v first last h =
    let (time, place, text) = lane_texts_same c row other h in
    (get_lane_time-slot_step b.lanes v.lanes_valid b.time.send_active_state c first
      (omega (arith, v.ten_lanes)) row).1
    ∙ rw (time, place, text)

-- Behind any stream from the start of the program, the frame of one of the ten lanes with control
-- bit 0 and the nibbles of its eight digits sends, once the next address byte comes, the message
-- that these nibbles print, if the lane's slot reports them and the state is active; before that
-- the address byte sends what belongs to the frame before it.
pub read_all-lane_frame :
    (memory : Memory) (before vs : List ℕ) (c next : ℕ)
    → 1 ≤ c
    → c ≤ 10
    → length vs ≡ 8
    → All (λ v. v ≤ 15) vs
    → is_address next ≡ true
    → let r = (read_all (init_read_data memory) before).0 in
      let (s, sent) = put_read_data r (address_byte c 0) in
      (read_all r (address_byte c 0 ∷ (digit_bytes 0 vs ++ next ∷ []))).1
      ≡ sent ++ lane_messages s.board c (spread vs)
read_all-lane_frame memory before vs c next first last eight small hn =
    let r = (read_all (init_read_data memory) before).0 in
    let s = (put_read_data r (address_byte c 0)).0 in
    let safe : IsSafe s =
      put_read_data-IsSafe r (address_byte c 0)
        (read_all-IsSafe (init_read_data memory) before (init_read_data-IsSafe memory)) in
    let (address, channel, bit) = address_byte_read c 0 (omega arith) (omega arith) in
    let old = get_or s.colorado_data c [] in
    let sixteen : length old ≡ 16 =
      All-get_or IsRow s.colorado_data c [] (omega (arith, safe.rows_length)) safe.rows_ok in
    let row = write_all 0 old (digit_bytes 0 vs) in
    let full : (length (digit_bytes 0 vs) + 1 == channel_length c) ≡ true =
      (==_iff _ _).1 (omega (arith, length-digit_bytes 0 vs, lane_channel_length c first last)) in
    read_all_frame memory before (address_byte c 0) next (digit_bytes 0 vs) address
      (digit_bytes-IsData 0 vs (omega arith) small) hn
    ∙ ap (◌++◌ (put_read_data r (address_byte c 0)).1) (
        rw (channel, bit, full, analyse_lane s.board c row first last)
          (on_lane_messages s.board c row (spread vs) safe.board_sound first last
            (λ i h. same_digit i vs old sixteen eight small h)))
