-- ===== src/Protocol/Stream.antt =====
-- How the frames of a stream are collected: short ones, complete ones and those that are too long.
use serial.Base.{
  ltb→lt, ℕ, ◌+◌, ◌≤◌, ◌<◌, ◌≡◌, ◌≢◌, refl, sym, ap, ◌∙◌, true, false, none, some, List, [], ◌∷◌,
  ◌++◌, append-nil, append_assoc, arith, length, length-append, get_or, All, ◌==◌, ltb,
  if◌then◌else◌, Bool-cases, inl, inr,
}
use serial.Text.{Text}
use serial.Helper.{Row}
use serial.Board.{Board, analyse}
use serial.Protocol.{channel_length, is_address, channel_of, control_bit_of}
use serial.Protocol.Bits.{channel_of_lt}
use serial.Protocol.Sound.{channel_length_le}
use serial.Protocol.Digits.{write_all}
use serial.Protocol.Link.{Link, accept, close_frame, extend, link_step, link_run}

abbrev pub IsData : ℕ → Type 0
IsData b = is_address b ≡ false

link_step_data :
    (l : Link) (b : ℕ) → IsData b → link_step l b ≡ (record l { pending = extend l.pending b }, [])
unfolding link_step
link_step_data l b h = rw h

link_step_address :
    (l : Link) (b : ℕ)
    → is_address b ≡ true
    → link_step l b
      ≡ (record (close_frame l.pending l).0 { pending = some (b, []) }, (close_frame l.pending l).1)
unfolding link_step
link_step_address l b h = rw h

extend_short :
    (a : ℕ) (before : List ℕ) (b : ℕ)
    → length before ≤ 7
    → extend (some (a, before)) b ≡ some (a, before ++ b ∷ [])
unfolding extend
extend_short a before b h = ground arith

extend_full :
    (a : ℕ) (before : List ℕ) (b : ℕ)
    → ltb 7 (length before) ≡ true
    → extend (some (a, before)) b ≡ none
unfolding extend
extend_full a before b h = rw h

extend-none : (b : ℕ) → extend none b ≡ none
unfolding extend
extend-none b = refl

-- The bytes of a frame are collected in order.
link_run_data :
    (ds before : List ℕ) (a : ℕ) (l : Link)
    → All IsData ds
    → length before + length ds ≤ 8
    → link_run (record l { pending = some (a, before) }) ds
      ≡ (record l { pending = some (a, before ++ ds) }, [])
unfolding link_run
link_run_data [] before a l h short = rw append-nil
link_run_data (b ∷ ds) before a l h short =
    let longer = length-append before (b ∷ []) in
    rw (
      link_step_data (record l { pending = some (a, before) }) b h.0,
      extend_short a before b (omega arith),
      link_run_data ds (before ++ b ∷ []) a l h.1 (omega (arith, longer)),
      append_assoc before (b ∷ []) ds,
    )

link_run_idle :
    (ds : List ℕ) (l : Link)
    → All IsData ds
    → link_run (record l { pending = none }) ds ≡ (record l { pending = none }, [])
unfolding link_run
link_run_idle [] l h = refl
link_run_idle (b ∷ ds) l h =
    rw (link_step_data (record l { pending = none }) b h.0, extend-none b, link_run_idle ds l h.1)

-- More than eight bytes are given up.
link_run_long :
    (ds before : List ℕ) (a : ℕ) (l : Link)
    → All IsData ds
    → length before ≤ 8
    → 8 < length before + length ds
    → link_run (record l { pending = some (a, before) }) ds ≡ (record l { pending = none }, [])
unfolding link_run
link_run_long [] before a l h room long = absurd (omega arith)
link_run_long (b ∷ ds) before a l h room long = elim (Bool-cases (ltb 7 (length before))) [
  | inl full ↦ rw (
    link_step_data (record l { pending = some (a, before) }) b h.0,
    extend_full a before b full,
    link_run_idle ds l h.1,
  )
  | inr open_frame ↦
      let fits : length before ≤ 7 = ground arith in
      let longer = length-append before (b ∷ []) in
      rw (
        link_step_data (record l { pending = some (a, before) }) b h.0,
        extend_short a before b fits,
        link_run_long ds (before ++ b ∷ []) a l h.1 (omega (arith, longer)) (omega (arith, longer)),
      )
]

-- What a frame (a, ds) sends in a given state of the rows and the analysers.
abbrev pub frame_messages : List Row → Board → ℕ → List ℕ → List Text
frame_messages rows board a ds =
    if length ds + 1 == channel_length (channel_of a)
    then (analyse board (channel_of a)
        (write_all (control_bit_of a) (get_or rows (channel_of a) []) ds)).1
    else []

accept_messages :
    (l : Link) (a : ℕ) (ds : List ℕ) → (accept l a ds).1 ≡ frame_messages l.rows l.board a ds
unfolding accept
accept_messages l a ds = ground arith

link_run-append :
    (xs ys : List ℕ) (l : Link)
    → (link_run l (xs ++ ys)).1 ≡ (link_run l xs).1 ++ (link_run (link_run l xs).0 ys).1
unfolding link_run
link_run-append [] ys l = refl
link_run-append (x ∷ xs) ys l =
    ap (◌++◌ (link_step l x).1) (link_run-append xs ys (link_step l x).0)
    ∙ sym (append_assoc (link_step l x).1 (link_run (link_step l x).0 xs).1 _)

not_equal : (m n : ℕ) → m ≢ n → (m == n) ≡ false
not_equal m n h = ground arith

-- A frame of more than nine bytes has no channel's length.
frame_messages_long :
    (rows : List Row) (board : Board) (a : ℕ) (ds : List ℕ)
    → 8 < length ds
    → frame_messages rows board a ds ≡ []
frame_messages_long rows board a ds long =
    let short = channel_length_le (channel_of a) (channel_of_lt a) in
    rw (not_equal (length ds + 1) (channel_length (channel_of a)) (λ e. omega arith))

pub link_run_frame :
    (l : Link) (a next : ℕ) (ds : List ℕ)
    → is_address a ≡ true
    → All IsData ds
    → is_address next ≡ true
    → let m = (link_step l a).0 in
      (link_run l (a ∷ (ds ++ next ∷ []))).1
      ≡ (link_step l a).1 ++ frame_messages m.rows m.board a ds
unfolding link_run
link_run_frame l a next ds ha hd hn =
    let m = (link_step l a).0 in
    let fresh : m ≡ record m { pending = some (a, []) } = rw (link_step_address l a ha) in
    let run : (link_run m (ds ++ next ∷ [])).1 ≡ frame_messages m.rows m.board a ds =
      elim (Bool-cases (ltb 8 (length ds))) [
        | inl long ↦
            link_run-append ds (next ∷ []) m
            ∙ rw
                (
                  ap (λ k. link_run k ds) fresh
                      ∙ link_run_long ds [] a m hd (omega arith)
                          (omega (arith, ltb→lt 8 (length ds) long)),
                  link_step_address (record m { pending = none }) next hn,
                  frame_messages_long m.rows m.board a ds (ltb→lt 8 (length ds) long),
                )
                (unfold close_frame in refl)
        | inr short ↦
            link_run-append ds (next ∷ []) m
            ∙ rw
                (
                  ap (λ k. link_run k ds) fresh ∙ link_run_data ds [] a m hd (ground arith),
                  link_step_address (record m { pending = some (a, ds) }) next hn,
                  append-nil,
                )
                (unfold close_frame in accept_messages (record m { pending = some (a, ds) }) a ds)
      ] in
    ap (◌++◌ (link_step l a).1) run
