-- ===== src/Ftdi/Stream.antt =====
-- What the loop over an FTDI device makes of the turns that succeed.
use serial.Base.{
  ℕ, ◌≡◌, refl, sym, ap, ◌∙◌, Bool, true, false, not, ◌&&◌, ◌||◌, List, [], ◌∷◌, ◌++◌, append-nil,
  append_assoc, ◌==◌, if◌then◌else◌, length, take, drop, arith, Bool-cases, inl, inr,
}
use serial.Mqtt.{Mosquitto}
use serial.Program.{feed}
use serial.Program.Feed.{feed-append, feed_nil}
use serial.Ftdi.{Turn, dump_to_file, Session, take_in, pass_on, dump_buffer, ftdi_round, ftdi_loop}

-- A turn of which each call made returns FT_OK.
abbrev pub succeeds : Bool → Turn → Bool
succeeds sendmode turn = turn.read_status == 0 && (not sendmode || turn.write_status == 0)

abbrev pub all_succeed : Bool → List Turn → Bool
all_succeed sendmode [] = true
all_succeed sendmode (turn ∷ turns) = succeeds sendmode turn && all_succeed sendmode turns

-- The bytes of the turns before the first that fails.
abbrev pub received : Bool → List Turn → List ℕ
received sendmode [] = []
received sendmode (turn ∷ turns) =
    if succeeds sendmode turn then turn.bytes ++ received sendmode turns else []

abbrev pub read_bytes : Turn → List ℕ
read_bytes turn = if turn.read_status == 0 then turn.bytes else []

-- The bytes of the reads that succeed, of which the last may fail to be passed on.
abbrev pub logged : Bool → List Turn → List ℕ
logged sendmode [] = []
logged sendmode (turn ∷ turns) =
    read_bytes turn ++ (if succeeds sendmode turn then logged sendmode turns else [])

pub take-fill : (bytes buffer : List ℕ) → take (length bytes) (bytes ++ buffer) ≡ bytes
take-fill [] buffer = refl
take-fill (b ∷ bytes) buffer = ap (λ k. b ∷ k) (take-fill bytes buffer)

dump_to_file-append :
    (xs ys : List ℕ) → dump_to_file (xs ++ ys) ≡ dump_to_file xs ++ dump_to_file ys
unfolding dump_to_file
dump_to_file-append [] ys = refl
dump_to_file-append (x ∷ xs) ys = rw (dump_to_file-append xs ys)

module _ (lib : Mosquitto) where
  round_goes_on :
      (outputdata sendmode : Bool) (s : Session lib) (turn : Turn)
      → (ftdi_round lib outputdata sendmode s turn).1 ≡ succeeds sendmode turn
  unfolding ftdi_round
  round_goes_on outputdata sendmode s turn = ground arith

  pub round_program :
      (outputdata sendmode : Bool) (s : Session lib) (turn : Turn)
      → (ftdi_round lib outputdata sendmode s turn).0.program
        ≡ (if succeeds sendmode turn then feed lib s.program turn.bytes else s.program)
  unfolding ftdi_round take_in pass_on dump_buffer
  round_program outputdata sendmode s turn =
      ground (arith, take-fill turn.bytes (drop (length turn.bytes) s.buffer))

  round_rawdata :
      (sendmode : Bool) (s : Session lib) (turn : Turn)
      → (ftdi_round lib true sendmode s turn).0.rawdata
        ≡ s.rawdata ++ dump_to_file (read_bytes turn)
  unfolding ftdi_round take_in pass_on dump_buffer dump_to_file
  round_rawdata sendmode s turn =
      ground (arith, take-fill turn.bytes (drop (length turn.bytes) s.buffer), append-nil s.rawdata)

  loop_goes_on :
      (outputdata sendmode : Bool) (s : Session lib) (turn : Turn) (turns : List Turn)
      → succeeds sendmode turn ≡ true
      → ftdi_loop lib outputdata sendmode s (turn ∷ turns)
        ≡ ftdi_loop lib outputdata sendmode (ftdi_round lib outputdata sendmode s turn).0 turns
  unfolding ftdi_loop
  loop_goes_on outputdata sendmode s turn turns e =
      rw (round_goes_on outputdata sendmode s turn ∙ e)

  loop_stops :
      (outputdata sendmode : Bool) (s : Session lib) (turn : Turn) (turns : List Turn)
      → succeeds sendmode turn ≡ false
      → ftdi_loop lib outputdata sendmode s (turn ∷ turns)
        ≡ ((ftdi_round lib outputdata sendmode s turn).0, false)
  unfolding ftdi_loop
  loop_stops outputdata sendmode s turn turns e = rw (round_goes_on outputdata sendmode s turn ∙ e)

  -- The loop over an FTDI device puts into the program exactly the bytes of the turns before the
  -- first that fails, and it goes on to its end exactly if none fails.
  pub ftdi_loop-feed :
      (outputdata sendmode : Bool) (s : Session lib) (turns : List Turn)
      → ((ftdi_loop lib outputdata sendmode s turns).0.program
          ≡ feed lib s.program (received sendmode turns))
        × ((ftdi_loop lib outputdata sendmode s turns).1 ≡ all_succeed sendmode turns)
  ftdi_loop-feed outputdata sendmode s [] = unfold ftdi_loop in (unfold feed in refl, refl)
  ftdi_loop-feed outputdata sendmode s (turn ∷ turns) =
      let t = (ftdi_round lib outputdata sendmode s turn).0 in
      let program = round_program outputdata sendmode s turn in
      elim (Bool-cases (succeeds sendmode turn)) [
        | inl e ↦
            let (later, finished) = ftdi_loop-feed outputdata sendmode t turns in
            let goes_on = loop_goes_on outputdata sendmode s turn turns e in
            let here : t.program ≡ feed lib s.program turn.bytes =
              program ∙ ap (λ b. if b then feed lib s.program turn.bytes else s.program) e in
            (
              ap (λ r. r.0.program) goes_on
                  ∙ later
                  ∙ ap (λ p. feed lib p (received sendmode turns)) here
                  ∙ sym (feed-append lib s.program turn.bytes (received sendmode turns))
                  ∙ ap
                      (λ b.
                        feed lib s.program
                          (if b then turn.bytes ++ received sendmode turns else []))
                      (sym e),
              ap (λ r. r.1) goes_on ∙ finished ∙ ap (λ b. b && all_succeed sendmode turns) (sym e),
            )
        | inr e ↦
            let stops = loop_stops outputdata sendmode s turn turns e in
            (
              ap (λ r. r.0.program) stops
                  ∙ program
                  ∙ ap (λ b. if b then feed lib s.program turn.bytes else s.program) e
                  ∙ sym (feed_nil lib s.program)
                  ∙ ap
                      (λ b.
                        feed lib s.program
                          (if b then turn.bytes ++ received sendmode turns else []))
                      (sym e),
              ap (λ r. r.1) stops ∙ ap (λ b. b && all_succeed sendmode turns) (sym e),
            )
      ]

  -- With the log, the digits of the bytes read are printed behind what was printed before.
  pub ftdi_loop-dump_to_file :
      (sendmode : Bool) (s : Session lib) (turns : List Turn)
      → (ftdi_loop lib true sendmode s turns).0.rawdata
        ≡ s.rawdata ++ dump_to_file (logged sendmode turns)
  ftdi_loop-dump_to_file sendmode s [] = unfold ftdi_loop dump_to_file in sym (append-nil s.rawdata)
  ftdi_loop-dump_to_file sendmode s (turn ∷ turns) =
      let t = (ftdi_round lib true sendmode s turn).0 in
      let front = read_bytes turn in
      let next = λ (b : Bool).
        s.rawdata ++ dump_to_file (front ++ (if b then logged sendmode turns else [])) in
      let here = round_rawdata sendmode s turn in
      elim (Bool-cases (succeeds sendmode turn)) [
        | inl e ↦
            ap (λ r. r.0.rawdata) (loop_goes_on true sendmode s turn turns e)
            ∙ ftdi_loop-dump_to_file sendmode t turns
            ∙ ap (λ k. k ++ dump_to_file (logged sendmode turns)) here
            ∙ append_assoc s.rawdata (dump_to_file front) (dump_to_file (logged sendmode turns))
            ∙ ap (λ k. s.rawdata ++ k) (sym (dump_to_file-append front (logged sendmode turns)))
            ∙ ap next (sym e)
        | inr e ↦
            ap (λ r. r.0.rawdata) (loop_stops true sendmode s turn turns e)
            ∙ here
            ∙ ap (λ k. s.rawdata ++ dump_to_file k) (sym (append-nil front))
            ∙ ap next (sym e)
      ]
