-- ===== src/Device/Feed.antt =====
-- The bytes that a reader puts into the program, over any attempts.
use serial.Base.{◌≡◌, sym, ap, ◌∙◌, List, [], ◌∷◌, Bool-cases, inl, inr, append-nil}
use serial.Mqtt.{Mosquitto, deliver}
use serial.Protocol.{read_all}
use serial.Program.{feed}
use serial.Program.Feed.{feed-append, feed_nil, feed-read_all}
use serial.Device.{Device, loop, attempt, listen, loop_bytes, attempt_bytes, listen_bytes}

module _ {lib : Mosquitto} (d : Device lib) where
  loop_program :
      (s : d.State) (turns : List d.Turn)
      → d.program (loop d s turns) ≡ feed lib (d.program s) (loop_bytes d s turns)
  unfolding loop
  loop_program s [] = d.leave_program s ∙ sym (feed_nil lib (d.program s))
  loop_program s (turn ∷ turns) =
      let t = (d.round s turn).0 in
      elim (Bool-cases (d.round s turn).1) [
        | inl e ↦ rw e (
            loop_program t turns
            ∙ ap (λ p. feed lib p (loop_bytes d t turns)) (d.round_program s turn)
            ∙ sym (feed-append lib (d.program s) (d.bytes s turn) (loop_bytes d t turns)))
        | inr e ↦ rw e (
            d.round_program s turn
            ∙ ap (feed lib (d.program s)) (sym (append-nil (d.bytes s turn))))
      ]

  attempt_program :
      (s : d.State) (a : d.Opening × List d.Turn)
      → d.program (attempt d s a) ≡ feed lib (d.program s) (attempt_bytes d s a)
  unfolding attempt
  attempt_program s (opening, turns) =
      let t = (d.enter s opening).0 in
      elim (Bool-cases (d.enter s opening).1) [
        | inl e ↦ rw e (
            loop_program t turns
            ∙ ap (λ p. feed lib p (loop_bytes d t turns)) (d.enter_program s opening))
        | inr e ↦ rw e (d.enter_program s opening ∙ sym (feed_nil lib (d.program s)))
      ]

  listen_program :
      (s : d.State) (later : List (d.Opening × List d.Turn))
      → d.program (listen d s later) ≡ feed lib (d.program s) (listen_bytes d s later)
  unfolding listen
  listen_program s [] = sym (feed_nil lib (d.program s))
  listen_program s (a ∷ later) =
      let rest = listen_bytes d (attempt d s a) later in
      listen_program (attempt d s a) later
      ∙ ap (λ p. feed lib p rest) (attempt_program s a)
      ∙ sym (feed-append lib (d.program s) (attempt_bytes d s a) rest)

  -- Over any attempts a reader ends with the program that the stream of its bytes makes, and the
  -- broker gets the receiver's messages for that stream.
  pub listen-read_all :
      (s : d.State) (later : List (d.Opening × List d.Turn))
      → let bs = listen_bytes d s later in
        d.program (listen d s later) ≡ record {
          receiver = (read_all (d.program s).receiver bs).0;
          mqtt = deliver lib (d.program s).mqtt (read_all (d.program s).receiver bs).1;
        }
  listen-read_all s later =
      listen_program s later ∙ feed-read_all lib (d.program s) (listen_bytes d s later)
