-- ===== src/WinPort/Echo.antt =====
-- The bytes that the Windows receiver puts into the program: the last one of a burst twice.
use serial.Base.{ℕ, ◌≡◌, sym, ap, ◌∙◌, Bool, List, [], ◌∷◌, ◌++◌, append_assoc, arith}
use serial.Mqtt.{Mosquitto}
use serial.Program.{put_byte, feed}
use serial.Program.Feed.{feed-append, feed_nil}
use serial.WinPort.{
  Event, characters, other_event, wait_failed, WinSession, win_forward, win_put, win_burst,
  win_event, win_loop,
}

-- The characters of a burst, and the last character up to its end.
abbrev pub burst_bytes : List (ℕ × Bool) → List ℕ
burst_bytes [] = []
burst_bytes ((b, ok) ∷ rest) = b ∷ burst_bytes rest

abbrev pub last_byte : ℕ → List (ℕ × Bool) → ℕ
last_byte b [] = b
last_byte b ((c, ok) ∷ rest) = last_byte c rest

-- Each burst with its last character once more, or, if it has none, with the last one before.
abbrev pub echoed : ℕ → List Event → List ℕ
echoed b [] = []
echoed b (characters bytes last ∷ events) =
    burst_bytes bytes ++ last_byte b bytes ∷ echoed (last_byte b bytes) events
echoed b (other_event ∷ events) = echoed b events
echoed b (wait_failed ∷ events) = echoed b events

module _ (lib : Mosquitto) where
  put_program :
      (forward ok : Bool) (s : WinSession lib)
      → (win_put lib forward ok s).program ≡ put_byte lib s.program s.read_data
  unfolding win_put win_forward
  put_program forward ok s = ground arith

  put_read_data_kept :
      (forward ok : Bool) (s : WinSession lib) → (win_put lib forward ok s).read_data ≡ s.read_data
  unfolding win_put win_forward
  put_read_data_kept forward ok s = ground arith

  pub burst_program :
      (forward : Bool) (s : WinSession lib) (bytes : List (ℕ × Bool)) (last : Bool)
      → ((win_burst lib forward s bytes last).program
          ≡ feed lib s.program (burst_bytes bytes ++ last_byte s.read_data bytes ∷ []))
        × ((win_burst lib forward s bytes last).read_data ≡ last_byte s.read_data bytes)
  unfolding win_burst feed
  burst_program forward s [] last = (put_program forward last s, put_read_data_kept forward last s)
  burst_program forward s ((b, ok) ∷ rest) last =
      let t = win_put lib forward ok (record s { read_data = b }) in
      let (later, kept) = burst_program forward t rest last in
      let program = put_program forward ok (record s { read_data = b }) in
      let same = put_read_data_kept forward ok (record s { read_data = b }) in
      (
        later
            ∙ ap (λ p. feed lib p (burst_bytes rest ++ last_byte t.read_data rest ∷ [])) program
            ∙ ap
                (λ c.
                  feed lib (put_byte lib s.program b) (burst_bytes rest ++ last_byte c rest ∷ []))
                same,
        kept ∙ ap (λ c. last_byte c rest) same,
      )

  -- The Windows receiver puts into the program the bytes of each burst with the last of them once
  -- more, and for a burst with none the last byte before it; what the writes to the second port do
  -- has no part in this.
  pub win_loop-feed :
      (forward : Bool) (s : WinSession lib) (events : List Event)
      → (win_loop lib forward s events).program ≡ feed lib s.program (echoed s.read_data events)
  unfolding win_loop win_event
  win_loop-feed forward s [] = sym (feed_nil lib s.program)
  win_loop-feed forward s (characters bytes last ∷ events) =
      let t = win_burst lib forward s bytes last in
      let (program, kept) = burst_program forward s bytes last in
      let c = last_byte s.read_data bytes in
      win_loop-feed forward t events
      ∙ ap (λ p. feed lib p (echoed t.read_data events)) program
      ∙ sym (feed-append lib s.program (burst_bytes bytes ++ c ∷ []) (echoed t.read_data events))
      ∙ ap (λ d. feed lib s.program ((burst_bytes bytes ++ c ∷ []) ++ echoed d events)) kept
      ∙ ap (feed lib s.program) (append_assoc (burst_bytes bytes) (c ∷ []) (echoed c events))
  win_loop-feed forward s (other_event ∷ events) = win_loop-feed forward s events
  win_loop-feed forward s (wait_failed ∷ events) = win_loop-feed forward s events
