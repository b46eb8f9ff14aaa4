-- ===== src/WinPort/Torn.antt =====
-- A frame that comes in two bursts.
use serial.Base.{
  ℕ, ◌+◌, ◌≡◌, refl, sym, ap, ◌∙◌, Bool, true, false, List, [], ◌∷◌, ◌++◌, append-nil, append_assoc,
  length, length-append, All, All-append, ◌==◌, arith,
}
use serial.Lane.{Memory}
use serial.Protocol.{
  Receiver, is_address, channel_of, channel_length, init_read_data, put_read_data, read_all,
}
use serial.Protocol.Stream.{IsData}
use serial.Protocol.Frames.{read_all_frame}
use serial.Protocol.Runs.{read_all-append, read_all-append_messages, read_all_address_twice}
use serial.Mqtt.{Mosquitto, deliver}
use serial.Program.Feed.{feed-read_all}
use serial.WinPort.{Event, characters, WinSession, win_loop}
use serial.WinPort.Echo.{echoed, burst_bytes, last_byte, win_loop-feed}

-- Bytes of which every WriteFile succeeds.
abbrev pub sent_on : List ℕ → List (ℕ × Bool)
sent_on [] = []
sent_on (b ∷ bs) = (b, true) ∷ sent_on bs

-- The frame (a, front d back) and the address byte behind it, in two bursts that meet after d.
abbrev pub torn : ℕ → List ℕ → ℕ → List ℕ → ℕ → List Event
torn a front d back next =
    characters (sent_on (a ∷ (front ++ d ∷ []))) true
    ∷ characters (sent_on (back ++ next ∷ [])) true
    ∷ []

burst_bytes-sent_on : (bs : List ℕ) → burst_bytes (sent_on bs) ≡ bs
burst_bytes-sent_on [] = refl
burst_bytes-sent_on (b ∷ bs) = ap (λ k. b ∷ k) (burst_bytes-sent_on bs)

last_byte-sent_on : (b : ℕ) (bs : List ℕ) (d : ℕ) → last_byte b (sent_on (bs ++ d ∷ [])) ≡ d
last_byte-sent_on b [] d = refl
last_byte-sent_on b (c ∷ bs) d = last_byte-sent_on c bs d

echoed-torn :
    (b a : ℕ) (front : List ℕ) (d : ℕ) (back : List ℕ) (next : ℕ)
    → echoed b (torn a front d back next) ≡ (a ∷ (front ++ d ∷ d ∷ back)) ++ next ∷ next ∷ []
echoed-torn b a front d back next =
    rw
      (
        burst_bytes-sent_on (front ++ d ∷ []),
        burst_bytes-sent_on (back ++ next ∷ []),
        last_byte-sent_on a front d,
        last_byte-sent_on d back next,
      )
      (simp append_assoc)

-- One byte more than the channel's length.
too_long :
    (front : List ℕ) (d : ℕ) (back : List ℕ) (m : ℕ)
    → length (front ++ d ∷ back) + 1 ≡ m
    → (length (front ++ d ∷ d ∷ back) + 1 == m) ≡ false
too_long front d back m complete =
    ground (arith, length-append front (d ∷ back), length-append front (d ∷ d ∷ back))

-- What the receiver sends for these bytes.
read_all-torn :
    (memory : Memory) (before : List ℕ) (b a : ℕ) (front : List ℕ) (d : ℕ) (back : List ℕ)
    (next : ℕ)
    → is_address a ≡ true
    → All IsData front
    → IsData d
    → All IsData back
    → is_address next ≡ true
    → length (front ++ d ∷ back) + 1 ≡ channel_length (channel_of a)
    → let r = (read_all (init_read_data memory) before).0 in
      (read_all r (echoed b (torn a front d back next))).1 ≡ (put_read_data r a).1
read_all-torn memory before b a front d back next ha hf hd hb hn complete =
    let r = (read_all (init_read_data memory) before).0 in
    let ds = front ++ d ∷ d ∷ back in
    let frame = a ∷ ds in
    let two = next ∷ next ∷ [] in
    let again = λ (t : Receiver). (read_all r frame).1 ++ (read_all t two).1 in
    let once = λ (t : Receiver). (read_all r frame).1 ++ (read_all t (next ∷ [])).1 in
    let along = read_all-append (init_read_data memory) before frame in
    ap (λ k. (read_all r k).1) (echoed-torn b a front d back next)
    ∙ read_all-append_messages r frame two
    ∙ ap again (sym along)
    ∙ ap (◌++◌ (read_all r frame).1) (read_all_address_twice memory (before ++ frame) next hn)
    ∙ ap once along
    ∙ sym (read_all-append_messages r frame (next ∷ []))
    ∙ read_all_frame memory before a next ds ha
        (All-append IsData front (d ∷ d ∷ back) hf (hd, (hd, hb))) hn
    ∙ ap (◌++◌ (put_read_data r a).1)
        (rw (too_long front d back (channel_length (channel_of a)) complete))
    ∙ append-nil (put_read_data r a).1

module _ (lib : Mosquitto) where
  -- From a receiver that has read any stream since the start of the program, a frame of its
  -- channel's length that reaches the Windows receiver in two bursts, torn between two of its data
  -- bytes, is lost: with the next address byte behind it the broker gets only what the frame's
  -- address byte sends for the frame before.
  pub torn_frame_lost :
      (memory : Memory) (before : List ℕ) (forward : Bool) (s : WinSession lib)
      → (a : ℕ) (front : List ℕ) (d : ℕ) (back : List ℕ) (next : ℕ)
      → s.program.receiver ≡ (read_all (init_read_data memory) before).0
      → is_address a ≡ true
      → All IsData front
      → IsData d
      → All IsData back
      → is_address next ≡ true
      → length (front ++ d ∷ back) + 1 ≡ channel_length (channel_of a)
      → (win_loop lib forward s (torn a front d back next)).program.mqtt
        ≡ deliver lib s.program.mqtt (put_read_data s.program.receiver a).1
  torn_frame_lost memory before forward s a front d back next hs ha hf hd hb hn complete =
      let events = torn a front d back next in
      let bytes = echoed s.read_data events in
      ap (λ p. p.mqtt) (win_loop-feed lib forward s events)
      ∙ ap (λ p. p.mqtt) (feed-read_all lib s.program bytes)
      ∙ ap (λ r. deliver lib s.program.mqtt (read_all r bytes).1) hs
      ∙ ap (deliver lib s.program.mqtt)
          (read_all-torn memory before s.read_data a front d back next ha hf hd hb hn complete)
      ∙ ap (λ r. deliver lib s.program.mqtt (put_read_data r a).1) (sym hs)
