-- ===== src/WinPort/Report.antt =====
-- How often a failed write to the second port is printed.
use serial.Base.{ℕ, ◌+◌, ◌*◌, ◌/◌, ◌≤◌, ◌≡◌, Bool, true, false, List, [], ◌∷◌, if◌then◌else◌, arith}
use serial.Mqtt.{Mosquitto}
use serial.WinPort.{
  Event, characters, other_event, wait_failed, WinSession, win_forward, win_put, win_burst,
  win_event, win_loop,
}

abbrev pub failure : Bool → ℕ
failure ok = if ok then 0 else 1

-- The writes of a burst that fail, that of its end included, and those of all events.
abbrev pub burst_failures : List (ℕ × Bool) → Bool → ℕ
burst_failures [] last = failure last
burst_failures ((b, ok) ∷ rest) last = failure ok + burst_failures rest last

abbrev pub failures : List Event → ℕ
failures [] = 0
failures (characters bytes last ∷ events) = burst_failures bytes last + failures events
failures (other_event ∷ events) = failures events
failures (wait_failed ∷ events) = failures events

module _ (lib : Mosquitto) where
  -- The counter is within its bound, and the failures so far are counted by it and by the prints.
  abbrev pub Counts : WinSession lib → WinSession lib → ℕ → Type 0
  Counts s t n =
      (t.error_counter ≤ 1000)
      × (t.printed * 1001 + t.error_counter ≡ s.printed * 1001 + s.error_counter + n)

  put-Counts :
      (ok : Bool) (s : WinSession lib)
      → s.error_counter ≤ 1000
      → Counts s (win_put lib true ok s) (failure ok)
  unfolding win_put win_forward
  put-Counts true s bound = omega arith
  put-Counts false s bound = ground arith

  burst-Counts :
      (s : WinSession lib) (bytes : List (ℕ × Bool)) (last : Bool)
      → s.error_counter ≤ 1000
      → Counts s (win_burst lib true s bytes last) (burst_failures bytes last)
  unfolding win_burst
  burst-Counts s [] last bound = put-Counts last s bound
  burst-Counts s ((b, ok) ∷ rest) last bound =
      let here = put-Counts ok (record s { read_data = b }) bound in
      omega (
        arith,
        here,
        burst-Counts (win_put lib true ok (record s { read_data = b })) rest last here.0,
      )

  loop-Counts :
      (s : WinSession lib) (events : List Event)
      → s.error_counter ≤ 1000
      → Counts s (win_loop lib true s events) (failures events)
  unfolding win_loop win_event
  loop-Counts s [] bound = omega arith
  loop-Counts s (characters bytes last ∷ events) bound =
      let here = burst-Counts s bytes last bound in
      omega (arith, here, loop-Counts (win_burst lib true s bytes last) events here.0)
  loop-Counts s (other_event ∷ events) bound = loop-Counts s events bound
  loop-Counts s (wait_failed ∷ events) bound = loop-Counts s events bound

  -- With a counter that begins at 1000 and forwarding, n failed writes to the second port are
  -- printed (n + 1000) / 1001 times, rounded down: the first one, and then every 1001st.
  win_loop_printed :
      (s : WinSession lib) (events : List Event)
      → s.error_counter ≡ 1000
      → s.printed ≡ 0
      → (win_loop lib true s events).printed ≡ (failures events + 1000) / 1001
  win_loop_printed s events full fresh = omega (arith, loop-Counts s events (omega arith))
