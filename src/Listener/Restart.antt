-- ===== src/Listener/Restart.antt =====
-- The file descriptors of receiver/read.cpp over the attempts of `startListen`: `read` closes neither
-- port, and open(2) fails where a process has as many descriptors as it may have.
use serial.Base.{
  ℕ, ◌+◌, ◌≡◌, refl, ap, ◌∙◌, Bool, true, false, ◌&&◌, List, [], ◌∷◌, ◌++◌, append-nil, arith, ltb,
  leb, if◌then◌else◌, All, Bool-cases, inl, inr,
}
use serial.Mqtt.{Mosquitto}
use serial.Program.{feed}
use serial.SerialPort.Stream.{stream}
use serial.Listener.{Attempt, Listener, start_listen}
use serial.Listener.Stream.{port_bytes, all_bytes, start_listen-feed}

-- open(2) of a port that there is or is not, with `used` descriptors of `limit`: whether it succeeds,
-- and the descriptors then.
unfoldable pub open_if_there : ℕ → Bool → ℕ → Bool × ℕ
open_if_there limit there used = if there && ltb used limit then (true, used + 1) else (false, used)

-- The calls of open in `read`, with the descriptors that it leaves open: an attempt in which a port
-- is there or not becomes one in which it opens or not. The second is opened behind the first only.
unfoldable pub open_ports : ℕ → Bool → ℕ → Attempt → Attempt × ℕ
open_ports limit forward used a =
    let (opens, n) = open_if_there limit a.source_opens used in
    let (opens', n') = open_if_there limit a.destination_opens n in
    if opens && forward
    then (record a { source_opens = opens; destination_opens = opens' }, n')
    else (record a { source_opens = opens }, n)

-- The attempts one after the other: no descriptor is given back.
unfoldable pub open_each : ℕ → Bool → ℕ → List Attempt → List Attempt
open_each limit forward used [] = []
open_each limit forward used (a ∷ later) =
    let (opened, n) = open_ports limit forward used a in opened ∷ open_each limit forward n later

-- One of the ports is not there.
abbrev pub Incomplete : Attempt → Type 0
Incomplete a = (a.source_opens && a.destination_opens) ≡ false

-- How many attempts find the source.
unfoldable pub sources : List Attempt → ℕ
sources [] = 0
sources (a ∷ later) = (if a.source_opens then 1 else 0) + sources later

-- An attempt that does not find both reads nothing, and keeps a descriptor if it finds the source
-- and one is left.
Incomplete-lost :
    (limit used : ℕ) (a : Attempt)
    → Incomplete a
    → (port_bytes true (open_ports limit true used a).0 ≡ [])
      × ((open_ports limit true used a).1
          ≡ (if ltb used limit then used + (if a.source_opens then 1 else 0) else used))
unfolding open_ports open_if_there
Incomplete-lost limit used a missing = elim (Bool-cases a.source_opens) [
  | inl s ↦
      let d : a.destination_opens ≡ false = ground (arith, s, missing) in
      elim (Bool-cases (ltb used limit)) [
        | inl e ↦ rw (s, d, e) (refl, refl)
        | inr e ↦ rw (s, d, e) (refl, refl)
      ]
  | inr s ↦ elim (Bool-cases (ltb used limit)) [
    | inl e ↦ rw (s, e) (refl, omega arith)
    | inr e ↦ rw (s, e) (refl, refl)
  ]
]

-- One that finds both reads where two descriptors are left.
both_there :
    (limit used : ℕ) (a : Attempt)
    → a.source_opens ≡ true
    → a.destination_opens ≡ true
    → port_bytes true (open_ports limit true used a).0
      ≡ (if leb (used + 2) limit then stream a.polls else [])
unfolding open_ports open_if_there
both_there limit used a s d = elim (Bool-cases (ltb used limit)) [
  | inl e ↦ elim (Bool-cases (ltb (used + 1) limit)) [
    | inl f ↦
        let fits : leb (used + 2) limit ≡ true = ground (arith, e, f) in rw (s, d, e, f, fits) refl
    | inr f ↦
        let full : leb (used + 2) limit ≡ false = ground (arith, e, f) in rw (s, d, e, f, full) refl
  ]
  | inr e ↦ let full : leb (used + 2) limit ≡ false = ground (arith, e) in rw (s, d, e, full) refl
]

all_bytes-open_each :
    (limit used : ℕ) (missing : List Attempt) (a : Attempt)
    → All Incomplete missing
    → a.source_opens ≡ true
    → a.destination_opens ≡ true
    → all_bytes false true (open_each limit true used (missing ++ a ∷ []))
      ≡ (if leb (used + sources missing + 2) limit then stream a.polls else [])
unfolding open_each sources
all_bytes-open_each limit used [] a half s d =
    append-nil (port_bytes true (open_ports limit true used a).0)
    ∙ both_there limit used a s d
    ∙ ap (λ n. if leb (n + 2) limit then stream a.polls else []) (omega arith)
all_bytes-open_each limit used (m ∷ missing) a half s d =
    let (lost, left) = Incomplete-lost limit used m half.0 in
    let next = if ltb used limit then used + (if m.source_opens then 1 else 0) else used in
    let same : leb (next + sources missing + 2) limit
        ≡ leb (used + sources (m ∷ missing) + 2) limit =
      ground arith in
    ap
      (λ bs.
        bs
        ++ all_bytes false true
            (open_each limit true (open_ports limit true used m).1 (missing ++ a ∷ [])))
      lost
    ∙ ap (λ n. all_bytes false true (open_each limit true n (missing ++ a ∷ []))) left
    ∙ all_bytes-open_each limit next missing a half.1 s d
    ∙ ap (λ b. if b then stream a.polls else []) same

module _ (lib : Mosquitto) where
  -- `startListen` on a serial port, on Linux.
  unfoldable pub listen_within : ℕ → ℕ → Bool → Listener lib → List Attempt → Listener lib
  listen_within limit used forward l attempts =
      start_listen lib false forward false l (open_each limit forward used attempts)

  -- On Linux, with a second port: after attempts of which none finds both ports, one that finds
  -- both reads its bytes exactly if the descriptors in use at the start, one for each of those
  -- attempts that finds the first port, and two more are within the limit of the process; otherwise
  -- it reads nothing.
  pub listen_within_limit :
      (limit used : ℕ) (l : Listener lib) (missing : List Attempt) (a : Attempt)
      → All Incomplete missing
      → a.source_opens ≡ true
      → a.destination_opens ≡ true
      → (listen_within limit used true l (missing ++ a ∷ [])).program
        ≡ feed lib l.program (if leb (used + sources missing + 2) limit then stream a.polls else [])
  unfolding listen_within
  listen_within_limit limit used l missing a half s d =
      start_listen-feed lib false true false l (open_each limit true used (missing ++ a ∷ []))
      ∙ ap (feed lib l.program) (all_bytes-open_each limit used missing a half s d)
