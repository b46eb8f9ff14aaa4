-- ===== src/Ftdi/Log.antt =====
-- The bytes in what is printed to rawdata.txt.
use serial.Base.{
  ℕ, ◌<◌, ◌≡◌, ap, ◌∙◌, Bool, true, false, List, [], ◌∷◌, ◌++◌, All, All-append, ◌==◌,
  if◌then◌else◌,
}
use serial.Mqtt.{Mosquitto}
use serial.Ftdi.{Turn, Session, ftdi_loop, dump_to_file}
use serial.Ftdi.Hex.{read_hex, read_hex-dump_to_file}
use serial.Ftdi.Stream.{logged, read_bytes, succeeds, ftdi_loop-dump_to_file}

abbrev pub IsBytes : List ℕ → Type 0
IsBytes bytes = All (λ b. b < 256) bytes

if_IsBytes : (b : Bool) (bytes : List ℕ) → IsBytes bytes → IsBytes (if b then bytes else [])
if_IsBytes true bytes h = h
if_IsBytes false bytes h = tt

logged_bytes :
    (sendmode : Bool) (turns : List Turn)
    → All (λ turn. IsBytes turn.bytes) turns
    → IsBytes (logged sendmode turns)
logged_bytes sendmode [] h = tt
logged_bytes sendmode (turn ∷ turns) h =
    All-append (λ b. b < 256) (read_bytes turn) _
      (if_IsBytes (turn.read_status == 0) turn.bytes h.0)
      (if_IsBytes (succeeds sendmode turn) (logged sendmode turns)
        (logged_bytes sendmode turns h.1))

module _ (lib : Mosquitto) where
  -- With the log and nothing printed before, what the loop prints to rawdata.txt, read back by
  -- pairs of hexadecimal digits, gives the bytes of the reads that succeed, up to the first turn
  -- that fails, as long as these are bytes.
  pub read_hex-ftdi_loop :
      (sendmode : Bool) (s : Session lib) (turns : List Turn)
      → s.rawdata ≡ []
      → All (λ turn. IsBytes turn.bytes) turns
      → read_hex (ftdi_loop lib true sendmode s turns).0.rawdata ≡ logged sendmode turns
  read_hex-ftdi_loop sendmode s turns fresh bytes =
      ap read_hex (
        ftdi_loop-dump_to_file lib sendmode s turns
        ∙ ap (λ k. k ++ dump_to_file (logged sendmode turns)) fresh)
      ∙ read_hex-dump_to_file (logged sendmode turns) (logged_bytes sendmode turns bytes)
