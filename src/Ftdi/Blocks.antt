-- ===== src/Ftdi/Blocks.antt =====
-- The blocks that the loop writes to the second device.
use serial.Base.{
  ℕ, zero, suc, ◌-◌, ◌≤◌, ◌≡◌, refl, ap, ◌∙◌, Bool, List, [], ◌∷◌, ◌==◌, length, All-append,
  length-append, take, drop, All, arith, Bool-cases, inl, inr,
}
use serial.Mqtt.{Mosquitto}
use serial.Ftdi.{
  Turn, fill, buf_size, Session, take_in, pass_on, dump_buffer, ftdi_round, ftdi_loop,
}

length-drop : (n : ℕ) (xs : List ℕ) → length (drop n xs) ≡ length xs - n
length-drop zero xs = omega arith
length-drop (suc n) [] = omega arith
length-drop (suc n) (x ∷ xs) = omega (arith, length-drop n xs)

length-take : (n : ℕ) (xs : List ℕ) → n ≤ length xs → length (take n xs) ≡ n
length-take zero xs h = refl
length-take (suc n) [] h = absurd (omega arith)
length-take (suc n) (x ∷ xs) h = ap suc (length-take n xs (omega arith))

length-fill :
    (buffer bytes : List ℕ)
    → length bytes ≤ length buffer
    → length (fill buffer bytes) ≡ length buffer
length-fill buffer bytes h =
    omega
      (arith, length-append bytes (drop (length bytes) buffer), length-drop (length bytes) buffer)

-- Blocks of BUF_SIZE bytes.
abbrev pub IsFull : List ℕ → Type 0
IsFull block = length block ≡ 16

module _ (lib : Mosquitto) where
  -- The buffer has its size, and every block written is full.
  pub record IsBlocked (s : Session lib) : Type 0 where
    pub sixteen : length s.buffer ≡ 16
    pub full : All IsFull s.blocks

  take_in-IsBlocked :
      (outputdata : Bool) (s : Session lib) (turn : Turn)
      → length turn.bytes ≤ 16
      → IsBlocked s
      → IsBlocked (take_in lib outputdata s turn)
  unfolding take_in
  take_in-IsBlocked outputdata s turn small v = record {
    sixteen = length-fill s.buffer turn.bytes (omega (arith, v.sixteen)) ∙ v.sixteen;
    full = v.full;
  }

  pass_on-IsBlocked : (s : Session lib) → IsBlocked s → IsBlocked (pass_on lib s)
  unfolding pass_on
  pass_on-IsBlocked s v = record {
    sixteen = v.sixteen;
    full =
        All-append IsFull s.blocks (take buf_size s.buffer ∷ []) v.full
          (length-take 16 s.buffer (omega (arith, v.sixteen)), tt);
  }

  dump_buffer-IsBlocked :
      (s : Session lib) (elements : ℕ) → IsBlocked s → IsBlocked (dump_buffer lib s elements)
  unfolding dump_buffer
  dump_buffer-IsBlocked s elements v = record { sixteen = v.sixteen; full = v.full }

  round-IsBlocked :
      (outputdata sendmode : Bool) (s : Session lib) (turn : Turn)
      → length turn.bytes ≤ 16
      → IsBlocked s
      → IsBlocked (ftdi_round lib outputdata sendmode s turn).0
  unfolding ftdi_round
  round-IsBlocked outputdata sendmode s turn small v =
      let taken = take_in-IsBlocked outputdata s turn small v in
      let passed = pass_on-IsBlocked (take_in lib outputdata s turn) taken in
      elim (Bool-cases (turn.read_status == 0)) [
        | inr e ↦ rw e (record { sixteen = v.sixteen; full = v.full })
        | inl e ↦ elim (Bool-cases sendmode) [
          | inr f ↦ rw (e, f) (dump_buffer-IsBlocked _ (length turn.bytes) taken)
          | inl f ↦ elim (Bool-cases (turn.write_status == 0)) [
            | inr g ↦ rw (e, f, g) passed
            | inl g ↦ rw (e, f, g) (dump_buffer-IsBlocked _ (length turn.bytes) passed)
          ]
        ]
      ]

  -- From a buffer of 16 bytes and full blocks, and with at most 16 bytes in every read, each block
  -- written to the second device has 16 bytes, however few were read, and the buffer keeps its
  -- size.
  pub ftdi_loop-IsBlocked :
      (outputdata sendmode : Bool) (s : Session lib) (turns : List Turn)
      → All (λ turn. length turn.bytes ≤ 16) turns
      → IsBlocked s
      → IsBlocked (ftdi_loop lib outputdata sendmode s turns).0
  unfolding ftdi_loop
  ftdi_loop-IsBlocked outputdata sendmode s [] small v = v
  ftdi_loop-IsBlocked outputdata sendmode s (turn ∷ turns) small v =
      let here = round-IsBlocked outputdata sendmode s turn small.0 v in
      elim (Bool-cases (ftdi_round lib outputdata sendmode s turn).1) [
        | inl e ↦ rw e (
            ftdi_loop-IsBlocked outputdata sendmode (ftdi_round lib outputdata sendmode s turn).0
              turns small.1 here)
        | inr e ↦ rw e here
      ]
