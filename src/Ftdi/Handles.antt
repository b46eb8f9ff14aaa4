-- ===== src/Ftdi/Handles.antt =====
-- The indices into devInfo that the calls use.
use serial.Base.{
  ℕ, zero, suc, ◌+◌, ◌≤◌, ◌<◌, ◌≡◌, Bool, List, [], ◌∷◌, ◌++◌, ltb, ltb→lt, ◌==◌, if◌then◌else◌,
  All, All-append, arith, Bool-cases, inl, inr,
}
use serial.Mqtt.{Mosquitto}
use serial.Ftdi.{
  Turn, Session, take_in, pass_on, dump_buffer, ftdi_round, ftdi_loop, open_devices, is_privileged,
  readftdi,
}

-- devInfo has an element for each of the devices.
abbrev pub IsWithin : ℕ → List ℕ → Type 0
IsWithin devices used = All (λ i. i < devices) used

All-append_last :
    {A : Type 0} (P : A → Type 0) (xs : List A) (a b : A) → All P (xs ++ a ∷ b ∷ []) → P b
All-append_last P [] a b (p, (q, u)) = q
All-append_last P (x ∷ xs) a b (p, h) = All-append_last P xs a b h

open_devices_lem : (n i devices : ℕ) → i + n ≤ devices → IsWithin devices (open_devices n i)
unfolding open_devices
open_devices_lem zero i devices h = tt
open_devices_lem (suc n) i devices h =
    (omega arith, open_devices_lem n (i + 1) devices (omega arith))

module _ (lib : Mosquitto) where
  round_used :
      (outputdata : Bool) (devices : ℕ) (s : Session lib) (turn : Turn)
      → 1 ≤ devices
      → IsWithin devices s.used
      → IsWithin devices (ftdi_round lib outputdata (ltb 1 devices) s turn).0.used
  unfolding ftdi_round take_in pass_on dump_buffer
  round_used outputdata devices s turn some_device v =
      let first = All-append (λ i. i < devices) s.used (0 ∷ []) v (omega arith, tt) in
      elim (Bool-cases (turn.read_status == 0)) [
        | inr e ↦ rw e first
        | inl e ↦ elim (Bool-cases (ltb 1 devices)) [
          | inr f ↦ rw (e, f) first
          | inl f ↦
              let second =
                All-append (λ i. i < devices) (s.used ++ 0 ∷ []) (1 ∷ []) first
                  (ltb→lt 1 devices f, tt) in
              elim (Bool-cases (turn.write_status == 0)) [
                | inr g ↦ rw (e, f, g) second
                | inl g ↦ rw (e, f, g) second
              ]
        ]
      ]

  loop_used :
      (outputdata : Bool) (devices : ℕ) (s : Session lib) (turns : List Turn)
      → 1 ≤ devices
      → IsWithin devices s.used
      → IsWithin devices (ftdi_loop lib outputdata (ltb 1 devices) s turns).0.used
  unfolding ftdi_loop
  loop_used outputdata devices s [] some_device v = v
  loop_used outputdata devices s (turn ∷ turns) some_device v =
      let here = round_used outputdata devices s turn some_device v in
      elim (Bool-cases (ftdi_round lib outputdata (ltb 1 devices) s turn).1) [
        | inl e ↦ rw e (
            loop_used outputdata devices (ftdi_round lib outputdata (ltb 1 devices) s turn).0 turns
              some_device here)
        | inr e ↦ rw e here
      ]

  -- With two devices or more, every index into devInfo that the calls use is one of a device.
  pub readftdi-IsWithin :
      (uid euid devices : ℕ) (junk : List ℕ) (outputdata : Bool) (s : Session lib)
      (turns : List Turn)
      → 2 ≤ devices
      → IsWithin devices (readftdi lib uid euid devices junk outputdata s turns).0.used
  unfolding readftdi
  readftdi-IsWithin uid euid devices junk outputdata s turns two =
      let opened : Session lib = record s {
        buffer = junk;
        rawdata = if outputdata then [] else s.rawdata;
        used = open_devices devices 0;
      } in
      let turns' = if is_privileged uid euid then turns else [] in
      let v : IsWithin devices opened.used = open_devices_lem devices 0 devices (omega arith) in
      let looped = loop_used outputdata devices opened turns' (omega arith) v in
      elim (Bool-cases (ftdi_loop lib outputdata (ltb 1 devices) opened turns').1) [
        | inl e ↦
            rw e
              (All-append (λ i. i < devices) _ (0 ∷ 1 ∷ []) looped (omega arith, (omega arith, tt)))
        | inr e ↦ rw e looped
      ]

  -- With fewer than two devices, a run that ends with result 0 has used an index into devInfo that
  -- is no device's.
  pub readftdi_outside :
      (uid euid devices : ℕ) (junk : List ℕ) (outputdata : Bool) (s : Session lib)
      (turns : List Turn)
      → devices < 2
      → (readftdi lib uid euid devices junk outputdata s turns).1 ≡ 0
      → ¬ IsWithin devices (readftdi lib uid euid devices junk outputdata s turns).0.used
  unfolding readftdi
  readftdi_outside uid euid devices junk outputdata s turns few ended within =
      let opened : Session lib = record s {
        buffer = junk;
        rawdata = if outputdata then [] else s.rawdata;
        used = open_devices devices 0;
      } in
      let turns' = if is_privileged uid euid then turns else [] in
      elim (Bool-cases (ftdi_loop lib outputdata (ltb 1 devices) opened turns').1) [
        | inl e ↦
            let last : 1 < devices = All-append_last (λ i. i < devices) _ 0 1 (rw e at within) in
            omega arith
        | inr e ↦ omega (arith, rw e at ended)
      ]
