-- ===== src/Protocol/Runs.antt =====
-- Streams one behind the other, and addresses that are read twice.
use serial.Base.{
  ℕ, ◌<◌, ◌≡◌, refl, sym, ap, ◌∙◌, true, false, not, List, [], ◌∷◌, ◌++◌, append_assoc, ◌==◌, arith,
}
use serial.Lane.{Memory}
use serial.Protocol.{
  Receiver, is_address, channel_of, channel_length, init_read_data, put_read_data, read_all,
}
use serial.Protocol.Bits.{passes, passes_lem, channel_of_lt}
use serial.Protocol.Frames.{read_all_frame}

pub read_all-append :
    (r : Receiver) (xs ys : List ℕ) → (read_all r (xs ++ ys)).0 ≡ (read_all (read_all r xs).0 ys).0
unfolding read_all
read_all-append r [] ys = refl
read_all-append r (x ∷ xs) ys = read_all-append (put_read_data r x).0 xs ys

pub read_all-append_messages :
    (r : Receiver) (xs ys : List ℕ)
    → (read_all r (xs ++ ys)).1 ≡ (read_all r xs).1 ++ (read_all (read_all r xs).0 ys).1
unfolding read_all
read_all-append_messages r [] ys = refl
read_all-append_messages r (x ∷ xs) ys =
    ap (◌++◌ (put_read_data r x).1) (read_all-append_messages (put_read_data r x).0 xs ys)
    ∙ sym (append_assoc (put_read_data r x).1 _ _)

length_table : passes (λ c. not (channel_length c == 1)) 32 ≡ true
unfolding passes channel_length
length_table = refl

no_empty_frame : (c : ℕ) → c < 32 → (1 == channel_length c) ≡ false
no_empty_frame c h =
    ground (arith, passes_lem (λ c. not (channel_length c == 1)) 32 length_table c h)

-- An address byte that is read twice sends nothing the second time.
pub read_all_address_twice :
    (memory : Memory) (before : List ℕ) (a : ℕ)
    → is_address a ≡ true
    → let r = (read_all (init_read_data memory) before).0 in
      (read_all r (a ∷ a ∷ [])).1 ≡ (read_all r (a ∷ [])).1
unfolding read_all
read_all_address_twice memory before a h =
    let r = (read_all (init_read_data memory) before).0 in
    read_all_frame memory before a a [] h tt h
    ∙ ap (◌++◌ (put_read_data r a).1) (rw (no_empty_frame (channel_of a) (channel_of_lt a)))
