-- ===== src/Protocol/Digits.antt =====
-- The loop that stores a channel's bytes, as one write of its row.
use serial.Base.{
  ℕ, ◌+◌, ◌<◌, ◌≡◌, refl, sym, ap, ◌∙◌, List, [], ◌∷◌, ◌++◌, append_assoc, length, length-append,
  length-set, get_or, set, get_or-append, get_or-set_self, set-set, set-get_or,
}
use serial.Helper.{Row}
use serial.Protocol.{Receiver, digit_index, digit_value, store_digit, store_digits}

-- A row with the digits of some bytes written in order.
unfoldable pub write_all : ℕ → Row → List ℕ → Row
write_all bit row [] = row
write_all bit row (b ∷ bs) = write_all bit (set row (digit_index bit b) (digit_value b)) bs

pub length-write_all :
    (bit : ℕ) (row : Row) (bs : List ℕ) → length (write_all bit row bs) ≡ length row
unfolding write_all
length-write_all bit row [] = refl
length-write_all bit row (b ∷ bs) =
    length-write_all bit (set row (digit_index bit b) (digit_value b)) bs ∙ length-set row _ _

abbrev channel_row : Receiver → Row
channel_row r = get_or r.colorado_data r.colorado_control_channel []

abbrev with_row : Receiver → Row → Receiver
with_row r row = record r { colorado_data = set r.colorado_data r.colorado_control_channel row }

store_digit_at :
    (b : ℕ) (before rest : List ℕ) (r : Receiver)
    → r.buf ≡ before ++ b ∷ rest
    → store_digit r (length before)
      ≡ with_row r (set (channel_row r) (digit_index r.colorado_control_bit b) (digit_value b))
unfolding store_digit
store_digit_at b before rest r e =
    let found : get_or r.buf (length before) 0 ≡ b =
      ap (λ x. get_or x (length before) 0) e ∙ get_or-append before rest b 0 in
    rw found

-- The loop over the bytes `bs`, which stand in the buffer behind `before`, writes the row of the
-- channel and nothing else.
pub store_digits-write_all :
    (bs before rest : List ℕ) (r : Receiver)
    → r.buf ≡ before ++ (bs ++ rest)
    → r.colorado_control_channel < length r.colorado_data
    → store_digits (length bs) (length before) r ≡ record r {
      colorado_data =
          set r.colorado_data r.colorado_control_channel
            (write_all r.colorado_control_bit (channel_row r) bs);
    }
unfolding store_digits write_all
store_digits-write_all [] before rest r e h =
    ap (λ d. record r { colorado_data = d })
      (sym (set-get_or r.colorado_data r.colorado_control_channel []))
store_digits-write_all (b ∷ bs) before rest r e h =
    let row = set (channel_row r) (digit_index r.colorado_control_bit b) (digit_value b) in
    let next : length (before ++ b ∷ []) ≡ length before + 1 = length-append before (b ∷ []) in
    let again : r.buf ≡ (before ++ b ∷ []) ++ (bs ++ rest) =
      e ∙ sym (append_assoc before (b ∷ []) (bs ++ rest)) in
    ap (store_digits (length bs) (length before + 1)) (store_digit_at b before (bs ++ rest) r e)
    ∙ ap (λ j. store_digits (length bs) j (with_row r row)) (sym next)
    ∙ store_digits-write_all bs (before ++ b ∷ []) rest (with_row r row) again (rw length-set h)
    ∙ rw (
      get_or-set_self r.colorado_data r.colorado_control_channel row [] h,
      set-set r.colorado_data r.colorado_control_channel row,
    )
