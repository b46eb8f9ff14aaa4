-- ===== src/Protocol/Handed/Analysed.antt =====
-- The analysers behind `putReadData`, over the rows that it hands to them.
use mathlib.Core.Path.{ap₂}
use serial.Base.{
  ℕ, zero, suc, ◌+◌, ◌-◌, ◌≡◌, refl, sym, ap, ◌∙◌, Option, none, some, List, [], ◌∷◌, ◌++◌, arith,
  true, false, inl, inr, Bool-cases, ◌==◌,
}
use serial.Text.{Text}
use serial.Helper.{Row}
use serial.Board.{Board, analyse}
use serial.Protocol.{
  Receiver, is_address, channel_length, store_digit, store_digits, process, finish, restart,
  collect, put_read_data, read_all,
}
use serial.Protocol.Handed.{handed, behind, read_rows}

-- The analysers over rows.
unfoldable pub analyse_all : Board → List (ℕ × Row) → List Text
analyse_all b [] = []
analyse_all b ((channel, row) ∷ rows) =
    let (next, sent) = analyse b channel row in sent ++ analyse_all next rows

store_digits_board : (n j : ℕ) (r : Receiver) → (store_digits n j r).board ≡ r.board
unfolding store_digits store_digit
store_digits_board zero j r = refl
store_digits_board (suc n) j r = store_digits_board n (j + 1) (store_digit r j)

-- What a row that is handed over makes of the analysers.
abbrev analysed : Option (ℕ × Row) → Board → Board × List Text
analysed none b = (b, [])
analysed (some (channel, row)) b = analyse b channel row

finish-analysed :
    (r : Receiver)
    → ((finish r).0.board ≡ (analysed (handed r) r.board).0)
      × ((finish r).1 ≡ (analysed (handed r) r.board).1)
unfolding finish handed process
finish-analysed r =
    let same = store_digits_board (channel_length r.colorado_control_channel - 1) 1 r in
    elim (Bool-cases (r.colorado_start_detected == 1)) [
      | inl e ↦ elim (Bool-cases (r.in_count == channel_length r.colorado_control_channel)) [
        | inl f ↦ rw (e, f, same) (refl, refl)
        | inr f ↦ rw (e, f) (refl, refl)
      ]
      | inr e ↦ rw e (refl, refl)
    ]

analyse_all-behind :
    (o : Option (ℕ × Row)) (b : Board) (rows : List (ℕ × Row))
    → analyse_all b (behind o rows) ≡ (analysed o b).1 ++ analyse_all (analysed o b).0 rows
unfolding analyse_all
analyse_all-behind none b rows = refl
analyse_all-behind (some (channel, row)) b rows = refl

put_read_data_address :
    (r : Receiver) (b : ℕ)
    → is_address b ≡ true
    → ((put_read_data r b).0.board ≡ (analysed (handed r) r.board).0)
      × ((put_read_data r b).1 ≡ (analysed (handed r) r.board).1)
unfolding put_read_data restart
put_read_data_address r b e = rw e (finish-analysed r)

put_read_data_other :
    (r : Receiver) (b : ℕ)
    → is_address b ≡ false
    → ((put_read_data r b).0.board ≡ r.board) × ((put_read_data r b).1 ≡ [])
unfolding put_read_data collect
put_read_data_other r b e = rw e (ground arith)

-- The messages of the receiver are those of the analysers over the rows that it hands over.
pub read_all-analyse_all :
    (r : Receiver) (bs : List ℕ) → (read_all r bs).1 ≡ analyse_all r.board (read_rows r bs)
unfolding read_all read_rows
read_all-analyse_all r [] = unfold analyse_all in refl
read_all-analyse_all r (b ∷ bs) =
    let rest = read_rows (put_read_data r b).0 bs in
    let later = read_all-analyse_all (put_read_data r b).0 bs in
    elim (Bool-cases (is_address b)) [
      | inl e ↦
          let (board, sent) = put_read_data_address r b e in
          rw e (
            ap₂ ◌++◌ sent (later ∙ ap (λ k. analyse_all k rest) board)
            ∙ sym (analyse_all-behind (handed r) r.board rest))
      | inr e ↦
          let (board, sent) = put_read_data_other r b e in
          rw e (ap₂ ◌++◌ sent (later ∙ ap (λ k. analyse_all k rest) board))
    ]
