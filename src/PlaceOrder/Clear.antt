-- ===== src/PlaceOrder/Clear.antt =====
-- A lane that is cleared after it had a place.
use serial.Base.{
  ℕ, ◌≤◌, ◌≡◌, ◌≢◌, ap, ◌∙◌, Bool, true, false, [], ◌∷◌, arith, length, get_or, get_or-set_self,
  get_or-set_ne, set, ◌==◌, if◌then◌else◌, Bool-cases, inl, inr,
}
use serial.Text.{Text, codes}
use serial.Text.Buffer.{same_iff, take_all}
use serial.Helper.{Row, digit}
use serial.Lane.{short_data}
use serial.Lane.Valid.{IsValid}
use serial.Lane.Slot.{Slot, slot}
use serial.PlaceOrder.{Places, has_place, place_message, get_place_time}
use serial.PlaceOrder.Refine.{
  order_place, order_step, get_place_time-order_step, get_place_time-IsValid, get_place_time_count,
}

-- After a row with a time of at most 8 characters the slot holds that time.
order_step_time : (s : Slot) (t p : Text) → length t ≤ 8 → (order_step s t p).0.time ≡ t
unfolding order_step
order_step_time s t p short =
    ground (arith, take_all 8 t short, same_iff t s.time, same_iff t (codes "000000"))

-- A row without a place and with another time than the stored one is reported.
order_step_cleared : (s : Slot) (t : Text) → t ≢ s.time → (order_step s t (codes "0")).1 ≡ true
unfolding order_step
order_step_cleared s t new = ground (arith, same_iff t s.time, same_iff (codes "0") (codes "0"))

-- With orderbyplace, valid buffers and a lane of at most ten among those counted: after a row with
-- a place and a time of at most 8 characters, a row without a place and with another time sends in
-- the active state one message that begins with the place of the row before, and for lane 2 a
-- second one that begins with what lane 1 has in lanebyplaceorder.
cleared_under_place :
    (s : Places) (before : Bool) (lane : ℕ) (row blank : Row)
    → IsValid s.lanes
    → length s.lanebyplaceorder ≡ 12
    → 1 ≤ lane
    → lane ≤ 10
    → lane ≤ s.lanes.lane_count
    → has_place row ≡ true
    → has_place blank ≡ false
    → length (short_data row) ≤ 8
    → short_data blank ≢ short_data row
    → (get_place_time (get_place_time s before lane row).0 true lane blank).1
      ≡ place_message (digit row 2) blank (digit blank 2)
        ∷ (if lane == 2
            then place_message (get_or s.lanebyplaceorder 1 0) blank (digit blank 2) ∷ []
            else [])
cleared_under_place s before lane row blank v twelve first ten last placed none short new =
    let t = (get_place_time s before lane row).0 in
    let (kept, sent, order) = get_place_time-order_step s v before lane first last ten row in
    let (kept', sent', order') =
      get_place_time-order_step t (get_place_time-IsValid s before lane row v) true lane first
        (omega (arith, get_place_time_count s before lane row)) ten blank in
    let held : (slot t.lanes lane).time ≡ short_data row =
      ap (λ k. k.time) kept ∙ order_step_time (slot s.lanes lane) (short_data row) _ short in
    let reported : (order_step (slot t.lanes lane) (short_data blank) (order_place lane blank)).1
        ≡ true =
      rw none (order_step_cleared (slot t.lanes lane) (short_data blank) (λ e. new (e ∙ held))) in
    let set_order : t.lanebyplaceorder ≡ set s.lanebyplaceorder lane (digit row 2) =
      order ∙ rw placed in
    let own : get_or t.lanebyplaceorder lane 0 ≡ digit row 2 =
      ap (λ k. get_or k lane 0) set_order
      ∙ get_or-set_self s.lanebyplaceorder lane (digit row 2) 0 (omega arith) in
    sent'
    ∙ rw (reported, none, own)
        (elim (Bool-cases (lane == 2)) [
          | inl e ↦
              let other : get_or t.lanebyplaceorder 1 0 ≡ get_or s.lanebyplaceorder 1 0 =
                ap (λ k. get_or k 1 0) set_order
                ∙ get_or-set_ne s.lanebyplaceorder lane 1 (digit row 2) 0 (ground arith) in
              rw (e, other)
          | inr e ↦ rw e
        ])
