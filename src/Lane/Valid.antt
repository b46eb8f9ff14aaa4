-- ===== src/Lane/Valid.antt =====
-- The sizes of the buffers of analyseLane.cpp, and the NUL behind a lane's time.
use serial.Base.{
  ℕ, zero, suc, ◌+◌, ◌-◌, ◌≡◌, refl, ap, ◌∙◌, List, [], ◌∷◌, arith, length, get_or, set, All,
  length-set, ◌==◌, Bool-cases, Bool, inl, inr,
}
use serial.Text.{Text, codes, strncpy}
use serial.Text.Buffer.{length-strncpy, get_or-strncpy_above, get_or-strncpy_pad}
use serial.Helper.{Row}
use serial.Lane.{
  Lanes, Memory, malloc, null_short_data, null_place, reset_buffers, reset_time_and_place,
  reset_from, reset_all_data, init_buffers, init_analyse_lane, compare_stored, store_lane,
  short_data, place_text, lane_matches, get_lane_time,
}

-- A time's buffer: 18 bytes, with a NUL at byte 8.
abbrev pub IsHeat : List ℕ → Type 0
IsHeat buf = (length buf ≡ 18) × (get_or buf 8 1 ≡ 0)

abbrev pub IsPlace : List ℕ → Type 0
IsPlace buf = length buf ≡ 10

pub record IsValid (s : Lanes) : Type 0 where
  pub heat_length : length s.heat_data ≡ s.lane_count
  pub place_length : length s.place_data ≡ s.lane_count
  pub heat_ok : All IsHeat s.heat_data
  pub place_ok : All IsPlace s.place_data

strncpy-IsHeat : (buf : List ℕ) (src : Text) → IsHeat buf → IsHeat (strncpy buf src 8)
strncpy-IsHeat buf src h =
    (length-strncpy buf src 8 ∙ h.0, get_or-strncpy_above buf src 8 8 1 (omega arith) ∙ h.1)

strncpy-IsPlace : (buf : List ℕ) (src : Text) → IsPlace buf → IsPlace (strncpy buf src 3)
strncpy-IsPlace buf src h = length-strncpy buf src 3 ∙ h

-- A write past the end of a table changes nothing, so the index needs no bound here.
pub All-set-strncpy {κ} :
    (P : List ℕ → Type κ) (n : ℕ) (bufs : List (List ℕ)) (i : ℕ) (src : Text)
    → ((buf : List ℕ) → P buf → P (strncpy buf src n))
    → All P bufs
    → All P (set bufs i (strncpy (get_or bufs i []) src n))
All-set-strncpy P n [] i src keep a = tt
All-set-strncpy P n (b ∷ bufs) zero src keep a = (keep b a.0, a.1)
All-set-strncpy P n (b ∷ bufs) (suc i) src keep a = (a.0, All-set-strncpy P n bufs i src keep a.1)

pub store_lane-IsValid :
    (s : Lanes) (lane : ℕ) (time place : Text) → IsValid s → IsValid (store_lane s lane time place)
unfolding store_lane
store_lane-IsValid s lane time place v = record {
  heat_length = length-set s.heat_data (lane - 1) _ ∙ v.heat_length;
  place_length = length-set s.place_data (lane - 1) _ ∙ v.place_length;
  heat_ok =
      All-set-strncpy IsHeat 8 s.heat_data (lane - 1) time (λ b. strncpy-IsHeat b time) v.heat_ok;
  place_ok =
      All-set-strncpy IsPlace 3 s.place_data (lane - 1) place (λ b. strncpy-IsPlace b place)
        v.place_ok;
}

reset_buffers-IsValid : (s : Lanes) (i : ℕ) → IsValid s → IsValid (reset_buffers s i)
unfolding reset_buffers
reset_buffers-IsValid s i v = record {
  heat_length = length-set s.heat_data i _ ∙ v.heat_length;
  place_length = length-set s.place_data i _ ∙ v.place_length;
  heat_ok =
      All-set-strncpy IsHeat 8 s.heat_data i null_short_data (λ b. strncpy-IsHeat b null_short_data)
        v.heat_ok;
  place_ok =
      All-set-strncpy IsPlace 3 s.place_data i null_place (λ b. strncpy-IsPlace b null_place)
        v.place_ok;
}

pub reset_time_and_place-IsValid :
    (s : Lanes) (lane : ℕ) → IsValid s → IsValid (reset_time_and_place s lane)
unfolding reset_time_and_place
reset_time_and_place-IsValid s lane v = elim (Bool-cases (lane == 0)) [
  | inl e ↦ rw e v
  | inr e ↦ rw e (reset_buffers-IsValid s (lane - 1) v)
]

reset_from-IsValid : (n clearnr : ℕ) (s : Lanes) → IsValid s → IsValid (reset_from n clearnr s)
unfolding reset_from
reset_from-IsValid zero clearnr s v = v
reset_from-IsValid (suc n) clearnr s v =
    reset_from-IsValid n (clearnr + 1) _ (reset_time_and_place-IsValid s (clearnr + 1) v)

pub reset_all_data-IsValid : (s : Lanes) → IsValid s → IsValid (reset_all_data s)
unfolding reset_all_data
reset_all_data-IsValid s v = reset_from-IsValid s.lane_count 0 s v

compare_stored-IsValid :
    (s : Lanes) (lane : ℕ) (time place : Text)
    → IsValid s
    → IsValid (compare_stored s lane time place).0
unfolding compare_stored
compare_stored-IsValid s lane time place v = ground (arith, reset_time_and_place-IsValid s lane v)

-- A lane's row keeps the buffers well formed, whatever it holds.
pub get_lane_time-IsValid :
    (s : Lanes) (active : Bool) (lane : ℕ) (row : Row)
    → IsValid s
    → IsValid (get_lane_time s active lane row).0
unfolding get_lane_time
get_lane_time-IsValid s active lane row v =
    let t = (compare_stored s lane (short_data row) (place_text row)).0 in
    let kept = compare_stored-IsValid s lane (short_data row) (place_text row) v in
    elim (Bool-cases (lane_matches s lane row)) [
      | inl e ↦ rw e kept
      | inr e ↦ rw e (store_lane-IsValid t lane (short_data row) (place_text row) kept)
    ]

pub length-malloc : (junk : ℕ → ℕ) (n : ℕ) → length (malloc junk n) ≡ n
unfolding malloc
length-malloc junk zero = refl
length-malloc junk (suc n) = ap suc (length-malloc junk n)

length-init_buffers :
    (junk : ℕ → ℕ → ℕ) (size : ℕ) (text : Text) (count n : ℕ)
    → length (init_buffers junk size text count n) ≡ n
unfolding init_buffers
length-init_buffers junk size text count zero = refl
length-init_buffers junk size text count (suc n) =
    ap suc (length-init_buffers junk size text count n)

pub All-init_buffers {κ} :
    (P : List ℕ → Type κ) (junk : ℕ → ℕ → ℕ) (size : ℕ) (text : Text) (count n : ℕ)
    → ((buf : List ℕ) → length buf ≡ size → P (strncpy buf text count))
    → All P (init_buffers junk size text count n)
unfolding init_buffers
All-init_buffers P junk size text count zero start = tt
All-init_buffers P junk size text count (suc n) start = (
  start (malloc (junk n) size) (length-malloc (junk n) size),
  All-init_buffers P junk size text count n start,
)

-- `initanalyseLane` makes well-formed buffers, whatever bytes malloc returns.
pub init_analyse_lane-IsValid : (memory : Memory) (n : ℕ) → IsValid (init_analyse_lane memory n)
unfolding init_analyse_lane null_short_data
init_analyse_lane-IsValid memory n = record {
  heat_length = length-init_buffers memory.heat 18 _ 12 n;
  place_length = length-init_buffers memory.place 10 _ 3 n;
  heat_ok = All-init_buffers IsHeat memory.heat 18 _ 12 n (λ buf e. (
    length-strncpy buf (codes "000000") 12 ∙ e,
    get_or-strncpy_pad buf (codes "000000") 12 8 1 (omega arith) (omega arith) (omega arith),
  ));
  place_ok = All-init_buffers IsPlace memory.place 10 _ 3 n (λ buf e. length-strncpy buf _ 3 ∙ e);
}
