-- ===== src/Blocks/Arrays.antt =====
-- The arrays of the analysers: what initReadData takes, and what cleanReadData frees of it.
use serial.Base.{ℕ, ◌+◌, List, ◌∷◌, arith}
use serial.Ledger.{Ledger, malloc}
use serial.Ledger.Held.{
  Returns, bind, Owns, recount, malloc-lost, free-owned, then_malloc, then_malloc_each, then_free,
}
use serial.Blocks.{
  LaneGlobals, Globals, init_analyse_lane_blocks, init_analyse_data_blocks, init_read_data_blocks,
  clean_analyse_lane_blocks, clean_read_data_blocks,
}

-- The arrays, in the order in which they are freed.
abbrev lane_arrays : LaneGlobals → List ℕ → List ℕ
lane_arrays g ps = g.place_data ∷ g.heat_data ∷ g.lanebyplaceorder ∷ ps

abbrev pub arrays : Globals → List ℕ → List ℕ
arrays g ps = lane_arrays g.lanes (g.colorado_data ∷ ps)

init_analyse_lane_blocks-Owns :
    (ps : List ℕ) (n : ℕ) (h : Ledger)
    → Owns ps n h
    → Returns (λ g. Owns (lane_arrays g ps) (n + 23)) (init_analyse_lane_blocks h)
unfolding init_analyse_lane_blocks
init_analyse_lane_blocks-Owns ps n h o = then_malloc _ _ ps n h o (λ order t1 o1.
    then_malloc _ _ (order ∷ ps) (n + 1) t1 o1 (λ heat t2 o2.
      let kept = heat ∷ order ∷ ps in
      then_malloc_each _ _ 10 kept (n + 1 + 1) t2 o2 (λ t3 o3.
        then_malloc _ _ kept (n + 1 + 1 + 10) t3 o3 (λ place t4 o4.
          then_malloc_each _ _ 10 (place ∷ kept) (n + 1 + 1 + 10 + 1) t4 o4
            (λ t5 o5. recount (place ∷ kept) _ (n + 23) t5 o5 (omega arith))))))

pub init_read_data_blocks-Owns :
    (ps : List ℕ) (n : ℕ) (h : Ledger)
    → Owns ps n h
    → Returns (λ g. Owns (arrays g ps) (n + 59)) (init_read_data_blocks h)
unfolding init_read_data_blocks init_analyse_data_blocks
init_read_data_blocks-Owns ps n h o = then_malloc _ _ ps n h o (λ colorado t1 o1.
    let kept = colorado ∷ ps in
    then_malloc_each _ _ 32 kept (n + 1) t1 o1 (λ t2 o2.
      then_malloc_each _ _ 2 kept (n + 1 + 32) t2 o2 (λ t3 o3.
        bind (λ g. Owns (lane_arrays g kept) (n + 1 + 32 + 2 + 23)) _ init_analyse_lane_blocks _ t3
          (init_analyse_lane_blocks-Owns kept (n + 1 + 32 + 2) t3 o3)
          (λ g t4 o4.
            let all = lane_arrays g kept in
            bind (λ p. Owns all (n + 1 + 32 + 2 + 23 + 1)) _ malloc _ t4
              (malloc-lost all (n + 1 + 32 + 2 + 23) t4 o4)
              (λ p t5 o5. recount all _ (n + 59) t5 o5 (omega arith))))))

clean_analyse_lane_blocks-Owns :
    (g : LaneGlobals) (ps : List ℕ) (n : ℕ) (h : Ledger)
    → Owns (lane_arrays g ps) (n + 3) h
    → Returns (λ u. Owns ps n) (clean_analyse_lane_blocks g h)
unfolding clean_analyse_lane_blocks
clean_analyse_lane_blocks-Owns g ps n h o =
    then_free _ _ g.place_data _ (n + 2) (n + 3) h o (omega arith) (λ t2 o2.
      then_free _ _ g.heat_data _ (n + 1) (n + 2) t2 o2 (omega arith)
        (λ t3 o3. free-owned g.lanebyplaceorder ps n t3 o3))

pub clean_read_data_blocks-Owns :
    (g : Globals) (ps : List ℕ) (n : ℕ) (h : Ledger)
    → Owns (arrays g ps) (n + 4) h
    → Returns (λ u. Owns ps n) (clean_read_data_blocks g h)
unfolding clean_read_data_blocks
clean_read_data_blocks-Owns g ps n h o =
    bind (λ u. Owns (g.colorado_data ∷ ps) (n + 1)) _ (clean_analyse_lane_blocks g.lanes) _ h
      (clean_analyse_lane_blocks-Owns g.lanes (g.colorado_data ∷ ps) (n + 1) h
        (recount (arrays g ps) (n + 4) (n + 1 + 3) h o (omega arith)))
      (λ u t kept. free-owned g.colorado_data ps n t kept)
