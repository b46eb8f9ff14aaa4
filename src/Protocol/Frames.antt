-- ===== src/Protocol/Frames.antt =====
-- A frame behind any stream of bytes.
use mathlib.Core.Path.{ap₂}
use serial.Base.{ℕ, ◌≡◌, sym, ◌∙◌, true, List, [], ◌∷◌, ◌++◌, All}
use serial.Lane.{Memory}
use serial.Protocol.{is_address, init_read_data, put_read_data, read_all}
use serial.Protocol.Stream.{IsData, frame_messages, link_run_frame}
use serial.Protocol.Link.{link_run}
use serial.Protocol.Agree.{Agrees}
use serial.Protocol.Refine.{init_link, init-Agrees, put_read_data-link_step, read_all-link_run}

-- Behind any stream from the start of the program, a frame of data bytes sends what its address
-- byte sends for the frame before it, and then, once the next address byte comes, what the
-- analysers make of the row that it writes, if it has its channel's length; a frame that is too
-- short or too long sends nothing.
pub read_all_frame :
    (memory : Memory) (before : List ℕ) (a next : ℕ) (ds : List ℕ)
    → is_address a ≡ true
    → All IsData ds
    → is_address next ≡ true
    → let r = (read_all (init_read_data memory) before).0 in
      let (s, sent) = put_read_data r a in
      (read_all r (a ∷ (ds ++ next ∷ []))).1 ≡ sent ++ frame_messages s.colorado_data s.board a ds
read_all_frame memory before a next ds ha hd hn =
    let r = (read_all (init_read_data memory) before).0 in
    let l = (link_run (init_link memory) before).0 in
    let g : Agrees r l =
      (read_all-link_run (init_read_data memory) (init_link memory) before
        (init-Agrees memory)).0 in
    let (after, sent) = put_read_data-link_step r l a g in
    (read_all-link_run r l (a ∷ (ds ++ next ∷ [])) g).1
    ∙ link_run_frame l a next ds ha hd hn
    ∙ ap₂ ◌++◌ (sym sent) (
        ap₂ (λ rows board. frame_messages rows board a ds) (sym after.rows_same)
          (sym after.board_same))
