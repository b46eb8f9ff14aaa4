-- ===== src/Device/Along.antt =====
-- The rounds of a loop that is not over.
use serial.Base.{◌≡◌, refl, ap, ◌∙◌, true, List, [], ◌∷◌, ◌++◌}
use serial.Mqtt.{Mosquitto}
use serial.Device.{Device, loop, attempt, listen}

module _ {lib : Mosquitto} (d : Device lib) where
  -- The turns lead from one state to the other, and each of their rounds goes on.
  abbrev pub Along : d.State → List d.Turn → d.State → Type 0
  Along s [] t = s ≡ t
  Along s (turn ∷ turns) t = ((d.round s turn).1 ≡ true) × Along (d.round s turn).0 turns t

  pub Along-append :
      (s t : d.State) (turns : List d.Turn) (turn : d.Turn)
      → Along s turns t
      → (d.round t turn).1 ≡ true
      → Along s (turns ++ turn ∷ []) (d.round t turn).0
  Along-append s t [] turn here on =
      (ap (λ q. (d.round q turn).1) here ∙ on, ap (λ q. (d.round q turn).0) here)
  Along-append s t (first ∷ turns) turn (goes, rest) on =
      (goes, Along-append (d.round s first).0 t turns turn rest on)

  pub loop-append :
      (s t : d.State) (turns more : List d.Turn)
      → Along s turns t
      → loop d s (turns ++ more) ≡ loop d t more
  unfolding loop
  loop-append s t [] more here = ap (λ q. loop d q more) here
  loop-append s t (first ∷ turns) more (goes, rest) =
      rw goes (loop-append (d.round s first).0 t turns more rest)

  pub listen-append :
      (s : d.State) (before after : List (d.Opening × List d.Turn))
      → listen d s (before ++ after) ≡ listen d (listen d s before) after
  unfolding listen
  listen-append s [] after = refl
  listen-append s (a ∷ before) after = listen-append (attempt d s a) before after
