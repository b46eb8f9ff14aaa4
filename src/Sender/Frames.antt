-- ===== src/Sender/Frames.antt =====
-- What was sent, taken apart again at the semicolons.
use serial.Base.{
  ◌≡◌, refl, sym, ap, ◌∙◌, false, List, [], ◌∷◌, ◌++◌, append-nil, append_assoc, ◌==◌,
  if◌then◌else◌, All, take, length,
}
use serial.Base.Int.{ℤ, pos}
use serial.Text.{Text}
use serial.Sender.{Sender, endstring, send, send_all}

-- The texts before the semicolons; the first argument is what was read since the last.
abbrev pub split : Text → Text → List Text
split so_far [] = []
split so_far (c ∷ cs) =
    let next = split [] cs in
    let longer = split (so_far ++ c ∷ []) cs in if c == b';' then so_far ∷ next else longer

abbrev pub messages : List (Text × ℤ × ℤ) → List Text
messages [] = []
messages ((message, first, second) ∷ rest) = message ∷ messages rest

abbrev pub HasNoSemicolon : Text → Type 0
HasNoSemicolon message = All (λ c. (c == b';') ≡ false) message

split-append :
    (so_far message rest : Text)
    → HasNoSemicolon message
    → split so_far (message ++ b';' ∷ rest) ≡ (so_far ++ message) ∷ split [] rest
split-append so_far [] rest plain = ap (λ k. k ∷ split [] rest) (sym (append-nil so_far))
split-append so_far (c ∷ message) rest plain = rw plain.0 (
    split-append (so_far ++ c ∷ []) message rest plain.1
    ∙ ap (λ k. k ∷ split [] rest) (append_assoc so_far (c ∷ []) message))

-- All that the texts write.
abbrev pub framed : List (Text × ℤ × ℤ) → Text
framed [] = []
framed ((message, first, second) ∷ rest) = message ++ b';' ∷ framed rest

-- Both writes of a text are complete.
abbrev pub IsSent : Text × ℤ × ℤ → Type 0
IsSent (message, first, second) = (first ≡ pos (length message)) × (second ≡ pos 1)

take-length : (message : Text) → take (length message) message ≡ message
take-length [] = refl
take-length (c ∷ message) = ap (λ k. c ∷ k) (take-length message)

send_line :
    (s : Sender) (message : Text) (first second : ℤ)
    → IsSent (message, first, second)
    → (send first second s message).0.line ≡ (s.line ++ message) ++ b';' ∷ []
unfolding send endstring
send_line s message first second (all, one) =
    rw (all, one) (ap (λ k. (s.line ++ k) ++ b';' ∷ []) (take-length message))

send_all_line :
    (s : Sender) (sends : List (Text × ℤ × ℤ))
    → All IsSent sends
    → (send_all s sends).line ≡ s.line ++ framed sends
unfolding send_all
send_all_line s [] all = sym (append-nil s.line)
send_all_line s ((message, first, second) ∷ rest) all =
    send_all_line (send first second s message).0 rest all.1
    ∙ ap (λ k. k ++ framed rest) (send_line s message first second all.0)
    ∙ append_assoc (s.line ++ message) (b';' ∷ []) (framed rest)
    ∙ append_assoc s.line message (b';' ∷ framed rest)

split-framed :
    (sends : List (Text × ℤ × ℤ))
    → All HasNoSemicolon (messages sends)
    → split [] (framed sends) ≡ messages sends
split-framed [] plain = refl
split-framed ((message, first, second) ∷ rest) plain =
    split-append [] message (framed rest) plain.0
    ∙ ap (λ k. message ∷ k) (split-framed rest plain.1)

-- From an empty line, and with complete writes, texts without a semicolon that are sent one after
-- the other are read back by splitting the line at its semicolons.
pub split-send_all :
    (s : Sender) (sends : List (Text × ℤ × ℤ))
    → s.line ≡ []
    → All IsSent sends
    → All HasNoSemicolon (messages sends)
    → split [] (send_all s sends).line ≡ messages sends
split-send_all s sends fresh all plain =
    ap (split []) (send_all_line s sends all ∙ ap (λ k. k ++ framed sends) fresh)
    ∙ split-framed sends plain
