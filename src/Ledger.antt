-- ===== src/Ledger.antt =====
-- What a program has acquired and not released: blocks of malloc, by number. A command acquires and
-- releases, and ends in a fault where it releases what is not held.
pub mod Held
use serial.Base.{
  ℕ, zero, suc, ◌+◌, Bool, false, ◌||◌, Option, none, some, List, [], ◌∷◌, ◌==◌, if◌then◌else◌,
}

pub record Ledger : Type 0 where
  pub next : ℕ
  pub live : List ℕ

abbrev pub has : ℕ → List ℕ → Bool
has p [] = false
has p (q ∷ qs) = p == q || has p qs

abbrev pub erase : ℕ → List ℕ → List ℕ
erase p [] = []
erase p (q ∷ qs) = let rest = erase p qs in if p == q then qs else q ∷ rest

-- A command's result with what is held then; `none` is a fault.
abbrev pub Result : Type 0 → Type 0
Result A = Option (A × Ledger)

abbrev pub Command : Type 0 → Type 0
Command A = Ledger → Result A

-- What stands behind a command, which a fault leaves out.
abbrev pub onward : {A B : Type 0} → (A → Command B) → Result A → Result B
onward next none = none
onward next (some (value, held)) = next value held

infixl 4 ◌>>=◌
abbrev pub ◌>>=◌ : {A B : Type 0} → Command A → (A → Command B) → Command B
◌>>=◌ first next held = onward next (first held)

abbrev pub give : {A : Type 0} → A → Command A
give value held = some (value, held)

-- malloc, which gives a block that was never there before.
unfoldable pub malloc : Command ℕ
malloc h = some (h.next, record { next = h.next + 1; live = h.next ∷ h.live })

unfoldable pub free : ℕ → Command (Unit {0})
free p h = if has p h.live then some (tt, record h { live = erase p h.live }) else none

-- A loop of n calls of malloc, whose blocks are not freed.
unfoldable pub malloc_each : ℕ → Command (Unit {0})
malloc_each zero = give tt
malloc_each (suc n) = do _ ← malloc; malloc_each n
