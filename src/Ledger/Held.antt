-- ===== src/Ledger/Held.antt =====
-- Blocks that are held, from one command to the next.
use serial.Base.{
  ℕ, zero, suc, ◌+◌, ◌<◌, ◌≡◌, refl, sym, ap, ◌∙◌, true, false, none, some, List, [], ◌∷◌, ◌||◌,
  arith, length, All, ◌==◌, ==_iff, Bool-cases, inl, inr,
}
use mathlib.Core.Path.{subst}
use serial.Ledger.{Ledger, Result, Command, onward, ◌>>=◌, has, erase, malloc, free, malloc_each}

-- A command that ends without a fault, with what holds then.
abbrev pub Returns : {A : Type 0} → (A → Ledger → Type 0) → Result A → Type 0
Returns P none = ⊥
Returns P (some (a, h)) = P a h

pub bind :
    {A B : Type 0} (P : A → Ledger → Type 0) (Q : B → Ledger → Type 0) (m : Command A)
    (f : A → Command B) (h : Ledger)
    → Returns P (m h)
    → ((a : A) (t : Ledger) → P a t → Returns Q (f a t))
    → Returns Q ((m >>= f) h)
bind P Q m f h first next = go (m h) first
  where
    go : (r : Result _) → Returns P r → Returns Q (onward f r)
    go none first = first
    go (some (a, t)) first = next a t first

pub bind_fault :
    {A B : Type 0} (m : Command A) (f : A → Command B) (h : Ledger)
    → ((a : A) (t : Ledger) → f a t ≡ none)
    → (m >>= f) h ≡ none
bind_fault {A} m f h fails = go (m h)
  where
    go : (r : Result A) → onward f r ≡ none
    go none = refl
    go (some (a, t)) = fails a t

pub fault_bind :
    {A B : Type 0} (m : Command A) (f : A → Command B) (h : Ledger)
    → m h ≡ none
    → (m >>= f) h ≡ none
fault_bind m f h e = ap (onward f) e

pub Returns-weaken :
    {A : Type 0} (P Q : A → Ledger → Type 0) (r : Result A)
    → Returns P r
    → ((a : A) (h : Ledger) → P a h → Q a h)
    → Returns Q r
Returns-weaken P Q none p next = absurd p
Returns-weaken P Q (some (a, h)) p next = next a h p

-- The blocks can be freed one after the other.
abbrev pub Holds : List ℕ → List ℕ → Type 0
Holds [] live = Unit
Holds (p ∷ ps) live = (has p live ≡ true) × Holds ps (erase p live)

-- They can be, malloc gives none of them again, and so many are held in all.
pub record Owns (ps : List ℕ) (n : ℕ) (h : Ledger) : Type 0 where
  pub holds : Holds ps h.live
  pub old : All (λ p. p < h.next) ps
  pub counted : length h.live ≡ n

pub recount : (ps : List ℕ) (n m : ℕ) (h : Ledger) → Owns ps n h → n ≡ m → Owns ps m h
recount ps n m h o e = record { holds = o.holds; old = o.old; counted = o.counted ∙ e }

Holds-push : (ps live : List ℕ) (x : ℕ) → Holds ps live → All (λ p. p < x) ps → Holds ps (x ∷ live)
Holds-push [] live x h below = tt
Holds-push (p ∷ ps) live x h below =
    let apart : (p == x) ≡ false = ground (arith, below.0) in
    rw apart (h.0, Holds-push ps (erase p live) x h.1 below.1)

older : (ps : List ℕ) (n : ℕ) → All (λ p. p < n) ps → All (λ p. p < n + 1) ps
older [] n old = tt
older (p ∷ ps) n old = (omega (arith, old.0), older ps n old.1)

-- A block that is kept, and one that nothing points at any more.
pub malloc-owned :
    (ps : List ℕ) (n : ℕ) (h : Ledger)
    → Owns ps n h
    → Returns (λ p. Owns (p ∷ ps) (n + 1)) (malloc h)
unfolding malloc
malloc-owned ps n h o =
    let same : (h.next == h.next) ≡ true = ground arith in
    record {
      holds = rw same (refl, o.holds);
      old = (omega arith, older ps h.next o.old);
      counted = omega (arith, o.counted);
    }

pub malloc-lost :
    (ps : List ℕ) (n : ℕ) (h : Ledger) → Owns ps n h → Returns (λ p. Owns ps (n + 1)) (malloc h)
unfolding malloc
malloc-lost ps n h o = record {
  holds = Holds-push ps h.live h.next o.holds o.old;
  old = older ps h.next o.old;
  counted = omega (arith, o.counted);
}

pub malloc_each-lost :
    (k : ℕ) (ps : List ℕ) (n m : ℕ) (h : Ledger)
    → m ≡ n + k
    → Owns ps n h
    → Returns (λ u. Owns ps m) (malloc_each k h)
unfolding malloc_each
malloc_each-lost zero ps n m h e o = recount ps n m h o (omega (arith, e))
malloc_each-lost (suc k) ps n m h e o =
    bind (λ p. Owns ps (n + 1)) (λ u. Owns ps m) malloc (λ p. malloc_each k) h
      (malloc-lost ps n h o) (λ p t q. malloc_each-lost k ps (n + 1) m t (omega (arith, e)) q)

length-erase : (p : ℕ) (live : List ℕ) → has p live ≡ true → length (erase p live) + 1 ≡ length live
length-erase p [] h = ground arith
length-erase p (q ∷ qs) h = elim (Bool-cases (p == q)) [
  | inl e ↦ rw e (omega arith)
  | inr e ↦ rw e (omega (arith, length-erase p qs (ground arith)))
]

pub free-owned :
    (p : ℕ) (ps : List ℕ) (n : ℕ) (h : Ledger)
    → Owns (p ∷ ps) (n + 1) h
    → Returns (λ u. Owns ps n) (free p h)
unfolding free
free-owned p ps n h o = rw o.holds.0 (record {
  holds = o.holds.1;
  old = o.old.1;
  counted = omega (arith, length-erase p h.live o.holds.0, o.counted);
})

erase-erase : (p q : ℕ) (live : List ℕ) → erase p (erase q live) ≡ erase q (erase p live)
erase-erase p q [] = refl
erase-erase p q (x ∷ xs) = elim (Bool-cases (p == x)) [
  | inl e ↦ elim (Bool-cases (q == x)) [
    | inl f ↦ rw (e, f) (ap (λ y. erase y xs) ((==_iff p x).0 e ∙ sym ((==_iff q x).0 f)))
    | inr f ↦ rw (e, f, e) refl
  ]
  | inr e ↦ elim (Bool-cases (q == x)) [
    | inl f ↦ rw (e, f) refl
    | inr f ↦ rw (e, f, e) (ap (λ t. x ∷ t) (erase-erase p q xs))
  ]
]

-- Freeing one block leaves any other.
has-erase : (p q : ℕ) (live : List ℕ) → (p == q) ≡ false → has p (erase q live) ≡ has p live
has-erase p q [] apart = refl
has-erase p q (x ∷ xs) apart =
    let later : has p (erase q xs) ≡ has p xs = has-erase p q xs apart in
    elim (Bool-cases (q == x)) [
      | inl f ↦ let other : (p == x) ≡ false = ground (arith, apart, f) in rw (f, other) refl
      | inr f ↦ rw f (ap (λ b. p == x || b) later)
    ]

has-erase_weaken : (q p : ℕ) (live : List ℕ) → has q (erase p live) ≡ true → has q live ≡ true
has-erase_weaken q p [] h = h
has-erase_weaken q p (x ∷ xs) h =
    let later : has q (erase p xs) ≡ true → has q xs ≡ true = has-erase_weaken q p xs in
    elim (Bool-cases (p == x)) [ inl f ↦ ground (arith, later) | inr f ↦ ground (arith, later) ]

Holds-erase : (p : ℕ) (ps live : List ℕ) → Holds ps (erase p live) → Holds ps live
Holds-erase p [] live h = tt
Holds-erase p (q ∷ ps) live h =
    (has-erase_weaken q p live h.0, Holds-erase p ps (erase q live) (rw (erase-erase p q live) h.1))

-- Two blocks can be freed in either order.
pub Owns-swap :
    (p q : ℕ) (ps : List ℕ) (n : ℕ) (h : Ledger) → Owns (p ∷ q ∷ ps) n h → Owns (q ∷ p ∷ ps) n h
Owns-swap p q ps n h o = record {
  holds = elim (Bool-cases (p == q)) [
    | inl e ↦
        subst (λ r. Holds (r ∷ p ∷ ps) h.live) ((==_iff p q).0 e)
          (subst (λ r. Holds (p ∷ r ∷ ps) h.live) (sym ((==_iff p q).0 e)) o.holds)
    | inr e ↦ (
      has-erase_weaken q p h.live o.holds.1.0,
      (has-erase p q h.live e ∙ o.holds.0, rw (erase-erase p q h.live) o.holds.1.1),
    )
  ];
  old = (o.old.1.0, (o.old.0, o.old.1.1));
  counted = o.counted;
}

-- A block that nothing points at any more.
pub Owns-forget : (p : ℕ) (ps : List ℕ) (n : ℕ) (h : Ledger) → Owns (p ∷ ps) n h → Owns ps n h
Owns-forget p ps n h o = record {
  holds = Holds-erase p ps h.live o.holds.1;
  old = o.old.1;
  counted = o.counted;
}

-- The same as a first step of a command.
pub then_malloc :
    {B : Type 0} (Q : B → Ledger → Type 0) (f : ℕ → Command B) (ps : List ℕ) (n : ℕ) (h : Ledger)
    → Owns ps n h
    → ((p : ℕ) (t : Ledger) → Owns (p ∷ ps) (n + 1) t → Returns Q (f p t))
    → Returns Q ((malloc >>= f) h)
then_malloc Q f ps n h o next =
    bind (λ p. Owns (p ∷ ps) (n + 1)) Q malloc f h (malloc-owned ps n h o) next

pub then_malloc_each :
    {B : Type 0} (Q : B → Ledger → Type 0) (f : Unit {0} → Command B) (k : ℕ) (ps : List ℕ) (n : ℕ)
    (h : Ledger)
    → Owns ps n h
    → ((t : Ledger) → Owns ps (n + k) t → Returns Q (f tt t))
    → Returns Q ((malloc_each k >>= f) h)
then_malloc_each Q f k ps n h o next =
    bind (λ u. Owns ps (n + k)) Q (malloc_each k) f h (malloc_each-lost k ps n (n + k) h refl o)
      (λ u. next)

pub then_free :
    {B : Type 0} (Q : B → Ledger → Type 0) (f : Unit {0} → Command B) (p : ℕ) (ps : List ℕ)
    (n m : ℕ) (h : Ledger)
    → Owns (p ∷ ps) m h
    → m ≡ n + 1
    → ((t : Ledger) → Owns ps n t → Returns Q (f tt t))
    → Returns Q ((free p >>= f) h)
then_free Q f p ps n m h o e next =
    bind (λ u. Owns ps n) Q (free p) f h (free-owned p ps n h (recount (p ∷ ps) m (n + 1) h o e))
      (λ u. next)
