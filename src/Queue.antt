-- ===== src/Queue.antt =====
-- The intrusive doubly linked queue of a price level (src/core/OrderBook.cpp, `level_append` and
-- `level_remove`): a chain of slots of the order pool.
pub mod Remove
pub mod Append
use nanomatch.Base.{
  ℕ, suc, ◌+◌, ◌≡◌, ◌≢◌, refl, Bool, true, false, ◌||◌, List, [], ◌∷◌, ◌++◌, ◌==◌, null_idx, arith,
  ◌∙◌, if◌then◌else◌,
}
use mathlib.Core.Bool.{or_assoc}
use nanomatch.Orders.{Order}

abbrev pub Slots : Type 0
Slots = ℕ → Order

abbrev pub has : ℕ → List ℕ → Bool
has a [] = false
has a (x ∷ xs) = (a == x) || has a xs

abbrev pub Distinct : List ℕ → Type 0
Distinct [] = Unit
Distinct (x ∷ xs) = (has x xs ≡ false) × Distinct xs

pub has-append : (a : ℕ) (xs ys : List ℕ) → has a (xs ++ ys) ≡ (has a xs || has a ys)
has-append a [] ys = refl
has-append a (x ∷ xs) ys = ground (arith, has-append a xs ys)

-- From `head` the `next_idx` links lead through `xs` and end, and `prev_idx` leads back to `before`;
-- `last` is the last slot, or `before` where there is none.
abbrev pub Linked : Slots → (before head : ℕ) → List ℕ → (last : ℕ) → Type 0
Linked s before head [] last = (head ≡ null_idx) × (last ≡ before)
Linked s before head (x ∷ xs) last =
    (head ≡ x) × (x ≢ null_idx) × ((s x).prev_idx ≡ before) × Linked s x (s x).next_idx xs last

-- The links of a chain's slots are all that a chain depends on.
pub Linked-frame :
    (s t : Slots) (before head : ℕ) (xs : List ℕ) (last : ℕ)
    → ((x : ℕ)
        → has x xs ≡ true
        → x ≢ null_idx
        → ((t x).next_idx ≡ (s x).next_idx) × ((t x).prev_idx ≡ (s x).prev_idx))
    → Linked s before head xs last
    → Linked t before head xs last
Linked-frame s t before head [] last same h = h
Linked-frame s t before head (x ∷ xs) last same (a, b, c, rest) =
    let here = same x (ground arith) b in
    let rest' =
      Linked-frame s t x (s x).next_idx xs last (λ y m. same y (ground (arith, m))) rest in
    (a, b, here.1 ∙ c, rw here.0 rest')
