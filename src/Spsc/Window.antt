-- ===== src/Spsc/Window.antt =====
-- The items that wait in the ring of `SPSCQueue` (src/logging/SPSCQueue.hpp), and what the counters
-- say about them.
use nanomatch.Base.{
  ℕ, suc, ◌+◌, ◌%◌, ◌≤◌, ◌<◌, ◌≡◌, refl, sym, arith, List, [], ◌∷◌, ◌++◌, length, update, u64,
  ==-false,
}
use nanomatch.Spsc.{SpscQueue, new, new}
use nanomatch.Spsc.Index.{slots_differ}

module _ {ℓ} {A : Type ℓ} where
  -- From the count `first` on, the slots of the buffer hold `xs`.
  unfoldable pub Holds : (capacity : ℕ) → (ℕ → A) → (first : ℕ) → List A → Type ℓ
  Holds c b first [] = Unit
  Holds c b first (x ∷ xs) = (b (first % c) ≡ x) × Holds c b (suc first) xs

  -- The slot behind the window can be written.
  pub Holds-update :
      (c : ℕ) (b : ℕ → A) (first at : ℕ) (xs : List A) (v : A)
      → at ≡ first + length xs
      → length xs < c
      → Holds c b first xs
      → Holds c (update b (at % c) v) first xs
  unfolding Holds
  Holds-update c b first at [] v e fits h = h
  Holds-update c b first at (x ∷ xs) v e fits h = (
    rw
        (==-false (λ (same : at % c ≡ first % c).
          slots_differ c first at (omega (arith, e)) (omega (arith, e, fits)) (sym same)))
        h.0,
    Holds-update c b (suc first) at xs v (omega (arith, e)) (omega (arith, fits)) h.1,
  )

  -- What stands in that slot joins the window.
  pub Holds-append :
      (c : ℕ) (b : ℕ → A) (first at : ℕ) (xs : List A) (v : A)
      → at ≡ first + length xs
      → b (at % c) ≡ v
      → Holds c b first xs
      → Holds c b first (xs ++ (v ∷ []))
  unfolding Holds
  Holds-append c b first at [] v e here h =
      (rw (← (let same : at ≡ first = omega (arith, e) in same)) here, tt)
  Holds-append c b first at (x ∷ xs) v e here h =
      (h.0, Holds-append c b (suc first) at xs v (omega (arith, e)) here h.1)

-- `xs` wait, of which the first has the count `first`. The caches are old values of the atomics:
-- `head_seen` and `tail_seen` are the counts that they stand for.
pub record Window {ℓ} {A : Type ℓ} (c : ℕ) (q : SpscQueue A) (first head_seen tail_seen : ℕ)
    (xs : List A) : Type ℓ where
  pub holds : Holds c q.buffer first xs
  pub head : q.head ≡ u64 first
  pub tail : q.tail ≡ u64 (first + length xs)
  pub own_tail : q.tail_cached ≡ u64 (first + length xs)
  pub own_head : q.head_cached_consumer ≡ u64 first
  pub head_cached : q.head_cached ≡ u64 head_seen
  pub head_old : head_seen ≤ first
  pub head_near : first + length xs ≤ head_seen + c
  pub tail_cached : q.tail_cached_consumer ≡ u64 tail_seen
  pub tail_from : first ≤ tail_seen
  pub tail_old : tail_seen ≤ first + length xs

pub new-Window {ℓ} : {A : Type ℓ} (c : ℕ) (memory : ℕ → A) → Window c (new memory) 0 0 0 []
unfolding Holds
new-Window c memory = record {
  holds = tt;
  head = refl;
  tail = refl;
  own_tail = refl;
  own_head = refl;
  head_cached = refl;
  head_old = omega arith;
  head_near = omega arith;
  tail_cached = refl;
  tail_from = omega arith;
  tail_old = omega arith;
}
