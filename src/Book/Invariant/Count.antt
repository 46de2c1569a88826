-- ===== src/Book/Invariant/Count.antt =====
-- A queue of distinct slots is no longer than the pool (src/core/OrderBook.hpp).
use nanomatch.Base.{
  ℕ, zero, suc, ◌≤◌, ◌<◌, ◌≡◌, refl, ap, true, List, [], ◌∷◌, ◌++◌, ◌==◌, length, arith, Bool-cases,
  inl, inr, eq_of_==,
}
use nanomatch.Orders.{Side}
use nanomatch.Queue.{has, Distinct}
use nanomatch.Book.State.{Book}
use nanomatch.Book.Invariant.{Queues, IsBook}
use nanomatch.Book.Invariant.Frame.{length-remove, has-remove, Distinct-remove}

split_at :
    (a : ℕ) (xs : List ℕ) → has a xs ≡ true → (ys : List ℕ) × (zs : List ℕ) × (xs ≡ ys ++ a ∷ zs)
split_at a [] m = cc
split_at a (x ∷ xs) m = elim (Bool-cases (a == x)) [
  | inl here ↦ ([], xs, rw (eq_of_== a x here) refl)
  | inr away ↦ let (ys, zs, e) = split_at a xs (rw away at m) in (x ∷ ys, zs, ap (λ l. x ∷ l) e)
]

length-le :
    (n : ℕ) (xs : List ℕ) → Distinct xs → ((x : ℕ) → has x xs ≡ true → x < n) → length xs ≤ n
length-le zero [] d inside = omega arith
length-le zero (x ∷ xs) d inside = absurd (omega (arith, inside x (ground arith)))
length-le (suc n) xs d inside = elim (Bool-cases (has n xs)) [
  | inl m ↦
      let (ys, zs, e) = split_at n xs m in
      let d' = rw e at d in
      let shorter =
        length-le n (ys ++ zs) (Distinct-remove ys n zs d')
          (λ x h. let k = has-remove x ys n zs d' in ground (arith, inside x, e)) in
      rw e (omega (arith, length-remove ys n zs, shorter))
  | inr out ↦
      let shorter = length-le n xs d (λ x h. ground (arith, inside x h, out)) in
      omega (arith, shorter)
]

pub length-queue :
    (b : Book) (q : Queues) (free : List ℕ)
    → IsBook b q free
    → (sd : Side) (at : ℕ) → length (q sd at) ≤ b.pool.capacity
length-queue b q free h sd at =
    length-le b.pool.capacity (q sd at) (h.distinct sd at) (h.queued_inside sd at)
