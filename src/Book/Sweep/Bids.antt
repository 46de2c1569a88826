-- ===== src/Book/Sweep/Bids.antt =====
-- `update_best_bid` (src/core/OrderBook.cpp).
use nanomatch.Base.{
  ℕ, ◌+◌, ◌^◌, ◌≤◌, ◌<◌, ◌≡◌, ◌≢◌, inl, inr, refl, List, [], ltb, ◌==◌, arith, if◌then◌else◌,
  uint32_max, sub32, Bool-cases, ==-true, ==-false,
}
use nanomatch.Bitmap.Scan.{IsPrev, found, missing}
use nanomatch.Bitmap.Prev.{find_prev_set_bit-IsPrev}
use nanomatch.Orders.{buy}
use nanomatch.Book.State.{Book}
use nanomatch.Book.Top.{update_best_bid}
use nanomatch.Book.Reference.{Resting, Ladder}
use nanomatch.Book.Represents.{Represents}
use nanomatch.Book.Sweep.Asks.{Inside}
use nanomatch.Book.Sweep.{empty_of_bit, full_of_bit}

-- The cached best bid is the highest level that has orders.
pub data BidTop (b : Book) (row : ℕ → List Resting) : Type 0 where
  at_level :
      b.tob.best_bid < b.band
      → row b.tob.best_bid ≢ []
      → ((j : ℕ) → b.tob.best_bid < j → row j ≡ [])
      → BidTop b row
  no_level : b.tob.best_bid ≡ uint32_max → ((j : ℕ) → row j ≡ []) → BidTop b row

abbrev pub bid_start : Book → ℕ
bid_start b = if b.tob.best_bid == uint32_max then sub32 b.band 1 else b.tob.best_bid

-- The book once the scan has found `next`.
abbrev shown : Book → ℕ → Book
shown b next = record b {
  tob =
      if next == uint32_max
      then record (b.tob) { best_bid = uint32_max; bid_qty = 0 }
      else record (b.tob) { best_bid = next; bid_qty = (b.levels buy next).total_volume };
}

start_small :
    (band best : ℕ) → best < 2 ^ 32 → (if best == uint32_max then sub32 band 1 else best) < 2 ^ 32
start_small band best word = ground (arith, word)

BidTop-of_scan :
    (b : Book) (l : Ladder) (start next : ℕ)
    → Represents b l
    → Inside b.band (l buy)
    → b.band + 64 ≤ 2 ^ 32
    → ((j : ℕ) → start < j → l buy j ≡ [])
    → IsPrev (b.bitmaps buy) start next
    → BidTop (shown b next) (l buy)
BidTop-of_scan b l start next r inside fits higher (found low on above) =
    let full = full_of_bit b l r buy next on in
    let near : next < b.band = elim (Bool-cases (ltb next b.band)) [
      | inl k ↦ ground (arith, k)
      | inr k ↦ absurd (full (inside next (ground (arith, k))))
    ] in
    rw (==-false {a = next} {b = uint32_max} (omega (arith, near, fits))) (
      at_level near full (λ j p. elim (Bool-cases (ltb start j)) [
        | inl k ↦ higher j (ground (arith, k))
        | inr k ↦ empty_of_bit b l r buy j (above j p (ground (arith, k)))
      ]))
BidTop-of_scan b l start next r inside fits higher (missing e above) =
    rw (==-true {a = next} {b = uint32_max} e) (
      no_level refl (λ j. elim (Bool-cases (ltb start j)) [
        | inl k ↦ higher j (ground (arith, k))
        | inr k ↦ empty_of_bit b l r buy j (above j (ground (arith, k)))
      ]))

-- On a book that represents `l`, where no bid rests outside a band of at most 2^32 - 64 levels, the
-- cached best bid is a 32-bit number, and no level above the start of the scan has orders, the best
-- bid that `update_best_bid` caches is the highest level with orders, or `UINT32_MAX` when no level
-- has any.
pub update_best_bid-BidTop :
    (b : Book) (l : Ladder)
    → Represents b l
    → Inside b.band (l buy)
    → b.band + 64 ≤ 2 ^ 32
    → b.tob.best_bid < 2 ^ 32
    → ((j : ℕ) → bid_start b < j → l buy j ≡ [])
    → BidTop (update_best_bid b) (l buy)
unfolding update_best_bid
update_best_bid-BidTop b l r inside fits word higher =
    BidTop-of_scan b l (bid_start b) _ r inside fits higher (
      find_prev_set_bit-IsPrev (b.bitmaps buy) (r.book.words buy) (bid_start b)
        (start_small b.band b.tob.best_bid word))
