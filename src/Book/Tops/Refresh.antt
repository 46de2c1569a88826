-- ===== src/Book/Tops/Refresh.antt =====
-- The cached best prices where a level loses an order (src/core/OrderBook.cpp, `cancel_order`).
use nanomatch.Base.{
  ℕ, ◌+◌, ◌^◌, ◌≤◌, ◌<◌, ◌≡◌, ◌≢◌, List, [], ◌==◌, if◌then◌else◌, arith, Bool-cases, inl, inr,
  ==-false, false,
}
use nanomatch.Orders.{Side, buy, sell}
use nanomatch.Book.State.{Book, put}
use nanomatch.Book.Feed.{refresh_top}
use nanomatch.Book.Reference.{Resting, Ladder}
use nanomatch.Book.Represents.{Represents}
use nanomatch.Book.Sweep.Asks.{AskTop, Inside}
use nanomatch.Book.Sweep.Bids.{BidTop}
use nanomatch.Book.Sweep.AskLevel.{lower_levels, after_level-AskTop}
use nanomatch.Book.Sweep.BidLevel.{after_level-BidTop}
use nanomatch.Book.Tops.{Tops, AskTop-along, BidTop-along}

-- Above the best bid there is none.
higher_levels :
    (b : Book) (row : ℕ → List Resting) → BidTop b row → (j : ℕ) → b.tob.best_bid < j → row j ≡ []
higher_levels b row (BidTop.at_level near full above) = above
higher_levels b row (BidTop.no_level e none_there) = λ j _. none_there j

module _ (b : Book) (at : ℕ) (os : List Resting) where
  -- One level is written.
  abbrev written : (ℕ → List Resting) → ℕ → List Resting
  written row j = if at == j then os else row j

  written_other : (row : ℕ → List Resting) (j : ℕ) → at ≢ j → row j ≡ [] → written row j ≡ []
  written_other row j apart none_there = rw (==-false {a = at} {b = j} apart) none_there

  written-Inside :
      (row : ℕ → List Resting) → at < b.band → Inside b.band row → Inside b.band (written row)
  written-Inside row near inside j far =
      written_other row j (λ same. omega (arith, near, same, far)) (inside j far)

  ask_apart :
      (row : ℕ → List Resting)
      → row at ≢ []
      → (at == b.tob.best_ask) ≡ false
      → AskTop b row
      → AskTop b (written row)
  ask_apart row some_there apart (AskTop.no_level e all) = absurd (some_there (all at))
  ask_apart row some_there apart (AskTop.at_level p q r) =
      AskTop.at_level p (rw apart q) (λ j below.
        written_other row j (λ same. some_there (r at (omega (arith, same, below)))) (r j below))

  bid_apart :
      (row : ℕ → List Resting)
      → row at ≢ []
      → (at == b.tob.best_bid) ≡ false
      → BidTop b row
      → BidTop b (written row)
  bid_apart row some_there apart (BidTop.no_level e all) = absurd (some_there (all at))
  bid_apart row some_there apart (BidTop.at_level p q r) =
      BidTop.at_level p (rw apart q) (λ j above.
        written_other row j (λ same. some_there (r at (omega (arith, same, above)))) (r j above))

  module _ (l : Ladder) (near : at < b.band) (fits : b.band + 64 ≤ 2 ^ 32) (tops : Tops b l)
      (asks_inside : Inside b.band (l sell)) (bids_inside : Inside b.band (l buy)) where
    -- The level lost orders on the way to `os`, and the cached price of its side was right before.
    pub refresh_top-Tops :
        (sd : Side)
        → l sd at ≢ []
        → Represents b (put l sd at os)
        → Tops (refresh_top sd at b) (put l sd at os)
    refresh_top-Tops sell some_there rep = elim (Bool-cases (at == b.tob.best_ask)) [
      | inl best ↦
          let same : b.tob.best_ask ≡ at = ground (arith, best) in
          let (_, top, shape, _, _) =
            after_level-AskTop b at same (put l sell at os) rep
              (written-Inside (l sell) near asks_inside) near fits
              (λ j below.
                written_other (l sell) j (λ e. omega (arith, e, below))
                  (lower_levels b (l sell) tops.asks j (omega (arith, same, below)))) in
          rw best (record {
            asks = top;
            bids = BidTop-along b _ (l buy) shape.best_bid shape.band tops.bids;
          })
      | inr apart ↦
          rw apart
            (record { asks = ask_apart (l sell) some_there apart tops.asks; bids = tops.bids })
    ]
    refresh_top-Tops buy some_there rep = elim (Bool-cases (at == b.tob.best_bid)) [
      | inl best ↦
          let same : b.tob.best_bid ≡ at = ground (arith, best) in
          let (_, top, shape, _, _) =
            after_level-BidTop b at same (put l buy at os) rep
              (written-Inside (l buy) near bids_inside) near fits
              (λ j above.
                written_other (l buy) j (λ e. omega (arith, e, above))
                  (higher_levels b (l buy) tops.bids j (omega (arith, same, above)))) in
          rw best (record {
            asks = AskTop-along b _ (l sell) shape.best_ask shape.band tops.asks;
            bids = top;
          })
      | inr apart ↦
          rw apart
            (record { asks = tops.asks; bids = bid_apart (l buy) some_there apart tops.bids })
    ]
