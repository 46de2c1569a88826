-- ===== src/Book/Tops.antt =====
-- The cached best prices of `OrderBook` (src/core/OrderBook.cpp), where an order rests: the end of
-- `insert_limit_order`.
pub mod Refresh
pub mod Feed
use nanomatch.Base.{
  ℕ, ◌+◌, ◌^◌, ◌≤◌, ◌<◌, ◌≡◌, ◌≢◌, refl, List, [], ◌∷◌, ◌++◌, ◌==◌, if◌then◌else◌, uint32_max, ltb,
  arith, Bool-cases, inl, inr, ==-true, ==-false,
}
use nanomatch.Orders.{Side, buy, sell}
use nanomatch.Book.State.{Book, put}
use nanomatch.Book.Insert.{raise_top}
use nanomatch.Book.Reference.{Resting, Ladder}
use nanomatch.Book.Sweep.Asks.{AskTop}
use nanomatch.Book.Sweep.Bids.{BidTop}

-- Both cached best prices are right.
pub record Tops (b : Book) (l : Ladder) : Type 0 where
  pub asks : AskTop b (l sell)
  pub bids : BidTop b (l buy)

pub AskTop-along :
    (b b' : Book) (row : ℕ → List Resting)
    → b'.tob.best_ask ≡ b.tob.best_ask
    → b'.band ≡ b.band
    → AskTop b row
    → AskTop b' row
AskTop-along b b' row same band (AskTop.at_level p q r) =
    AskTop.at_level (omega (arith, same, band, p)) (rw same q) (rw same r)
AskTop-along b b' row same band (AskTop.no_level e all) = AskTop.no_level (rw same e) all

pub BidTop-along :
    (b b' : Book) (row : ℕ → List Resting)
    → b'.tob.best_bid ≡ b.tob.best_bid
    → b'.band ≡ b.band
    → BidTop b row
    → BidTop b' row
BidTop-along b b' row same band (BidTop.at_level p q r) =
    BidTop.at_level (omega (arith, same, band, p)) (rw same q) (rw same r)
BidTop-along b b' row same band (BidTop.no_level e all) = BidTop.no_level (rw same e) all

pub Tops-along :
    (b b' : Book) (l : Ladder)
    → b'.tob.best_ask ≡ b.tob.best_ask
    → b'.tob.best_bid ≡ b.tob.best_bid
    → b'.band ≡ b.band
    → Tops b l
    → Tops b' l
Tops-along b b' l ask bid band t = record {
  asks = AskTop-along b b' (l sell) ask band t.asks;
  bids = BidTop-along b b' (l buy) bid band t.bids;
}

pub append_some : (os : List Resting) (o : Resting) (ps : List Resting) → os ++ o ∷ ps ≢ []
append_some [] o ps e = cc
append_some (x ∷ os) o ps e = cc

module _ (b : Book) (at : ℕ) (o : Resting) (near : at < b.band) (fits : b.band + 64 ≤ 2 ^ 32) where
  -- One level has got an order more.
  abbrev longer : (ℕ → List Resting) → ℕ → List Resting
  longer row j = if at == j then row at ++ o ∷ [] else row j

  longer_here : (row : ℕ → List Resting) → longer row at ≢ []
  longer_here row = rw (==-true {a = at} {b = at} refl) (append_some (row at) o [])

  longer_other : (row : ℕ → List Resting) (j : ℕ) → at ≢ j → row j ≡ [] → longer row j ≡ []
  longer_other row j apart none_there = rw (==-false {a = at} {b = j} apart) none_there

  longer_some : (row : ℕ → List Resting) (j : ℕ) → row j ≢ [] → longer row j ≢ []
  longer_some row j some_there = elim (Bool-cases (at == j)) [
    | inl k ↦ rw k (append_some (row at) o [])
    | inr k ↦ rw k some_there
  ]

  raised_ask : (row : ℕ → List Resting) → AskTop b row → AskTop (raise_top sell at b) (longer row)
  unfolding raise_top
  raised_ask row (AskTop.no_level e all) = rw (==-true {a = b.tob.best_ask} {b = uint32_max} e) (
      AskTop.at_level near (longer_here row)
        (λ j below. longer_other row j (λ same. omega (arith, same, below)) (all j)))
  raised_ask row (AskTop.at_level p q r) =
      rw (==-false {a = b.tob.best_ask} {b = uint32_max} (omega (arith, p, fits)))
        (elim (Bool-cases (ltb at b.tob.best_ask)) [
          | inl k ↦ rw k (
              AskTop.at_level near (longer_here row) (λ j below.
                longer_other row j (λ same. omega (arith, same, below))
                  (r j (ground (arith, k, below)))))
          | inr k ↦ rw k (
              AskTop.at_level p (longer_some row b.tob.best_ask q) (λ j below.
                longer_other row j (λ same. ground (arith, k, same, below)) (r j below)))
        ])

  raised_bid : (row : ℕ → List Resting) → BidTop b row → BidTop (raise_top buy at b) (longer row)
  unfolding raise_top
  raised_bid row (BidTop.no_level e all) = rw (==-true {a = b.tob.best_bid} {b = uint32_max} e) (
      BidTop.at_level near (longer_here row)
        (λ j above. longer_other row j (λ same. omega (arith, same, above)) (all j)))
  raised_bid row (BidTop.at_level p q r) =
      rw (==-false {a = b.tob.best_bid} {b = uint32_max} (omega (arith, p, fits)))
        (elim (Bool-cases (ltb b.tob.best_bid at)) [
          | inl k ↦ rw k (
              BidTop.at_level near (longer_here row) (λ j above.
                longer_other row j (λ same. omega (arith, same, above))
                  (r j (ground (arith, k, above)))))
          | inr k ↦ rw k (
              BidTop.at_level p (longer_some row b.tob.best_bid q) (λ j above.
                longer_other row j (λ same. ground (arith, k, same, above)) (r j above)))
        ])

  raised_other_ask : (row : ℕ → List Resting) → AskTop b row → AskTop (raise_top buy at b) row
  unfolding raise_top
  raised_other_ask row = AskTop-along b (raise_top buy at b) row (ground arith) (ground arith)

  raised_other_bid : (row : ℕ → List Resting) → BidTop b row → BidTop (raise_top sell at b) row
  unfolding raise_top
  raised_other_bid row = BidTop-along b (raise_top sell at b) row (ground arith) (ground arith)

  pub raise_top-Tops :
      (sd : Side) (l : Ladder)
      → Tops b l
      → Tops (raise_top sd at b) (put l sd at (l sd at ++ o ∷ []))
  raise_top-Tops buy l t = record {
    asks = raised_other_ask (l sell) t.asks;
    bids = raised_bid (l buy) t.bids;
  }
  raise_top-Tops sell l t = record {
    asks = raised_ask (l sell) t.asks;
    bids = raised_other_bid (l buy) t.bids;
  }
